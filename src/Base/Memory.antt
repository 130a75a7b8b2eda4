-- ===== src/Base/Memory.antt =====
-- Memory as a function of the address, one character at each, and the texts of C in it.
use Prim.Native.Nat.{ℕ, zero, suc, ◌+◌, ◌*◌, ◌/◌, ◌%◌, ◌^◌, ◌≤◌, ◌<◌}
use mathlib.Core.Path.{◌≡◌, refl, ◌∙◌}
use mathlib.Core.Logic.{◌≢◌, ◌⊎◌}
use mathlib.Core.List.{List, [], ◌∷◌}
use native.Mathlib.Omega.{arith}
use htc_leo_pkg.Base.Tests.{◌==◌, if◌then◌else◌, ==_iff, ==_ne}
use htc_leo_pkg.Base.Lists.{length}

abbrev pub Memory : Type 0
Memory = ℕ → ℕ

abbrev pub write : Memory → ℕ → ℕ → Memory
write m a v x = if x == a then v else m x

-- From the address `a` on stand the characters of `cs`, none of them NUL, and then a NUL.
abbrev pub Holds : Memory → ℕ → List ℕ → Type 0
Holds m a [] = m a ≡ 0
Holds m a (c ∷ cs) = (m a ≡ c) × (c ≢ 0) × Holds m (a + 1) cs

-- The text at an address, of at most `n` characters.
abbrev pub text_at : ℕ → Memory → ℕ → List ℕ
text_at zero m a = []
text_at (suc n) m a = if m a == 0 then [] else m a ∷ text_at n m (a + 1)

-- Words of 32 bits, the low byte first.
abbrev pub word : Memory → ℕ → ℕ
word m a = m a + 256 * m (a + 1) + 65536 * m (a + 2) + 16777216 * m (a + 3)

abbrev pub write_word : Memory → ℕ → ℕ → Memory
write_word m a v =
    write (write (write (write m a (v % 256)) (a + 1) (v / 256 % 256)) (a + 2) (v / 65536 % 256))
      (a + 3) (v / 16777216 % 256)

pub write_self : (m : Memory) (a v x : ℕ) → x ≡ a → write m a v x ≡ v
write_self m a v x h = rw ((==_iff x a).1 h) refl

pub write_ne : (m : Memory) (a v x : ℕ) → x ≢ a → write m a v x ≡ m x
write_ne m a v x h = rw (==_ne x a h) refl

-- A text depends on its own characters and its NUL only.
pub Holds-frame :
    (m m' : Memory) (a : ℕ) (cs : List ℕ)
    → ((x : ℕ) → a ≤ x → x ≤ a + length cs → m' x ≡ m x)
    → Holds m a cs
    → Holds m' a cs
Holds-frame m m' a [] same h = same a (omega arith) (omega arith) ∙ h
Holds-frame m m' a (c ∷ cs) same h = (
  same a (omega arith) (omega arith) ∙ h.0,
  h.1,
  Holds-frame m m' (a + 1) cs (λ x lo hi. same x (omega arith) (omega arith)) h.2,
)

pub text_at-Holds :
    (n : ℕ) (m : Memory) (a : ℕ) (cs : List ℕ) → Holds m a cs → length cs < n → text_at n m a ≡ cs
text_at-Holds zero m a cs h lt = absurd (omega arith)
text_at-Holds (suc n) m a [] h lt = rw ((==_iff (m a) 0).1 h) refl
text_at-Holds (suc n) m a (c ∷ cs) h lt =
    rw h.0 (rw (==_ne c 0 h.1) (rw (text_at-Holds n m (a + 1) cs h.2 (omega arith)) refl))

bytes_lem :
    (v : ℕ)
    → v < 2 ^ 32
    → v % 256 + 256 * (v / 256 % 256) + 65536 * (v / 65536 % 256) + 16777216 * (v / 16777216 % 256)
      ≡ v
bytes_lem v h = omega arith

write_word_bytes :
    (m : Memory) (a v : ℕ)
    → (write_word m a v a ≡ v % 256)
      × (write_word m a v (a + 1) ≡ v / 256 % 256)
      × (write_word m a v (a + 2) ≡ v / 65536 % 256)
      × (write_word m a v (a + 3) ≡ v / 16777216 % 256)
write_word_bytes m a v = (ground arith, ground arith, ground arith, ground arith)

pub word-write_word : (m : Memory) (a v : ℕ) → v < 2 ^ 32 → word (write_word m a v) a ≡ v
word-write_word m a v h =
    let b = write_word_bytes m a v in omega (arith, b.0, b.1, b.2, b.3, bytes_lem v h)

pub write_word_ne : (m : Memory) (a v x : ℕ) → (x < a) ⊎ (a + 4 ≤ x) → write_word m a v x ≡ m x
write_word_ne m a v x h = ground arith

pub word-same :
    (m m' : Memory) (a : ℕ) → ((x : ℕ) → a ≤ x → x < a + 4 → m' x ≡ m x) → word m' a ≡ word m a
word-same m m' a same = omega (
  arith,
  same a (omega arith) (omega arith),
  same (a + 1) (omega arith) (omega arith),
  same (a + 2) (omega arith) (omega arith),
  same (a + 3) (omega arith) (omega arith),
)
