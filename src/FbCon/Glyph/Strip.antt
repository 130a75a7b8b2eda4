-- ===== src/FbCon/Glyph/Strip.antt =====
-- Strips of bytes: what a loop of HtcLeoPkg/Library/FrameBufferSerialPortLib/FrameBufferSerialPortLib.c leaves in the
-- memory behind its pointer.
use htc_leo_pkg.Base.{
  ℕ, zero, suc, ◌+◌, ◌*◌, ◌≤◌, ◌<◌, ◌≡◌, ◌⊎◌, refl, sym, ap, ap₂, ◌∙◌, inl, List, [], ◌∷◌, ◌++◌,
  Option, none, some, arith, length, get_or, length-append,
}
use htc_leo_pkg.Base.Memory.{Memory, write, write_self, write_ne}
use htc_leo_pkg.FbCon.Glyph.{Pen, repeat}

-- A strip has a byte, or leaves the one that is there.
abbrev pub Strip : Type 0
Strip = List (Option ℕ)

abbrev pub overlay : ℕ → Strip → Memory → Memory
overlay p [] m = m
overlay p (none ∷ l) m = overlay (p + 1) l m
overlay p (some b ∷ l) m = overlay (p + 1) l (write m p b)

abbrev pub painted : Strip → Pen → Pen
painted l s = record { pixels = s.pixels + length l; screen = overlay s.pixels l s.screen }

abbrev pub or_else : Option ℕ → ℕ → ℕ
or_else none d = d
or_else (some b) d = b

overlay-append :
    (p : ℕ) (k l : Strip) (m : Memory)
    → overlay p (k ++ l) m ≡ overlay (p + length k) l (overlay p k m)
overlay-append p [] l m = ap (λ q. overlay q l m) (omega arith)
overlay-append p (none ∷ k) l m =
    overlay-append (p + 1) k l m ∙ ap (λ q. overlay q l (overlay (p + 1) k m)) (omega arith)
overlay-append p (some b ∷ k) l m =
    overlay-append (p + 1) k l (write m p b)
    ∙ ap (λ q. overlay q l (overlay (p + 1) k (write m p b))) (omega arith)

pub painted-append : (k l : Strip) (s : Pen) → painted (k ++ l) s ≡ painted l (painted k s)
painted-append k l s =
    ap₂ (λ p m. record { pixels = p; screen = m }) (omega (arith, length-append k l))
      (overlay-append s.pixels k l s.screen)

-- Outside a strip nothing changes, and in it its bytes stand.
pub overlay-out :
    (p : ℕ) (l : Strip) (m : Memory) (a : ℕ) → (a < p) ⊎ (p + length l ≤ a) → overlay p l m a ≡ m a
overlay-out p [] m a out = refl
overlay-out p (none ∷ l) m a out = overlay-out (p + 1) l m a (ground (arith, out))
overlay-out p (some b ∷ l) m a out =
    overlay-out (p + 1) l (write m p b) a (ground (arith, out))
    ∙ write_ne m p b a (ground (arith, out))

pub overlay-in :
    (p : ℕ) (l : Strip) (m : Memory) (r : ℕ)
    → overlay p l m (p + r) ≡ or_else (get_or l r none) (m (p + r))
overlay-in p [] m r = refl
overlay-in p (none ∷ l) m zero = overlay-out (p + 1) l m (p + 0) (inl (omega arith))
overlay-in p (some b ∷ l) m zero =
    overlay-out (p + 1) l (write m p b) (p + 0) (inl (omega arith))
    ∙ write_self m p b (p + 0) (omega arith)
overlay-in p (none ∷ l) m (suc r) =
    let next : p + 1 + r ≡ p + suc r = omega arith in rw (← next) (overlay-in (p + 1) l m r)
overlay-in p (some b ∷ l) m (suc r) =
    let next : p + 1 + r ≡ p + suc r = omega arith in
    let other : write m p b (p + 1 + r) ≡ m (p + 1 + r) =
      write_ne m p b (p + 1 + r) (omega arith) in
    rw (← next) (overlay-in (p + 1) l (write m p b) r ∙ ap (or_else (get_or l r none)) other)

pub get_or-append_left :
    (k l : Strip) (r : ℕ) (d : Option ℕ) → r < length k → get_or (k ++ l) r d ≡ get_or k r d
get_or-append_left [] l r d lt = absurd (omega arith)
get_or-append_left (b ∷ k) l zero d lt = refl
get_or-append_left (b ∷ k) l (suc r) d lt = get_or-append_left k l r d (omega arith)

pub get_or-append_right :
    (k l : Strip) (r : ℕ) (d : Option ℕ) → get_or (k ++ l) (length k + r) d ≡ get_or l r d
get_or-append_right [] l r d = ap (λ i. get_or l i d) (omega arith)
get_or-append_right (b ∷ k) l r d =
    let at : length (b ∷ k) + r ≡ suc (length k + r) = omega arith in
    rw at (get_or-append_right k l r d)

abbrev pub iterate {ℓ} : {V : Type ℓ} → (V → V) → ℕ → V → V
iterate next zero v = v
iterate next (suc n) v = iterate next n (next v)

-- The strips of the rounds of a loop with a variable `v`
module _ {ℓ} {V : Type ℓ} (next : V → V) (strip : V → Strip) where
  abbrev pub chain : ℕ → V → Strip
  chain zero v = []
  chain (suc n) v = strip v ++ chain n (next v)

  -- A loop whose round paints a strip paints the chain of them.
  pub repeat-painted :
      (body : V × Pen → V × Pen)
      → ((v : V) (s : Pen) → body (v, s) ≡ (next v, painted (strip v) s))
      → (n : ℕ) (v : V) (s : Pen) → repeat n body (v, s) ≡ (iterate next n v, painted (chain n v) s)
  unfolding repeat
  repeat-painted body round zero v s = ap (λ p. (v, record s { pixels = p })) (omega arith)
  repeat-painted body round (suc n) v s =
      ap (repeat n body) (round v s)
      ∙ (repeat-painted body round n (next v) (painted (strip v) s)
          ∙ ap (λ t. (iterate next n (next v), t))
              (sym (painted-append (strip v) (chain n (next v)) s)))

  -- Strips of one length
  pub length-chain :
      (len n : ℕ) (v : V) → ((w : V) → length (strip w) ≡ len) → length (chain n v) ≡ n * len
  length-chain len zero v same = omega arith
  length-chain len (suc n) v same =
      omega (
        arith,
        length-append (strip v) (chain n (next v)),
        same v,
        length-chain len n (next v) same,
      )

  pub get_or-chain :
      (len n x r : ℕ) (v : V)
      → ((w : V) → length (strip w) ≡ len)
      → x < n
      → r < len
      → get_or (chain n v) (x * len + r) none ≡ get_or (strip (iterate next x v)) r none
  get_or-chain len zero x r v same lt inside = absurd (omega arith)
  get_or-chain len (suc n) zero r v same lt inside =
      let at : 0 * len + r ≡ r = omega arith in
      rw at (get_or-append_left (strip v) (chain n (next v)) r none (omega (arith, same v)))
  get_or-chain len (suc n) (suc x) r v same lt inside =
      let at : suc x * len + r ≡ length (strip v) + (x * len + r) = omega (arith, same v) in
      rw at (
        get_or-append_right (strip v) (chain n (next v)) (x * len + r) none
        ∙ get_or-chain len n x r (next v) same (omega arith) inside)

-- A loop without a variable
pub repeat_painted :
    (l : Strip) (body : Pen → Pen)
    → ((s : Pen) → body s ≡ painted l s)
    → (n : ℕ) (s : Pen) → repeat n body s ≡ painted (chain (λ (v : ℕ). v) (λ v. l) n 0) s
unfolding repeat
repeat_painted l body round zero s = ap (λ p. record s { pixels = p }) (omega arith)
repeat_painted l body round (suc n) s =
    ap (repeat n body) (round s)
    ∙ (repeat_painted l body round n (painted l s)
        ∙ sym (painted-append l (chain (λ (v : ℕ). v) (λ v. l) n 0) s))
