-- ===== src/StrLib/Scans.antt =====
-- The scans of HtcLeoPkg/Library/StrLib (strchr, strspn, strpbrk) and strlcat, on texts as lists.
use htc_leo_pkg.Base.{
  ℕ, zero, suc, ◌+◌, ◌-◌, ◌%◌, ◌≤◌, ◌<◌, ◌≡◌, ◌≢◌, ◌⊎◌, refl, sym, ap, ◌∙◌, Bool, List, [], ◌∷◌,
  ◌++◌, Option, none, some, arith, length, take, min, ◌==◌, if◌then◌else◌, ==_ne, if-both,
}
use htc_leo_pkg.Base.Memory.{Memory, write, Holds, write_self, write_ne, Holds-frame}
use htc_leo_pkg.StrLib.{among, strchr, strspn, strpbrk, end_of, copy_loop, strlcat}

-- The address of the first character that passes the test, in a text at `s`.
abbrev pub first_at : (ℕ → Bool) → ℕ → List ℕ → Option ℕ
first_at test s [] = none
first_at test s (c ∷ cs) = if test c then some s else first_at test (s + 1) cs

-- The length of the longest beginning whose characters all pass the test.
abbrev pub span : (ℕ → Bool) → List ℕ → ℕ
span test [] = 0
span test (c ∷ cs) = if test c then suc (span test cs) else 0

strchr_lem :
    (f : ℕ) (m : Memory) (s c : ℕ) (cs : List ℕ)
    → Holds m s cs
    → length cs < f
    → c % 256 ≢ 0
    → strchr f m s c ≡ some (first_at (λ x. x == c % 256) s cs)
unfolding strchr
strchr_lem zero m s c cs h lt ne = absurd (omega arith)
strchr_lem (suc f) m s c [] h lt ne = rw h (rw (==_ne 0 (c % 256) (λ e. ne (sym e))) refl)
strchr_lem (suc f) m s c (x ∷ cs) h lt ne = rw h.0 (
    rw (==_ne x 0 h.1) (
      rw (strchr_lem f m (s + 1) c cs h.2 (omega arith) ne)
        (if-both (λ (o : Option (Option ℕ)) (a : Option ℕ). o ≡ some a) (x == c % 256) refl refl)))

strpbrk_lem :
    (f : ℕ) (m : Memory) (s : ℕ) (ct cs : List ℕ)
    → Holds m s cs
    → length cs < f
    → strpbrk f m s ct ≡ some (first_at (among ct) s cs)
unfolding strpbrk
strpbrk_lem zero m s ct cs h lt = absurd (omega arith)
strpbrk_lem (suc f) m s ct [] h lt = rw h refl
strpbrk_lem (suc f) m s ct (x ∷ cs) h lt = rw h.0 (
    rw (==_ne x 0 h.1) (
      rw (strpbrk_lem f m (s + 1) ct cs h.2 (omega arith))
        (if-both (λ (o : Option (Option ℕ)) (a : Option ℕ). o ≡ some a) (among ct x) refl refl)))

strspn_lem :
    (f : ℕ) (m : Memory) (s n : ℕ) (accept cs : List ℕ)
    → Holds m s cs
    → length cs < f
    → strspn f m s accept n ≡ some (n + span (among accept) cs)
unfolding strspn
strspn_lem zero m s n accept cs h lt = absurd (omega arith)
strspn_lem (suc f) m s n accept [] h lt = rw h (ap some (omega arith))
strspn_lem (suc f) m s n accept (x ∷ cs) h lt = rw h.0 (
    rw (==_ne x 0 h.1) (
      rw (strspn_lem f m (s + 1) (n + 1) accept cs h.2 (omega arith)) (
        if-both (λ (o : Option ℕ) (k : ℕ). o ≡ some (n + k)) (among accept x)
          (ap some (omega arith)) (ap some (omega arith)))))

end_of_lem :
    (m : Memory) (d n : ℕ) (ds : List ℕ) → Holds m d ds → end_of m d n ≡ d + min n (length ds)
unfolding end_of
end_of_lem m d zero ds h = omega arith
end_of_lem m d (suc n) [] h = rw h (omega arith)
end_of_lem m d (suc n) (c ∷ ds) h =
    rw h.0 (rw (==_ne c 0 h.1) (omega (arith, end_of_lem m (d + 1) n ds h.2)))

-- The `k + 1` characters from `s` on lie outside the `n` characters from `d` on.
abbrev pub Apart : ℕ → ℕ → ℕ → ℕ → Type 0
Apart d n s k = (d + n ≤ s) ⊎ (s + k < d)

copy_loop_lem :
    (f : ℕ) (m : Memory) (d s n : ℕ) (ss : List ℕ)
    → Holds m s ss
    → length ss < f
    → Apart d (suc n) s (length ss)
    → (m' : Memory) × (copy_loop f m d s (suc n) ≡ some (s + length ss, m'))
      × Holds m' d (take n ss)
      × ((x : ℕ) → (x < d) ⊎ (d + n < x) → m' x ≡ m x)
unfolding copy_loop
copy_loop_lem zero m d s n ss h lt apart = absurd (omega arith)
copy_loop_lem (suc f) m d s zero [] h lt apart = (
  write m d 0,
  rw h (ap (λ k. some (k, write m d 0)) (omega arith)),
  write_self m d 0 d refl,
  λ x out. write_ne m d 0 x (λ e. omega arith),
)
copy_loop_lem (suc f) m d s (suc n) [] h lt apart = (
  write m d 0,
  rw h (ap (λ k. some (k, write m d 0)) (omega arith)),
  write_self m d 0 d refl,
  λ x out. write_ne m d 0 x (λ e. omega arith),
)
copy_loop_lem (suc f) m d s zero (c ∷ ss) h lt apart =
    let (m', run, holds, frame) =
      copy_loop_lem f m d (s + 1) zero ss h.2 (omega arith) (omega arith) in
    (m', rw h.0 (rw (==_ne c 0 h.1) (run ∙ ap (λ k. some (k, m')) (omega arith))), holds, frame)
copy_loop_lem (suc f) m d s (suc n) (c ∷ ss) h lt apart =
    let later : Holds (write m d (m s)) (s + 1) ss =
      Holds-frame m (write m d (m s)) (s + 1) ss
        (λ x lo hi. write_ne m d (m s) x (λ e. omega arith)) h.2 in
    let (m', run, holds, frame) =
      copy_loop_lem f (write m d (m s)) (d + 1) (s + 1) n ss later (omega arith) (omega arith) in
    (
      m',
      rw (==_ne (m s) 0 (λ z. h.1 (sym h.0 ∙ z))) (
          rw (==_ne (suc (suc n)) 1 (λ e. omega arith)) (
            ap (λ k. copy_loop f (write m d (m s)) (d + 1) (s + 1) k) (omega arith)
            ∙ run
            ∙ ap (λ k. some (k, m')) (omega arith))),
      (frame d (omega arith) ∙ write_self m d (m s) d refl ∙ h.0, h.1, holds),
      λ x out. frame x (omega arith) ∙ write_ne m d (m s) x (λ e. omega arith),
    )

-- A text behind a text.
Holds-append :
    (m m' : Memory) (a : ℕ) (ds ss : List ℕ) (b : ℕ)
    → Holds m a ds
    → ((x : ℕ) → x < b → m' x ≡ m x)
    → b ≡ a + length ds
    → Holds m' b ss
    → Holds m' a (ds ++ ss)
Holds-append m m' a [] ss b h same place tail =
    let here : b ≡ a = omega (arith, place) in rw (sym here) tail
Holds-append m m' a (c ∷ ds) ss b h same place tail =
    (same a (omega arith) ∙ h.0, h.1, Holds-append m m' (a + 1) ds ss b h.2 same (omega arith) tail)

strlcat_run :
    (str_len : Memory → ℕ → ℕ) (f : ℕ) (m m' : Memory) (dst src siz k n j : ℕ)
    → end_of m dst siz ≡ dst + k
    → siz - (dst + k - dst) ≡ suc n
    → copy_loop f m (dst + k) src (suc n) ≡ some (src + j, m')
    → strlcat str_len f m dst src siz ≡ some (k + j, m')
unfolding strlcat
strlcat_run str_len f m m' dst src siz k n j here left run = rw here (
    rw left (
      rw (==_ne (suc n) 0 (λ e. omega arith))
        (rw (run, strlcat) (ap (λ i. some (i, m')) (omega (arith, here))))))

-- `strlcat`, for a `dst` whose text `ds` ends within its `siz` characters and a `src` outside these,
-- with one round more than `src` has characters: it returns the sum of the two lengths, `dst`
-- then holds its text followed by as much of the text of `src` as leaves room for the NUL, and no
-- character outside the `siz` characters of `dst` changes.
pub strlcat_lem :
    (str_len : Memory → ℕ → ℕ) (f : ℕ) (m : Memory) (dst src siz : ℕ) (ds ss : List ℕ)
    → Holds m dst ds
    → Holds m src ss
    → length ds < siz
    → length ss < f
    → Apart dst siz src (length ss)
    → (m' : Memory) × (strlcat str_len f m dst src siz ≡ some (length ds + length ss, m'))
      × Holds m' dst (ds ++ take (siz - length ds - 1) ss)
      × ((x : ℕ) → (x < dst) ⊎ (dst + siz ≤ x) → m' x ≡ m x)
strlcat_lem str_len f m dst src siz ds ss hd hs room fuel apart =
    let here : end_of m dst siz ≡ dst + length ds = omega (arith, end_of_lem m dst siz ds hd) in
    let left : siz - (dst + length ds - dst) ≡ suc (siz - length ds - 1) = omega arith in
    let (m', run, holds, frame) =
      copy_loop_lem f m (dst + length ds) src (siz - length ds - 1) ss hs fuel (omega arith) in
    (
      m',
      strlcat_run str_len f m m' dst src siz (length ds) (siz - length ds - 1) (length ss) here left
          run,
      Holds-append m m' dst ds (take (siz - length ds - 1) ss) (dst + length ds) hd
          (λ x lt. frame x (omega arith)) refl holds,
      λ x out. frame x (omega arith),
    )

-- With room for every character of a text, a scan of it ends: `strchr` gives the address of the first
-- character like `c`, if `c` is not NUL, `strpbrk` that of the first one of its set, and
-- `strspn` the number of characters of its set that the text begins with.
pub scans_lem :
    (f : ℕ) (m : Memory) (s c : ℕ) (ds cs : List ℕ)
    → Holds m s cs
    → length cs < f
    → c % 256 ≢ 0
    → (strchr f m s c ≡ some (first_at (λ x. x == c % 256) s cs))
      × (strpbrk f m s ds ≡ some (first_at (among ds) s cs))
      × (strspn f m s ds 0 ≡ some (span (among ds) cs))
scans_lem f m s c ds cs h lt ne = (
  strchr_lem f m s c cs h lt ne,
  strpbrk_lem f m s ds cs h lt,
  strspn_lem f m s 0 ds cs h lt ∙ ap some (omega arith),
)
