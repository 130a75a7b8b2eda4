-- ===== src/Clock/Pll/Settled.antt =====
-- How scpll_set_freq of HtcLeoPkg/GPLDrivers/ClockDxe/acpuclock.c ends when the PLL settles.
use htc_leo_pkg.Base.{
  ℕ, zero, suc, ◌*◌, ◌/◌, ◌%◌, ◌≤◌, ◌<◌, ◌≡◌, refl, sym, ap, ◌∙◌, inl, inr, true, Bool-cases, List,
  [], ◌∷◌, ◌++◌, Option, some, arith, ◌==◌, if◌then◌else◌, ==_iff,
}
use htc_leo_pkg.Clock.{clamp_lval, acpuclk_find_speed}
use htc_leo_pkg.Clock.Pll.{
  PllWrite, write_ctl, write_ext, Pll, PllHw, with_mode, with_freq, shot_switch, hop_switch,
  and_then, wait, to_normal, scpll_set_freq,
}
use mathlib.Core.List.{append_assoc, append-nil}

-- The writes of the hop
abbrev pub hopped : List PllWrite → ℕ → ℕ → List PllWrite
hopped w e c = (w ++ write_ext e ∷ []) ++ write_ctl c ∷ []

mode_kept : (ctl mode : ℕ) → ctl % 8 ≡ mode → ctl ≡ with_mode ctl mode
mode_kept ctl mode e = omega arith

mode_twice : (ctl a b : ℕ) → a < 8 → with_mode (with_mode ctl a) b ≡ with_mode ctl b
mode_twice ctl a b lt = omega arith

three :
    (w : List PllWrite) (a b c : PllWrite)
    → ((w ++ a ∷ []) ++ b ∷ []) ++ c ∷ [] ≡ w ++ a ∷ b ∷ c ∷ []
three [] a b c = refl
three (x ∷ w) a b c = ap (λ l. x ∷ l) (three w a b c)

two :
    (w v : List PllWrite) (a b : PllWrite) → ((w ++ v) ++ a ∷ []) ++ b ∷ [] ≡ w ++ (v ++ a ∷ b ∷ [])
two w v a b = append_assoc (w ++ v) (a ∷ []) (b ∷ []) ∙ append_assoc w v (a ∷ b ∷ [])

-- The writes that bring the PLL into normal mode first
abbrev pub shots : ℕ → ℕ → List PllWrite
shots ctl ext =
    if ctl % 8 == 7
    then []
    else write_ctl (with_mode ctl 2)
      ∷ write_ext (with_freq ext 10 4)
      ∷ write_ctl (with_mode ctl 7)
      ∷ []

and_then-some :
    {A B : Type 0} (o : Option A) (a : A) (f : A → Option B) (r : Option B)
    → o ≡ some a
    → f a ≡ r
    → and_then o f ≡ r
and_then-some o a f r e h = ap (λ o'. and_then o' f) e ∙ h

module _ {S : Type 0} (hw : PllHw S) where
  -- The PLL after `k` readings of its status
  abbrev pub after : ℕ → Pll S → Pll S
  after zero p = p
  after (suc k) p = after k (record p { inner = (hw.status p.ctl p.ext p.inner).1 })

  -- It ends each switch and calibration within `n` readings.
  abbrev pub Settles : ℕ → Type 0
  Settles n =
      (p : Pll S)
      → (k : ℕ) × (k < n)
        × ((hw.status (after k p).ctl (after k p).ext (after k p).inner).0 % 4 ≡ 0)

  -- The same registers
  pub record Same (p q : Pll S) : Type 0 where
    pub ctl : q.ctl ≡ p.ctl
    pub ext : q.ext ≡ p.ext
    pub writes : q.writes ≡ p.writes

  wait-ends :
      (fuel m : ℕ) (p : Pll S) (k : ℕ)
      → k < fuel
      → ((x : ℕ) → x % 4 ≡ 0 → x % m ≡ 0)
      → (hw.status (after k p).ctl (after k p).ext (after k p).inner).0 % 4 ≡ 0
      → (q : Pll S) × (wait hw fuel m p ≡ some q) × Same p q
  unfolding wait
  wait-ends zero m p k lt div e = absurd (omega arith)
  wait-ends (suc fuel) m p zero lt div e =
      let now : ((hw.status p.ctl p.ext p.inner).0 % m == 0) ≡ true = (==_iff _ _).1 (div _ e) in
      (
        record p { inner = (hw.status p.ctl p.ext p.inner).1 },
        rw now refl,
        record { ctl = refl; ext = refl; writes = refl },
      )
  wait-ends (suc fuel) m p (suc k) lt div e =
      elim (Bool-cases ((hw.status p.ctl p.ext p.inner).0 % m == 0)) [
        | inl now ↦ (
          record p { inner = (hw.status p.ctl p.ext p.inner).1 },
          rw now refl,
          record { ctl = refl; ext = refl; writes = refl },
        )
        | inr not_yet ↦
            let (q, ends, same) =
              wait-ends fuel m (record p { inner = (hw.status p.ctl p.ext p.inner).1 }) k
                (omega arith) div e in
            (q, rw not_yet ends, record { ctl = same.ctl; ext = same.ext; writes = same.writes })
      ]

  module _ (n : ℕ) (settles : Settles n) (fuel : ℕ) (enough : n ≤ fuel) where
    waits :
        (m : ℕ) (p : Pll S)
        → ((x : ℕ) → x % 4 ≡ 0 → x % m ≡ 0)
        → (q : Pll S) × (wait hw fuel m p ≡ some q) × Same p q
    waits m p div = let (k, lt, e) = settles p in wait-ends fuel m p k (omega arith) div e

    to_normal_lem :
        (p : Pll S)
        → (q : Pll S) × (to_normal hw fuel p ≡ some q)
          × (q.ctl ≡ with_mode p.ctl 7)
          × (q.ext / 512 ≡ p.ext / 512)
          × (q.writes ≡ p.writes ++ shots p.ctl p.ext)
    unfolding to_normal
    to_normal_lem p = elim (Bool-cases (p.ctl % 8 == 7)) [
      | inl e ↦ (
        p,
        rw e refl,
        mode_kept p.ctl 7 ((==_iff _ _).0 e),
        refl,
        rw e (sym (append-nil p.writes)),
      )
      | inr e ↦
          let (q, ends, same) = waits 2 (shot_switch p) (λ x h. omega arith) in
          (
            q,
            rw e ends,
            same.ctl ∙ mode_twice p.ctl 2 7 (omega arith),
            omega (arith, same.ext),
            same.writes
                ∙ (three p.writes _ _ _
                    ∙ rw e (
                        ap
                          (λ c.
                            p.writes
                            ++ write_ctl (with_mode p.ctl 2)
                              ∷ write_ext (with_freq p.ext 10 4)
                              ∷ write_ctl c
                              ∷ [])
                          (mode_twice p.ctl 2 7 (omega arith)))),
          )
    ]

    clamp_lval_le : (lval : ℕ) → clamp_lval lval < 64
    unfolding clamp_lval
    clamp_lval_le lval = ground arith

    found : (l old : ℕ) → l < 64 → acpuclk_find_speed 2 (with_freq old l 5) ≡ some (l * 38400)
    unfolding acpuclk_find_speed
    found l old lt = ap (λ x. some (x * 38400)) (omega arith)

    -- With a PLL that ends each switch and calibration within `n` readings of its status, and a fuel of at least `n`
    -- for each wait: scpll_set_freq ends. The PLL is then in normal mode with the rest of its control register as it
    -- was, the value in the range from 10 to 33 is set, and acpuclk_find_speed finds the speed of that value where the
    -- PLL is the source. Before the hop it went through standby and 384 MHz if it was not in normal mode, and only then.
    pub scpll_set_freq_lem :
        (lval : ℕ) (p : Pll S)
        → (q : Pll S) × (scpll_set_freq hw fuel lval p ≡ some q)
          × (q.ctl ≡ with_mode p.ctl 7)
          × (q.ext / 512 ≡ p.ext / 512)
          × (acpuclk_find_speed 2 q.ext ≡ some (clamp_lval lval * 38400))
          × (q.writes
              ≡ p.writes
                ++ (shots p.ctl p.ext
                    ++ write_ext (with_freq p.ext (clamp_lval lval) 5)
                      ∷ write_ctl (with_mode p.ctl 7)
                      ∷ []))
    unfolding scpll_set_freq
    scpll_set_freq_lem lval p =
        let l = clamp_lval lval in
        let small = clamp_lval_le lval in
        let (p1, ends1, same1) = waits 4 p (λ x h. h) in
        let (p2, ends2, ctl2, ext2, writes2) = to_normal_lem p1 in
        let ext_kept : with_freq p2.ext l 5 ≡ with_freq p.ext l 5 =
          omega (arith, ext2, same1.ext) in
        let ctl_kept : with_mode p2.ctl 7 ≡ with_mode p.ctl 7 = omega (arith, ctl2, same1.ctl) in
        let (q, ends3, same3) = waits 2 (hop_switch l p2) (λ x h. omega arith) in
        (
          q,
          and_then-some _ p1 _ _ ends1 (and_then-some _ p2 _ _ ends2 ends3),
          omega (arith, same3.ctl, ctl2, same1.ctl),
          omega (arith, same3.ext, ext2, same1.ext, small),
          ap (acpuclk_find_speed 2) same3.ext ∙ found l p2.ext small,
          same3.writes
              ∙ (ap (λ w. hopped w (with_freq p2.ext l 5) (with_mode p2.ctl 7))
                    (writes2
                      ∙ (ap (λ w. w ++ shots p1.ctl p1.ext) same1.writes
                          ∙ (ap (λ c. p.writes ++ shots c p1.ext) same1.ctl
                              ∙ ap (λ x. p.writes ++ shots p.ctl x) same1.ext)))
                  ∙ (ap (λ x. hopped (p.writes ++ shots p.ctl p.ext) x (with_mode p2.ctl 7))
                        ext_kept
                      ∙ (ap (λ c. hopped (p.writes ++ shots p.ctl p.ext) (with_freq p.ext l 5) c)
                            ctl_kept
                          ∙ two p.writes (shots p.ctl p.ext) _ _))),
        )
