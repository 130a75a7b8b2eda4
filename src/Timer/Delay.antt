-- ===== src/Timer/Delay.antt =====
-- The waiting loops of HtcLeoPkg/Library/GPTTimerLib/GPTTimerLib.c on a counter of 32 bits.
use htc_leo_pkg.Base.{
  ℕ, zero, suc, ◌+◌, ◌%◌, ◌^◌, ◌≤◌, ◌<◌, ◌≡◌, ◌⊎◌, refl, sym, ◌∙◌, ap, inl, inr, true, false, some,
  arith, ltb, leb, ◌&&◌, Bool-cases, ltb→lt, ltb→le, &&-split, lt→ltb, leb-true, le→ltb,
}
use htc_leo_pkg.Timer.{micro_second_ticks, wait_wrap, wait_ticks, micro_second_delay}

-- The counter stands at `start` at the first reading, and moves on by at most one tick from a reading to the
-- next: `elapsed k` ticks have passed at the k-th.
pub record Counts (read elapsed : ℕ → ℕ) (start : ℕ) : Type 0 where
  pub in_word : start < 2 ^ 32
  pub from_zero : elapsed 0 ≡ 0
  pub forward : (k : ℕ) → elapsed k ≤ elapsed (k + 1)
  pub slow : (k : ℕ) → elapsed (k + 1) ≤ elapsed k + 1
  pub reads : (k : ℕ) → read k ≡ (start + elapsed k) % 2 ^ 32

module _ {read elapsed : ℕ → ℕ} {start : ℕ} (c : Counts read elapsed start) (t : ℕ)
    (word : t < 2 ^ 32) where
  abbrev timeout : ℕ
  timeout = (start + t) % 2 ^ 32

  -- In the round of the counter in which the ticks end.
  abbrev SameRound : ℕ → Type 0
  SameRound k = (start + t < 2 ^ 32) ⊎ (2 ^ 32 ≤ start + elapsed k)

  reached_lem : (k : ℕ) → elapsed k ≤ t → SameRound k → ltb (read k) timeout ≡ false → elapsed k ≡ t
  reached_lem k le round e =
      let there = ltb→le (read k) timeout e in
      let counted = c.reads k in let inside = c.in_word in omega arith

  before_lem : (k : ℕ) → elapsed k ≤ t → SameRound k → ltb (read k) timeout ≡ true → elapsed k < t
  before_lem k le round e =
      let there = ltb→lt (read k) timeout e in
      let counted = c.reads k in let inside = c.in_word in omega arith

  wait_ticks_lem :
      (f n k : ℕ)
      → elapsed (k + n) ≡ t
      → elapsed k ≤ t
      → SameRound k
      → n < f
      → (j : ℕ) × (wait_ticks f read timeout k ≡ some j) × (elapsed j ≡ t)
  unfolding wait_ticks
  wait_ticks_lem zero n k end le round lt = absurd (omega arith)
  wait_ticks_lem (suc f) zero k end le round lt =
      let here : elapsed k ≡ t = ap elapsed (omega arith) ∙ end in
      elim (Bool-cases (ltb (read k) timeout)) [
        | inl before ↦ absurd (omega (arith, before_lem k le round before))
        | inr reached ↦ (k, rw reached refl, here)
      ]
  wait_ticks_lem (suc f) (suc n) k end le round lt = elim (Bool-cases (ltb (read k) timeout)) [
    | inl before ↦
        let less = before_lem k le round before in
        let on = c.forward k in
        let slow = c.slow k in
        rw before (
          wait_ticks_lem f n (k + 1) (ap elapsed (omega arith) ∙ end) (omega arith) (omega arith)
            (omega arith))
    | inr reached ↦ (k, rw reached refl, reached_lem k le round reached)
  ]

  waits_lem :
      (k : ℕ)
      → 2 ^ 32 ≤ start + t
      → start + elapsed k ≤ 2 ^ 32
      → (ltb timeout (read k) && leb start (read k)) ≡ true
      → start + elapsed k < 2 ^ 32
  waits_lem k wraps low waits =
      let (above, _) = &&-split (ltb timeout (read k)) (leb start (read k)) waits in
      let there = ltb→lt timeout (read k) above in let counted = c.reads k in omega arith

  guard_lem :
      (k : ℕ)
      → 2 ^ 32 ≤ start + t
      → start + elapsed k < 2 ^ 32
      → (ltb timeout (read k) && leb start (read k)) ≡ true
  guard_lem k wraps low =
      let counted = c.reads k in
      let inside = c.in_word in
      let above : timeout < read k = omega arith in
      let from : start ≤ read k = omega arith in
      rw (lt→ltb timeout (read k) above) (leb-true start (read k) from)

  wait_wrap_lem :
      (f n k : ℕ)
      → 2 ^ 32 ≤ start + t
      → start + elapsed k ≤ 2 ^ 32
      → elapsed (k + n) ≡ t
      → n < f
      → (j : ℕ) × (i : ℕ) × (wait_wrap f read timeout start k ≡ some j)
        × (2 ^ 32 ≤ start + elapsed j)
        × (elapsed j ≤ t)
        × (j + i ≡ k + n)
  unfolding wait_wrap
  wait_wrap_lem zero n k wraps low end lt = absurd (omega arith)
  wait_wrap_lem (suc f) zero k wraps low end lt =
      let here : elapsed k ≡ t = ap elapsed (omega arith) ∙ end in
      elim (Bool-cases (ltb timeout (read k) && leb start (read k))) [
        | inl waits ↦ absurd (omega (arith, waits_lem k wraps low waits))
        | inr done ↦ (k, 0, rw done refl, omega arith, omega arith, refl)
      ]
  wait_wrap_lem (suc f) (suc n) k wraps low end lt =
      elim (Bool-cases (ltb timeout (read k) && leb start (read k))) [
        | inl waits ↦
            let less = waits_lem k wraps low waits in
            let slow = c.slow k in
            let (j, i, run, over, le, left) =
              wait_wrap_lem f n (k + 1) wraps (omega arith) (ap elapsed (omega arith) ∙ end)
                (omega arith) in
            (j, i, rw waits run, over, le, omega arith)
        | inr done ↦ elim (Bool-cases (ltb (start + elapsed k) (2 ^ 32))) [
          | inl early ↦
              let no : true ≡ false =
                sym (guard_lem k wraps (ltb→lt (start + elapsed k) (2 ^ 32) early)) ∙ done in
              absurd cc
          | inr over ↦
              (k, suc n, rw done refl, ltb→le (start + elapsed k) (2 ^ 32) over, omega arith, refl)
        ]
      ]

  no_wrap_lem : (f : ℕ) → start + t < 2 ^ 32 → wait_wrap (suc f) read timeout start 0 ≡ some 0
  unfolding wait_wrap
  no_wrap_lem f small =
      let counted = c.reads 0 in
      let nothing = c.from_zero in
      let below : read 0 ≤ timeout = omega arith in rw (le→ltb timeout (read 0) below) refl

  both_loops :
      (n : ℕ)
      → elapsed n ≡ t
      → (k : ℕ) × (j : ℕ) × (wait_wrap (suc n) read timeout start 0 ≡ some k)
        × (wait_ticks (suc n) read timeout k ≡ some j)
        × (elapsed j ≡ t)
  both_loops n end =
      let nothing = c.from_zero in
      elim (Bool-cases (ltb (start + t) (2 ^ 32))) [
        | inl small ↦
            let below = ltb→lt (start + t) (2 ^ 32) small in
            let (j, run, done) =
              wait_ticks_lem (suc n) n 0 (ap elapsed (omega arith) ∙ end) (omega arith) (inl below)
                (omega arith) in
            (0, j, no_wrap_lem n below, run, done)
        | inr large ↦
            let wraps = ltb→le (start + t) (2 ^ 32) large in
            let inside = c.in_word in
            let (k, i, run, over, le, left) =
              wait_wrap_lem (suc n) n 0 wraps (omega arith) (ap elapsed (omega arith) ∙ end)
                (omega arith) in
            let (j, run', done) =
              wait_ticks_lem (suc n) i k (ap elapsed (omega arith) ∙ end) le (inr over)
                (omega arith) in
            (k, j, run, run', done)
      ]

-- On a counter of 32 bits that moves on by at most one tick between two readings, and has moved by the ticks
-- of the delay at the n-th, `MicroSecondDelay` returns, with n + 1 rounds for each loop, at a
-- reading at which exactly these ticks have passed, also when the counter wraps meanwhile.
pub micro_second_delay_lem :
    {read elapsed : ℕ → ℕ} {start : ℕ} (us n : ℕ)
    → Counts read elapsed start
    → micro_second_ticks us < 2 ^ 32
    → elapsed n ≡ micro_second_ticks us
    → (j : ℕ) × (micro_second_delay (suc n) read us ≡ some j) × (elapsed j ≡ micro_second_ticks us)
unfolding micro_second_delay
micro_second_delay_lem {read} {elapsed} {start} us n c word end =
    let (k, j, run, run', done) = both_loops c (micro_second_ticks us) word n end in
    let counted = c.reads 0 in
    let nothing = c.from_zero in
    let inside = c.in_word in
    let first : read 0 ≡ start = omega arith in
    let wraps : wait_wrap (suc n) read ((read 0 + micro_second_ticks us) % 2 ^ 32) (read 0) 0
        ≡ some k =
      ap (λ x. wait_wrap (suc n) read ((x + micro_second_ticks us) % 2 ^ 32) x 0) first ∙ run in
    let ends : wait_ticks (suc n) read ((read 0 + micro_second_ticks us) % 2 ^ 32) k ≡ some j =
      ap (λ x. wait_ticks (suc n) read ((x + micro_second_ticks us) % 2 ^ 32) k) first ∙ run' in
    (j, rw (wraps, micro_second_delay) ends, done)
