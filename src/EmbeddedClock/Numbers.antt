-- ===== src/EmbeddedClock/Numbers.antt =====
-- The table of HtcLeoPkg/GPLDrivers/ClockDxe/ClockDxe.c, whose entries the calls hand to the modem.
use htc_leo_pkg.Base.{
  ℕ, ◌≤◌, ◌≡◌, ◌≢◌, ◌⊎◌, refl, inl, inr, Option, none, some, arith, ◌==◌, if◌then◌else◌, ==_iff,
  ==_ne, Bool-cases,
}
use htc_leo_pkg.Pcom.{Line, Modem, ◌>>=◌, word_at}
use htc_leo_pkg.Pcom.Answer.{Answer, Serves, reply_of, msm_proc_comm-answer}
use htc_leo_pkg.EmbeddedClock.{Lookup, minus_one, update, call, clk_enable}

module _ {M : Type 0} {md : Modem M} {answer : ℕ → ℕ → ℕ → Answer} {n : ℕ} (v : Serves md answer n)
    (fuel : ℕ) (enough : n ≤ fuel) where
  call-answer :
      (cmd id : ℕ) (d2 : Option ℕ) (c : Lookup) (l : Line M)
      → cmd ≢ 1
      → let r = reply_of (answer cmd (c id) (word_at d2)) (some (c id)) d2 in
        (l' : Line M) × (call md fuel cmd id d2 c l ≡ some ((r, update c id (word_at r.data1)), l'))
  call-answer cmd id d2 c l ne =
      let (l', e, free, st) = msm_proc_comm-answer v fuel cmd (some (c id)) d2 l enough ne in
      (l', rw (e, ◌>>=◌) refl)

-- With a modem that keeps to the protocol (at every state of it, within `n` readings it is ready, and answers what it is
-- rung with), and fuel for `n` readings: a clock with a number is enabled by the command 50 with that number. The entry of the table, which is also what the
-- caller gets, is then the first word of the answer, or as before if the status is PCOM_CMD_FAIL. The other entries stay.
-- A clock without a number is refused with -1, and the modem is not called.
pub clk_enable_lem :
    {M : Type 0} {md : Modem M} {answer : ℕ → ℕ → ℕ → Answer} {n : ℕ}
    → Serves md answer n
    → (fuel id : ℕ) (c : Lookup) (l : Line M) → n ≤ fuel
    → ((c id ≡ minus_one) × (clk_enable md fuel id c l ≡ some ((minus_one, c), l)))
      ⊎ ((c id ≢ minus_one)
          × (c' : Lookup) × (l' : Line M) × (clk_enable md fuel id c l ≡ some ((c' id, c'), l'))
          × (c' id
              ≡ (if (answer 50 (c id) 0).status == 4 then c id else (answer 50 (c id) 0).data1))
          × ((i : ℕ) → i ≢ id → c' i ≡ c i))
unfolding clk_enable
clk_enable_lem {answer} v fuel id c l enough = elim (Bool-cases (c id == minus_one)) [
  | inl unknown ↦ inl ((==_iff _ _).0 unknown, rw unknown refl)
  | inr known ↦
      let (l', e) = call-answer v fuel enough 50 id none c l (omega arith) in
      let x : ℕ = word_at (reply_of (answer 50 (c id) 0) (some (c id)) none).data1 in
      inr (
        ground arith,
        update c id x,
        l',
        rw known (rw (e, ◌>>=◌) refl),
        ground arith,
        λ i ne. rw (==_ne i id ne) refl,
      )
]
