-- ===== src/Pcom/Answer.antt =====
-- What a call to the modem comes to, HtcLeoPkg/Library/MsmPcomLib/pcom.c, when the modem keeps to the protocol.
use htc_leo_pkg.Base.{
  ℕ, zero, suc, ◌≤◌, ◌<◌, ◌≡◌, ◌≢◌, refl, ap, ◌∙◌, inl, inr, Option, some, arith, ◌==◌, ==_iff,
  ==_refl, Bool-cases,
}
use htc_leo_pkg.Pcom.{
  ◌>>=◌, Shared, Line, Modem, Reply, pcom_cmd_done, pcom_cmd_idle, pcom_ready, pcom_wait_for,
  msm_pcom_wait_for_modem_ready, msm_proc_comm, reply, word_at,
}

-- The line after `k` steps of the modem
abbrev pub after : {M : Type 0} → Modem M → ℕ → Line M → Line M
after md zero l = l
after md (suc k) l = after md k (md.act l)

-- What the modem answers to a command and its two words
pub record Answer : Type 0 where
  pub status : ℕ
  pub data1 : ℕ
  pub data2 : ℕ

-- The words of the answer stand in the shared memory.
abbrev pub Shows : Answer → Shared → Type 0
Shows a s = (s.status ≡ a.status) × (s.data1 ≡ a.data1) × (s.data2 ≡ a.data2)

-- The protocol from the modem's side, within `n` readings: it gets ready, and after it is rung with a
-- command it replaces the command by PCOM_CMD_DONE, when and only when its answer stands.
pub record Serves {M : Type 0} (md : Modem M) (answer : ℕ → ℕ → ℕ → Answer) (n : ℕ) : Type 0 where
  pub ready : (l : Line M) → (k : ℕ) × (k < n) × ((after md k l).shared.mdm_status ≡ pcom_ready)
  pub done :
      (l : Line M)
      → l.shared.command ≢ pcom_cmd_done
      → (k : ℕ) × (k < n) × ((after md k (md.ring l)).shared.command ≡ pcom_cmd_done)
  pub answered :
      (l : Line M) (k : ℕ)
      → l.shared.command ≢ pcom_cmd_done
      → (after md k (md.ring l)).shared.command ≡ pcom_cmd_done
      → Shows
          (answer l.shared.command l.shared.data1 l.shared.data2)
          (after md k (md.ring l)).shared

-- The reply to the caller, from the answer
abbrev pub reply_of : Answer → Option ℕ → Option ℕ → Reply
reply_of a d1 d2 = reply d1 d2 (record {
  command = pcom_cmd_done;
  status = a.status;
  data1 = a.data1;
  data2 = a.data2;
  mdm_status = pcom_ready;
})

reply-Shows :
    (a : Answer) (s : Shared) (d1 d2 : Option ℕ) → Shows a s → reply d1 d2 s ≡ reply_of a d1 d2
reply-Shows a s d1 d2 (st, e1, e2) = ground arith

module _ {M : Type 0} (md : Modem M) where
  -- The wait ends where the word has its value, and it ends if that is within the readings left.
  pub wait-ends :
      (fuel : ℕ) (word : Shared → ℕ) (value : ℕ) (l : Line M) (k : ℕ)
      → k < fuel
      → word (after md k l).shared ≡ value
      → (j : ℕ) × (word (after md j l).shared ≡ value)
        × (pcom_wait_for md fuel word value l ≡ some (tt, after md j l))
  unfolding pcom_wait_for
  wait-ends zero word value l k lt e = absurd (omega arith)
  wait-ends (suc fuel) word value l zero lt e = (0, e, rw (e, ==_refl value) refl)
  wait-ends (suc fuel) word value l (suc k) lt e = elim (Bool-cases (word l.shared == value)) [
    | inl here ↦ (0, (==_iff _ _).0 here, rw here refl)
    | inr not_yet ↦
        let (j, at, ends) = wait-ends fuel word value (md.act l) k (omega arith) e in
        (suc j, at, rw not_yet ends)
  ]

-- A call whose two waits end, with the line that each leaves
abbrev rung : {M : Type 0} → Modem M → ℕ → Option ℕ → Option ℕ → Line M → Line M
rung md cmd d1 d2 l = md.ring (record l {
  shared = record l.shared { command = cmd; data1 = word_at d1; data2 = word_at d2 };
})

abbrev idle : {M : Type 0} → Line M → Line M
idle l = record l { shared = record l.shared { command = pcom_cmd_idle } }

call-ends :
    {M : Type 0} (md : Modem M) (fuel cmd : ℕ) (d1 d2 : Option ℕ) (l l1 l2 : Line M)
    → msm_pcom_wait_for_modem_ready md fuel l ≡ some (tt, l1)
    → pcom_wait_for md fuel (λ s. s.command) pcom_cmd_done (rung md cmd d1 d2 l1) ≡ some (tt, l2)
    → msm_proc_comm md fuel cmd d1 d2 l ≡ some (reply d1 d2 l2.shared, idle l2)
unfolding msm_proc_comm
call-ends md fuel cmd d1 d2 l l1 l2 ready done = rw (ready, ◌>>=◌) (rw (done, ◌>>=◌) refl)

-- With a modem that keeps to the protocol (at every state of it, within `n` readings it is ready, and answers what it is
-- rung with), fuel for `n` readings, and a command other than PCOM_CMD_DONE, the call ends: it takes the answer for the command and the words behind its pointers (0 for
-- a null pointer), gives it to the caller, and leaves the command idle for the next call and the status of the
-- answer in its word. A status of
-- PCOM_CMD_FAIL fails and leaves the caller's words alone; with any other status the words are the answer's.
pub msm_proc_comm-answer :
    {M : Type 0} {md : Modem M} {answer : ℕ → ℕ → ℕ → Answer} {n : ℕ}
    → Serves md answer n
    → (fuel cmd : ℕ) (d1 d2 : Option ℕ) (l : Line M) → n ≤ fuel
    → cmd ≢ pcom_cmd_done
    → (l' : Line M) × (msm_proc_comm md fuel cmd d1 d2 l
        ≡ some (reply_of (answer cmd (word_at d1) (word_at d2)) d1 d2, l'))
      × (l'.shared.command ≡ pcom_cmd_idle)
      × (l'.shared.status ≡ (answer cmd (word_at d1) (word_at d2)).status)
unfolding msm_pcom_wait_for_modem_ready
msm_proc_comm-answer {M} {md} {answer} {n} v fuel cmd d1 d2 l enough asks =
    let (k, lt, is_ready) = v.ready l in
    let (j, at, waited) =
      wait-ends md fuel (λ s. s.mdm_status) pcom_ready l k (omega arith) is_ready in
    let l1 : Line M = after md j l in
    let l2 : Line M = record l1 {
      shared = record l1.shared { command = cmd; data1 = word_at d1; data2 = word_at d2 };
    } in
    let (k', lt', done) = v.done l2 asks in
    let (j', at', waited') =
      wait-ends md fuel (λ s. s.command) pcom_cmd_done (md.ring l2) k' (omega arith) done in
    let l3 : Line M = after md j' (md.ring l2) in
    let shows = v.answered l2 j' asks at' in
    (
      idle l3,
      call-ends md fuel cmd d1 d2 l l1 l3 waited waited'
          ∙ ap (λ r. some (r, idle l3))
              (reply-Shows (answer cmd (word_at d1) (word_at d2)) l3.shared d1 d2 shows),
      refl,
      shows.0,
    )
