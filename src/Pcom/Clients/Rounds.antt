-- ===== src/Pcom/Clients/Rounds.antt =====
-- The loops of HtcLeoPkg/Library/MsmPcomClientLib/pcom_clients.c that call the modem until it succeeds.
use htc_leo_pkg.Base.{ℕ, zero, suc, ◌≤◌, ◌<◌, ◌≡◌, ◌≢◌, refl, ◌∙◌, none, some, arith, ==_ne}
use htc_leo_pkg.Pcom.{
  Line, Modem, Reply, msm_proc_comm, ◌>>=◌, word_at, pcom_cmd_done, pcom_cmd_success,
}
use htc_leo_pkg.Pcom.Answer.{Answer, Serves, reply_of, msm_proc_comm-answer}
use htc_leo_pkg.Pcom.Clients.{until_success}

module _ (answer : ℕ → ℕ → ℕ → Answer) (cmd : ℕ) where
  -- The two words after a round, and before the `k`-th round
  abbrev pub next_words : ℕ × ℕ → ℕ × ℕ
  next_words (d1, d2) =
      let r = reply_of (answer cmd d1 d2) (some d1) (some d2) in (word_at r.data1, word_at r.data2)

  abbrev pub words_at : ℕ → ℕ × ℕ → ℕ × ℕ
  words_at zero w = w
  words_at (suc k) w = words_at k (next_words w)

  abbrev pub status_at : ℕ → ℕ × ℕ → ℕ
  status_at k w = let w' = words_at k w in (answer cmd w'.0 w'.1).status

-- `k` calls of `msm_proc_comm` with a command, each with the words and on the line that the one before left
pub data Calls {M : Type 0} (md : Modem M) (fuel cmd : ℕ)
    : ℕ → ℕ × ℕ → Line M → ℕ × ℕ → Line M → Type 0 where
  no_call : (w : ℕ × ℕ) (l : Line M) → Calls md fuel cmd 0 w l w l
  call_made :
      {k : ℕ} {d1 d2 : ℕ} {w' : ℕ × ℕ} {l l1 l' : Line M} (r : Reply)
      → msm_proc_comm md fuel cmd (some d1) (some d2) l ≡ some (r, l1)
      → Calls md fuel cmd k (word_at r.data1, word_at r.data2) l1 w' l'
      → Calls md fuel cmd (suc k) (d1, d2) l w' l'

module _ {M : Type 0} {md : Modem M} {answer : ℕ → ℕ → ℕ → Answer} {n : ℕ} (v : Serves md answer n)
    (fuel cmd : ℕ) (enough : n ≤ fuel) (asks : cmd ≢ pcom_cmd_done) where
  -- A round that is refused goes on with the words of its answer.
  refused_round :
      (rounds d1 d2 : ℕ) (l : Line M)
      → (answer cmd d1 d2).status ≢ pcom_cmd_success
      → let w = next_words answer cmd (d1, d2) in
        (l' : Line M) × (msm_proc_comm md fuel cmd (some d1) (some d2) l
          ≡ some (reply_of (answer cmd d1 d2) (some d1) (some d2), l'))
        × (until_success md fuel (suc rounds) cmd d1 d2 l
            ≡ until_success md fuel rounds cmd w.0 w.1 l')
  unfolding until_success
  refused_round rounds d1 d2 l refused =
      let (l', e, free, st) = msm_proc_comm-answer v fuel cmd (some d1) (some d2) l enough asks in
      (
        l',
        e,
        rw (e, ◌>>=◌) (rw st (rw (==_ne (answer cmd d1 d2).status pcom_cmd_success refused) refl)),
      )

  until_success-none :
      (rounds k d1 d2 : ℕ) (l : Line M)
      → rounds ≤ k
      → ((i : ℕ) → i < k → status_at answer cmd i (d1, d2) ≢ pcom_cmd_success)
      → until_success md fuel rounds cmd d1 d2 l ≡ none
  unfolding until_success
  until_success-none zero k d1 d2 l few refused = refl
  until_success-none (suc rounds) zero d1 d2 l few refused = absurd (omega arith)
  until_success-none (suc rounds) (suc k) d1 d2 l few refused =
      let (l', e, next) = refused_round rounds d1 d2 l (refused 0 (omega arith)) in
      let w = next_words answer cmd (d1, d2) in
      next
      ∙ until_success-none rounds k w.0 w.1 l' (omega arith) (λ i h. refused (suc i) (omega arith))

  until_success-Calls :
      (rounds k d1 d2 : ℕ) (l : Line M)
      → k < rounds
      → ((i : ℕ) → i < k → status_at answer cmd i (d1, d2) ≢ pcom_cmd_success)
      → status_at answer cmd k (d1, d2) ≡ pcom_cmd_success
      → let w' = words_at answer cmd (suc k) (d1, d2) in
        (l' : Line M) × Calls md fuel cmd (suc k) (d1, d2) l w' l'
        × (until_success md fuel rounds cmd d1 d2 l ≡ some (w', l'))
  unfolding until_success
  until_success-Calls zero k d1 d2 l lt refused ends = absurd (omega arith)
  until_success-Calls (suc rounds) zero d1 d2 l lt refused ends =
      let (l', e, free, st) = msm_proc_comm-answer v fuel cmd (some d1) (some d2) l enough asks in
      (
        l',
        call_made (reply_of (answer cmd d1 d2) (some d1) (some d2)) e (no_call _ l'),
        rw (e, ◌>>=◌) (rw st (rw ends refl)),
      )
  until_success-Calls (suc rounds) (suc k) d1 d2 l lt refused ends =
      let (l1, e, next) = refused_round rounds d1 d2 l (refused 0 (omega arith)) in
      let w = next_words answer cmd (d1, d2) in
      let (l', made, later) =
        until_success-Calls rounds k w.0 w.1 l1 (omega arith) (λ i h. refused (suc i) (omega arith))
          ends in
      (l', call_made (reply_of (answer cmd d1 d2) (some d1) (some d2)) e made, next ∙ later)

-- With a modem that keeps to the protocol (at every state of it, within `n` readings it is ready, and answers what it is
-- rung with), fuel for `n` readings, and a command other than PCOM_CMD_DONE: a loop that calls until the
-- modem succeeds, and whose first success is the `k`-th answer from 0, ends in its round k + 1, and not with
-- fewer rounds. It leaves the words and the line that k + 1 calls in a row leave, each of which sends the words that
-- the answer before left: a refusal other than PCOM_CMD_FAIL replaces them by its own.
pub until_success_lem :
    {M : Type 0} {md : Modem M} {answer : ℕ → ℕ → ℕ → Answer} {n : ℕ}
    → Serves md answer n
    → (fuel rounds cmd k : ℕ) (w : ℕ × ℕ) (l : Line M) → n ≤ fuel
    → cmd ≢ pcom_cmd_done
    → k < rounds
    → ((i : ℕ) → i < k → status_at answer cmd i w ≢ pcom_cmd_success)
    → status_at answer cmd k w ≡ pcom_cmd_success
    → let w' = words_at answer cmd (suc k) w in
      (l' : Line M) × (until_success md fuel rounds cmd w.0 w.1 l ≡ some (w', l'))
      × Calls md fuel cmd (suc k) w l w' l'
      × ((fewer : ℕ) → fewer ≤ k → until_success md fuel fewer cmd w.0 w.1 l ≡ none)
until_success_lem v fuel rounds cmd k (d1, d2) l enough asks lt refused ends =
    let (l', made, e) =
      until_success-Calls v fuel cmd enough asks rounds k d1 d2 l lt refused ends in
    (
      l',
      e,
      made,
      λ fewer few. until_success-none v fuel cmd enough asks fewer k d1 d2 l few refused,
    )
