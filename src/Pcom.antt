-- ===== src/Pcom.antt =====
-- HtcLeoPkg/Library/MsmPcomLib/pcom.c: calls to the modem through words of shared memory. What the modem does
-- between two readings of a word that is waited for, and when it is rung, are arguments; the delays
-- are left out.
pub mod Answer
pub mod Clients
use htc_leo_pkg.Base.{
  ℕ, zero, suc, ◌+◌, ◌*◌, ◌%◌, Bool, true, false, not, Option, none, some, ◌==◌, if◌then◌else◌, ◌^◌,
}

-- APP_COMMAND, APP_STATUS, APP_DATA1, APP_DATA2 and MDM_STATUS
pub record Shared : Type 0 where
  pub command : ℕ
  pub status : ℕ
  pub data1 : ℕ
  pub data2 : ℕ
  pub mdm_status : ℕ

-- The shared words and the state of the modem
pub record Line (M : Type 0) : Type 0 where
  pub shared : Shared
  pub modem : M

-- `act` is what the modem does between two readings; `ring` is the interrupt of `notify_modem`.
pub record Modem (M : Type 0) : Type 0 where
  pub act : Line M → Line M
  pub ring : Line M → Line M

-- The return of a call, `false` for -1, and the two words that its pointers lead to, `none` for a null
-- pointer
pub record Reply : Type 0 where
  pub done : Bool
  pub data1 : Option ℕ
  pub data2 : Option ℕ

abbrev pub pcom_cmd_idle : ℕ
pcom_cmd_idle = 0

abbrev pub pcom_cmd_done : ℕ
pcom_cmd_done = 1

abbrev pub pcom_ready : ℕ
pcom_ready = 1

abbrev pub pcom_cmd_success : ℕ
pcom_cmd_success = 3

abbrev pub pcom_cmd_fail : ℕ
pcom_cmd_fail = 4

-- A step on the line; `none` while the code still waits.
abbrev pub Pc : Type 0 → Type 0 → Type 0
Pc M A = Line M → Option (A × Line M)

infixl 5 ◌>>=◌ ◌>>◌
abbrev pub ◌>>=◌ : {M A B : Type 0} → Pc M A → (A → Pc M B) → Pc M B
◌>>=◌ m f l = elim (m l) [ none ↦ none | some (a, l') ↦ f a l' ]

abbrev pub ◌>>◌ : {M A B : Type 0} → Pc M A → Pc M B → Pc M B
m >> k = m >>= λ _. k

abbrev pub pure : {M A : Type 0} → A → Pc M A
pure a l = some (a, l)

-- Writes to the shared words, and a reading of them
abbrev pub put : {M : Type 0} → (Shared → Shared) → Pc M (Unit {0})
put f l = some (tt, record l { shared = f l.shared })

abbrev pub get : {M : Type 0} → Pc M Shared
get l = some (l.shared, l)

-- The word behind a pointer, or 0 without one
abbrev pub word_at : Option ℕ → ℕ
word_at none = 0
word_at (some x) = x

-- A write through a pointer
abbrev pub stored : ℕ → Option ℕ → Option ℕ
stored x none = none
stored x (some old) = some x

-- The part of `msm_proc_comm` that looks at the status
abbrev pub reply : Option ℕ → Option ℕ → Shared → Reply
reply d1 d2 s =
    if not (s.status == pcom_cmd_fail)
    then record { done = true; data1 = stored s.data1 d1; data2 = stored s.data2 d2 }
    else record { done = false; data1 = d1; data2 = d2 }

module _ {M : Type 0} (md : Modem M) where
  -- At most `fuel` readings
  unfoldable pub pcom_wait_for : ℕ → (Shared → ℕ) → ℕ → Pc M (Unit {0})
  pcom_wait_for zero word value l = none
  pcom_wait_for (suc fuel) word value l =
      let later = pcom_wait_for fuel word value (md.act l) in
      if word l.shared == value then some (tt, l) else later

  unfoldable pub msm_pcom_wait_for_modem_ready : ℕ → Pc M (Unit {0})
  unfolding pcom_wait_for
  msm_pcom_wait_for_modem_ready fuel = pcom_wait_for fuel (λ s. s.mdm_status) pcom_ready

  abbrev pub notify_modem : Pc M (Unit {0})
  notify_modem l = some (tt, md.ring l)

  unfoldable pub msm_proc_comm : ℕ → ℕ → Option ℕ → Option ℕ → Pc M Reply
  unfolding pcom_wait_for
  msm_proc_comm fuel cmd d1 d2 = do
    msm_pcom_wait_for_modem_ready fuel
    put (λ s. record s { command = cmd })
    put (λ s. record s { data1 = word_at d1 })
    put (λ s. record s { data2 = word_at d2 })
    notify_modem
    pcom_wait_for fuel (λ s. s.command) pcom_cmd_done
    s ← get
    put (λ s'. record s' { command = pcom_cmd_idle })
    pure (reply d1 d2 s)

  unfoldable pub msm_pcom_init : Pc M (Unit {0})
  msm_pcom_init = do
    put (λ s. record s { command = pcom_cmd_idle })
    put (λ s. record s { status = 0 })

  -- The calls of `msm_proc_comm` with the numbers of their commands
  unfoldable pub pcom_gpio_tlmm_config : ℕ → ℕ → ℕ → Pc M Reply
  unfolding msm_proc_comm
  pcom_gpio_tlmm_config fuel config disable = msm_proc_comm fuel 37 (some config) (some disable)

  unfoldable pub pcom_vreg_set_level : ℕ → ℕ → ℕ → Pc M Reply
  unfolding msm_proc_comm
  pcom_vreg_set_level fuel id mv = msm_proc_comm fuel 31 (some id) (some mv)

  unfoldable pub pcom_vreg_enable : ℕ → ℕ → Pc M Reply
  unfolding msm_proc_comm
  pcom_vreg_enable fuel id = msm_proc_comm fuel 30 (some id) (some 1)

  unfoldable pub pcom_vreg_disable : ℕ → ℕ → Pc M Reply
  unfolding msm_proc_comm
  pcom_vreg_disable fuel id = msm_proc_comm fuel 30 (some id) (some 0)

  unfoldable pub pcom_clock_enable : ℕ → ℕ → Pc M Reply
  unfolding msm_proc_comm
  pcom_clock_enable fuel id = msm_proc_comm fuel 20 (some id) none

  unfoldable pub pcom_clock_disable : ℕ → ℕ → Pc M Reply
  unfolding msm_proc_comm
  pcom_clock_disable fuel id = msm_proc_comm fuel 21 (some id) none

  unfoldable pub pcom_clock_is_enabled : ℕ → ℕ → Pc M Reply
  unfolding msm_proc_comm
  pcom_clock_is_enabled fuel id = msm_proc_comm fuel 29 (some id) none

  unfoldable pub pcom_clock_set_rate : ℕ → ℕ → ℕ → Pc M Reply
  unfolding msm_proc_comm
  pcom_clock_set_rate fuel id rate = msm_proc_comm fuel 24 (some id) (some rate)

  -- `none` is the return of -1.
  unfoldable pub pcom_clock_get_rate : ℕ → ℕ → Pc M (Option ℕ)
  unfolding msm_proc_comm
  pcom_clock_get_rate fuel id = do
    r ← msm_proc_comm fuel 27 (some id) none
    pure (if r.done then r.data1 else none)

  unfoldable pub pcom_set_clock_flags : ℕ → ℕ → ℕ → Pc M Reply
  unfolding msm_proc_comm
  pcom_set_clock_flags fuel id flags = msm_proc_comm fuel 23 (some id) (some flags)
