-- ===== src/Reset/Outcome.antt =====
-- What a reset of HtcLeoPkg/Library/HtcLeoPlatformResetLib/HtcLeoPlatformResetLib.c asks of the modem.
use Prim.Native.Nat.{bit_xor}
use htc_leo_pkg.Base.{
  ℕ, ◌+◌, ◌≤◌, ◌≡◌, ◌≢◌, refl, ap, Option, none, some, arith, ◌==◌, if◌then◌else◌,
}
use htc_leo_pkg.Pcom.{Line, Modem, Reply, pcom_cmd_idle, pcom_cmd_done, word_at}
use htc_leo_pkg.Pcom.Answer.{Answer, Serves, msm_proc_comm-answer}
use htc_leo_pkg.Reset.{
  ResetType, efi_reset_cold, efi_reset_warm, efi_reset_shutdown, efi_reset_platform_specific,
  efi_reset_other, invalid_parameter, Phone, Ended, forever, returns, call_forever, htcleo_reboot,
  lib_reset_system, lk_bootreason_addr, mark_lk_tag, andrboot_mode,
}

-- The command of a type of reset and its first word, and the words of the memory before it is sent
pub data Request : Type 0 where
  refused : Request
  asks : ℕ → ℕ → ((ℕ → ℕ) → ℕ → ℕ) → Request

-- The boot loader finds the reason, and the reason marked as one.
abbrev pub marked : ℕ → (ℕ → ℕ) → ℕ → ℕ
marked reason words x =
    if x == lk_bootreason_addr + 4
    then bit_xor reason mark_lk_tag
    else if x == lk_bootreason_addr
    then reason
    else words x

abbrev pub request : ResetType → Request
request efi_reset_shutdown = asks 10 0 (λ words. words)
request (efi_reset_other n) = refused
request t = asks 3 andrboot_mode (marked andrboot_mode)

-- How a call ends for a request
abbrev pub EndsAs :
    {M : Type 0} → (ℕ → ℕ → ℕ → Answer) → Request → Phone M → Option (Ended M) → Type 0
EndsAs answer refused p r = r ≡ some (returns invalid_parameter p)
EndsAs answer (asks cmd word before) p r =
    (line : Line _) × (r ≡ some (forever (record { line = line; words = before p.words })))
    × (line.shared.command ≡ pcom_cmd_idle)
    × (line.shared.status ≡ (answer cmd word 0).status)

module _ {M : Type 0} {md : Modem M} {answer : ℕ → ℕ → ℕ → Answer} {n : ℕ} where
  module _ (serves : Serves md answer n) (fuel : ℕ) (enough : n ≤ fuel) where
    call_forever-EndsAs :
        (cmd : ℕ) (d : Option ℕ) (before : (ℕ → ℕ) → ℕ → ℕ) (p : Phone M)
        → cmd ≢ pcom_cmd_done
        → EndsAs answer
            (asks cmd (word_at d) before)
            p
            (call_forever md fuel cmd d (record p { words = before p.words }))
    call_forever-EndsAs cmd d before p ne =
        let (line, ends, idle, status) =
          msm_proc_comm-answer serves fuel cmd d none p.line enough ne in
        (
          line,
          ap
              (λ (r : Option (Reply × Line M)). elim r [
                | none ↦ none
                | some (v, l) ↦ some (forever (record { line = l; words = before p.words }))
              ])
              ends,
          idle,
          status,
        )

    reboot_lem :
        (p : Phone M)
        → EndsAs answer
            (asks 3 andrboot_mode (marked andrboot_mode))
            p
            (htcleo_reboot md fuel andrboot_mode p)
    unfolding htcleo_reboot
    reboot_lem p =
        call_forever-EndsAs 3 (some andrboot_mode) (marked andrboot_mode) p
          (λ e. absurd (omega (arith, e)))

    -- With a modem that keeps to the protocol and the fuel for its readings: a cold, warm or platform specific reset
    -- leaves ANDRBOOT_MODE and its marked form in the two words for the boot loader, has the modem's answer to
    -- the reset of the chip for that reason, and never returns; a shutdown leaves the memory, has the answer to
    -- PCOM_POWER_DOWN, and never returns.
    -- Any other type returns EFI_INVALID_PARAMETER with nothing done.
    pub lib_reset_system-EndsAs :
        (t : ResetType) (p : Phone M) → EndsAs answer (request t) p (lib_reset_system md fuel t p)
    unfolding lib_reset_system
    lib_reset_system-EndsAs efi_reset_cold p = reboot_lem p
    lib_reset_system-EndsAs efi_reset_warm p = reboot_lem p
    lib_reset_system-EndsAs efi_reset_platform_specific p = reboot_lem p
    lib_reset_system-EndsAs efi_reset_shutdown p =
        call_forever-EndsAs 10 none (λ words. words) p (λ e. absurd (omega (arith, e)))
    lib_reset_system-EndsAs (efi_reset_other k) p = refl
