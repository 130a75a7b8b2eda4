-- ===== src/Reset.antt =====
-- HtcLeoPkg/Library/HtcLeoPlatformResetLib/HtcLeoPlatformResetLib.c: the reset of the phone through the modem. The words
-- of the memory that the boot loader reads are a function of the address.
pub mod Outcome
use Prim.Native.Nat.{bit_xor}
use htc_leo_pkg.Base.{ℕ, ◌+◌, Option, none, some, ◌==◌, if◌then◌else◌}
use htc_leo_pkg.Pcom.{Line, Modem, Reply, msm_proc_comm}

pub data ResetType : Type 0 where
  efi_reset_cold efi_reset_warm efi_reset_shutdown efi_reset_platform_specific : ResetType
  efi_reset_other : ℕ → ResetType

pub data ResetStatus : Type 0 where
  invalid_parameter : ResetStatus

abbrev pub lk_bootreason_addr : ℕ
lk_bootreason_addr = 0x2FFB0000

abbrev pub mark_lk_tag : ℕ
mark_lk_tag = 0x004B4C63

abbrev pub andrboot_mode : ℕ
andrboot_mode = 0x77665501

-- The line to the modem and the words of the memory
pub record Phone (M : Type 0) : Type 0 where
  pub line : Line M
  pub words : ℕ → ℕ

-- `for (;;);`, or a return
pub data Ended (M : Type 0) : Type 0 where
  forever : Phone M → Ended M
  returns : ResetStatus → Phone M → Ended M

abbrev pub writel : ℕ → ℕ → (ℕ → ℕ) → ℕ → ℕ
writel v a words x = if x == a then v else words x

-- `none` while the modem does not answer within the fuel
module _ {M : Type 0} (md : Modem M) (fuel : ℕ) where
  abbrev pub call_forever : ℕ → Option ℕ → Phone M → Option (Ended M)
  call_forever cmd data1 p = elim (msm_proc_comm md fuel cmd data1 none p.line) [
    | none ↦ none
    | some (r, line) ↦ some (forever (record p { line = line }))
  ]

  -- PCOM_RESET_CHIP is 3 and PCOM_POWER_DOWN is 10.
  unfoldable pub reboot : ℕ → Phone M → Option (Ended M)
  reboot reboot_reason p = call_forever 3 (some reboot_reason) p

  unfoldable pub htcleo_reboot : ℕ → Phone M → Option (Ended M)
  unfolding reboot
  htcleo_reboot reboot_reason p =
      let words = writel reboot_reason lk_bootreason_addr p.words in
      reboot reboot_reason (record p {
        words = writel (bit_xor reboot_reason mark_lk_tag) (lk_bootreason_addr + 4) words;
      })

  unfoldable pub htcleo_shutdown : Phone M → Option (Ended M)
  htcleo_shutdown p = call_forever 10 none p

  unfoldable pub reset_cold : Phone M → Option (Ended M)
  unfolding htcleo_reboot
  reset_cold p = htcleo_reboot andrboot_mode p

  unfoldable pub reset_warm : Phone M → Option (Ended M)
  unfolding reset_cold
  reset_warm p = reset_cold p

  unfoldable pub reset_shutdown : Phone M → Option (Ended M)
  unfolding htcleo_shutdown
  reset_shutdown p = htcleo_shutdown p

  unfoldable pub reset_platform_specific : Phone M → Option (Ended M)
  unfolding htcleo_reboot
  reset_platform_specific p = htcleo_reboot andrboot_mode p

  unfoldable pub lib_reset_system : ResetType → Phone M → Option (Ended M)
  unfolding reset_cold reset_warm reset_shutdown reset_platform_specific
  lib_reset_system efi_reset_cold p = reset_cold p
  lib_reset_system efi_reset_warm p = reset_warm p
  lib_reset_system efi_reset_shutdown p = reset_shutdown p
  lib_reset_system efi_reset_platform_specific p = reset_platform_specific p
  lib_reset_system (efi_reset_other n) p = some (returns invalid_parameter p)
