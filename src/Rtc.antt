-- ===== src/Rtc.antt =====
-- HtcLeoPkg/Library/VirtualRealTimeClockLib/VirtualRealTimeClockLib.c: the clock that counts from the start.
-- The performance counter and PcdMsmDgtTimerFreq are arguments; a field of one byte wraps.
pub mod Fields
use htc_leo_pkg.Base.{ℕ, ◌+◌, ◌/◌, ◌%◌, Bool, Option, none, some, ◌==◌, if◌then◌else◌}

pub data RtcStatus : Type 0 where
  success invalid_parameter device_error unsupported : RtcStatus

-- `EFI_TIME`; time zone, daylight and nanoseconds are 0.
pub record EfiTime : Type 0 where
  pub year : ℕ
  pub month : ℕ
  pub day : ℕ
  pub hour : ℕ
  pub minute : ℕ
  pub second : ℕ

-- `BaseTime`
pub record BaseTime : Type 0 where
  pub year : ℕ
  pub month : ℕ

-- `EFI_TIME_CAPABILITIES`
pub record Capabilities : Type 0 where
  pub accuracy : ℕ
  pub resolution : ℕ
  pub sets_to_zero : Bool

-- `LibRtcInitialize`
unfoldable pub lib_rtc_initialize : BaseTime → RtcStatus × BaseTime
lib_rtc_initialize b = (success, record { year = 2019; month = 1 })

-- The fields from the elapsed seconds
unfoldable pub time_of : BaseTime → ℕ → EfiTime
time_of b elapsed =
    let in_day = elapsed % 86400 in
    let in_hour = in_day % 3600 in
    record {
      year = b.year;
      month = b.month;
      day = elapsed / 86400 % 256;
      hour = in_day / 3600 % 256;
      minute = in_hour / 60 % 256;
      second = in_hour % 60 % 256;
    }

-- `LibGetTime`: `time` says whether there is an address to write to, and `wanted` whether the
-- capabilities are asked for; an assertion stands before the test of the frequency, which ends it the
-- same way in a build without assertions.
unfoldable pub lib_get_time :
    BaseTime → ℕ → ℕ → Bool → Bool → RtcStatus × Option EfiTime × Option Capabilities
unfolding time_of
lib_get_time b freq counter time wanted =
    if time
    then (if freq == 0 then (device_error, none, none) else (
      success,
      some (time_of b (counter / freq)),
      (if wanted
          then some (record { accuracy = 0; resolution = freq; sets_to_zero = Bool.false })
          else none),
    ))
    else (invalid_parameter, none, none)

-- `LibSetTime`, `LibGetWakeupTime` and `LibSetWakeupTime`
unfoldable pub lib_set_time : EfiTime → RtcStatus
lib_set_time t = unsupported
