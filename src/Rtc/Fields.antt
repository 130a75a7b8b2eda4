-- ===== src/Rtc/Fields.antt =====
-- The time of HtcLeoPkg/Library/VirtualRealTimeClockLib/VirtualRealTimeClockLib.c.
use htc_leo_pkg.Base.{ℕ, ◌+◌, ◌*◌, ◌/◌, ◌<◌, ◌≡◌, ◌≢◌, refl, Bool, true, some, arith, ==_ne}
use htc_leo_pkg.Rtc.{success, EfiTime, BaseTime, time_of, lib_get_time}

-- The seconds that a time stands for.
abbrev pub seconds : EfiTime → ℕ
seconds t = ((t.day * 24 + t.hour) * 60 + t.minute) * 60 + t.second

-- With a place for the time and a frequency that is not 0, `LibGetTime` succeeds while the performance counter divided
-- by the frequency is below 256 * 86400: it gives the year and month of the base, an hour, minute and second
-- in range, and together with the day they make up that quotient again.
pub lib_get_time_lem :
    (b : BaseTime) (freq counter : ℕ) (wanted : Bool)
    → freq ≢ 0
    → counter / freq < 256 * 86400
    → (t : EfiTime) × ((lib_get_time b freq counter true wanted).1 ≡ some t)
      × ((lib_get_time b freq counter true wanted).0 ≡ success)
      × (t.year ≡ b.year)
      × (t.month ≡ b.month)
      × (t.hour < 24)
      × (t.minute < 60)
      × (t.second < 60)
      × (seconds t ≡ counter / freq)
unfolding lib_get_time time_of
lib_get_time_lem b freq counter wanted ne early =
    let e = counter / freq in
    (
      time_of b e,
      rw (==_ne freq 0 ne) refl,
      rw (==_ne freq 0 ne) refl,
      refl,
      refl,
      omega arith,
      omega arith,
      omega arith,
      omega (arith, early),
    )
