-- ===== src/TimeConv.antt =====
-- include/msglib/detail/TimeConv.h: durations and timevals as POSIX timespecs.
pub mod Exact
mod Examples
use msglib_cpp.Common.{ℕ, Bool, true, false, ltb, if◌then◌else◌}
use msglib_cpp.Common.Int.{ℤ, pos, negsuc, ◌-ℤ◌, times, quot}

-- `timespec` and `timeval` of POSIX.
pub record Timespec : Type 0 where
  pub sec : ℤ
  pub nsec : ℤ

pub record Timeval : Type 0 where
  pub sec : ℤ
  pub usec : ℤ

-- `Chrono2Timespec` for a duration of `count` periods of 1/`den` seconds: with an integral
-- representation `dur -= secs` compiles for no other period. `num / div` is the ratio, in lowest
-- terms, of that period to a nanosecond, by which `duration_cast` multiplies and divides.
unfoldable pub chrono2timespec : ℕ → ℕ → ℕ → ℤ → Timespec
chrono2timespec den num div count =
    let secs = quot count den in
    let rest = count -ℤ times secs den in record { sec = secs; nsec = quot (times rest num) div }

-- `tv_usec < SECONDS_TO_USEC`
abbrev is_below_second : ℤ → Bool
is_below_second (pos n) = ltb n 1000000
is_below_second (negsuc n) = true

-- `Timeval2Timespec`: the result and what `ts` is afterwards.
unfoldable pub timeval2timespec : Timeval → Timespec → Bool × Timespec
timeval2timespec tv ts =
    if is_below_second tv.usec
    then (true, record { sec = tv.sec; nsec = times tv.usec 1000 })
    else (false, ts)
