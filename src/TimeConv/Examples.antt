-- ===== src/TimeConv/Examples.antt =====
-- Tests of TimeConv.h and instances of its theorems.
use msglib_cpp.Common.{ℕ, ◌+◌, ◌*◌, ◌≤◌, ◌<◌, ◌≡◌, refl, true, arith, ltb}
use msglib_cpp.Common.Int.{pos, negsuc, neg}
use msglib_cpp.TimeConv.{Timespec, chrono2timespec, timeval2timespec}
use msglib_cpp.TimeConv.Exact.{chrono2timespec_lem, timeval2timespec_lem}

-- 5250 milliseconds, and minus one millisecond.
milliseconds :
    chrono2timespec 1000 1000000 1 (pos 5250) ≡ record { sec = pos 5; nsec = pos 250000000 }
unfolding chrono2timespec
milliseconds = refl

minus_one : chrono2timespec 1000 1000000 1 (negsuc 0) ≡ record { sec = pos 0; nsec = negsuc 999999 }
unfolding chrono2timespec
minus_one = refl

abbrev unset : Timespec
unset = record { sec = pos 0; nsec = pos 0 }

-- A negative number of microseconds passes the test.
negative_usec :
    timeval2timespec (record { sec = pos 1; usec = negsuc 4 }) unset
    ≡ (true, record { sec = pos 1; nsec = negsuc 4999 })
unfolding timeval2timespec
negative_usec = refl

-- A duration in thirds of a second: 10^9 / 3 nanoseconds are one period.
chrono2timespec_lem_example :
    (s k : ℕ) × (chrono2timespec 3 1000000000 3 (pos 7) ≡ record { sec = pos s; nsec = pos k })
    × (chrono2timespec 3 1000000000 3 (neg 7) ≡ record { sec = neg s; nsec = neg k })
    × (k < 1000000000)
    × ((s * 1000000000 + k) * 3 ≤ 7 * 1000000000)
    × (7 * 1000000000 < (s * 1000000000 + k) * 3 + 3)
chrono2timespec_lem_example =
    chrono2timespec_lem 3 1000000000 3 (omega arith) (omega arith) (omega arith) 7

timeval2timespec_lem_example :
    let (ok, ts') = timeval2timespec (record { sec = pos 2; usec = pos 1000000 }) unset in
    (ok ≡ ltb 1000000 1000000)
    × (1000000 < 1000000
        → (k : ℕ) × (ts' ≡ record { sec = pos 2; nsec = pos k })
          × (k ≡ 1000000 * 1000)
          × (k ≤ 999999000))
    × (1000000 ≤ 1000000 → ts' ≡ unset)
timeval2timespec_lem_example = timeval2timespec_lem (pos 2) 1000000 unset
