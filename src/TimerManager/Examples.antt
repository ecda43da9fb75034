-- ===== src/TimerManager/Examples.antt =====
-- Tests of TimerManager.h on a concrete process, and instances of its theorems.
use msglib_cpp.Common.{ℕ, ◌+◌, ◌*◌, ◌≤◌, ◌<◌, ◌≡◌, refl, true, false, some, arith}
use msglib_cpp.Common.Int.{pos, neg}
use msglib_cpp.Common.State.{done, fault, dangling_timer}
use msglib_cpp.TimeConv.{timeval2timespec}
use msglib_cpp.TimerManagerData.{
  one_shot, periodic, spec_of, returned, threw, not_started, TimerResources, TimerManagerData,
}
use msglib_cpp.TimerManagerData.Consistent.{IsConsistent}
use msglib_cpp.TimerManagerData.Process.{
  Process, process_timers, counted_memory, no_timers, idle, idle-IsConsistent,
}
use msglib_cpp.TimerManager.{
  start_timer_duration, start_timer_timeval, start_timer_at, cancel_timer,
}
use msglib_cpp.TimerManager.Instants.{start_timer_at_lem}
use msglib_cpp.TimerManager.Durations.{start_timer_duration_lem}

-- A million microseconds are refused.
too_many_microseconds :
    start_timer_timeval 7 (record { sec = pos 1; usec = pos 1000000 }) one_shot idle
    ≡ done (returned false, idle)
unfolding start_timer_timeval timeval2timespec
too_many_microseconds = refl

-- 1500 milliseconds for label 9.
start_timer_duration_lem_example :
    (s ns : ℕ) × (d' : TimerManagerData Process ℕ) × (x' : TimerResources ℕ) × (start_timer_duration
        9 1000 1000000 1
        (pos 1500)
        periodic
        idle
      ≡ done (returned true, d'))
    × IsConsistent d' x'
    × (x'.slots 9 ≡ some 0)
    × (process_timers.timer d'.kernel 0
        ≡ some (0, spec_of (record { sec = pos s; nsec = pos ns }) periodic))
    × (ns < 1000000000)
    × ((s * 1000000000 + ns) * 1 ≤ 1500 * 1000000)
    × (1500 * 1000000 < (s * 1000000000 + ns) * 1 + 1)
start_timer_duration_lem_example =
    start_timer_duration_lem idle no_timers 9 1000 1000000 1 1500 periodic 0 0 1 _ (omega arith)
      (omega arith) (omega arith) idle-IsConsistent refl refl refl

-- Seven and a half seconds before the epoch.
start_timer_at_lem_example :
    (d' : TimerManagerData Process ℕ) × (start_timer_at 9 (neg 7500000000) idle
      ≡ done (threw not_started, d'))
    × (start_timer_at 9 (pos 7500000000) d' ≡ done (returned false, d'))
    × (cancel_timer 9 d' ≡ fault dangling_timer)
start_timer_at_lem_example =
    (start_timer_at_lem idle no_timers 9 7500000000 0 0 1 _ idle-IsConsistent refl refl refl).2
      (omega arith)
