-- ===== src/TimerManager/Durations.antt =====
-- TimerManager.h: `StartTimer` with a duration, from the duration to the timer of the process.
use msglib_cpp.Common.{ℕ, ◌+◌, ◌*◌, ◌≤◌, ◌<◌, ◌≡◌, true, none, some, arith, lt→ltb}
use msglib_cpp.Common.Int.{pos}
use msglib_cpp.Common.State.{done}
use msglib_cpp.TimeConv.{Timespec}
use msglib_cpp.TimeConv.Exact.{chrono2timespec_lem}
use msglib_cpp.TimerManagerData.{TimerType, spec_of, returned, TimerResources, TimerManagerData}
use msglib_cpp.TimerManagerData.Api.{TimerApi, TimerMemory}
use msglib_cpp.TimerManagerData.Consistent.{IsConsistent}
use msglib_cpp.TimerManagerData.Calls.{start_timer-free}
use msglib_cpp.TimerManager.{start_timer_duration}

module _ {Kernel Heap : Type 0} ⦃k : TimerApi Kernel⦄ ⦃m : TimerMemory Heap⦄ where
  -- A duration that is not negative, for a label that has no timer, where memory and a timer of the
  -- process can be had: `StartTimer` returns true, and the process has a timer, with a pointer to
  -- the label's timer, for the duration rounded down to a nanosecond.
  pub start_timer_duration_lem :
      (d : TimerManagerData Kernel Heap) (x : TimerResources Heap) (label den num div n : ℕ)
      (type : TimerType) (p id : ℕ) (a : Heap) (kernel : Kernel)
      → 0 < den
      → 0 < div
      → num * den ≡ 1000000000 * div
      → IsConsistent d x
      → x.slots label ≡ none
      → m.allocate x.heap ≡ some (p, a)
      → k.create d.kernel p ≡ some (id, kernel)
      → (s ns : ℕ) × (d' : TimerManagerData Kernel Heap) × (x' : TimerResources Heap)
        × (start_timer_duration label den num div (pos n) type d ≡ done (returned true, d'))
        × IsConsistent d' x'
        × (x'.slots label ≡ some p)
        × (k.timer d'.kernel id ≡ some (p, spec_of (record { sec = pos s; nsec = pos ns }) type))
        × (ns < 1000000000)
        × ((s * 1000000000 + ns) * div ≤ n * num)
        × (n * num < (s * 1000000000 + ns) * div + div)
  unfolding start_timer_duration
  start_timer_duration_lem d x label den num div n type p id a kernel dp vp ratio v free al cr =
      let (s, ns, conv, negative, lt, lower, upper) =
        chrono2timespec_lem den num div dp vp ratio n in
      let time : Timespec = record { sec = pos s; nsec = pos ns } in
      let (d', x', (run, v', slots, timer, used)) =
        start_timer-free d x label time type v free (lt→ltb ns 1000000000 lt) p id a kernel al cr in
      (
        s,
        ns,
        d',
        x',
        rw conv run,
        v',
        ground (arith, slots label),
        ground (arith, timer id),
        lt,
        lower,
        upper,
      )
