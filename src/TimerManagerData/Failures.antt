-- ===== src/TimerManagerData/Failures.antt =====
-- TimerManagerData.h: a `startTimer` that throws from the constructor of `Timer`.
use msglib_cpp.Common.{ℕ, ◌≡◌, refl, false, none, some, arith, ◌==◌, if◌then◌else◌}
use msglib_cpp.Common.State.{done, fault, dangling_timer}
use msglib_cpp.TimeConv.{Timespec}
use msglib_cpp.TimerManagerData.{
  TimerType, periodic, one_shot, spec_of, returned, threw, not_started, TimerResources,
  TimerManagerData, start_timer, cancel_timer, construct,
}
use msglib_cpp.TimerManagerData.Api.{TimerApi, TimerMemory, is_nsec}
use msglib_cpp.TimerManagerData.Consistent.{IsConsistent, object-none}

spec_of-value : (time : Timespec) (type : TimerType) → (spec_of time type).value ≡ time
unfolding spec_of
spec_of-value time periodic = refl
spec_of-value time one_shot = refl

module _ {Kernel Heap : Type 0} ⦃k : TimerApi Kernel⦄ ⦃m : TimerMemory Heap⦄ where
  -- With nanoseconds that are not those of a second (as a negative duration has), `startTimer` for a
  -- free label throws once it has filled the slot: the label stays taken, so that a later
  -- `startTimer` returns false, and `cancelTimer` uses a timer that was never constructed.
  pub start_timer-invalid :
      (d : TimerManagerData Kernel Heap) (x : TimerResources Heap) (label p id : ℕ)
      (time time' : Timespec) (type type' : TimerType) (a : Heap) (kernel : Kernel)
      → IsConsistent d x
      → x.slots label ≡ none
      → is_nsec time.nsec ≡ false
      → m.allocate x.heap ≡ some (p, a)
      → k.create d.kernel p ≡ some (id, kernel)
      → (d' : TimerManagerData Kernel Heap) × (start_timer label time type d
          ≡ done (threw not_started, d'))
        × (start_timer label time' type' d' ≡ done (returned false, d'))
        × (cancel_timer label d' ≡ fault dangling_timer)
  unfolding start_timer construct cancel_timer
  start_timer-invalid d x label p id time time' type type' a kernel v free bad al cr =
      let (lt, used, new, handed) = m.allocate-some x.heap al in
      let empty = object-none v p new in
      let value = spec_of-value time type in
      let fails : k.settime kernel id (spec_of time type) ≡ none =
        k.settime-invalid kernel id (spec_of time type) (rw value bad) in
      let x' : TimerResources Heap = record x {
        heap = a;
        slots = λ l. if label == l then some p else x.slots l;
      } in
      (
        record d { kernel = kernel; resources = some x' },
        ground (arith, v.resources, fails),
        ground arith,
        ground arith,
      )
