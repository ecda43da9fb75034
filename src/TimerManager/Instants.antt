-- ===== src/TimerManager/Instants.antt =====
-- TimerManager.h: `StartTimer` with a time_point, from the time since the epoch of its clock to the
-- timer of the process.
use msglib_cpp.Common.{
  ℕ, suc, zero, ◌+◌, ◌*◌, ◌/◌, ◌%◌, ◌<◌, ◌≡◌, refl, true, false, none, some, arith, lt→ltb,
}
use native.Mathlib.Nat.{mod-lt, div-add-mod}
use msglib_cpp.Common.Int.{pos, neg, quot}
use msglib_cpp.Common.State.{done, fault, dangling_timer}
use msglib_cpp.TimeConv.{Timespec}
use msglib_cpp.TimeConv.Exact.{seconds-pos, seconds-neg}
use msglib_cpp.TimerManagerData.{
  one_shot, returned, threw, not_started, spec_of, TimerResources, TimerManagerData,
}
use msglib_cpp.TimerManagerData.Api.{TimerApi, TimerMemory, is_nsec, zero_time, disarmed}
use msglib_cpp.TimerManagerData.Consistent.{IsConsistent}
use msglib_cpp.TimerManagerData.Calls.{start_timer-free}
use msglib_cpp.TimerManagerData.Failures.{start_timer-invalid}
use msglib_cpp.TimerManager.{start_timer_at, cancel_timer}

neg-is_nsec : (n : ℕ) → 0 < n → is_nsec (neg n) ≡ false
neg-is_nsec zero h = absurd (omega arith)
neg-is_nsec (suc n) h = refl

module _ {Kernel Heap : Type 0} ⦃k : TimerApi Kernel⦄ ⦃m : TimerMemory Heap⦄ where
  -- For a label that has no timer, where memory and a timer of the process can be had, and for a time
  -- that is `n` nanoseconds after the epoch of its clock, with `n` above 0, `StartTimer` returns true
  -- and sets a timer that expires once, `n` nanoseconds from now and not at that time: its value is
  -- not zero. For the time of the epoch itself it returns true as well, but the setting is that of a
  -- disarmed timer, which never expires. For a time `n` nanoseconds before the epoch that is no whole
  -- number of seconds, it throws; the label stays taken, so that a later `StartTimer` returns false,
  -- and `CancelTimer` uses a timer that was never constructed.
  pub start_timer_at_lem :
      (d : TimerManagerData Kernel Heap) (x : TimerResources Heap) (label n p id : ℕ) (a : Heap)
      (kernel : Kernel)
      → IsConsistent d x
      → x.slots label ≡ none
      → m.allocate x.heap ≡ some (p, a)
      → k.create d.kernel p ≡ some (id, kernel)
      → (0 < n
          → (s ns : ℕ) × (d' : TimerManagerData Kernel Heap) × (x' : TimerResources Heap)
            × (start_timer_at label (pos n) d ≡ done (returned true, d'))
            × IsConsistent d' x'
            × (x'.slots label ≡ some p)
            × (k.timer d'.kernel id
                ≡ some (
                  p,
                  record { value = record { sec = pos s; nsec = pos ns }; interval = zero_time },
                ))
            × (ns < 1000000000)
            × (s * 1000000000 + ns ≡ n)
            × (0 < s + ns))
        × ((d' : TimerManagerData Kernel Heap) × (x' : TimerResources Heap) × (start_timer_at label
                (pos 0)
                d
              ≡ done (returned true, d'))
            × IsConsistent d' x'
            × (x'.slots label ≡ some p)
            × (k.timer d'.kernel id ≡ some (p, disarmed)))
        × (0 < n % 1000000000
            → (d' : TimerManagerData Kernel Heap) × (start_timer_at label (neg n) d
                ≡ done (threw not_started, d'))
              × (start_timer_at label (pos n) d' ≡ done (returned false, d'))
              × (cancel_timer label d' ≡ fault dangling_timer))
  unfolding start_timer_at cancel_timer spec_of
  start_timer_at_lem d x label n p id a kernel v free al cr =
      let secs = n / 1000000000 in
      let ns = n % 1000000000 in
      let lt : ns < 1000000000 = mod-lt n (omega arith) in
      let time : Timespec = record { sec = pos secs; nsec = pos ns } in
      let (d', x', (run, v', slots, timer, used)) =
        start_timer-free d x label time one_shot v free (lt→ltb ns 1000000000 lt) p id a kernel al
          cr in
      let (d₀, x₀, (run₀, v₀, slots₀, timer₀, used₀)) =
        start_timer-free d x label zero_time one_shot v free refl p id a kernel al cr in
      (
        λ later. (
          secs,
          ns,
          d',
          x',
          rw (seconds-pos n) run,
          v',
          ground (arith, slots label),
          ground (arith, timer id),
          lt,
          omega (arith, div-add-mod n 1000000000),
          omega (arith, div-add-mod n 1000000000),
        ),
        (
          d₀,
          x₀,
          rw (seconds-pos 0) run₀,
          v₀,
          ground (arith, slots₀ label),
          ground (arith, timer₀ id),
        ),
        λ some_left.
            rw (seconds-pos n, seconds-neg n)
              (start_timer-invalid d x label p id
                (record { sec = quot (neg n) 1000000000; nsec = neg ns }) time one_shot one_shot a
                kernel v free (neg-is_nsec ns some_left) al cr),
      )
