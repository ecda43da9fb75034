-- ===== src/TimerManager.antt =====
-- include/msglib/TimerManager.h: the calls of the clients on the static TimerManagerData, which is
-- what they take and return here. The signal masks are POSIX calls, given by their results.
pub mod Durations
pub mod Instants
mod Examples
use msglib_cpp.Common.{ℕ, Bool, true, false, Option}
use msglib_cpp.Common.Int.{ℤ, pos, ◌-ℤ◌, times, quot}
use msglib_cpp.Common.State.{Outcome, done, Action}
use msglib_cpp.TimeConv.{Timespec, Timeval, chrono2timespec, timeval2timespec}
use msglib_cpp.TimerManagerData
use msglib_cpp.TimerManagerData.{
  TimerType, one_shot, Result, returned, TimerResources, TimerManagerData,
}
use msglib_cpp.TimerManagerData.Api.{TimerApi, TimerMemory, zero_time}

-- Did `sigemptyset`, `sigaddset`, `sigprocmask` and `pthread_sigmask` return 0?
pub record MaskCalls : Type 0 where
  pub emptyset : Bool
  pub addset : Bool
  pub process_mask : Bool
  pub thread_mask : Bool

module _ {Kernel Heap : Type 0} where
  -- `Initialize`
  unfoldable pub initialize :
      MaskCalls → Option (TimerResources Heap) → Action (TimerManagerData Kernel Heap) Bool
  initialize calls made d = elim calls.emptyset [
    | false ↦ done (false, d)
    | true ↦ elim calls.addset [
      | false ↦ done (false, d)
      | true ↦ elim calls.process_mask [
        | false ↦ done (false, d)
        | true ↦ elim calls.thread_mask [
          | false ↦ done (false, d)
          | true ↦ TimerManagerData.initialize made d
        ]
      ]
    ]
  ]

module _ {Kernel Heap : Type 0} ⦃k : TimerApi Kernel⦄ ⦃m : TimerMemory Heap⦄ where
  -- `StartTimer` with a timespec.
  unfoldable pub start_timer :
      ℕ → Timespec → TimerType → Action (TimerManagerData Kernel Heap) Result
  start_timer label time type = TimerManagerData.start_timer label time type

  -- `StartTimer` with a timeval.
  unfoldable pub start_timer_timeval :
      ℕ → Timeval → TimerType → Action (TimerManagerData Kernel Heap) Result
  start_timer_timeval label time type d =
      let (ok, ts) = timeval2timespec time zero_time in
      elim ok [
        | true ↦ TimerManagerData.start_timer label ts type d
        | false ↦ done (returned false, d)
      ]

  -- `StartTimer` with a duration, whose period is as in `chrono2timespec`.
  unfoldable pub start_timer_duration :
      ℕ → ℕ → ℕ → ℕ → ℤ → TimerType → Action (TimerManagerData Kernel Heap) Result
  start_timer_duration label den num div count type =
      TimerManagerData.start_timer label (chrono2timespec den num div count) type

  -- `StartTimer` with a time_point of a clock that counts nanoseconds since its epoch.
  unfoldable pub start_timer_at : ℕ → ℤ → Action (TimerManagerData Kernel Heap) Result
  start_timer_at label time =
      let secs = quot time 1000000000 in
      let ns = time -ℤ times secs 1000000000 in
      TimerManagerData.start_timer label (record { sec = secs; nsec = ns }) one_shot

  -- `CancelTimer`
  unfoldable pub cancel_timer : ℕ → Action (TimerManagerData Kernel Heap) Bool
  cancel_timer label = TimerManagerData.cancel_timer label
