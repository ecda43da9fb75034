-- ===== src/TimerManagerData/Session.antt =====
-- TimerManagerData.h: any sequence of `startTimer`, `cancelTimer` and events of timers that the
-- process has, with anything that happens to the mailboxes between them.
pub mod Kept
pub mod Lifetime
use msglib_cpp.Common.{
  ℕ, ◌+◌, ◌≤◌, ◌≡◌, refl, ap, subst, Bool, true, false, Option, none, some, arith, Option-cases,
  inl, inr, ◌⊎◌,
}
use msglib_cpp.Common.State.{Outcome, done, Outcome-cases}
use msglib_cpp.TimeConv.{Timespec}
use msglib_cpp.Mailbox.{World, send_signal}
use msglib_cpp.TimerManagerData.{
  Timer, TimerType, periodic, one_shot, spec_of, Result, returned, threw, bad_alloc, not_started,
  TimerResources, TimerManagerData, Program, start_timer, cancel_timer, construct, handle_signal,
  timer_event, initialize, new_resources,
}
use msglib_cpp.TimerManagerData.Api.{TimerApi, TimerMemory, Itimerspec, max_timers, is_nsec}
use msglib_cpp.TimerManagerData.Consistent.{IsConsistent, object-none}
use msglib_cpp.TimerManagerData.Calls.{
  start_timer-Begun, start_timer-taken, cancel_timer-taken, cancel_timer-none,
}
use msglib_cpp.TimerManagerData.Events.{TimerType-cases}

module _ {Arena Kernel Heap : Type 0} ⦃k : TimerApi Kernel⦄ ⦃m : TimerMemory Heap⦄ where
  -- One step from `s` to `t`; the number is that of timers it starts.
  pub data Step (s t : Program Arena Kernel Heap) : ℕ → Type 0 where
    starts :
        (label : ℕ) (time : Timespec) (type : TimerType) (d : TimerManagerData Kernel Heap)
        → start_timer label time type s.timers ≡ done (returned true, d)
        → t ≡ record s { timers = d }
        → Step s t 1
    refuses :
        (label : ℕ) (time : Timespec) (type : TimerType) (d : TimerManagerData Kernel Heap)
        → start_timer label time type s.timers ≡ done (returned false, d)
        → t ≡ record s { timers = d }
        → Step s t 0
    runs_out :
        (label : ℕ) (time : Timespec) (type : TimerType) (d : TimerManagerData Kernel Heap)
        → start_timer label time type s.timers ≡ done (threw bad_alloc, d)
        → t ≡ record s { timers = d }
        → Step s t 0
    cancels :
        (label : ℕ) (ok : Bool) (d : TimerManagerData Kernel Heap)
        → cancel_timer label s.timers ≡ done (ok, d)
        → t ≡ record s { timers = d }
        → Step s t 0
    -- The signal of a timer that the process has.
    fires :
        (id p : ℕ) (spec : Itimerspec) (ok : Bool)
        → k.timer s.timers.kernel id ≡ some (p, spec)
        → handle_signal (some p) s ≡ done (ok, t)
        → Step s t 0
    elsewhere : (w : World Arena) → t ≡ record s { world = w } → Step s t 0

  pub data Reach (s : Program Arena Kernel Heap) : Program Arena Kernel Heap → ℕ → Type 0 where
    here : Reach s s 0
    next :
        {t u : Program Arena Kernel Heap} (n i : ℕ) → Reach s t n → Step t u i → Reach s u (n + i)
