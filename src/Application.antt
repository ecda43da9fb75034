-- ===== src/Application.antt =====
-- A program like example/timer.cpp as a whole: threads with mailboxes, timers, the handler thread of
-- TimerManagerData.h, and the signals of timers that the process has pending. Worker has the threads,
-- TimerManagerData the timers and the handler; here they share one state.
pub mod Timers
pub mod Safety
pub mod Start
pub mod Ends
pub mod Untidy
mod Examples
use msglib_cpp.Common.{
  ℕ, ◌≡◌, ◌⊎◌, Bool, true, false, Option, none, some, List, [], ◌∷◌, ◌++◌, get_elem?, set,
}
use msglib_cpp.Common.State.{done, Action, ◌>>=◌, pure}
use msglib_cpp.Pool.Resource.{MemoryResource}
use msglib_cpp.TimeConv.{Timespec}
use msglib_cpp.Message.{Message}
use msglib_cpp.Mailbox.{World, send_message, send_signal}
use msglib_cpp.TimerManagerData.{
  TimerType, Result, returned, threw, bad_alloc, TimerResources, TimerManagerData, Program,
  handle_signal, on_world, on_timers,
}
use msglib_cpp.TimerManagerData.Api.{TimerApi, TimerMemory, Itimerspec}
use msglib_cpp.TimerManager.{start_timer, cancel_timer}
use msglib_cpp.Worker.{Script, Phase, handling, step}
use msglib_cpp.Worker.Owing.{elem}

-- A thread: what it does with mailboxes, and for which labels the body of its loop cancels a timer,
-- given the label of the message.
pub record Thread : Type 0 where
  pub script : Script
  pub cancels : ℕ → List ℕ

-- `pending` are the pointers of the pending SIGRTMIN, oldest first. Thread `i` has the mailbox `i`.
pub record Application (Arena Kernel Heap : Type 0) : Type 0 where
  pub program : Program Arena Kernel Heap
  pub pending : List ℕ
  pub phases : List Phase

-- The labels whose timers the step of a thread cancels.
abbrev pub cancelled : Thread → Phase → List ℕ
cancelled th (handling m) = th.cancels m.label
cancelled th _ = []

-- The pointer that m_timers has for a label.
abbrev pub pointer_of : {Heap : Type 0} → Option (TimerResources Heap) → ℕ → Option ℕ
pointer_of none l = none
pointer_of (some x) l = x.slots l

module _ {Kernel Heap : Type 0} ⦃k : TimerApi Kernel⦄ ⦃m : TimerMemory Heap⦄ where
  unfoldable pub cancel_each : List ℕ → Action (TimerManagerData Kernel Heap) (Unit {0})
  cancel_each [] = pure tt
  cancel_each (l ∷ ls) = do ok ← cancel_timer l; cancel_each ls

module _ {Arena Kernel Heap : Type 0} ⦃r : MemoryResource Arena⦄ ⦃k : TimerApi Kernel⦄
    ⦃m : TimerMemory Heap⦄ where
  -- One step of a thread with the mailbox `this`.
  unfoldable pub thread_step : Thread → ℕ → Phase → Action (Program Arena Kernel Heap) Phase
  unfolding cancel_each
  thread_step th this p = do
    cancelling ← on_timers (cancel_each (cancelled th p))
    on_world (step th.script this p)

  -- None of the labels has a timer with a pending signal.
  abbrev pub IsQuiet : Program Arena Kernel Heap → List ℕ → List ℕ → Type 0
  IsQuiet s labels pending =
      (l p : ℕ)
      → elem l labels ≡ true
      → pointer_of s.timers.resources l ≡ some p
      → elem p pending ≡ false

  module _ (threads : List Thread) where
    -- The steps of the program. A `StartTimer` that throws from the constructor of `Timer` is none,
    -- and neither is a `CancelTimer` for a timer with a pending signal.
    pub data Step (s t : Application Arena Kernel Heap) : Type 0 where
      moves :
          (i : ℕ) (th : Thread) (p p' : Phase) (s' : Program Arena Kernel Heap)
          → get_elem? threads i ≡ some th
          → get_elem? s.phases i ≡ some p
          → IsQuiet s.program (cancelled th p) s.pending
          → thread_step th i p s.program ≡ done (p', s')
          → t ≡ record s { program = s'; phases = set s.phases i p' }
          → Step s t
      -- `main` sends a message or a signal.
      sends :
          (label : ℕ) (bytes : List ℕ) (ok : Bool) (w : World Arena)
          → send_message label bytes s.program.world ≡ done (ok, w)
          → t ≡ record s { program = record s.program { world = w } }
          → Step s t
      signalled :
          (label : ℕ) (ok : Bool) (w : World Arena)
          → send_signal label s.program.world ≡ done (ok, w)
          → t ≡ record s { program = record s.program { world = w } }
          → Step s t
      -- `main` starts a timer.
      starts :
          (label : ℕ) (time : Timespec) (type : TimerType) (res : Result)
          (d : TimerManagerData Kernel Heap)
          → start_timer label time type s.program.timers ≡ done (res, d)
          → (res ≡ threw bad_alloc) ⊎ ((b : Bool) × (res ≡ returned b))
          → t ≡ record s { program = record s.program { timers = d } }
          → Step s t
      -- A timer of the process expires. It has one signal pending at most.
      fires :
          (id p : ℕ) (spec : Itimerspec)
          → k.timer s.program.timers.kernel id ≡ some (p, spec)
          → elem p s.pending ≡ false
          → t ≡ record s { pending = s.pending ++ p ∷ [] }
          → Step s t
      -- The handler thread takes a signal and handles it.
      handles :
          (p : ℕ) (ps : List ℕ) (ok : Bool) (s' : Program Arena Kernel Heap)
          → s.pending ≡ p ∷ ps
          → handle_signal (some p) s.program ≡ done (ok, s')
          → t ≡ record s { program = s'; pending = ps }
          → Step s t

    pub data Reach (s : Application Arena Kernel Heap)
        : Application Arena Kernel Heap → Type 0 where
      here : Reach s s
      next : {t u : Application Arena Kernel Heap} → Reach s t → Step t u → Reach s u
