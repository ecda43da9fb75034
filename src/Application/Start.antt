-- ===== src/Application/Start.antt =====
-- A program as a whole, from `Initialize` of Msglib.h on.
use msglib_cpp.Common.{
  ℕ, ◌<◌, ◌^◌, ◌≡◌, Bool, true, false, Option, none, some, List, [], ◌∷◌, arith, get_elem?,
  Bool-cases, inl, inr,
}
use msglib_cpp.Common.State.{done, Outcome-cases}
use msglib_cpp.Pool.{Memory}
use msglib_cpp.Pool.Resource.{MemoryResource}
use msglib_cpp.TimeConv.{Timespec}
use msglib_cpp.Mailbox
use msglib_cpp.Mailbox.{World, send_message, send_signal}
use msglib_cpp.Mailbox.Sends.{All}
use msglib_cpp.TimerManagerData
use msglib_cpp.TimerManagerData.{
  TimerType, Result, TimerResources, TimerManagerData, Program, handle_signal, new_resources,
}
use msglib_cpp.TimerManagerData.Api.{TimerApi, TimerMemory}
use msglib_cpp.TimerManagerData.Session.Kept
use msglib_cpp.TimerManagerData.Session.Lifetime.{fresh-Inv}
use msglib_cpp.TimerManager
use msglib_cpp.TimerManager.{MaskCalls, start_timer, cancel_timer}
use msglib_cpp.Msglib.{initialize_with}
use msglib_cpp.Worker.{Phase}
use msglib_cpp.Worker.Owing.{IsTidy, carried}
use msglib_cpp.Worker.Calls.{send_message-Healthy, send_signal-Healthy}
use msglib_cpp.Worker.Safety.{All_of_get_elem?}
use msglib_cpp.Worker.Start.{uninitialized_world, not_begun, begun-Inv}
use msglib_cpp.Application.{Thread, Application, thread_step, Reach}
use msglib_cpp.Application.Timers.{start_timer-returns, cancel_timer-returns}
use msglib_cpp.Application.Safety.{
  scripts_of, get_script, Inv, thread_step-runs, handle-runs, Reach-Inv,
}

module _ {Kernel Heap : Type 0} where
  initialize-runs :
      (calls : MaskCalls) (made : Option (TimerResources Heap))
      (d d' : TimerManagerData Kernel Heap)
      → TimerManager.initialize calls made d ≡ done (true, d')
      → TimerManagerData.initialize made d ≡ done (true, d')
  unfolding TimerManager.initialize
  initialize-runs calls made d d' e = ground arith

module _ {Arena Kernel Heap : Type 0} ⦃r : MemoryResource Arena⦄ ⦃k : TimerApi Kernel⦄
    ⦃m : TimerMemory Heap⦄ (threads : List Thread) (memory : Memory) (kernel : Kernel)
    (ss sc ls lc : ℕ) where
  -- Before `Initialize`, where the process has no timer of its own.
  abbrev pub uninitialized_program : Program Arena Kernel Heap
  uninitialized_program = record {
    world = uninitialized_world (scripts_of threads) memory ss sc ls lc;
    timers = record { kernel = kernel; initialized = false; resources = none };
  }

  -- After it.
  abbrev pub begun : Program Arena Kernel Heap → Application Arena Kernel Heap
  begun s = record { program = s; pending = []; phases = not_begun (scripts_of threads) }

  both-initialize :
      (calls : MaskCalls) (made : Option (TimerResources Heap)) {s : Program Arena Kernel Heap}
      → initialize_with calls made ss sc ls lc uninitialized_program ≡ done (true, s)
      → (TimerManager.initialize calls made uninitialized_program.timers ≡ done (true, s.timers))
        × (Mailbox.initialize_with ss sc ls lc uninitialized_program.world ≡ done (true, s.world))
  unfolding initialize_with
  both-initialize calls made {s} e =
      elim (Outcome-cases (TimerManager.initialize calls made uninitialized_program.timers)) [
        | inr (x, f) ↦ absurd (ground arith)
        | inl ((b, d), f) ↦
            elim (Outcome-cases (Mailbox.initialize_with ss sc ls lc uninitialized_program.world)) [
              | inr (x, g) ↦ absurd (ground arith)
              | inl ((c, w), g) ↦ elim (Bool-cases b) [
                | inl y ↦ elim (Bool-cases c) [
                  | inl z ↦ (ground arith, ground arith)
                  | inr z ↦ absurd (ground arith)
                ]
                | inr n ↦ absurd (ground arith)
              ]
            ]
      ]

  pub started-Inv :
      (calls : MaskCalls) (thread : Bool) {s : Program Arena Kernel Heap}
      → ((id : ℕ) → k.timer kernel id ≡ none)
      → initialize_with calls (new_resources (λ l. none) thread) ss sc ls lc uninitialized_program
        ≡ done (true, s)
      → sc < 2 ^ 64
      → lc < 2 ^ 64
      → ls < 2 ^ 16
      → Inv threads (begun s)
  unfolding Kept.Inv
  started-Inv calls thread {s} no_timers e scb lcb lsb =
      let (timers, world) = both-initialize calls (new_resources (λ l. none) thread) e in
      let (x, v, used, le) =
        fresh-Inv kernel thread no_timers
          (initialize-runs calls (new_resources (λ l. none) thread) _ s.timers timers) in
      record {
        running = begun-Inv (scripts_of threads) memory ss sc ls lc world scb lcb lsb;
        timers = x;
        consistent = v;
        due = λ p h. absurd (ground arith);
        distinct = tt;
      }

  -- Let `Initialize` succeed in a process without timers, with m_timers all null, which the source
  -- does not ensure, with fewer than 2^64 blocks of each size and large blocks of fewer than 2^16
  -- bytes, and let every script undo its registrations behind its loop. In each state that the
  -- program can reach, with threads, the sends of main, started and cancelled timers, expiring timers
  -- and the handler thread in any order, where no StartTimer has thrown from the constructor of Timer
  -- and no timer was cancelled while its signal was pending, nothing that comes next is a fault.
  pub program_runs_safely :
      (calls : MaskCalls) (thread : Bool) {s : Program Arena Kernel Heap}
      {t : Application Arena Kernel Heap}
      → ((id : ℕ) → k.timer kernel id ≡ none)
      → initialize_with calls (new_resources (λ l. none) thread) ss sc ls lc uninitialized_program
        ≡ done (true, s)
      → sc < 2 ^ 64
      → lc < 2 ^ 64
      → ls < 2 ^ 16
      → All IsTidy (scripts_of threads)
      → Reach threads (begun s) t
      → ((i : ℕ) (th : Thread) (p : Phase)
          → get_elem? threads i ≡ some th
          → get_elem? t.phases i ≡ some p
          → (p' : Phase) × (s' : Program Arena Kernel Heap) × (thread_step th i p t.program
              ≡ done (p', s')))
        × ((label : ℕ) (bytes : List ℕ)
            → (b : Bool) × (w : World Arena) × (send_message label bytes t.program.world
                ≡ done (b, w)))
        × ((label : ℕ) → (w : World Arena) × (send_signal label t.program.world ≡ done (true, w)))
        × ((label : ℕ) (time : Timespec) (type : TimerType)
            → (res : Result) × (d : TimerManagerData Kernel Heap) × (start_timer label time type
                  t.program.timers
                ≡ done (res, d)))
        × ((label : ℕ)
            → (b : Bool) × (d : TimerManagerData Kernel Heap) × (cancel_timer label t.program.timers
                ≡ done (b, d)))
        × ((p : ℕ) (ps : List ℕ)
            → t.pending ≡ p ∷ ps
            → (s' : Program Arena Kernel Heap) × (handle_signal (some p) t.program
                ≡ done (true, s')))
  program_runs_safely calls thread {s} {t} none_yet e scb lcb lsb tidy reach =
      let v = Reach-Inv threads tidy (started-Inv calls thread none_yet e scb lcb lsb) reach in
      let h = v.running in
      let held = carried t.phases in
      (
        λ i th p f g.
            let (p', s', run, stepped, kept) =
              thread_step-runs threads t v i th p
                (All_of_get_elem? IsTidy (scripts_of threads) i tidy (get_script threads i f)) f
                g in
            (p', s', run),
        λ label bytes.
            let (b, w', x', lost', run, h', same, grows) =
              send_message-Healthy t.program.world h.resources held h.lost label bytes h.healthy in
            (b, w', run),
        λ label.
            let (w', run, h', grows) =
              send_signal-Healthy t.program.world h.resources held h.lost label h.healthy in
            (w', run),
        λ label time type.
            start_timer-returns label time type t.program.timers v.timers v.consistent.resources,
        λ label. cancel_timer-returns label t.program.timers v.timers v.consistent,
        λ p ps f. let (u, s', is, run, sent, v') = handle-runs threads t v p ps f in (s', run),
      )
