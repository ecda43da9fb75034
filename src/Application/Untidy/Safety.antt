-- ===== src/Application/Untidy/Safety.antt =====
-- A program as a whole, whose threads may leave registrations behind, from the beginning.
use msglib_cpp.Common.{
  ℕ, zero, suc, none, ◌<◌, ◌^◌, ◌≡◌, ◌≢◌, refl, sym, ap, subst, ◌∙◌, Bool, true, false, some, List,
  [], ◌∷◌, arith, get_elem?, set, length, get_elem?-set_self, get_elem?-set_ne,
  lt-length_of_get_elem?,
}
use native.Mathlib.Decide.{ℕ_discrete}
use msglib_cpp.Common.State.{done}
use msglib_cpp.Pool.{Memory}
use msglib_cpp.Pool.Resource.{MemoryResource}
use msglib_cpp.TimeConv.{Timespec}
use msglib_cpp.Mailbox.{World, send_message, send_signal}
use msglib_cpp.Mailbox.Sends.{All}
use msglib_cpp.TimerManagerData.{
  TimerType, Result, TimerManagerData, Program, handle_signal, new_resources,
}
use msglib_cpp.TimerManagerData.Api.{TimerApi, TimerMemory}
use msglib_cpp.TimerManager.{MaskCalls, start_timer, cancel_timer}
use msglib_cpp.Msglib.{initialize_with}
use msglib_cpp.Worker.{Script, Phase, gone, step}
use msglib_cpp.Worker.Owing.{IsTidy}
use msglib_cpp.Worker.Start.{not_begun, nobody}
use msglib_cpp.Worker.Untidy.Simulation.{
  longer, all_followed, all_longer, get_longer, all_longer-set, longer-not_begun, nobody-followed,
}
use msglib_cpp.Worker.Untidy.Safety.{all_followed-IsTidy}
use msglib_cpp.Application.{
  Thread, Application, cancel_each, thread_step, Step, moves, sends, signalled, starts, fires,
  handles, Reach, here, next,
}
use msglib_cpp.Application.Safety.{scripts_of, get_script}
use msglib_cpp.Application.Start.{uninitialized_program, begun, program_runs_safely}
use msglib_cpp.Application.Untidy.{
  followed_thread, followed_threads, scripts-followed, get_followed_thread, cancelled-longer,
  thread_step-followed, thread_step-returns,
}

get_thread :
    (ths : List Thread) (i : ℕ) {sc : Script}
    → get_elem? (scripts_of ths) i ≡ some sc
    → (th : Thread) × (get_elem? ths i ≡ some th) × (th.script ≡ sc)
get_thread [] i e = cc
get_thread (th ∷ ths) zero e = (th, refl, ground arith)
get_thread (th ∷ ths) (suc i) e = get_thread ths i e

followed-IsTidy :
    (f : ℕ → Bool) (ths : List Thread)
    → ((i : ℕ) (th : Thread) → get_elem? ths i ≡ some th → f i ≡ false → IsTidy th.script)
    → All IsTidy (all_followed f (scripts_of ths))
followed-IsTidy f ths tidy =
    all_followed-IsTidy f (scripts_of ths)
      (λ i sc e off. let (th, g, same) = get_thread ths i e in subst IsTidy same (tidy i th g off))

module _ {Arena Kernel Heap : Type 0} ⦃r : MemoryResource Arena⦄ ⦃k : TimerApi Kernel⦄
    ⦃m : TimerMemory Heap⦄ (threads : List Thread) where
  gone_stays :
      {s t : Application Arena Kernel Heap} (j : ℕ)
      → Step threads s t
      → get_elem? s.phases j ≡ some gone
      → get_elem? t.phases j ≡ some gone
  unfolding thread_step cancel_each step
  gone_stays {s} j (moves i th p p' s' e f quiet run g) h = rw g (elim (ℕ_discrete i j) [
    | yes same ↦
        let at_end : p ≡ gone = ground arith in
        let still : p' ≡ gone = ground (arith, rw at_end at run) in
        let bound : i < length s.phases = lt-length_of_get_elem? s.phases i {x = p} f in
        ground (arith, get_elem?-set_self s.phases i p' bound)
    | no other ↦ ground (arith, get_elem?-set_ne s.phases i j p' other)
  ])
  gone_stays j (sends label bytes ok w e g) h = rw g h
  gone_stays j (signalled label ok w e g) h = rw g h
  gone_stays j (starts label time type res d e fine g) h = rw g h
  gone_stays j (fires id p spec e new g) h = rw g h
  gone_stays j (handles p ps ok s' e run g) h = rw g h

  module _ (f : ℕ → Bool) where
    abbrev application_followed : Application Arena Kernel Heap → Application Arena Kernel Heap
    application_followed s = record s { phases = all_longer f (scripts_of threads) s.phases }

    -- No thread with `f` is at its end.
    abbrev pub NotGone : Application Arena Kernel Heap → Type 0
    NotGone s = (i : ℕ) → f i ≡ true → get_elem? s.phases i ≢ some gone

    Step-followed :
        {s t : Application Arena Kernel Heap}
        → NotGone t
        → Step threads s t
        → Step (followed_threads f threads) (application_followed s) (application_followed t)
    Step-followed {s} h (moves i th p p' s' e g quiet run same) =
        let bound : i < length s.phases = lt-length_of_get_elem? s.phases i {x = p} g in
        let there : get_elem? (set s.phases i p') i ≡ some p' =
          get_elem?-set_self s.phases i p' bound in
        let open_end : f i ≡ true → p' ≢ gone = λ on at. (rw same at h) i on (there ∙ ap some at) in
        let script = get_script threads i e in
        moves i (followed_thread (f i) th) (longer (f i) th.script p) (longer (f i) th.script p') s'
          (get_followed_thread f threads i e)
          (get_longer f (scripts_of threads) s.phases i script g)
          (rw (cancelled-longer (f i) th p) quiet)
          (thread_step-followed (f i) th i p s.program run open_end)
          (ap application_followed same
            ∙ ap (λ (ps : List Phase). record s { program = s'; phases = ps })
                (all_longer-set f (scripts_of threads) s.phases i p' script))
    Step-followed h (sends label bytes ok w e g) =
        sends label bytes ok w e (ap application_followed g)
    Step-followed h (signalled label ok w e g) = signalled label ok w e (ap application_followed g)
    Step-followed h (starts label time type res d e fine g) =
        starts label time type res d e fine (ap application_followed g)
    Step-followed h (fires id p spec e new g) = fires id p spec e new (ap application_followed g)
    Step-followed h (handles p ps ok s' e run g) =
        handles p ps ok s' e run (ap application_followed g)

    Reach-followed :
        {s t : Application Arena Kernel Heap}
        → NotGone t
        → Reach threads s t
        → Reach (followed_threads f threads) (application_followed s) (application_followed t)
    Reach-followed h here = here
    Reach-followed h (next q st) =
        next (Reach-followed (λ i on at. h i on (gone_stays i st at)) q) (Step-followed h st)

    module _ (memory : Memory) (kernel : Kernel) (ss sc ls lc : ℕ) where
      -- Both programs begin in the same state.
      program-followed :
          uninitialized_program {Arena = Arena} {Heap = Heap}
            (followed_threads f threads)
            memory
            kernel
            ss
            sc
            ls
            lc
          ≡ uninitialized_program threads memory kernel ss sc ls lc
      program-followed =
          let start : Program Arena Kernel Heap =
            uninitialized_program threads memory kernel ss sc ls lc in
          ap (λ ms. record start { world = record start.world { mailboxes = ms } })
            (ap nobody (scripts-followed f threads) ∙ nobody-followed f (scripts_of threads))

      begun-followed :
          (s : Program Arena Kernel Heap)
          → application_followed (begun threads memory kernel ss sc ls lc s)
            ≡ begun (followed_threads f threads) memory kernel ss sc ls lc s
      begun-followed s =
          ap (λ (ps : List Phase). record { program = s; pending = []; phases = ps })
            (longer-not_begun f (scripts_of threads)
              ∙ ap not_begun (sym (scripts-followed f threads)))

      -- Let `Initialize` succeed in a process without timers, with m_timers all null, which the source
      -- does not ensure, with fewer than 2^64 blocks of each size and large blocks of fewer than 2^16
      -- bytes; the scripts of the threads with `f` may leave registrations behind, and every other
      -- undoes its registrations behind its loop. In each state that the program can reach before a
      -- thread of the former is at its end, with threads, the sends of main, started and cancelled
      -- timers, expiring timers and the handler thread in any order, where no StartTimer has thrown
      -- from the constructor of Timer and no timer was cancelled while its signal was pending, nothing
      -- that comes next is a fault: the next step of each thread returns, as does every SendMessage,
      -- SendSignal and CancelTimer; every StartTimer returns or throws one of its exceptions; and the
      -- handler thread handles the signal that it takes next.
      pub program_runs_until_gone :
          (calls : MaskCalls) (thread : Bool) {s : Program Arena Kernel Heap}
          {t : Application Arena Kernel Heap}
          → ((id : ℕ) → k.timer kernel id ≡ none)
          → initialize_with calls
              (new_resources (λ l. none) thread)
              ss
              sc
              ls
              lc
              (uninitialized_program threads memory kernel ss sc ls lc)
            ≡ done (true, s)
          → sc < 2 ^ 64
          → lc < 2 ^ 64
          → ls < 2 ^ 16
          → ((i : ℕ) (th : Thread) → get_elem? threads i ≡ some th → f i ≡ false → IsTidy th.script)
          → Reach threads (begun threads memory kernel ss sc ls lc s) t
          → NotGone t
          → ((i : ℕ) (th : Thread) (p : Phase)
              → get_elem? threads i ≡ some th
              → get_elem? t.phases i ≡ some p
              → (p' : Phase) × (s' : Program Arena Kernel Heap) × (thread_step th i p t.program
                  ≡ done (p', s')))
            × ((label : ℕ) (bytes : List ℕ)
                → (b : Bool) × (w : World Arena) × (send_message label bytes t.program.world
                    ≡ done (b, w)))
            × ((label : ℕ)
                → (w : World Arena) × (send_signal label t.program.world ≡ done (true, w)))
            × ((label : ℕ) (time : Timespec) (type : TimerType)
                → (res : Result) × (d : TimerManagerData Kernel Heap) × (start_timer label time type
                      t.program.timers
                    ≡ done (res, d)))
            × ((label : ℕ)
                → (b : Bool) × (d : TimerManagerData Kernel Heap) × (cancel_timer label
                      t.program.timers
                    ≡ done (b, d)))
            × ((p : ℕ) (ps : List ℕ)
                → t.pending ≡ p ∷ ps
                → (s' : Program Arena Kernel Heap) × (handle_signal (some p) t.program
                    ≡ done (true, s')))
      program_runs_until_gone calls thread {s} {t} no_timers e scb lcb lsb tidy reach open_end =
          let followed_reach : Reach (followed_threads f threads)
              (begun (followed_threads f threads) memory kernel ss sc ls lc s)
              (application_followed t) =
            subst
              (λ (z : Application Arena Kernel Heap).
                Reach (followed_threads f threads) z (application_followed t))
              (begun-followed s) (Reach-followed open_end reach) in
          let (steps, message, signal, start, cancel, handle) =
            program_runs_safely (followed_threads f threads) memory kernel ss sc ls lc calls thread
              no_timers
              (ap (initialize_with calls (new_resources (λ l. none) thread) ss sc ls lc)
                  program-followed
                ∙ e)
              scb lcb lsb (rw (scripts-followed f threads) (followed-IsTidy f threads tidy))
              followed_reach in
          (
            λ i th p g h.
                let (p₂, s₂, run) =
                  steps i (followed_thread (f i) th) (longer (f i) th.script p)
                    (get_followed_thread f threads i g)
                    (get_longer f (scripts_of threads) t.phases i (get_script threads i g) h) in
                thread_step-returns (f i) th i p p₂ t.program s₂ run,
            message,
            signal,
            start,
            cancel,
            handle,
          )
