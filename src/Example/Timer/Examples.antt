-- ===== src/Example/Timer/Examples.antt =====
-- Tests of example/timer.cpp as a whole on a concrete process, and instances of the theorems on it.
use msglib_cpp.Common.{
  ℕ, zero, suc, ◌≡◌, ◌≢◌, ◌∙◌, refl, sym, ap, true, none, some, List, [], ◌∷◌, arith, get_elem?,
  inr,
}
use msglib_cpp.Common.Int.{pos}
use msglib_cpp.Common.State.{done}
use msglib_cpp.Pool.Buffer.{Buffer, buffer_resource}
use msglib_cpp.TimeConv.{Timespec}
use msglib_cpp.Queue.{new_queue}
use msglib_cpp.Receiver.{add}
use msglib_cpp.MailboxData
use msglib_cpp.MailboxData.{byte_size}
use msglib_cpp.Mailbox
use msglib_cpp.Mailbox.{register_for_label, new_default_mailbox}
use msglib_cpp.TimerManagerData
use msglib_cpp.TimerManagerData.{periodic, returned, Program, handle_signal, new_resources, spec_of}
use msglib_cpp.TimerManagerData.Process.{Process, process_timers, counted_memory, no_process_timers}
use msglib_cpp.TimerManager
use msglib_cpp.TimerManager.{start_timer}
use msglib_cpp.Msglib.{initialize_with}
use msglib_cpp.Msglib.Init.{all_ok}
use msglib_cpp.Worker.{Phase, starting, registering, gone, construct, step}
use msglib_cpp.Application.{
  Application, thread_step, cancel_each, Reach, here, next, moves, starts, fires,
}
use msglib_cpp.Application.Start.{uninitialized_program, begun}
use msglib_cpp.Application.Untidy.Safety.{program_runs_until_gone}
use msglib_cpp.Example.Timer.{thread1, timer_threads}

abbrev period : Timespec
period = record { sec = pos 0; nsec = pos 750000000 }

initialized :
    (s : Program Buffer Process ℕ) × (initialize_with all_ok
        (new_resources (λ l. none) true)
        4
        2
        16
        1
        (uninitialized_program timer_threads (λ _. []) no_process_timers 4 2 16 1)
      ≡ done (true, s))
unfolding initialize_with TimerManager.initialize TimerManagerData.initialize new_resources
    Mailbox.initialize_with MailboxData.initialize_with MailboxData.new_resources byte_size
initialized = (_, refl)

abbrev start : Application Buffer Process ℕ
start = begun timer_threads (λ _. []) no_process_timers 4 2 16 1 initialized.0

-- The first thread has registered for the recurring timer, which main starts, and which expires.
expired :
    (t : Application Buffer Process ℕ) × Reach timer_threads start t
    × (t.pending ≡ 0 ∷ [])
    × (t.phases ≡ starting ∷ registering (4 ∷ []) ∷ starting ∷ [])
unfolding initialized initialize_with TimerManager.initialize TimerManagerData.initialize
    new_resources Mailbox.initialize_with MailboxData.initialize_with MailboxData.new_resources
    byte_size thread1 step construct register_for_label MailboxData.register_for_label add
    new_default_mailbox new_queue MailboxData.initialize_if_needed MailboxData.resources_on
    thread_step cancel_each start_timer TimerManagerData.start_timer TimerManagerData.construct
    spec_of timer_threads
expired = (
  _,
  next
      (next
        (next (next here (moves 1 _ starting _ _ refl refl (λ l p e. cc) refl refl))
          (moves 1 _ (registering (1 ∷ 4 ∷ [])) _ _ refl refl (λ l p e. cc) refl refl))
        (starts 1 period periodic (returned true) _ refl (inr (true, refl)) refl))
      (fires 0 0 _ refl refl refl),
  refl,
  refl,
)

none_gone : (i : ℕ) → get_elem? (starting ∷ registering (4 ∷ []) ∷ starting ∷ []) i ≢ some gone
none_gone zero e = absurd (ground arith)
none_gone (suc zero) e = absurd (ground arith)
none_gone (suc (suc zero)) e = absurd (ground arith)
none_gone (suc (suc (suc i))) e = absurd (ground arith)

-- Though main and the second thread leave registrations behind, the handler thread can go on.
program_runs_until_gone_example :
    (s' : Program Buffer Process ℕ) × (handle_signal (some 0) (expired.0).program ≡ done (true, s'))
program_runs_until_gone_example =
    ((program_runs_until_gone timer_threads (λ _. true) (λ _. []) no_process_timers 4 2 16 1 all_ok
        true (λ id. ground arith) initialized.1 (omega arith) (omega arith) (omega arith)
        (λ i th e off. absurd (ground arith)) expired.1
        (λ i on e. none_gone i (sym (ap (λ (ps : List Phase). get_elem? ps i) expired.3) ∙ e))).5)
      0 [] expired.2
