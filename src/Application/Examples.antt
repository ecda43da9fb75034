-- ===== src/Application/Examples.antt =====
-- Tests of a program as a whole on a concrete process, and instances of the theorems on it: the
-- first thread of example/mbox.cpp, and a timer that tells it to end.
use msglib_cpp.Common.{ℕ, ◌≡◌, refl, true, none, some, [], ◌∷◌, arith, get_elem?, inr}
use msglib_cpp.Common.Int.{pos}
use msglib_cpp.Common.State.{done}
use msglib_cpp.Pool.Buffer.{Buffer, buffer_resource}
use msglib_cpp.TimeConv.{Timespec}
use msglib_cpp.Queue.{new_queue}
use msglib_cpp.Receiver.{add}
use msglib_cpp.Receiver.Slots.{slots}
use msglib_cpp.MailboxData
use msglib_cpp.MailboxData.{Resources, byte_size}
use msglib_cpp.Mailbox
use msglib_cpp.Mailbox.{find_mailbox, register_for_label, new_default_mailbox}
use msglib_cpp.TimerManagerData
use msglib_cpp.TimerManagerData.{
  one_shot, returned, Timer, Program, find_timer, handle_signal, new_resources, spec_of,
}
use msglib_cpp.TimerManagerData.Process.{Process, process_timers, counted_memory, no_process_timers}
use msglib_cpp.TimerManager
use msglib_cpp.TimerManager.{start_timer}
use msglib_cpp.Msglib.{initialize_with}
use msglib_cpp.Msglib.Init.{all_ok}
use msglib_cpp.Worker.{starting, registering, waiting, gone, construct, step}
use msglib_cpp.Application.{
  Thread, Application, thread_step, cancel_each, Reach, here, next, moves, starts, fires,
}
use msglib_cpp.Application.Start.{uninitialized_program, begun, program_runs_safely}
use msglib_cpp.Application.Ends.{run_thread, timer_ends_thread}
use msglib_cpp.Example.Mbox
use msglib_cpp.Example.Registered.{thread1-IsTidy}

abbrev listener : Thread
listener = record { script = Mbox.thread1; cancels = λ l. [] }

abbrev soon : Timespec
soon = record { sec = pos 5; nsec = pos 0 }

initialized :
    (s : Program Buffer Process ℕ) × (initialize_with all_ok
        (new_resources (λ l. none) true)
        4
        2
        16
        1
        (uninitialized_program (listener ∷ []) (λ _. []) no_process_timers 4 2 16 1)
      ≡ done (true, s))
unfolding initialize_with TimerManager.initialize TimerManagerData.initialize new_resources
    Mailbox.initialize_with MailboxData.initialize_with MailboxData.new_resources byte_size
initialized = (_, refl)

abbrev start : Application Buffer Process ℕ
start = begun (listener ∷ []) (λ _. []) no_process_timers 4 2 16 1 initialized.0

-- The thread registers and waits; main starts a timer with the label 999, which expires.
expired :
    (t : Application Buffer Process ℕ) × Reach (listener ∷ []) start t
    × (t.pending ≡ 0 ∷ [])
    × (get_elem? t.phases 0 ≡ some waiting)
    × ((u : Timer) × (find_timer t.program.timers.resources 0 ≡ some u) × (u.label ≡ 999))
    × ((x : Resources Buffer) × (t.program.world.shared.resources ≡ some x)
        × (slots 0 (x.mailboxes 999) ≡ 1))
    × (find_mailbox t.program.world.mailboxes 0 ≡ some new_default_mailbox)
unfolding initialized initialize_with TimerManager.initialize TimerManagerData.initialize
    new_resources Mailbox.initialize_with MailboxData.initialize_with MailboxData.new_resources
    byte_size Mbox.thread1 step construct register_for_label MailboxData.register_for_label add
    new_default_mailbox new_queue MailboxData.initialize_if_needed MailboxData.resources_on
    thread_step cancel_each start_timer TimerManagerData.start_timer TimerManagerData.construct
    spec_of
expired = (
  _,
  next
      (next
        (next
          (next
            (next
              (next (next here (moves 0 listener starting _ _ refl refl (λ l p e. cc) refl refl)) (
                moves 0 listener (registering (1 ∷ 2 ∷ 999 ∷ [])) _ _ refl refl (λ l p e. cc) refl
                  refl))
              (moves 0 listener (registering (2 ∷ 999 ∷ [])) _ _ refl refl (λ l p e. cc) refl refl))
            (moves 0 listener (registering (999 ∷ [])) _ _ refl refl (λ l p e. cc) refl refl))
          (moves 0 listener (registering []) _ _ refl refl (λ l p e. cc) refl refl))
        (starts 999 soon one_shot (returned true) _ refl (inr (true, refl)) refl))
      (fires 0 0 _ refl refl refl),
  refl,
  refl,
  (_, refl, refl),
  (_, refl, refl),
  refl,
)

timer_ends_thread_example :
    (s' s'' : Program Buffer Process ℕ) × (n : ℕ) × (handle_signal (some 0) (expired.0).program
      ≡ done (true, s'))
    × (run_thread n listener 0 waiting s' ≡ done (gone, s''))
unfolding Mbox.thread1 new_default_mailbox new_queue
timer_ends_thread_example =
    timer_ends_thread (listener ∷ []) (λ _. []) no_process_timers 4 2 16 1 all_ok true 0 0 []
      (λ id. ground arith) initialized.1 (omega arith) (omega arith) (omega arith)
      (thread1-IsTidy, tt) expired.1 expired.2 expired.4.1 refl expired.3 expired.5.1
      (rw (expired.4.2, expired.5.2) (omega arith)) expired.6 (omega arith) (rw expired.4.2 refl)

safely_handled :
    (s' : Program Buffer Process ℕ) × (handle_signal (some 0) (expired.0).program ≡ done (true, s'))
safely_handled =
    ((program_runs_safely (listener ∷ []) (λ _. []) no_process_timers 4 2 16 1 all_ok true
        (λ id. ground arith) initialized.1 (omega arith) (omega arith) (omega arith)
        (thread1-IsTidy, tt) expired.1).5)
      0 [] expired.2
