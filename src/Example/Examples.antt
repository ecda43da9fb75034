-- ===== src/Example/Examples.antt =====
-- Tests of the example programs on a concrete memory resource, and instances of the theorems on
-- them and on Worker.
use msglib_cpp.Common.{
  ℕ, zero, suc, ◌≢◌, sym, ap, ◌∙◌, ◌≡◌, refl, subst, true, false, none, some, [], ◌∷◌, arith,
  get_elem?, ◌==◌, ◌||◌,
}
use msglib_cpp.Common.State.{done, fault, dangling_mailbox}
use msglib_cpp.Pool.Buffer.{Buffer, buffer_resource}
use msglib_cpp.Queue.{emplace, new_queue}
use msglib_cpp.Message.{signal}
use msglib_cpp.Receiver.{add}
use msglib_cpp.MailboxData
use msglib_cpp.MailboxData.{
  byte_size, uninitialized, resources_on, default_small_size, default_small_cap, default_large_size,
  default_large_cap,
}
use msglib_cpp.Mailbox.{
  World, Mailbox, find_mailbox, initialize_with, register_for_label, send_signal, signal_each,
  new_default_mailbox,
}
use msglib_cpp.Worker.{
  System, Reach, here, next, moves, signalled, starting, registering, waiting, leaving, gone,
  construct, step, received,
}
use msglib_cpp.Worker.Start.{uninitialized_world, not_begun}
use msglib_cpp.Worker.Untidy.Safety.{threads_run_until_gone}
use msglib_cpp.Worker.Ends.{leaves_by, run_alone, thread_ends}
use msglib_cpp.Example.Mbox
use msglib_cpp.Example.Mbox.{until_exit}
use msglib_cpp.Common.{total, if◌then◌else◌}
use msglib_cpp.Pool.Buffer.{find}
use msglib_cpp.Receiver.{no_receivers}
use msglib_cpp.Message.{as_type}
use msglib_cpp.MailboxData.{Resources}
use msglib_cpp.Mailbox.Messages.{all_messages}
use msglib_cpp.Mailbox.Signals.{replicate}
use msglib_cpp.Worker.{drops}
use msglib_cpp.Worker.Healthy.{Alive, Healthy}
use msglib_cpp.Worker.Leaks.{leaving-leaks}
use msglib_cpp.TimerManagerData.{TimerResources, returned, Program, new_resources}
use msglib_cpp.TimerManagerData.Consistent.{IsConsistent}
use msglib_cpp.TimerManagerData.Process.{Process, process_timers, counted_memory, no_process_timers}
use msglib_cpp.Example.Mbox.{
  display_msg, got_data, got_signal, read_options, opt_s, opt_L, default_options,
}
use msglib_cpp.Example.Timer.{start_program}
use msglib_cpp.Example.Started.{wanted}
use msglib_cpp.Example.Begun.{start_program_lem}
use msglib_cpp.Msglib.Init.{all_ok}
use msglib_cpp.Example.Registered.{thread1-IsTidy}

initialized :
    (w : World Buffer) × (initialize_with 4 2 16 1
        (uninitialized_world (Mbox.thread1 ∷ []) (λ _. []) 4 2 16 1)
      ≡ done (true, w))
unfolding initialize_with MailboxData.initialize_with MailboxData.new_resources byte_size
initialized = (_, refl)

-- The first thread of mbox.cpp registers and waits, and main tells it to end.
told_to_end :
    (t : System Buffer) × (q : Mailbox) × Reach
      (Mbox.thread1 ∷ [])
      (record { world = initialized.0; phases = not_begun (Mbox.thread1 ∷ []) })
      t
    × (get_elem? t.phases 0 ≡ some waiting)
    × (find_mailbox t.world.mailboxes 0 ≡ some q)
    × (leaves_by Mbox.thread1 q.items ≡ true)
unfolding initialized initialize_with MailboxData.initialize_with MailboxData.new_resources
    byte_size Mbox.thread1 step construct received register_for_label MailboxData.register_for_label
    add send_signal signal_each MailboxData.get_receivers emplace signal new_default_mailbox
    new_queue MailboxData.initialize_if_needed MailboxData.resources_on
told_to_end = (
  _,
  _,
  next
      (next
        (next
          (next
            (next (next here (moves 0 Mbox.thread1 starting _ _ refl refl refl refl))
              (moves 0 Mbox.thread1 (registering (1 ∷ 2 ∷ 999 ∷ [])) _ _ refl refl refl refl))
            (moves 0 Mbox.thread1 (registering (2 ∷ 999 ∷ [])) _ _ refl refl refl refl))
          (moves 0 Mbox.thread1 (registering (999 ∷ [])) _ _ refl refl refl refl))
        (moves 0 Mbox.thread1 (registering []) _ _ refl refl refl refl))
      (signalled 999 true _ refl refl),
  refl,
  refl,
  refl,
)

initialized_third :
    (w : World Buffer) × (initialize_with 4 2 16 1
        (uninitialized_world (Mbox.thread3 ∷ []) (λ _. []) 4 2 16 1)
      ≡ done (true, w))
unfolding initialize_with MailboxData.initialize_with MailboxData.new_resources byte_size
initialized_third = (_, refl)

-- The third thread of mbox.cpp, which leaves registrations behind, has registered for Msg4.
third_registers :
    (t : System Buffer) × Reach
      (Mbox.thread3 ∷ [])
      (record { world = initialized_third.0; phases = not_begun (Mbox.thread3 ∷ []) })
      t
    × (t.phases ≡ registering (5 ∷ 999 ∷ []) ∷ [])
unfolding initialized_third initialize_with MailboxData.initialize_with MailboxData.new_resources
    byte_size Mbox.thread3 step construct register_for_label MailboxData.register_for_label add
    new_default_mailbox new_queue MailboxData.initialize_if_needed MailboxData.resources_on
third_registers = (
  _,
  next (next here (moves 0 Mbox.thread3 starting _ _ refl refl refl refl))
      (moves 0 Mbox.thread3 (registering (4 ∷ 5 ∷ 999 ∷ [])) _ _ refl refl refl refl),
  refl,
)

third-NotGone : (i : ℕ) → get_elem? (third_registers.0).phases i ≢ some gone
third-NotGone i e =
    let f = ap (λ ps. get_elem? ps i) third_registers.2 in third_absent i (sym f ∙ e)
  where
    third_absent : (j : ℕ) → get_elem? (registering (5 ∷ 999 ∷ []) ∷ []) j ≢ some gone
    third_absent zero g = absurd (ground arith)
    third_absent (suc j) g = absurd (ground arith)

threads_run_until_gone_example :
    (w : World Buffer) × (send_signal 4 (third_registers.0).world ≡ done (true, w))
threads_run_until_gone_example =
    (threads_run_until_gone (Mbox.thread3 ∷ []) (λ _. []) 4 2 16 1 (λ _. true) initialized_third.1
        (omega arith) (omega arith) (omega arith) (λ i s e off. absurd (ground arith))
        third_registers.1 (λ i on. third-NotGone i)).2
      4

thread_ends_example :
    (n : ℕ) × (w : World Buffer) × (run_alone n Mbox.thread1 0 waiting (told_to_end.0).world
      ≡ done (gone, w))
thread_ends_example =
    thread_ends (Mbox.thread1 ∷ []) (λ _. []) 4 2 16 1 0 initialized.1 (omega arith) (omega arith)
      (omega arith) (thread1-IsTidy, tt) told_to_end.2 refl told_to_end.3 told_to_end.4
      told_to_end.5

-- The third thread of mbox.cpp, registered for 4, 5 and 999, behind its loop.
abbrev resources : Resources Buffer
resources = record {
  small_size = 4;
  large_size = 16;
  byte_size = 1024;
  arena = record { room = 1024; blocks = [] };
  small_pool = record { elt_size = 4; size = 2; capacity = 2 };
  large_pool = record { elt_size = 16; size = 1; capacity = 1 };
  mailboxes =
      λ k. if (k == 4) || ((k == 5) || (k == 999)) then some 0 ∷ none ∷ none ∷ [] else no_receivers;
}

abbrev world : World Buffer
world = record {
  shared = record { locked = false; initialized = true; resources = some resources };
  mailboxes = some (record { items = []; capacity = 2 }) ∷ [];
  memory = λ _. [];
}

world-Healthy : Healthy world resources [] []
unfolding all_messages total find
world-Healthy = record {
  ready = record { unlocked = refl; initialized = refl; resources = refl };
  accounted = record {
    small_elt = refl;
    large_elt = refl;
    small_cap = omega arith;
    large_cap = omega arith;
    fits = omega arith;
    small_counted = refl;
    large_counted = refl;
    owned = λ p n. refl;
  };
  alive = λ label i h.
      let at_zero : 0 ≡ i = ground arith in subst (Alive world.mailboxes) at_zero (_, refl);
}

leaving-leaks_example :
    (n : ℕ) × (w' : World Buffer) × (run_alone n Mbox.thread3 0
        (leaving (drops 1 ∷ drops 3 ∷ drops 999 ∷ []))
        world
      ≡ done (gone, w'))
    × (send_signal 4 w' ≡ fault dangling_mailbox)
leaving-leaks_example =
    leaving-leaks Mbox.thread3 0 4 [] (drops 1 ∷ drops 3 ∷ drops 999 ∷ []) world resources []
      world-Healthy (_, refl) (omega arith) refl

abbrev new_process : Program Buffer Process ℕ
new_process = record {
  world = record { shared = uninitialized; mailboxes = []; memory = λ _. [] };
  timers = record { kernel = no_process_timers; initialized = false; resources = none };
}

start_program_lem_example :
    (t : Program Buffer Process ℕ) × (x : TimerResources ℕ) × (start_program all_ok
        (new_resources (λ l. none) true)
        new_process
      ≡ done (replicate 43 (returned true), t))
    × IsConsistent t.timers x
    × ((l : ℕ) → wanted 41 l ≡ true → (p : ℕ) × (x.slots l ≡ some p))
    × ((l : ℕ) → wanted 41 l ≡ false → x.slots l ≡ none)
    × (t.world.shared.resources
        ≡ some (
            resources_on default_small_size default_small_cap default_large_size default_large_cap
              (record {
                room =
                    byte_size default_small_size default_small_cap default_large_size
                      default_large_cap;
                blocks = [];
              })))
start_program_lem_example =
    start_program_lem new_process no_process_timers 0 _ refl refl refl (λ id. ground arith)
      (λ kernel p. (_, _, refl)) refl refl

-- Message2 has one byte; a signal with its label shows nothing.
display_msg-data :
    display_msg
      (record { message1 = 20; message2 = 1; message3 = 12 })
      (record { bytes = some 7; label = 2; size = 1 })
    ≡ some (got_data 2 7)
unfolding display_msg as_type
display_msg-data = refl

display_msg-empty :
    display_msg (record { message1 = 20; message2 = 1; message3 = 12 }) (signal 2) ≡ none
unfolding display_msg as_type signal
display_msg-empty = refl

display_msg-signal :
    display_msg (record { message1 = 20; message2 = 1; message3 = 12 }) (signal 999)
    ≡ some (got_signal 999)
unfolding display_msg as_type signal
display_msg-signal = refl

read_options-both :
    read_options (opt_s 64 ∷ opt_L 8 ∷ []) default_options
    ≡ some (record { small_size = 64; small_cap = 256; large_size = 2048; large_cap = 8 })
unfolding read_options
read_options-both = refl
