-- ===== src/Mailbox/Examples.antt =====
-- Tests of Mailbox.h on a concrete memory resource, and instances of its theorems.
use msglib_cpp.Common.{
  ℕ, ◌≡◌, ◌<◌, ◌≤◌, ◌⊎◌, refl, Bool, true, false, Option, none, some, List, [], ◌∷◌, arith, total,
  ◌==◌, if◌then◌else◌,
}
use msglib_cpp.Common.State.{done}
use msglib_cpp.Pool.{alloc, free, put, new_pool}
use msglib_cpp.Pool.Buffer.{Buffer, find, remove, top, allocate, deallocate, buffer_resource}
use msglib_cpp.Queue.{emplace, pop_front, new_queue}
use msglib_cpp.Message.{Message, message, signal}
use msglib_cpp.Receiver
use msglib_cpp.Receiver.{Receivers, no_receivers, add}
use msglib_cpp.Receiver.Slots.{slots}
use msglib_cpp.MailboxData
use msglib_cpp.MailboxData.{Resources, byte_size, resources_on}
use msglib_cpp.Mailbox.{
  World, Mailbox, new_mailbox, find_mailbox, register_for_label, unregister_for_label, send_message,
  send_signal, receive, end_guard, release_message, signal_each, initialize_with, send_each,
  send_one, fill_and_send,
}
use msglib_cpp.Mailbox.Messages.{all_messages}
use msglib_cpp.Mailbox.Accounting.{Accounted}
use msglib_cpp.Mailbox.Blocks.{IsReady, with_resources}
use msglib_cpp.Mailbox.Registry.{unregister_lem}
use msglib_cpp.Mailbox.Sends.{Sends}
use msglib_cpp.Mailbox.Sends.Loop.{send_message_lem, send_message-too_large}
use msglib_cpp.Mailbox.Signals.{signalled, send_signal_lem}
use msglib_cpp.Mailbox.Session.{
  Session, Call, sends, signals, receives, releases, registers, unregisters, run, step, failure,
  failures,
}
use msglib_cpp.Mailbox.Session.Invariant.{Setup}
use msglib_cpp.Mailbox.Session.Safety.{IsBalanced, fresh_world, run-IsBalanced}

-- Two small blocks of 4 bytes, one large block of 16; mailboxes of 2 messages and of 1.
abbrev setup : Setup
setup = record { mailboxes = 2; small_size = 4; small_cap = 2; large_size = 16; large_cap = 1 }

abbrev resources : Resources Buffer
resources = record {
  small_size = 4;
  large_size = 16;
  byte_size = 1024;
  arena = record { room = 1024; blocks = [] };
  small_pool = record { elt_size = 4; size = 2; capacity = 2 };
  large_pool = record { elt_size = 16; size = 1; capacity = 1 };
  mailboxes = λ k. if 5 == k then some 0 ∷ none ∷ some 1 ∷ [] else no_receivers;
}

abbrev seventeen : List ℕ
seventeen = 1 ∷ 1 ∷ 1 ∷ 1 ∷ 1 ∷ 1 ∷ 1 ∷ 1 ∷ 1 ∷ 1 ∷ 1 ∷ 1 ∷ 1 ∷ 1 ∷ 1 ∷ 1 ∷ 1 ∷ []

-- Both mailboxes are registered for label 5.
abbrev world : World Buffer
world = record {
  shared = record { locked = false; initialized = true; resources = some resources };
  mailboxes =
      some (record { items = []; capacity = 2 }) ∷ some (record { items = []; capacity = 1 }) ∷ [];
  memory = λ _. [];
}

world-IsReady : IsReady world.shared resources
world-IsReady = record { unlocked = refl; initialized = refl; resources = refl }

world-Accounted : Accounted resources world.mailboxes [] []
unfolding all_messages total find
world-Accounted = record {
  small_elt = refl;
  large_elt = refl;
  small_cap = omega arith;
  large_cap = omega arith;
  fits = omega arith;
  small_counted = refl;
  large_counted = refl;
  owned = λ p n. refl;
}

abbrev calls : List Call
calls =
    registers 0 5
    ∷ registers 1 5
    ∷ sends 5 (1 ∷ 2 ∷ [])
    ∷ receives 0
    ∷ releases 0
    ∷ receives 1
    ∷ releases 0
    ∷ sends 5 (3 ∷ [])
    ∷ signals 5
    ∷ unregisters 1 5
    ∷ []

initialize-fresh :
    (w : World Buffer) × (initialize_with 4 2 16 1 (fresh_world (2 ∷ 1 ∷ []) (λ _. []))
      ≡ done (true, w))
unfolding initialize_with MailboxData.initialize_with MailboxData.new_resources byte_size
initialize-fresh = (_, refl)

-- Both values reach both mailboxes.
failures-calls : failures (record { world = initialize-fresh.0; held = [] }) calls ≡ 0
unfolding failures failure step register_for_label unregister_for_label send_message send_signal
    receive end_guard release_message send_each send_one fill_and_send signal_each signal pop_front
    add Receiver.remove MailboxData.register_for_label MailboxData.unregister_for_label
    MailboxData.large_size MailboxData.small_size MailboxData.get_receivers
    MailboxData.allocate_small MailboxData.free_small MailboxData.initialize_if_needed alloc free
    allocate top deallocate find put emplace message initialize-fresh resources_on new_pool
    new_mailbox new_queue remove
failures-calls = refl

run-IsBalanced_example :
    let begin : Session Buffer = record { world = initialize-fresh.0; held = [] } in
    (s : Session Buffer) × (spread : IsBalanced setup s) × (run begin calls ≡ done s)
    × (failures begin calls ≡ 0 → spread.lost ≡ [])
run-IsBalanced_example =
    run-IsBalanced setup (2 ∷ 1 ∷ []) (λ _. []) initialize-fresh.0 calls initialize-fresh.1 refl
      (omega arith) (omega arith) (omega arith) (omega arith)

unregister_lem_example :
    (f : ℕ → Receivers) × (unregister_for_label 1 5 world
      ≡ done (
        true,
        record world { shared = with_resources world.shared (record resources { mailboxes = f }) },
      ))
    × ((k i : ℕ)
        → slots i (f k) ≡ (
            if 5 == k
            then (if 1 == i then 0 else slots i (resources.mailboxes k))
            else slots i (resources.mailboxes k)))
unregister_lem_example = unregister_lem 1 5 world resources world-IsReady

-- A value of three bytes reaches both mailboxes.
send_message_lem_example :
    ((resources.large_size < 3) × (send_message 5 (7 ∷ 8 ∷ 9 ∷ []) world ≡ done (false, world)))
    ⊎ ((3 ≤ resources.large_size)
        × ((b : Bool) × (w' : World Buffer) × (x' : Resources Buffer) × (lost' : List Message)
            × (send_message 5 (7 ∷ 8 ∷ 9 ∷ []) world ≡ done (b, w'))
            × Sends 5
                (7 ∷ 8 ∷ 9 ∷ [])
                []
                (λ i. slots i (resources.mailboxes 5))
                world
                resources
                []
                b
                w'
                x'
                lost'))
send_message_lem_example =
    send_message_lem 5 (7 ∷ 8 ∷ 9 ∷ []) world resources [] [] world-IsReady world-Accounted
      ((_, refl), ((_, refl), tt))

too_large : send_message 5 seventeen world ≡ done (false, world)
too_large = send_message-too_large 5 seventeen world resources world-IsReady (omega arith)

send_signal_lem_example :
    (ms' : List (Option Mailbox)) × (send_signal 5 world
      ≡ done (true, record world { mailboxes = ms' }))
    × Accounted resources ms' [] []
    × ((i : ℕ) (q : Mailbox)
        → find_mailbox world.mailboxes i ≡ some q
        → find_mailbox ms' i ≡ some (signalled 5 (slots i (resources.mailboxes 5)) q))
send_signal_lem_example =
    send_signal_lem 5 world resources [] [] world-IsReady world-Accounted
      ((_, refl), ((_, refl), tt))
