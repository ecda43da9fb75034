-- ===== src/Mailbox/Faults/Examples.antt =====
-- Mailbox.h on concrete programs: instances of what goes wrong in them.
use msglib_cpp.Common.{
  ℕ, ◌+◌, ◌≡◌, refl, true, false, none, some, [], ◌∷◌, arith, total, ◌==◌, if◌then◌else◌,
}
use msglib_cpp.Common.State.{done, fault, relock, null_resources, dangling_mailbox}
use msglib_cpp.Pool.Buffer.{Buffer, find, top, allocate, buffer_resource}
use msglib_cpp.Receiver.{no_receivers}
use msglib_cpp.MailboxData.{Resources, uninitialized}
use msglib_cpp.Mailbox.{
  World, Mailbox, find_mailbox, register_for_label, unregister_for_label, send_message, send_signal,
  destroy,
}
use msglib_cpp.Mailbox.Messages.{all_messages}
use msglib_cpp.Mailbox.Accounting.{Accounted}
use msglib_cpp.Mailbox.Blocks.{IsReady}
use msglib_cpp.Mailbox.Faults.{
  one_receiver, uninitialized_calls, full_queue_loses, destroyed_receiver,
}

uninitialized_calls_example :
    let w : World Buffer = record { shared = uninitialized; mailboxes = []; memory = λ _. [] } in
    (register_for_label 0 5 w ≡ fault relock)
    × (unregister_for_label 0 5 w ≡ fault relock)
    × (send_signal 5 w ≡ fault null_resources)
    × (send_message 5 (1 ∷ []) w ≡ done (false, w))
uninitialized_calls_example = uninitialized_calls [] (λ _. []) 0 5 (1 ∷ []) (omega arith)

-- Mailbox 1 alone is registered for label 6, and its queue is full.
abbrev full_resources : Resources Buffer
full_resources = record {
  small_size = 4;
  large_size = 16;
  byte_size = 1024;
  arena = record { room = 1024; blocks = [] };
  small_pool = record { elt_size = 4; size = 2; capacity = 2 };
  large_pool = record { elt_size = 16; size = 1; capacity = 1 };
  mailboxes = λ k. if 6 == k then one_receiver 1 else no_receivers;
}

abbrev full_mailbox : Mailbox
full_mailbox = record { items = record { bytes = none; label = 6; size = 0 } ∷ []; capacity = 1 }

abbrev full_world : World Buffer
full_world = record {
  shared = record { locked = false; initialized = true; resources = some full_resources };
  mailboxes = none ∷ some full_mailbox ∷ [];
  memory = λ _. [];
}

full_world-Accounted : Accounted full_resources full_world.mailboxes [] []
unfolding all_messages total find
full_world-Accounted = record {
  small_elt = refl;
  large_elt = refl;
  small_cap = omega arith;
  large_cap = omega arith;
  fits = omega arith;
  small_counted = refl;
  large_counted = refl;
  owned = λ p n. refl;
}

full_world-IsReady : IsReady full_world.shared full_resources
full_world-IsReady = record { unlocked = refl; initialized = refl; resources = refl }

full_queue_loses_example :
    (w' : World Buffer) × (x' : Resources Buffer) × (send_message 6 (1 ∷ 2 ∷ []) full_world
      ≡ done (false, w'))
    × (w'.shared.resources ≡ some x')
    × (x'.small_pool.size + 1 ≡ 2)
    × (buffer_resource.live x'.arena 1 ≡ some 4)
    × ((i : ℕ) → find_mailbox w'.mailboxes i ≡ find_mailbox full_world.mailboxes i)
unfolding allocate top
full_queue_loses_example =
    full_queue_loses full_world full_resources 1 6 1 (1 ∷ 2 ∷ []) full_mailbox
      (record { room = 1020; blocks = (1, 4) ∷ [] }) [] [] full_world-IsReady full_world-Accounted
      refl refl (omega arith) (omega arith) (omega arith) (omega arith) refl

destroyed_receiver_example : send_signal 6 (destroy 1 full_world) ≡ fault dangling_mailbox
destroyed_receiver_example =
    destroyed_receiver full_world full_resources 1 6 full_world-IsReady refl
