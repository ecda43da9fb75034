-- ===== src/Mailbox/Truncated/Examples.antt =====
-- Mailbox.h on a concrete program with blocks of 70000 bytes, and an instance of the theorem on them.
use msglib_cpp.Common.{
  ℕ, zero, suc, ◌+◌, ◌%◌, ◌^◌, length, ◌≡◌, refl, true, false, none, some, List, [], ◌∷◌, arith,
  ◌==◌, if◌then◌else◌,
}
use msglib_cpp.Common.State.{done}
use msglib_cpp.Pool.Buffer.{Buffer, find, top, allocate, deallocate, buffer_resource}
use msglib_cpp.Message.{Message, as_type}
use msglib_cpp.Receiver.{no_receivers}
use msglib_cpp.MailboxData
use msglib_cpp.MailboxData.{Resources}
use msglib_cpp.Mailbox.{World, send_message, receive, end_guard}
use msglib_cpp.Mailbox.Blocks.{IsReady}
use msglib_cpp.Mailbox.Faults.{one_receiver}
use msglib_cpp.Mailbox.Truncated.{release-truncated}

-- Large blocks of 70000 bytes, and mailbox 1 alone is registered for label 7.
abbrev huge_resources : Resources Buffer
huge_resources = record {
  small_size = 4;
  large_size = 70000;
  byte_size = 71024;
  arena = record { room = 71024; blocks = [] };
  small_pool = record { elt_size = 4; size = 2; capacity = 2 };
  large_pool = record { elt_size = 70000; size = 1; capacity = 1 };
  mailboxes = λ k. if 7 == k then one_receiver 1 else no_receivers;
}

abbrev huge_world : World Buffer
huge_world = record {
  shared = record { locked = false; initialized = true; resources = some huge_resources };
  mailboxes = none ∷ some (record { items = []; capacity = 2 }) ∷ [];
  memory = λ _. [];
}

huge_world-IsReady : IsReady huge_world.shared huge_resources
huge_world-IsReady = record { unlocked = refl; initialized = refl; resources = refl }

-- A value of so many bytes.
bytes_of : (n : ℕ) → (t : List ℕ) × (length t ≡ n)
bytes_of zero = ([], refl)
bytes_of (suc n) = let (t, e) = bytes_of n in (0 ∷ t, omega arith)

-- 65540 bytes are 4 modulo 2^16.
release-truncated_example :
    let (t, e) = bytes_of 65540 in
    (w' w'' : World Buffer) × (m : Message) × (x' : Resources Buffer) × (send_message 7 t huge_world
      ≡ done (true, w'))
    × (receive 1 w' ≡ done (some m, w''))
    × (m.bytes ≡ some 1)
    × (as_type m (length t) ≡ none)
    × (end_guard m w'' ≡ record w'' { shared = MailboxData.free_small (some 1) w''.shared })
    × ((end_guard m w'').shared.resources ≡ some x')
    × (x'.large_pool.size + 1 ≡ 1)
    × (x'.small_pool.size ≡ 3 % 2 ^ 64)
unfolding allocate top deallocate find
release-truncated_example =
    let (t, e) = bytes_of 65540 in
    release-truncated huge_world huge_resources 1 7 1 t _ _ huge_world-IsReady refl refl refl
      (omega arith) refl (omega arith) (omega arith) (omega arith) (omega arith) refl _ refl
