-- ===== src/Mailbox/Registration/Examples.antt =====
-- Tests of the registrations of a label on a concrete program, and instances of the theorems on them.
use mathlib.Core.Quot
use msglib_cpp.Common.{◌≡◌, refl, true, false, none, some, [], ◌∷◌, arith, ◌==◌, if◌then◌else◌}
use msglib_cpp.Pool.Buffer.{Buffer, buffer_resource}
use msglib_cpp.Receiver.{Receivers, no_receivers}
use msglib_cpp.MailboxData.{Resources}
use msglib_cpp.Mailbox.{World, send_signal}
use msglib_cpp.Mailbox.Blocks.{IsReady}
use msglib_cpp.Mailbox.Registration.Order.{seen, send_signal-registrations}

-- The label 5 has these receivers, and no other label has any.
abbrev with_five : Receivers → Resources Buffer
with_five rs = record {
  small_size = 4;
  large_size = 16;
  byte_size = 1024;
  arena = record { room = 1024; blocks = [] };
  small_pool = record { elt_size = 4; size = 2; capacity = 2 };
  large_pool = record { elt_size = 16; size = 1; capacity = 1 };
  mailboxes = λ k. if 5 == k then rs else no_receivers;
}

abbrev world_with : Receivers → World Buffer
world_with rs = record {
  shared = record { locked = false; initialized = true; resources = some (with_five rs) };
  mailboxes =
      some (record { items = []; capacity = 2 }) ∷ some (record { items = []; capacity = 1 }) ∷ [];
  memory = λ _. [];
}

with-IsReady : (rs : Receivers) → IsReady (world_with rs).shared (with_five rs)
with-IsReady rs = record { unlocked = refl; initialized = refl; resources = refl }

abbrev zero_first : Receivers
zero_first = some 0 ∷ some 1 ∷ none ∷ []

abbrev one_first : Receivers
one_first = some 1 ∷ none ∷ some 0 ∷ []

-- The mailboxes 0 and 1 take other slots in the one program than in the other.
send_signal-registrations_example :
    seen (send_signal 5 (world_with zero_first)) ≡ seen (send_signal 5 (world_with one_first))
send_signal-registrations_example =
    send_signal-registrations 5 (world_with zero_first) (world_with one_first)
      (with_five zero_first) (with_five one_first) (with-IsReady zero_first)
      (with-IsReady one_first) refl (Quot.sound (λ i. omega arith, refl))
