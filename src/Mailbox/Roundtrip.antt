-- ===== src/Mailbox/Roundtrip.antt =====
-- Mailbox.h: from `SendMessage` to `Receive` and `Message::as`.
use msglib_cpp.Common.{ℕ, ◌≡◌, some, List, arith, length, take}
use msglib_cpp.Pool.Resource.{MemoryResource}
use msglib_cpp.Message.{Message, as_type}
use msglib_cpp.MailboxData.{Resources}
use msglib_cpp.Mailbox.{Mailbox}
use msglib_cpp.Mailbox.Sends.{Holds}

module _ {Arena : Type 0} ⦃r : MemoryResource Arena⦄ (label : ℕ) (t : List ℕ) where
  received :
      {memory : ℕ → List ℕ} {x : Resources Arena} (m : Message)
      → Holds label t memory x m
      → (p : ℕ) × (as_type m (length t) ≡ some p) × (take (length t) (memory p) ≡ t)
  unfolding as_type
  received m h = (h.block, ground (arith, h.bytes, h.sized), h.content)
