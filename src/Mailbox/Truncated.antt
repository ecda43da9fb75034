-- ===== src/Mailbox/Truncated.antt =====
-- Mailbox.h and Message.h: a message of 65536 bytes or more, whose size is cut to 16 bits, from the
-- `SendMessage` to the release.
mod Examples
use msglib_cpp.Common.{
  ℕ, ◌+◌, ◌%◌, ◌^◌, ◌≤◌, ◌<◌, ◌≡◌, refl, true, none, some, List, [], ◌∷◌, arith, length, set,
}
use msglib_cpp.Common.State.{done}
use msglib_cpp.Pool.{put, alloc, free}
use msglib_cpp.Pool.Resource.{MemoryResource}
use msglib_cpp.Queue.{emplace, pop_front}
use msglib_cpp.Message.{Message, message, as_type}
use msglib_cpp.MailboxData.{
  Resources, initialize_if_needed, allocate_large, large_size, small_size, get_receivers,
  free_small,
}
use msglib_cpp.Mailbox.{
  World, Mailbox, find_mailbox, send_message, send_each, send_one, fill_and_send, receive,
  end_guard, release_message,
}
use msglib_cpp.Mailbox.Accounting.{taken}
use msglib_cpp.Mailbox.Blocks.{IsReady}
use msglib_cpp.Mailbox.Faults.{one_receiver}
use msglib_cpp.Mailbox.Sends.One.{filled, find-set}

module _ {Arena : Type 0} ⦃r : MemoryResource Arena⦄ (w : World Arena) (x : Resources Arena)
    (mbox label p : ℕ) (t : List ℕ) (q : Mailbox) (a : Arena) where
  -- The world after the `SendMessage`.
  abbrev pub delivered : World Arena
  delivered =
      filled w (taken true x a) p t mbox
        (record q { items = message label (length t) (some p) ∷ [] })

  send_large :
      IsReady w.shared x
      → x.mailboxes label ≡ one_receiver mbox
      → find_mailbox w.mailboxes mbox ≡ some q
      → q.items ≡ []
      → 0 < q.capacity
      → x.large_pool.elt_size ≡ x.large_size
      → x.small_size < length t
      → length t ≤ x.large_size
      → 0 < x.large_pool.size
      → r.allocate x.arena x.large_pool.elt_size ≡ some (p, a)
      → send_message label t w ≡ done (true, delivered)
  unfolding send_message large_size small_size get_receivers send_each send_one allocate_large alloc
      initialize_if_needed fill_and_send put emplace
  send_large ready one f empty room elt large fits pos given =
      ground (arith, ready.unlocked, ready.initialized, ready.resources)

  -- The world after the `Receive`.
  abbrev pub taken_out : World Arena
  taken_out = record delivered {
    mailboxes = set delivered.mailboxes mbox (some (record q { items = [] }));
  }

  receive_large :
      find_mailbox w.mailboxes mbox ≡ some q
      → receive mbox delivered ≡ done (some (message label (length t) (some p)), taken_out)
  unfolding receive pop_front
  receive_large f = ground (
    arith,
    find-set w.mailboxes mbox mbox q (record q { items = message label (length t) (some p) ∷ [] })
        f,
  )

  -- In an initialised program whose large blocks have the large size, let one mailbox, alive and
  -- empty, with room for a message, be registered for a label. Send a value that is larger than the
  -- small size and no larger than the large size, but whose number of bytes modulo 2^16 is at most the
  -- small size, where the large pool has a block, the memory resource gives it, and the resource
  -- takes it back with the size of the small pool's blocks without an exception. `SendMessage`
  -- returns true with the block of the large pool, and `Receive` gives the message. But `as` of a
  -- type of the size that was sent gives nullptr; and the end of the guard gives the block to the
  -- small pool, which then counts one block more than before the `SendMessage`, modulo 2^64, and the
  -- large pool one less.
  pub release-truncated :
      IsReady w.shared x
      → x.mailboxes label ≡ one_receiver mbox
      → find_mailbox w.mailboxes mbox ≡ some q
      → q.items ≡ []
      → 0 < q.capacity
      → x.large_pool.elt_size ≡ x.large_size
      → x.small_size < length t
      → length t ≤ x.large_size
      → length t % 2 ^ 16 ≤ x.small_size
      → 0 < x.large_pool.size
      → r.allocate x.arena x.large_pool.elt_size ≡ some (p, a)
      → (b : Arena) → r.deallocate a p x.small_pool.elt_size ≡ some b
      → (w' w'' : World Arena) × (m : Message) × (x' : Resources Arena) × (send_message label t w
          ≡ done (true, w'))
        × (receive mbox w' ≡ done (some m, w''))
        × (m.bytes ≡ some p)
        × (as_type m (length t) ≡ none)
        × (end_guard m w'' ≡ record w'' { shared = free_small (some p) w''.shared })
        × ((end_guard m w'').shared.resources ≡ some x')
        × (x'.large_pool.size + 1 ≡ x.large_pool.size)
        × (x'.small_pool.size ≡ (x.small_pool.size + 1) % 2 ^ 64)
  unfolding end_guard release_message small_size as_type message free_small free
  release-truncated ready one f empty room elt large fits cut pos given b back = (
    delivered,
    taken_out,
    message label (length t) (some p),
    record (taken true x a) {
      small_pool = record x.small_pool { size = (x.small_pool.size + 1) % 2 ^ 64 };
      arena = b;
    },
    send_large ready one f empty room elt large fits pos given,
    receive_large f,
    refl,
    ground arith,
    ground arith,
    ground arith,
    omega arith,
    refl,
  )
