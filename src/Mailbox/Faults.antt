-- ===== src/Mailbox/Faults.antt =====
-- Mailbox.h and MailboxData.h: where the library does not do what its interface suggests.
mod Examples
use msglib_cpp.Common.{
  ℕ, zero, suc, ◌+◌, ◌≤◌, ◌<◌, ◌≡◌, refl, sym, true, false, Option, none, some, List, [], ◌∷◌,
  arith, length, set, le→ltb-false,
}
use mathlib.Core.List.{append-nil}
use msglib_cpp.Common.State.{done, fault, relock, null_resources, dangling_mailbox}
use msglib_cpp.Pool.Resource.{MemoryResource}
use msglib_cpp.MailboxData
use msglib_cpp.MailboxData.{
  uninitialized, initialize_if_needed, large_size, small_size, get_receivers, free_small, Resources,
  allocate_small,
}
use msglib_cpp.Pool.{Memory, alloc}
use msglib_cpp.Receiver.{Receivers}
use msglib_cpp.Message.{Message}
use msglib_cpp.Mailbox.{
  World, Mailbox, find_mailbox, register_for_label, unregister_for_label, send_message, send_signal,
  destroy, signal_each, send_each, send_one,
}
use msglib_cpp.Mailbox.Accounting.{Accounted, taken}
use msglib_cpp.Mailbox.Blocks.{IsReady}
use msglib_cpp.Mailbox.Sends.{behind}
use msglib_cpp.Mailbox.Sends.One.{filled, full_lem, find-set}

find-set-none : (ms : List (Option Mailbox)) (i : ℕ) → find_mailbox (set ms i none) i ≡ none
find-set-none [] i = refl
find-set-none (m ∷ ms) zero = refl
find-set-none (m ∷ ms) (suc i) = find-set-none ms i

-- One mailbox receives a label.
abbrev pub one_receiver : ℕ → Receivers
one_receiver mbox = some mbox ∷ none ∷ none ∷ []

module _ {Arena : Type 0} ⦃r : MemoryResource Arena⦄ where
  -- Before `Initialize`, `RegisterForLabel` and `UnregisterForLabel` lock the mutex that they hold,
  -- and `SendSignal` goes through a null pointer, while `SendMessage` of a value of at least one byte
  -- returns false and changes nothing.
  pub uninitialized_calls :
      (ms : List (Option Mailbox)) (memory : Memory) (mbox label : ℕ) (t : List ℕ)
      → 0 < length t
      → let w : World Arena = record { shared = uninitialized; mailboxes = ms; memory = memory } in
        (register_for_label mbox label w ≡ fault relock)
        × (unregister_for_label mbox label w ≡ fault relock)
        × (send_signal label w ≡ fault null_resources)
        × (send_message label t w ≡ done (false, w))
  unfolding register_for_label unregister_for_label MailboxData.register_for_label
      MailboxData.unregister_for_label initialize_if_needed MailboxData.initialize
      MailboxData.initialize_with send_signal send_message large_size get_receivers
  uninitialized_calls ms memory mbox label t h = (refl, refl, refl, ground arith)

  -- The one receiver of a label has a full queue: `SendMessage` of a value that fits a small block
  -- takes a block from the small pool and returns false; no mailbox has changed, and the block
  -- stays out.
  pub full_queue_loses :
      (w : World Arena) (x : Resources Arena) (mbox label p : ℕ) (t : List ℕ) (q : Mailbox)
      (a : Arena) (held lost : List Message)
      → IsReady w.shared x
      → Accounted x w.mailboxes held lost
      → x.mailboxes label ≡ one_receiver mbox
      → find_mailbox w.mailboxes mbox ≡ some q
      → q.capacity ≤ length q.items
      → length t ≤ x.small_size
      → length t ≤ x.large_size
      → 0 < x.small_pool.size
      → r.allocate x.arena x.small_pool.elt_size ≡ some (p, a)
      → (w' : World Arena) × (x' : Resources Arena) × (send_message label t w ≡ done (false, w'))
        × (w'.shared.resources ≡ some x')
        × (x'.small_pool.size + 1 ≡ x.small_pool.size)
        × (r.live x'.arena p ≡ some x.small_size)
        × ((i : ℕ) → find_mailbox w'.mailboxes i ≡ find_mailbox w.mailboxes i)
  unfolding send_message large_size small_size get_receivers send_each send_one allocate_small alloc
      initialize_if_needed
  full_queue_loses w x mbox label p t q a held lost ready v one f full st lt pos given =
      let w1 : World Arena = record w { shared = record w.shared { locked = true } } in
      let x' : Resources Arena = taken false x a in
      let w2 : World Arena = filled w1 x' p t mbox (behind q []) in
      (
        record w2 { shared = record w2.shared { locked = false } },
        x',
        ground (
          arith,
          ready.unlocked,
          ready.initialized,
          ready.resources,
          one,
          full_lem label t false mbox q w1 x ready.resources f lt
              (sym (le→ltb-false x.small_size (length t) st)) v p a pos given full,
        ),
        refl,
        omega arith,
        ground (arith, r.allocate-live _ _ given p, v.small_elt),
        λ i. ground (arith, find-set w.mailboxes mbox i q (behind q []) f, append-nil q.items),
      )

  -- A mailbox is destroyed while it is the one receiver of a label: the next signal of that label
  -- is put into a mailbox that is gone.
  pub destroyed_receiver :
      (w : World Arena) (x : Resources Arena) (mbox label : ℕ)
      → IsReady w.shared x
      → x.mailboxes label ≡ one_receiver mbox
      → send_signal label (destroy mbox w) ≡ fault dangling_mailbox
  unfolding send_signal destroy get_receivers signal_each
  destroyed_receiver w x mbox label ready one =
      ground (arith, ready.unlocked, ready.resources, one, find-set-none w.mailboxes mbox)
