-- ===== src/Mailbox/Messages.antt =====
-- Mailbox.h: the messages of a program, queued in a mailbox, held by a client or lost, and sums of
-- weights over them.
use msglib_cpp.Common.{
  ℕ, ◌+◌, ◌≤◌, ◌≡◌, ap, Option, none, some, List, [], ◌∷◌, ◌++◌, arith, leb, ◌==◌, if◌then◌else◌,
  get_elem?, set, total, total-set, total-append, total_mono, total-le-add, total-cons, total-one,
}
use msglib_cpp.Message.{Message}
use msglib_cpp.Mailbox.{Mailbox, find_mailbox}

-- The element size of the pool that `ReleaseMessage` gives the block of `m` back to.
abbrev pub block_size : ℕ → ℕ → Message → ℕ
block_size small large m = if leb m.size small then small else large

-- Does `m` own a block of `n` bytes at `p`? A block of the small pool? Of the large pool?
abbrev pub owns : ℕ → ℕ → ℕ → ℕ → Message → ℕ
owns small large p n m = elim m.bytes [
  | none ↦ 0
  | some q ↦ if q == p then (if block_size small large m == n then 1 else 0) else 0
]

abbrev pub in_small : ℕ → Message → ℕ
in_small small m = elim m.bytes [ none ↦ 0 | some q ↦ if leb m.size small then 1 else 0 ]

abbrev pub in_large : ℕ → Message → ℕ
in_large small m = elim m.bytes [ none ↦ 0 | some q ↦ if leb m.size small then 0 else 1 ]

abbrev pub queued : (Message → ℕ) → Option Mailbox → ℕ
queued f none = 0
queued f (some q) = total f q.items

-- The weight of all messages: queued, held by clients, lost.
unfoldable pub all_messages :
    (Message → ℕ) → List (Option Mailbox) → List Message → List Message → ℕ
all_messages f ms held lost = total (queued f) ms + total f held + total f lost

module _ (f : Message → ℕ) (ms : List (Option Mailbox)) (held lost : List Message) where
  pub all-hold :
      (m : Message) → all_messages f ms (m ∷ held) lost ≡ f m + all_messages f ms held lost
  unfolding all_messages
  all-hold m = omega (arith, total-cons f m held)

  pub all-lose :
      (m : Message) → all_messages f ms held (m ∷ lost) ≡ f m + all_messages f ms held lost
  unfolding all_messages
  all-lose m = omega (arith, total-cons f m lost)

  get_elem?_of_find :
      (i : ℕ) {q : Mailbox} → find_mailbox ms i ≡ some q → get_elem? ms i ≡ some (some q)
  get_elem?_of_find i e = ground arith

  queued-le :
      (g : Message → ℕ)
      → ((m : Message) → f m ≤ g m)
      → (o : Option Mailbox) → queued f o ≤ queued g o
  queued-le g h none = omega arith
  queued-le g h (some q) = total_mono f g h q.items

  queued-le-add :
      (g k : Message → ℕ)
      → ((m : Message) → f m ≤ g m + k m)
      → (o : Option Mailbox) → queued f o ≤ queued g o + queued k o
  queued-le-add g k h none = omega arith
  queued-le-add g k h (some q) = total-le-add f g k h q.items

  -- A mailbox is written with the messages that it has.
  pub all-same :
      (i : ℕ) (q q' : Mailbox)
      → find_mailbox ms i ≡ some q
      → q'.items ≡ q.items
      → all_messages f (set ms i (some q')) held lost ≡ all_messages f ms held lost
  unfolding all_messages
  all-same i q q' e g =
      omega (arith, total-set (queued f) ms i (some q') (get_elem?_of_find i e), ap (total f) g)

  -- A mailbox gets one more message.
  pub all-enqueue :
      (i : ℕ) (m : Message) (q q' : Mailbox)
      → find_mailbox ms i ≡ some q
      → q'.items ≡ q.items ++ m ∷ []
      → all_messages f (set ms i (some q')) held lost ≡ f m + all_messages f ms held lost
  unfolding all_messages
  all-enqueue i m q q' e g = omega (
    arith,
    total-set (queued f) ms i (some q') (get_elem?_of_find i e),
    ap (total f) g,
    total-append f q.items (m ∷ []),
    total-one f m,
  )

  -- A mailbox gives its oldest message away.
  pub all-dequeue :
      (i : ℕ) (m : Message) (q q' : Mailbox)
      → find_mailbox ms i ≡ some q
      → q.items ≡ m ∷ q'.items
      → all_messages f (set ms i (some q')) held lost + f m ≡ all_messages f ms held lost
  unfolding all_messages
  all-dequeue i m q q' e g = omega (
    arith,
    total-set (queued f) ms i (some q') (get_elem?_of_find i e),
    ap (total f) g,
    total-cons f m q'.items,
  )

  pub all_mono :
      (g : Message → ℕ)
      → ((m : Message) → f m ≤ g m)
      → all_messages f ms held lost ≤ all_messages g ms held lost
  unfolding all_messages
  all_mono g h = omega (
    arith,
    total_mono (queued f) (queued g) (queued-le g h) ms,
    total_mono f g h held,
    total_mono f g h lost,
  )

  pub all-le-add :
      (g k : Message → ℕ)
      → ((m : Message) → f m ≤ g m + k m)
      → all_messages f ms held lost ≤ all_messages g ms held lost + all_messages k ms held lost
  unfolding all_messages
  all-le-add g k h = omega (
    arith,
    total-le-add (queued f) (queued g) (queued k) (queued-le-add g k h) ms,
    total-le-add f g k h held,
    total-le-add f g k h lost,
  )
