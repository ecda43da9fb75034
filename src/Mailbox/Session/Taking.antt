-- ===== src/Mailbox/Session/Taking.antt =====
-- Mailbox.h: `Receive` and the release of a message keep the invariant.
use msglib_cpp.Common.{
  ℕ, zero, suc, ◌+◌, ◌<◌, ◌≡◌, refl, inl, inr, none, some, List, [], ◌∷◌, arith, leb, not,
  get_elem?, set, total, total-cons, Option-cases,
}
use msglib_cpp.Pool.Resource.{MemoryResource}
use msglib_cpp.Queue.{pop_front}
use msglib_cpp.Queue.Fifo.{pop_front-some}
use msglib_cpp.Message.{Message}
use msglib_cpp.Mailbox.{Mailbox, find_mailbox, receive, end_guard}
use msglib_cpp.Mailbox.Messages.{all_messages, all-hold, all-dequeue}
use msglib_cpp.Mailbox.Accounting.{freed, moved-Accounted}
use msglib_cpp.Mailbox.Blocks.{release-Accounted, released}
use msglib_cpp.Mailbox.Signals.{alive-set}
use msglib_cpp.Mailbox.Session.{receives, releases, Session, step, remove_at}
use msglib_cpp.Mailbox.Session.Invariant.{Setup, Inv, Keeps}

module _ {Arena : Type 0} ⦃r : MemoryResource Arena⦄ {n : Setup} where
  -- A mailbox gave its oldest message to a client.
  received-Inv :
      (s : Session Arena) (mbox : ℕ) (m : Message) (q q' : Mailbox)
      → find_mailbox s.world.mailboxes mbox ≡ some q
      → pop_front q ≡ some (m, q')
      → Inv n s
      → Inv n (record {
        world = record s.world { mailboxes = set s.world.mailboxes mbox (some q') };
        held = m ∷ s.held;
      })
  received-Inv s mbox m q q' e f v = record {
    resources = v.resources;
    lost = v.lost;
    fixed = v.fixed;
    ready = v.ready;
    accounted = moved-Accounted v.accounted _ (m ∷ s.held) v.lost λ g _. omega (
      arith,
      all-hold g (set s.world.mailboxes mbox (some q')) s.held v.lost m,
      all-dequeue g s.world.mailboxes s.held v.lost mbox m q q' e (pop_front-some q f).0,
    );
    alive = λ i h. alive-set 0 s.world.mailboxes mbox i q q' e (v.alive i h);
    known = v.known;
  }

  pub receives-Keeps :
      (s : Session Arena) (mbox : ℕ)
      → mbox < n.mailboxes
      → (v : Inv n s) → Keeps n s (receives mbox) v
  unfolding step receive received-Inv
  receives-Keeps s mbox h v =
      let (q, e) = v.alive mbox h in
      elim (Option-cases (pop_front q)) [
        | inl f ↦ (s, v, ground (arith, e, f), λ _. refl)
        | inr ((m, q'), f) ↦ (_, received-Inv s mbox m q q' e f v, ground (arith, e, f), λ _. refl)
      ]

total-remove_at :
    (f : Message → ℕ) (ms : List Message) (i : ℕ) {m : Message}
    → get_elem? ms i ≡ some m
    → total f (remove_at ms i) + f m ≡ total f ms
total-remove_at f [] i e = cc
total-remove_at f (m ∷ ms) zero e = ground (arith, total-cons f m ms)
total-remove_at f (m ∷ ms) (suc i) e =
    omega (arith, total-remove_at f ms i e, total-cons f m ms, total-cons f m (remove_at ms i))

module _ {Arena : Type 0} ⦃r : MemoryResource Arena⦄ {n : Setup} where
  -- A message with no data is released.
  released_signal-Inv :
      (s : Session Arena) (i : ℕ) (m : Message)
      → get_elem? s.held i ≡ some m
      → m.bytes ≡ none
      → Inv n s
      → Inv n (record { world = s.world; held = remove_at s.held i })
  unfolding all_messages
  released_signal-Inv s i m e b v = record {
    resources = v.resources;
    lost = v.lost;
    fixed = v.fixed;
    ready = v.ready;
    accounted =
        moved-Accounted v.accounted s.world.mailboxes (remove_at s.held i) v.lost
          λ g z. omega (arith, total-remove_at g s.held i e, z m b);
    alive = v.alive;
    known = v.known;
  }

  pub releases-Keeps : (s : Session Arena) (i : ℕ) (v : Inv n s) → Keeps n s (releases i) v
  unfolding step end_guard all_messages released_signal-Inv
  releases-Keeps s i v = elim (Option-cases (get_elem? s.held i)) [
    | inl e ↦ (s, v, ground (arith, e), λ _. refl)
    | inr (m, e) ↦ elim (Option-cases m.bytes) [
      | inl b ↦ (_, released_signal-Inv s i m e b v, ground (arith, e, b), λ _. refl)
      | inr (p, b) ↦
          let (a, run, acc) =
            release-Accounted s.world v.resources m p s.held (remove_at s.held i) v.lost
              v.ready.resources v.accounted b (λ f. omega (arith, total-remove_at f s.held i e)) in
          (
            record { world = released s.world v.resources m a; held = remove_at s.held i },
            record {
              resources = freed (not (leb m.size v.resources.small_size)) v.resources a;
              lost = v.lost;
              fixed = ground (arith, v.fixed);
              ready = record {
                unlocked = v.ready.unlocked;
                initialized = v.ready.initialized;
                resources = refl;
              };
              accounted = acc;
              alive = v.alive;
              known = λ label j h. ground (arith, v.known label j);
            },
            ground (arith, e, b, run),
            λ _. refl,
          )
    ]
  ]
