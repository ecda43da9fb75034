-- ===== src/Worker/Calls.antt =====
-- Mailbox.h: the calls of the threads of the examples, against Worker.Healthy.
use msglib_cpp.Common.{
  ℕ, ◌+◌, ◌≡◌, ◌⊎◌, refl, Bool, true, false, not, Option, none, some, List, [], ◌∷◌, arith, length,
  ltb, leb, set, ◌==◌, if◌then◌else◌, Option-cases, Bool-cases, inl, inr,
}
use native.Mathlib.Decide.{dec_lt}
use mathlib.Core.List.{append-nil}
use msglib_cpp.Common.State.{done}
use msglib_cpp.Pool.Resource.{MemoryResource}
use msglib_cpp.Queue.{pop_front}
use msglib_cpp.Queue.Fifo.{pop_front-some, pop_front-none}
use msglib_cpp.Message.{Message}
use msglib_cpp.Receiver.Slots.{slots, free_slots}
use msglib_cpp.MailboxData.{Resources}
use msglib_cpp.Mailbox.{
  World, Mailbox, find_mailbox, receive, release_message, register_for_label, unregister_for_label,
  send_message, send_signal,
}
use msglib_cpp.Mailbox.Messages.{all-hold, all-dequeue}
use msglib_cpp.Mailbox.Accounting.{freed, moved-Accounted}
use msglib_cpp.Mailbox.Blocks.{release-Accounted, released}
use msglib_cpp.Mailbox.Registry.{register_lem, unregister_lem, mailboxes-Accounted}
use msglib_cpp.Mailbox.Sends.{behind}
use msglib_cpp.Mailbox.Sends.Loop.{send_message-Sends, send_message-too_large}
use msglib_cpp.Mailbox.Signals.{alive-set, send_signal_lem, send_signal-dead}
use msglib_cpp.Worker.Healthy.{Alive, Grows, Healthy, receivers-AreAlive}

freed-mailboxes :
    {Arena : Type 0} (b : Bool) (x : Resources Arena) (a : Arena)
    → (freed b x a).mailboxes ≡ x.mailboxes
freed-mailboxes true x a = refl
freed-mailboxes false x a = refl

pub Grows-same : (ms : List (Option Mailbox)) → Grows ms ms
Grows-same ms = record { grown = λ i q e. ([], rw append-nil e); dead = λ i e. e }

module _ {Arena : Type 0} ⦃r : MemoryResource Arena⦄ (w : World Arena) (x : Resources Arena)
    (held lost : List Message) where
  pub send_message-Healthy :
      (label : ℕ) (t : List ℕ)
      → Healthy w x held lost
      → (b : Bool) × (w' : World Arena) × (x' : Resources Arena) × (lost' : List Message)
        × (send_message label t w ≡ done (b, w'))
        × Healthy w' x' held lost'
        × (x'.mailboxes ≡ x.mailboxes)
        × Grows w.mailboxes w'.mailboxes
  send_message-Healthy label t v = elim (dec_lt x.large_size (length t)) [
    | yes large ↦ (
      false,
      w,
      x,
      lost,
      send_message-too_large label t w x v.ready large,
      v,
      refl,
      Grows-same w.mailboxes,
    )
    | no small ↦
        let (b, w', x', lost', run, d) =
          send_message-Sends label t w x lost v.ready v.accounted (receivers-AreAlive v label)
            (omega arith) in
        let grows : Grows w.mailboxes w'.mailboxes = record {
          grown = λ i q e. let (new, e', all, le, eq) = d.delivered i q e in (new, e');
          dead = d.dead;
        } in
        (
          b,
          w',
          x',
          lost',
          run,
          record {
            ready = ground (arith, d.shared, v.ready);
            accounted = d.accounted;
            alive = λ l i h.
                let (q, e) = v.alive l i (rw (← d.registered) h) in
                let (new, e') = grows.grown i q e in (behind q new, e');
          },
          d.registered,
          grows,
        )
  ]

  pub send_signal-Healthy :
      (label : ℕ)
      → Healthy w x held lost
      → (w' : World Arena) × (send_signal label w ≡ done (true, w'))
        × Healthy w' x held lost
        × Grows w.mailboxes w'.mailboxes
  send_signal-Healthy label v =
      let (ms, run, acc, got) =
        send_signal_lem label w x held lost v.ready v.accounted (receivers-AreAlive v label) in
      (
        record w { mailboxes = ms },
        run,
        record {
          ready = v.ready;
          accounted = acc;
          alive = λ l i h. let (q, e) = v.alive l i h in (_, got i q e);
        },
        record {
          grown = λ i q e. (_, got i q e);
          dead = send_signal-dead label w x v.ready (receivers-AreAlive v label) run;
        },
      )

  -- Registering for a label adds a slot at most, for a mailbox that is alive.
  pub register-Healthy :
      (this label : ℕ)
      → Healthy w x held lost
      → Alive w.mailboxes this
      → (b : Bool) × (w' : World Arena) × (x' : Resources Arena) × (register_for_label this label w
          ≡ done (b, w'))
        × Healthy w' x' held lost
        × (w'.mailboxes ≡ w.mailboxes)
        × ((k i : ℕ)
            → slots i (x'.mailboxes k)
              ≡ slots i (x.mailboxes k)
                + (if label == k then (if this == i then (if b then 1 else 0) else 0) else 0))
  register-Healthy this label v a =
      let (f, run, put) = register_lem this label w x v.ready in
      (
        ltb 0 (free_slots (x.mailboxes label)),
        _,
        record x { mailboxes = f },
        run,
        record {
          ready = record {
            unlocked = v.ready.unlocked;
            initialized = v.ready.initialized;
            resources = refl;
          };
          accounted = mailboxes-Accounted f v.accounted;
          alive = λ k i h. elim (Bool-cases (this == i)) [
            | inl hit ↦ (a.0, ground (arith, a.1))
            | inr miss ↦ v.alive k i (ground (arith, put k i))
          ];
        },
        refl,
        put,
      )

  pub unregister-Healthy :
      (this label : ℕ)
      → Healthy w x held lost
      → (w' : World Arena) × (x' : Resources Arena) × (unregister_for_label this label w
          ≡ done (true, w'))
        × Healthy w' x' held lost
        × (w'.mailboxes ≡ w.mailboxes)
        × ((k i : ℕ)
            → slots i (x'.mailboxes k) ≡ (
                if label == k
                then (if this == i then 0 else slots i (x.mailboxes k))
                else slots i (x.mailboxes k)))
  unregister-Healthy this label v =
      let (f, run, put) = unregister_lem this label w x v.ready in
      (
        _,
        record x { mailboxes = f },
        run,
        record {
          ready = record {
            unlocked = v.ready.unlocked;
            initialized = v.ready.initialized;
            resources = refl;
          };
          accounted = mailboxes-Accounted f v.accounted;
          alive = λ k i h. v.alive k i (ground (arith, put k i));
        },
        refl,
        put,
      )

  -- A thread that receives blocks, with its queue empty, or holds its oldest message.
  pub receive-Healthy :
      (this : ℕ) (q : Mailbox)
      → Healthy w x held lost
      → find_mailbox w.mailboxes this ≡ some q
      → ((q.items ≡ []) × (receive this w ≡ done (none, w)))
        ⊎ ((m : Message) × (q' : Mailbox) × (q.items ≡ m ∷ q'.items)
            × (receive this w
                ≡ done (some m, record w { mailboxes = set w.mailboxes this (some q') }))
            × Healthy (record w { mailboxes = set w.mailboxes this (some q') }) x (m ∷ held) lost)
  unfolding receive
  receive-Healthy this q v e = elim (Option-cases (pop_front q)) [
    | inl f ↦ inl (pop_front-none q f, ground (arith, e, f))
    | inr ((m, q'), f) ↦ inr (
      m,
      q',
      (pop_front-some q f).0,
      ground (arith, e, f),
      record {
        ready = v.ready;
        accounted = moved-Accounted v.accounted _ (m ∷ held) lost λ g z. omega (
          arith,
          all-hold g (set w.mailboxes this (some q')) held lost m,
          all-dequeue g w.mailboxes held lost this m q q' e (pop_front-some q f).0,
        );
        alive = λ l i h. alive-set 0 w.mailboxes this i q q' e (v.alive l i h);
      },
    )
  ]

  pub release-Healthy :
      (m : Message)
      → Healthy w x (m ∷ held) lost
      → (w' : World Arena) × (x' : Resources Arena) × (release_message m w ≡ w')
        × Healthy w' x' held lost
        × (w'.mailboxes ≡ w.mailboxes)
        × (x'.mailboxes ≡ x.mailboxes)
  unfolding release_message
  release-Healthy m v = elim (Option-cases m.bytes) [
    | inl b ↦ (
      w,
      x,
      ground arith,
      record {
        ready = v.ready;
        accounted =
            moved-Accounted v.accounted w.mailboxes held lost
              λ f z. omega (arith, all-hold f w.mailboxes held lost m, z m b);
        alive = v.alive;
      },
      refl,
      refl,
    )
    | inr (p, b) ↦
        let (a, run, acc) =
          release-Accounted w x m p (m ∷ held) held lost v.ready.resources v.accounted b
            (λ f. omega (arith, all-hold f w.mailboxes held lost m)) in
        let same : (freed (not (leb m.size x.small_size)) x a).mailboxes ≡ x.mailboxes =
          freed-mailboxes (not (leb m.size x.small_size)) x a in
        (
          released w x m a,
          freed (not (leb m.size x.small_size)) x a,
          run,
          record {
            ready = record {
              unlocked = v.ready.unlocked;
              initialized = v.ready.initialized;
              resources = refl;
            };
            accounted = acc;
            alive = rw same v.alive;
          },
          refl,
          same,
        )
  ]
