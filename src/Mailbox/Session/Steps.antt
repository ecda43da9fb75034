-- ===== src/Mailbox/Session/Steps.antt =====
-- Mailbox.h: each call of a session keeps the invariant.
use msglib_cpp.Common.{ℕ, ◌<◌, refl, List, arith, length}
use native.Mathlib.Decide.{dec_lt}
use msglib_cpp.Pool.Resource.{MemoryResource}
use msglib_cpp.Mailbox.Blocks.{with_resources}
use msglib_cpp.Mailbox.Registry.{register_lem, unregister_lem, mailboxes-Accounted}
use msglib_cpp.Mailbox.Sends.{behind}
use msglib_cpp.Mailbox.Sends.Loop.{AreAlive, send_message-Sends, send_message-too_large}
use msglib_cpp.Mailbox.Signals.{send_signal_lem}
use msglib_cpp.Mailbox.Session.{
  Call, sends, signals, receives, releases, registers, unregisters, Session, step, failure, IsValid,
}
use msglib_cpp.Mailbox.Session.Invariant.{Setup, Inv, AreAlive-known, Keeps}
use msglib_cpp.Mailbox.Session.Taking.{receives-Keeps, releases-Keeps}

module _ {Arena : Type 0} ⦃r : MemoryResource Arena⦄ {n : Setup} where
  receivers-AreAlive :
      (s : Session Arena) (v : Inv n s) (label : ℕ)
      → AreAlive s.world.mailboxes (v.resources.mailboxes label)
  receivers-AreAlive s v label =
      AreAlive-known s.world.mailboxes (v.resources.mailboxes label)
        (λ i p. v.alive i (v.known label i p))

  sends-Keeps :
      (s : Session Arena) (label : ℕ) (t : List ℕ) (v : Inv n s) → Keeps n s (sends label t) v
  unfolding step failure
  sends-Keeps s label t v = elim (dec_lt v.resources.large_size (length t)) [
    | yes large ↦ (
      s,
      v,
      ground (arith, send_message-too_large label t s.world v.resources v.ready large),
      λ _. refl,
    )
    | no small ↦
        let (b, w, x, lost, run, d) =
          send_message-Sends label t s.world v.resources v.lost v.ready v.accounted
            (receivers-AreAlive s v label) (omega arith) in
        (
          record { world = w; held = s.held },
          record {
            resources = x;
            lost = lost;
            fixed =
                ground
                  (arith, v.fixed, d.small_size, d.large_size, d.small_capacity, d.large_capacity);
            ready = ground (arith, d.shared, v.ready);
            accounted = d.accounted;
            alive = λ i h.
                let (q, e) = v.alive i h in
                let (new, e', all, le, eq) = d.delivered i q e in (behind q new, e');
            known = rw d.registered v.known;
          },
          ground (arith, run),
          λ z. d.nothing_lost (ground (arith, run, z)),
        )
  ]

  signals-Keeps : (s : Session Arena) (label : ℕ) (v : Inv n s) → Keeps n s (signals label) v
  unfolding step
  signals-Keeps s label v =
      let (ms, run, acc, got) =
        send_signal_lem label s.world v.resources s.held v.lost v.ready v.accounted
          (receivers-AreAlive s v label) in
      (
        record { world = record s.world { mailboxes = ms }; held = s.held },
        record {
          resources = v.resources;
          lost = v.lost;
          fixed = v.fixed;
          ready = v.ready;
          accounted = acc;
          alive = λ i h. let (q, e) = v.alive i h in (_, got i q e);
          known = v.known;
        },
        ground (arith, run),
        λ _. refl,
      )

  registers-Keeps :
      (s : Session Arena) (mbox label : ℕ)
      → mbox < n.mailboxes
      → (v : Inv n s) → Keeps n s (registers mbox label) v
  unfolding step
  registers-Keeps s mbox label h v =
      let (f, run, put) = register_lem mbox label s.world v.resources v.ready in
      (
        record {
          world = record s.world {
            shared = with_resources s.world.shared (record v.resources { mailboxes = f });
          };
          held = s.held;
        },
        record {
          resources = record v.resources { mailboxes = f };
          lost = v.lost;
          fixed = record {
            small_size = v.fixed.small_size;
            large_size = v.fixed.large_size;
            small_cap = v.fixed.small_cap;
            large_cap = v.fixed.large_cap;
          };
          ready = record {
            unlocked = v.ready.unlocked;
            initialized = v.ready.initialized;
            resources = refl;
          };
          accounted = mailboxes-Accounted f v.accounted;
          alive = v.alive;
          known = λ k i p. ground (arith, put k i, v.known k i);
        },
        ground (arith, run),
        λ _. refl,
      )

  unregisters-Keeps :
      (s : Session Arena) (mbox label : ℕ) (v : Inv n s) → Keeps n s (unregisters mbox label) v
  unfolding step
  unregisters-Keeps s mbox label v =
      let (f, run, put) = unregister_lem mbox label s.world v.resources v.ready in
      (
        record {
          world = record s.world {
            shared = with_resources s.world.shared (record v.resources { mailboxes = f });
          };
          held = s.held;
        },
        record {
          resources = record v.resources { mailboxes = f };
          lost = v.lost;
          fixed = record {
            small_size = v.fixed.small_size;
            large_size = v.fixed.large_size;
            small_cap = v.fixed.small_cap;
            large_cap = v.fixed.large_cap;
          };
          ready = record {
            unlocked = v.ready.unlocked;
            initialized = v.ready.initialized;
            resources = refl;
          };
          accounted = mailboxes-Accounted f v.accounted;
          alive = v.alive;
          known = λ k i p. ground (arith, put k i, v.known k i);
        },
        ground (arith, run),
        λ _. refl,
      )

  pub step-Keeps :
      (s : Session Arena) (c : Call) → IsValid n.mailboxes c → (v : Inv n s) → Keeps n s c v
  step-Keeps s (sends label t) h v = sends-Keeps s label t v
  step-Keeps s (signals label) h v = signals-Keeps s label v
  step-Keeps s (receives mbox) h v = receives-Keeps s mbox h v
  step-Keeps s (releases i) h v = releases-Keeps s i v
  step-Keeps s (registers mbox label) h v = registers-Keeps s mbox label h v
  step-Keeps s (unregisters mbox label) h v = unregisters-Keeps s mbox label v
