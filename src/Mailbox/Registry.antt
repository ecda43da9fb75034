-- ===== src/Mailbox/Registry.antt =====
-- Mailbox.h and MailboxData.h: `RegisterForLabel` and `UnregisterForLabel`.
use msglib_cpp.Common.{ℕ, ◌+◌, ◌≡◌, true, List, Option, arith, ltb, ◌==◌, if◌then◌else◌}
use msglib_cpp.Common.State.{done}
use msglib_cpp.Pool.Resource.{MemoryResource}
use msglib_cpp.Message.{Message}
use msglib_cpp.Receiver.{Receivers, add, remove}
use msglib_cpp.Receiver.Slots.{slots, free_slots, add_lem, remove_lem}
use msglib_cpp.MailboxData
use msglib_cpp.MailboxData.{Resources, set_receivers}
use msglib_cpp.Mailbox.{World, Mailbox, register_for_label, unregister_for_label}
use msglib_cpp.Mailbox.Accounting.{Accounted}
use msglib_cpp.Mailbox.Blocks.{IsReady, initialize_if_needed-ready, with_resources}

module _ {Arena : Type 0} ⦃r : MemoryResource Arena⦄ where
  -- The blocks do not depend on the registrations.
  pub mailboxes-Accounted :
      {x : Resources Arena} {ms : List (Option Mailbox)} {held lost : List Message}
      (f : ℕ → Receivers)
      → Accounted x ms held lost
      → Accounted (record x { mailboxes = f }) ms held lost
  mailboxes-Accounted f v = record {
    small_elt = v.small_elt;
    large_elt = v.large_elt;
    small_cap = v.small_cap;
    large_cap = v.large_cap;
    fits = v.fits;
    small_counted = v.small_counted;
    large_counted = v.large_counted;
    owned = v.owned;
  }

  abbrev pub with_receivers : World Arena → Resources Arena → ℕ → Receivers → World Arena
  with_receivers w x label rs = record w {
    shared = with_resources w.shared (set_receivers x label rs);
  }

  pub register-eq :
      (mbox label : ℕ) (w : World Arena) (x : Resources Arena)
      → IsReady w.shared x
      → let (ok, rs) = add mbox (x.mailboxes label) in
        register_for_label mbox label w ≡ done (ok, with_receivers w x label rs)
  unfolding register_for_label MailboxData.register_for_label
  register-eq mbox label w x ready = ground (
    arith,
    ready.unlocked,
    ready.resources,
    initialize_if_needed-ready (record w.shared { locked = true }) ready.initialized,
  )

  pub unregister-eq :
      (mbox label : ℕ) (w : World Arena) (x : Resources Arena)
      → IsReady w.shared x
      → unregister_for_label mbox label w
        ≡ done (true, with_receivers w x label (remove mbox (x.mailboxes label)).1)
  unfolding unregister_for_label MailboxData.unregister_for_label
  unregister-eq mbox label w x ready = ground (
    arith,
    ready.unlocked,
    ready.resources,
    initialize_if_needed-ready (record w.shared { locked = true }) ready.initialized,
  )

  pub register_lem :
      (mbox label : ℕ) (w : World Arena) (x : Resources Arena)
      → IsReady w.shared x
      → let ok = ltb 0 (free_slots (x.mailboxes label)) in
        (f : ℕ → Receivers) × (register_for_label mbox label w
          ≡ done (ok, record w { shared = with_resources w.shared (record x { mailboxes = f }) }))
        × ((k i : ℕ)
            → slots i (f k)
              ≡ slots i (x.mailboxes k)
                + (if label == k then (if mbox == i then (if ok then 1 else 0) else 0) else 0))
  register_lem mbox label w x ready =
      let (a, b, c, d) = add_lem mbox (x.mailboxes label) in
      (
        λ k. if label == k then (add mbox (x.mailboxes label)).1 else x.mailboxes k,
        rw (← a) (register-eq mbox label w x ready),
        λ k i. ground (arith, a, c i),
      )

  -- In an initialised program `UnregisterForLabel` returns true, and the mailbox has no slot for the
  -- label any more; every other registration, for this label or another, stays.
  pub unregister_lem :
      (mbox label : ℕ) (w : World Arena) (x : Resources Arena)
      → IsReady w.shared x
      → (f : ℕ → Receivers) × (unregister_for_label mbox label w
          ≡ done (true, record w { shared = with_resources w.shared (record x { mailboxes = f }) }))
        × ((k i : ℕ)
            → slots i (f k) ≡ (
                if label == k
                then (if mbox == i then 0 else slots i (x.mailboxes k))
                else slots i (x.mailboxes k)))
  unregister_lem mbox label w x ready =
      let (a, b, c, d) = remove_lem mbox (x.mailboxes label) in
      (
        λ k. if label == k then (remove mbox (x.mailboxes label)).1 else x.mailboxes k,
        unregister-eq mbox label w x ready,
        λ k i. ground (arith, c i),
      )
