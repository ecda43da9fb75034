-- ===== src/Mailbox/Registration/Order.antt =====
-- Mailbox.h: `SendSignal` and the order of the registrations for its label.
use msglib_cpp.Common.{
  ℕ, ◌≡◌, refl, ap, sym, ◌∙◌, Bool, true, false, Option, none, some, List, [], ◌∷◌, arith, set,
  Option-cases, inl, inr,
}
use msglib_cpp.Common.State.{Outcome, done, fault, dangling_mailbox, Outcome-cases}
use msglib_cpp.Pool.Resource.{MemoryResource}
use msglib_cpp.Receiver.{Receivers}
use msglib_cpp.Message.{signal}
use msglib_cpp.Queue.{emplace}
use msglib_cpp.MailboxData.{Resources, get_receivers}
use msglib_cpp.Mailbox.{World, Mailbox, find_mailbox, signal_each, send_signal}
use msglib_cpp.Mailbox.Blocks.{IsReady}
use msglib_cpp.Mailbox.Registration.{SameSlots, signal_each-SameSlots}
use msglib_cpp.Mailbox.Registration.Abstract.{occupied, registrations, occupied-registrations}

-- What a call returns, and the mailboxes after it.
abbrev pub seen :
    {Arena A : Type 0} → Outcome (A × World Arena) → Outcome (A × List (Option Mailbox))
seen (done (a, w)) = done (a, w.mailboxes)
seen (fault e) = fault e

module _ {Arena : Type 0} where
  -- The loop of `SendSignal` looks at the mailboxes only.
  signal_each-seen :
      (label : ℕ) (rs : Receivers) (w w' : World Arena)
      → w.mailboxes ≡ w'.mailboxes
      → seen (signal_each label rs w) ≡ seen (signal_each label rs w')
  unfolding signal_each
  signal_each-seen label [] w w' e = ground arith
  signal_each-seen label (none ∷ rs) w w' e = signal_each-seen label rs w w' e
  signal_each-seen label (some j ∷ rs) w w' e = elim (Option-cases (find_mailbox w.mailboxes j)) [
    | inl f ↦
        let left : signal_each label (some j ∷ rs) w ≡ fault dangling_mailbox = ground arith in
        let right : signal_each label (some j ∷ rs) w' ≡ fault dangling_mailbox = ground arith in
        ap seen (left ∙ sym right)
    | inr (q, f) ↦
        let after : List (Option Mailbox) → List (Option Mailbox) =
          λ ms. set ms j (some (emplace q (signal label)).1) in
        let w1 : World Arena = record w { mailboxes = after w.mailboxes } in
        let w1' : World Arena = record w' { mailboxes = after w'.mailboxes } in
        let left : signal_each label (some j ∷ rs) w ≡ signal_each label rs w1 = ground arith in
        let right : signal_each label (some j ∷ rs) w' ≡ signal_each label rs w1' = ground arith in
        ap seen left ∙ (signal_each-seen label rs w1 w1' (ap after e) ∙ sym (ap seen right))
  ]

abbrev answered :
    Outcome (Unit {0} × List (Option Mailbox)) → Outcome (Bool × List (Option Mailbox))
answered (done (u, ms)) = done (true, ms)
answered (fault e) = fault e

module _ {Arena : Type 0} ⦃r : MemoryResource Arena⦄ where
  send_signal-seen :
      (label : ℕ) (w : World Arena) (x : Resources Arena)
      → IsReady w.shared x
      → seen (send_signal label w)
        ≡ answered (
            seen (
              signal_each label
                (x.mailboxes label)
                (record w { shared = record w.shared { locked = true } })))
  unfolding send_signal get_receivers
  send_signal-seen label w x ready =
      elim (Outcome-cases (
        signal_each label (x.mailboxes label)
          (record w { shared = record w.shared { locked = true } }))) [
            | inl ((u, w'), e) ↦
                let run : send_signal label w
                    ≡ done (true, record w' { shared = record w'.shared { locked = false } }) =
                  ground (arith, ready.unlocked, ready.resources) in
                rw (run, e) refl
            | inr (y, e) ↦
                let run : send_signal label w ≡ fault y =
                  ground (arith, ready.unlocked, ready.resources) in
                rw (run, e) refl
          ]

  -- Two initialised programs have the same mailboxes, and the same registrations for a label, as how
  -- many slots each mailbox takes and how many are free, in whatever order the mailboxes registered.
  -- Then SendSignal of that label does the same in both: it returns the same and leaves the same
  -- mailboxes behind, or it uses a mailbox that is destroyed in both.
  pub send_signal-registrations :
      (label : ℕ) (w w' : World Arena) (x x' : Resources Arena)
      → IsReady w.shared x
      → IsReady w'.shared x'
      → w.mailboxes ≡ w'.mailboxes
      → registrations x label ≡ registrations x' label
      → seen (send_signal label w) ≡ seen (send_signal label w')
  send_signal-registrations label w w' x x' ready ready' same registered =
      let slots_same : SameSlots (x.mailboxes label) (x'.mailboxes label) = λ i.
        sym (occupied-registrations x label i)
        ∙ (ap (occupied i) registered ∙ occupied-registrations x' label i) in
      let w1 : World Arena = record w { shared = record w.shared { locked = true } } in
      let w1' : World Arena = record w' { shared = record w'.shared { locked = true } } in
      send_signal-seen label w x ready
      ∙ (ap answered (
            ap seen
              (signal_each-SameSlots label (x.mailboxes label) (x'.mailboxes label) w1 slots_same)
            ∙ signal_each-seen label (x'.mailboxes label) w1 w1' same)
          ∙ sym (send_signal-seen label w' x' ready'))
