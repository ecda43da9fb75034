-- ===== src/Mailbox/Registration.antt =====
-- Mailbox.h: what `SendSignal` does depends on how many slots of Receivers each mailbox takes for
-- the label, and not on which.
pub mod Abstract
pub mod Order
mod Examples
use msglib_cpp.Common.{
  ℕ, zero, suc, ◌+◌, ◌<◌, ◌≡◌, ◌⊎◌, refl, sym, ap, ◌∙◌, true, false, Option, none, some, List, [],
  ◌∷◌, arith, get_elem?, set, get_elem?-set_ne, ◌==◌, if◌then◌else◌, Option-cases, Bool-cases, inl,
  inr,
}
use msglib_cpp.Common.State.{Outcome, done, fault, dangling_mailbox}
use msglib_cpp.Receiver.{Receivers}
use msglib_cpp.Receiver.Slots.{slots}
use msglib_cpp.Message.{signal}
use msglib_cpp.Queue.{emplace}
use msglib_cpp.Mailbox.{World, Mailbox, find_mailbox, signal_each}
use msglib_cpp.Mailbox.Sends.One.{find-set}
use msglib_cpp.Mailbox.Sends.Loop.{AreAlive}
use msglib_cpp.Mailbox.Signals.{signalled, Signals, signal_each-Signals}

-- Each mailbox takes as many slots of the one as of the other.
abbrev pub SameSlots : Receivers → Receivers → Type 0
SameSlots rs rs' = (i : ℕ) → slots i rs ≡ slots i rs'

alive-cases :
    (ms : List (Option Mailbox)) (rs : Receivers)
    → AreAlive ms rs ⊎ ((i : ℕ) × (0 < slots i rs) × (find_mailbox ms i ≡ none))
alive-cases ms [] = inl tt
alive-cases ms (none ∷ rs) = alive-cases ms rs
alive-cases ms (some j ∷ rs) = elim (Option-cases (find_mailbox ms j)) [
  | inl e ↦ inr (j, ground arith, e)
  | inr a ↦ elim (alive-cases ms rs) [
    | inl h ↦ inl (a, h)
    | inr (i, h, e) ↦ inr (i, omega arith, e)
  ]
]

-- Two lists with the same elements at all places.
list_ext :
    (ms ms' : List (Option Mailbox)) → ((i : ℕ) → get_elem? ms i ≡ get_elem? ms' i) → ms ≡ ms'
list_ext [] [] h = refl
list_ext [] (m ∷ ms') h = absurd (ground (arith, h 0))
list_ext (m ∷ ms) [] h = absurd (ground (arith, h 0))
list_ext (m ∷ ms) (m' ∷ ms') h =
    let tails : ms ≡ ms' = list_ext ms ms' (λ i. h (suc i)) in
    let heads : m ≡ m' = ground (arith, h 0) in rw (heads, tails) refl

module _ {Arena : Type 0} (label : ℕ) where
  -- A mailbox that is gone, or was never there, stands among the receivers.
  pub signal_each-dead :
      (i : ℕ) (rs : Receivers) (w : World Arena)
      → find_mailbox w.mailboxes i ≡ none
      → 0 < slots i rs
      → signal_each label rs w ≡ fault dangling_mailbox
  unfolding signal_each
  signal_each-dead i [] w d h = absurd (omega arith)
  signal_each-dead i (none ∷ rs) w d h = signal_each-dead i rs w d h
  signal_each-dead i (some j ∷ rs) w d h = elim (Option-cases (find_mailbox w.mailboxes j)) [
    | inl e ↦ ground (arith, e)
    | inr (q, e) ↦
        let w1 : World Arena = record w {
          mailboxes = set w.mailboxes j (some (emplace q (signal label)).1);
        } in
        let more : 0 < slots i rs = ground arith in
        let still : find_mailbox w1.mailboxes i ≡ none =
          ground (arith, find-set w.mailboxes j i q (emplace q (signal label)).1 e) in
        ground (arith, e, signal_each-dead i rs w1 still more)
  ]

  signal_each-absent :
      (i : ℕ) (rs : Receivers) (w : World Arena) {w' : World Arena}
      → find_mailbox w.mailboxes i ≡ none
      → signal_each label rs w ≡ done (tt, w')
      → get_elem? w'.mailboxes i ≡ get_elem? w.mailboxes i
  unfolding signal_each
  signal_each-absent i [] w d run = ground arith
  signal_each-absent i (none ∷ rs) w d run = signal_each-absent i rs w d run
  signal_each-absent i (some j ∷ rs) w {w'} d run =
      elim (Option-cases (find_mailbox w.mailboxes j)) [
        | inl e ↦ absurd (ground arith)
        | inr (q, e) ↦
            let w1 : World Arena = record w {
              mailboxes = set w.mailboxes j (some (emplace q (signal label)).1);
            } in
            let still : find_mailbox w1.mailboxes i ≡ none =
              ground (arith, find-set w.mailboxes j i q (emplace q (signal label)).1 e) in
            let rest : signal_each label rs w1 ≡ done (tt, w') = ground (arith, e, run) in
            signal_each-absent i rs w1 still rest
            ∙ ground (arith, get_elem?-set_ne w.mailboxes j i (some (emplace q (signal label)).1))
      ]

  -- What the loop of `SendSignal` does depends on no order of the receivers.
  pub signal_each-SameSlots :
      (rs rs' : Receivers) (w : World Arena)
      → SameSlots rs rs'
      → signal_each label rs w ≡ signal_each label rs' w
  signal_each-SameSlots rs rs' w h = elim (alive-cases w.mailboxes rs) [
    | inr (i, n, d) ↦
        signal_each-dead i rs w d n ∙ sym (signal_each-dead i rs' w d (omega (arith, h i)))
    | inl a ↦ elim (alive-cases w.mailboxes rs') [
      | inr (i, n, d) ↦
          signal_each-dead i rs w d (omega (arith, h i)) ∙ sym (signal_each-dead i rs' w d n)
      | inl a' ↦
          let (ms, run, s) = signal_each-Signals label rs w a in
          let (ms', run', s') = signal_each-Signals label rs' w a' in
          let same : (i : ℕ) → get_elem? ms i ≡ get_elem? ms' i = λ i.
            elim (Option-cases (find_mailbox w.mailboxes i)) [
              | inl d ↦ signal_each-absent i rs w d run ∙ sym (signal_each-absent i rs' w d run')
              | inr (q, e) ↦ ground (arith, s.got i q e, s'.got i q e, h i)
            ] in
          let all : ms ≡ ms' = list_ext ms ms' same in ground (arith, run, run', all)
    ]
  ]
