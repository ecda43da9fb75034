-- ===== src/Mailbox/Registration/Abstract.antt =====
-- Mailbox.h: the registrations of a label as `SendSignal` sees them. Which slot of Receivers a
-- mailbox takes is forgotten; how many it takes, and how many are free, is not. `SendMessage` sees
-- more: it serves the slots in their order, which matters when the blocks run out.
use mathlib.Core.Quot
use mathlib.Core.Quot.{Quot, Quot-set}
use native.Mathlib.Nat.{ℕ_set}
use msglib_cpp.Common.{ℕ, ◌≡◌, refl}
use msglib_cpp.Receiver.{Receivers}
use msglib_cpp.Receiver.Slots.{slots, free_slots}
use msglib_cpp.MailboxData.{Resources}
use msglib_cpp.Mailbox.Registration.{SameSlots}

abbrev pub SameReceivers : Receivers → Receivers → Type 0
SameReceivers rs rs' = SameSlots rs rs' × (free_slots rs ≡ free_slots rs')

abbrev pub Registration : Type 0
Registration = Quot SameReceivers

-- How many slots does the mailbox take?
pub occupied : ℕ → Registration → ℕ
occupied i = Quot.lift ℕ_set (slots i) (λ rs rs' h. h.0 i)

module _ {Arena : Type 0} where
  -- The registrations of each label.
  abbrev pub registrations : Resources Arena → ℕ → Registration
  registrations x label = Quot.mk (x.mailboxes label)

  module _ (x : Resources Arena) (label : ℕ) where
    pub occupied-registrations :
        (i : ℕ) → occupied i (registrations x label) ≡ slots i (x.mailboxes label)
    unfolding occupied
    occupied-registrations i = refl
