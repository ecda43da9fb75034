-- ===== src/Mailbox/Sends/Loop.antt =====
-- Mailbox.h: `SendMessage`, the loop over the receivers and the guards before it.
use msglib_cpp.Common.{
  ℕ, ◌≤◌, ◌<◌, ◌≡◌, refl, ◌∙◌, ap, Bool, true, false, ◌&&◌, Option, none, some, List, [], ◌∷◌,
  arith, ltb, length, ◌⊎◌, inl, inr,
}
use native.Mathlib.Decide.{dec_lt}
use msglib_cpp.Common.State.{done}
use msglib_cpp.Pool.Resource.{MemoryResource}
use msglib_cpp.Message.{Message}
use msglib_cpp.Receiver.{Receivers}
use msglib_cpp.Receiver.Slots.{slots}
use msglib_cpp.MailboxData.{Resources, small_size, large_size, get_receivers}
use msglib_cpp.Mailbox.{World, Mailbox, find_mailbox, send_each, send_message}
use msglib_cpp.Mailbox.Accounting.{Accounted}
use msglib_cpp.Mailbox.Blocks.{IsReady}
use msglib_cpp.Mailbox.Sends.{Sends, Sends-none, Sends-trans, behind}
use msglib_cpp.Mailbox.Sends.One.{send_one-Sends}

-- Every mailbox in the slots is alive.
abbrev pub AreAlive : List (Option Mailbox) → Receivers → Type 0
AreAlive ms [] = Unit {0}
AreAlive ms (none ∷ rs) = AreAlive ms rs
AreAlive ms (some i ∷ rs) = ((q : Mailbox) × (find_mailbox ms i ≡ some q)) × AreAlive ms rs

module _ {Arena : Type 0} ⦃r : MemoryResource Arena⦄ (label : ℕ) (t : List ℕ)
    {held : List Message} where
  AreAlive-Sends :
      {c : ℕ → ℕ} {w w' : World Arena} {x x' : Resources Arena} {lost lost' : List Message}
      {b : Bool}
      → Sends label t held c w x lost b w' x' lost'
      → (rs : Receivers) → AreAlive w.mailboxes rs
      → AreAlive w'.mailboxes rs
  AreAlive-Sends s [] h = h
  AreAlive-Sends s (none ∷ rs) h = AreAlive-Sends s rs h
  AreAlive-Sends s (some i ∷ rs) h =
      let (q, e) = h.0 in
      let (new, e', all, le, eq) = s.delivered i q e in
      ((behind q new, e'), AreAlive-Sends s rs h.1)

  send_each-Sends :
      (is_large result : Bool) (rs : Receivers) (w : World Arena) (x : Resources Arena)
      (lost : List Message)
      → w.shared.initialized ≡ true
      → w.shared.resources ≡ some x
      → Accounted x w.mailboxes held lost
      → AreAlive w.mailboxes rs
      → length t ≤ x.large_size
      → is_large ≡ ltb x.small_size (length t)
      → (b : Bool) × (w' : World Arena) × (x' : Resources Arena) × (lost' : List Message)
        × (send_each label t is_large result rs w ≡ done (result && b, w'))
        × Sends label t held (λ i. slots i rs) w x lost b w' x' lost'
  unfolding send_each
  send_each-Sends is_large result [] w x lost i e v h fits l =
      (true, w, x, lost, ground arith, Sends-none label t e v)
  send_each-Sends is_large result (none ∷ rs) w x lost i e v h fits l =
      send_each-Sends is_large result rs w x lost i e v h fits l
  send_each-Sends is_large result (some mbox ∷ rs) w x lost i e v h fits l =
      let (q, f) = h.0 in
      let (b, w', x', lost', run, s) =
        send_one-Sends label t is_large mbox q w x held lost i e v f fits l in
      let (b', w'', x'', lost'', run', s') =
        send_each-Sends is_large (result && b) rs w' x' lost' (ap (λ d. d.initialized) s.shared ∙ i)
          (ap (λ d. d.resources) s.shared) s.accounted (AreAlive-Sends s rs h.1)
          (rw s.large_size fits) (rw s.small_size l) in
      (b && b', w'', x'', lost'', ground (arith, run, run'), Sends-trans label t s s')

  -- The lock is taken before the loop and released after it.
  unlocked-Sends :
      {c : ℕ → ℕ} {w w' : World Arena} {x x' : Resources Arena} {lost lost' : List Message}
      {b : Bool}
      → w.shared.locked ≡ false
      → Sends label t held c
          (record w { shared = record w.shared { locked = true } })
          x
          lost
          b
          w'
          x'
          lost'
      → Sends label t held c w x lost b
          (record w' { shared = record w'.shared { locked = false } })
          x'
          lost'
  unlocked-Sends {w} {w'} {x} {x'} u s = record {
    accounted = s.accounted;
    shared = ground (arith, s.shared);
    small_size = s.small_size;
    large_size = s.large_size;
    small_capacity = s.small_capacity;
    large_capacity = s.large_capacity;
    registered = s.registered;
    kept = s.kept;
    dead = s.dead;
    nothing_lost = s.nothing_lost;
    delivered = s.delivered;
  }

  -- In an initialised program whose blocks are accounted for, `SendMessage` of a value no larger
  -- than the large size returns without a fault, if the label's receivers are alive. Each receiver
  -- then has at most as many new messages, behind those it had, as the slots it takes for the label,
  -- and exactly as many if the result is true; each carries the label, the size and the value, and
  -- no block that was out has been touched. A result of true means that no block was lost.
  pub send_message-Sends :
      (w : World Arena) (x : Resources Arena) (lost : List Message)
      → IsReady w.shared x
      → Accounted x w.mailboxes held lost
      → AreAlive w.mailboxes (x.mailboxes label)
      → length t ≤ x.large_size
      → (b : Bool) × (w' : World Arena) × (x' : Resources Arena) × (lost' : List Message)
        × (send_message label t w ≡ done (b, w'))
        × Sends label t held (λ i. slots i (x.mailboxes label)) w x lost b w' x' lost'
  unfolding send_message small_size large_size get_receivers
  send_message-Sends w x lost ready v h fits =
      let w1 : World Arena = record w { shared = record w.shared { locked = true } } in
      let (b, w', x', lost', run, s) =
        send_each-Sends (ltb x.small_size (length t)) true (x.mailboxes label) w1 x lost
          ready.initialized ready.resources v h fits refl in
      (
        b,
        record w' { shared = record w'.shared { locked = false } },
        x',
        lost',
        ground (arith, ready.unlocked, ready.resources, run),
        unlocked-Sends ready.unlocked s,
      )

module _ {Arena : Type 0} ⦃r : MemoryResource Arena⦄ (label : ℕ) (t : List ℕ) where
  -- In an initialised program `SendMessage` of a value larger than the large size returns false and
  -- changes nothing.
  pub send_message-too_large :
      (w : World Arena) (x : Resources Arena)
      → IsReady w.shared x
      → x.large_size < length t
      → send_message label t w ≡ done (false, w)
  unfolding send_message large_size
  send_message-too_large w x ready h = ground (arith, ready.unlocked, ready.resources)

  -- In an initialised program whose blocks are accounted for, with the label's receivers alive,
  -- `SendMessage` does one of two things. Of a value larger than the large size it returns false and
  -- changes nothing. And of another it returns without a fault: each receiver then has at most as
  -- many new messages, behind those it had, as the slots it takes for the label, and exactly as many
  -- if the result is true; each carries the label, the size and the value, and no block that was out
  -- has been touched. A result of true means that no block was lost.
  pub send_message_lem :
      (w : World Arena) (x : Resources Arena) (held lost : List Message)
      → IsReady w.shared x
      → Accounted x w.mailboxes held lost
      → AreAlive w.mailboxes (x.mailboxes label)
      → ((x.large_size < length t) × (send_message label t w ≡ done (false, w)))
        ⊎ ((length t ≤ x.large_size)
            × ((b : Bool) × (w' : World Arena) × (x' : Resources Arena) × (lost' : List Message)
                × (send_message label t w ≡ done (b, w'))
                × Sends label t held (λ i. slots i (x.mailboxes label)) w x lost b w' x' lost'))
  send_message_lem w x held lost ready v h = elim (dec_lt x.large_size (length t)) [
    | yes large ↦ inl (large, send_message-too_large w x ready large)
    | no small ↦
        let fits : length t ≤ x.large_size = omega arith in
        inr (fits, send_message-Sends label t w x lost ready v h fits)
  ]
