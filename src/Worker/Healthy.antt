-- ===== src/Worker/Healthy.antt =====
-- Mailbox.h, as the threads of the examples use it: what every call keeps while mailboxes come and
-- go, namely that blocks are accounted for and that each registered mailbox is alive.
use msglib_cpp.Common.{
  ℕ, ◌<◌, ◌≡◌, refl, Option, none, some, List, ◌∷◌, ◌++◌, arith, get_elem?, set, ◌==◌, Bool-cases,
  inl, inr, total, total-set, total-append, total-nil, if◌then◌else◌, get_elem?-set_self,
  get_elem?-set_ne, lt-length_of_get_elem?,
}
use msglib_cpp.Pool.Resource.{MemoryResource}
use msglib_cpp.Queue.{new_queue}
use msglib_cpp.Message.{Message}
use msglib_cpp.Receiver.Slots.{slots}
use msglib_cpp.MailboxData.{Resources}
use msglib_cpp.Mailbox.{World, Mailbox, find_mailbox, new_default_mailbox, destroy}
use msglib_cpp.Mailbox.Messages.{all_messages, queued, all-hold, all-lose}
use msglib_cpp.Mailbox.Accounting.{Accounted, moved-Accounted}
use msglib_cpp.Mailbox.Blocks.{IsReady}
use msglib_cpp.Mailbox.Sends.{behind}
use msglib_cpp.Mailbox.Sends.Loop.{AreAlive}
use msglib_cpp.Mailbox.Session.Invariant.{AreAlive-known}
use msglib_cpp.Worker.{construct}

abbrev pub Alive : List (Option Mailbox) → ℕ → Type 0
Alive ms i = (q : Mailbox) × (find_mailbox ms i ≡ some q)

-- Each mailbox that is alive stays alive, with at most new messages behind those that it had, and
-- no other comes to life.
pub record Grows (ms ms' : List (Option Mailbox)) : Type 0 where
  pub grown :
      (i : ℕ) (q : Mailbox)
      → find_mailbox ms i ≡ some q
      → (new : List Message) × (find_mailbox ms' i ≡ some (behind q new))
  pub dead : (i : ℕ) → get_elem? ms i ≡ some none → get_elem? ms' i ≡ some none

pub record Healthy {Arena : Type 0} ⦃r : MemoryResource Arena⦄ (w : World Arena)
    (x : Resources Arena) (held lost : List Message) : Type 0 where
  pub ready : IsReady w.shared x
  pub accounted : Accounted x w.mailboxes held lost
  pub alive : (label i : ℕ) → 0 < slots i (x.mailboxes label) → Alive w.mailboxes i

pub find-write :
    (ms : List (Option Mailbox)) (i j : ℕ) (o : Option Mailbox) {y : Option Mailbox}
    → get_elem? ms i ≡ some y
    → find_mailbox (set ms i o) j ≡ (if i == j then o else find_mailbox ms j)
find-write ms i j o {y} e = ground (
  arith,
  lt-length_of_get_elem? ms i {x = y},
  get_elem?-set_self ms i o,
  get_elem?-set_ne ms i j o,
)

pub some_of_find :
    (ms : List (Option Mailbox)) (i : ℕ) (q : Mailbox)
    → find_mailbox ms i ≡ some q
    → get_elem? ms i ≡ some (some q)
some_of_find ms i q e = ground arith

-- A write of another mailbox leaves a mailbox alive, or writes one that is.
pub Alive-write :
    (ms : List (Option Mailbox)) (i j : ℕ) (o : Option Mailbox) {y : Option Mailbox}
    → get_elem? ms i ≡ some y
    → (i ≡ j → (q : Mailbox) × (o ≡ some q))
    → Alive ms j
    → Alive (set ms i o) j
Alive-write ms i j o e h (q, f) = elim (Bool-cases (i == j)) [
  | inl hit ↦ let (q', g) = h (ground arith) in (q', ground (arith, find-write ms i j o e))
  | inr miss ↦ (q, ground (arith, find-write ms i j o e))
]

module _ {Arena : Type 0} ⦃r : MemoryResource Arena⦄ {w : World Arena} {x : Resources Arena}
    {held lost : List Message} (v : Healthy w x held lost) where
  pub receivers-AreAlive : (label : ℕ) → AreAlive w.mailboxes (x.mailboxes label)
  receivers-AreAlive label = AreAlive-known w.mailboxes (x.mailboxes label) (v.alive label)

  -- What is held may stand in another order.
  pub held-Healthy :
      (held' : List Message)
      → ((f : Message → ℕ) → total f held' ≡ total f held)
      → Healthy w x held' lost
  unfolding all_messages
  held-Healthy held' h = record {
    ready = v.ready;
    accounted = moved-Accounted v.accounted w.mailboxes held' lost (λ f z. omega (arith, h f));
    alive = v.alive;
  }

  -- A message is dropped without being released.
  pub drop-Healthy :
      (m : Message) (rest : List Message) → held ≡ m ∷ rest → Healthy w x rest (m ∷ lost)
  drop-Healthy m rest e = record {
    ready = v.ready;
    accounted = moved-Accounted v.accounted w.mailboxes rest (m ∷ lost) λ f z.
        rw e
          (omega (arith, all-hold f w.mailboxes rest lost m, all-lose f w.mailboxes rest lost m));
    alive = v.alive;
  }

  -- A thread begins, and its mailbox with it.
  pub construct-Healthy :
      (this : ℕ) → get_elem? w.mailboxes this ≡ some none → Healthy (construct this w) x held lost
  unfolding construct new_default_mailbox new_queue all_messages
  construct-Healthy this e = record {
    ready = v.ready;
    accounted = moved-Accounted v.accounted _ held lost λ f z.
        omega
          (arith, total-set (queued f) w.mailboxes this (some new_default_mailbox) e, total-nil f);
    alive = λ label i h.
        Alive-write w.mailboxes this i _ e (λ z. (new_default_mailbox, refl)) (v.alive label i h);
  }

  -- A thread ends: what its mailbox has is lost.
  pub destroy-Healthy :
      (this : ℕ) (q : Mailbox)
      → find_mailbox w.mailboxes this ≡ some q
      → ((label : ℕ) → slots this (x.mailboxes label) ≡ 0)
      → Healthy (destroy this w) x held (q.items ++ lost)
  unfolding destroy all_messages
  destroy-Healthy this q e none_left = record {
    ready = v.ready;
    accounted = moved-Accounted v.accounted _ held (q.items ++ lost) λ f z. omega (
      arith,
      total-set (queued f) w.mailboxes this none (some_of_find w.mailboxes this q e),
      total-append f q.items lost,
    );
    alive = λ label i h.
        Alive-write w.mailboxes this i none (some_of_find w.mailboxes this q e)
          (λ z. absurd (ground (arith, none_left label))) (v.alive label i h);
  }
