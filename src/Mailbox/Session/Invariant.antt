-- ===== src/Mailbox/Session/Invariant.antt =====
-- Mailbox.h: the invariant of a session, and what it means that a call keeps it.
use msglib_cpp.Common.{ℕ, ◌<◌, ◌≡◌, Option, none, some, List, [], ◌∷◌, arith}
use msglib_cpp.Common.State.{done}
use msglib_cpp.Pool.Resource.{MemoryResource}
use msglib_cpp.Message.{Message}
use msglib_cpp.Receiver.{Receivers}
use msglib_cpp.Receiver.Slots.{slots}
use msglib_cpp.MailboxData.{Resources}
use msglib_cpp.Mailbox.{Mailbox, find_mailbox}
use msglib_cpp.Mailbox.Accounting.{Accounted}
use msglib_cpp.Mailbox.Blocks.{IsReady}
use msglib_cpp.Mailbox.Sends.Loop.{AreAlive}
use msglib_cpp.Mailbox.Session.{Call, Session, step, failure}

-- The number of mailboxes, and what the program was initialised with.
pub record Setup : Type 0 where
  pub mailboxes : ℕ
  pub small_size : ℕ
  pub small_cap : ℕ
  pub large_size : ℕ
  pub large_cap : ℕ

-- The sizes and capacities stay what they were set to.
pub record IsFixed {Arena : Type 0} (n : Setup) (x : Resources Arena) : Type 0 where
  pub small_size : x.small_size ≡ n.small_size
  pub large_size : x.large_size ≡ n.large_size
  pub small_cap : x.small_pool.capacity ≡ n.small_cap
  pub large_cap : x.large_pool.capacity ≡ n.large_cap

-- An initialised program with its mailboxes alive and its blocks accounted for.
pub record Inv {Arena : Type 0} ⦃r : MemoryResource Arena⦄ (n : Setup) (s : Session Arena)
    : Type 0 where
  pub resources : Resources Arena
  pub lost : List Message
  pub fixed : IsFixed n resources
  pub ready : IsReady s.world.shared resources
  pub accounted : Accounted resources s.world.mailboxes s.held lost
  pub alive :
      (i : ℕ) → i < n.mailboxes → (q : Mailbox) × (find_mailbox s.world.mailboxes i ≡ some q)
  pub known : (label i : ℕ) → 0 < slots i (resources.mailboxes label) → i < n.mailboxes

pub AreAlive-known :
    (ms : List (Option Mailbox)) (rs : Receivers)
    → ((i : ℕ) → 0 < slots i rs → (q : Mailbox) × (find_mailbox ms i ≡ some q))
    → AreAlive ms rs
AreAlive-known ms [] h = tt
AreAlive-known ms (none ∷ rs) h = AreAlive-known ms rs h
AreAlive-known ms (some j ∷ rs) h =
    (h j (ground arith), AreAlive-known ms rs (λ i p. h i (omega arith)))

-- The call returns, and what it leaves satisfies the invariant; no message is lost but by a
-- `SendMessage` that returns false.
abbrev pub Keeps :
    {Arena : Type 0} ⦃r : MemoryResource Arena⦄
    → (n : Setup) → (s : Session Arena) → Call
    → Inv n s
    → Type 0
Keeps n s c v =
    (s' : Session _) × (v' : Inv n s') × (step s c ≡ done s') × (failure s c ≡ 0 → v'.lost ≡ v.lost)
