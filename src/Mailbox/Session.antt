-- ===== src/Mailbox/Session.antt =====
-- Mailbox.h: clients of an initialised program with a fixed set of mailboxes, in any order of calls.
-- Each call is taken as one step. That is what happens in one thread, and among threads where calls
-- do not overlap: `SendMessage`, `SendSignal` and the registrations hold `m_mutex`, but `Receive` and
-- the release of a message take other mutexes only, and may come between two rounds of the loop of
-- `SendMessage`, which is not a step here. `Queue.Threads` has the waiting inside a queue.
pub mod Invariant
pub mod Taking
pub mod Steps
pub mod Safety
use msglib_cpp.Common.{
  ℕ, zero, suc, ◌+◌, ◌<◌, if◌then◌else◌, Bool, Option, none, some, List, [], ◌∷◌, get_elem?,
}
use msglib_cpp.Common.State.{Outcome, done, fault}
use msglib_cpp.Pool.Resource.{MemoryResource}
use msglib_cpp.Message.{Message}
use msglib_cpp.Mailbox.{
  World, send_message, send_signal, receive, end_guard, register_for_label, unregister_for_label,
}

-- A call of the library: on a label, on a mailbox, or on a message that the client received.
pub data Call : Type 0 where
  -- `SendMessage(label, t)`
  sends : ℕ → List ℕ → Call
  -- `SendSignal(label)`
  signals : ℕ → Call
  -- `Receive(msg)` on a mailbox; where it would block, the caller does not go on.
  receives : ℕ → Call
  -- The guard of the received message at an index ends, or it is released.
  releases : ℕ → Call
  -- `RegisterForLabel(label)` and `UnregisterForLabel(label)` on a mailbox.
  registers unregisters : ℕ → ℕ → Call

-- The world, and the messages that clients have received and not released, the newest first.
pub record Session (Arena : Type 0) : Type 0 where
  pub world : World Arena
  pub held : List Message

abbrev pub remove_at : List Message → ℕ → List Message
remove_at [] i = []
remove_at (m ∷ ms) zero = ms
remove_at (m ∷ ms) (suc i) = m ∷ remove_at ms i

abbrev pub hold : Option Message → List Message → List Message
hold none held = held
hold (some m) held = m ∷ held

-- The world after a call whose result the client does not need.
abbrev pub continue {ℓ} :
    {Arena : Type 0} {A : Type ℓ}
    → List Message
    → Outcome (A × World Arena)
    → Outcome (Session Arena)
continue held (done (a, w)) = done (record { world = w; held = held })
continue held (fault e) = fault e

module _ {Arena : Type 0} ⦃r : MemoryResource Arena⦄ where
  after_receive : List Message → Outcome (Option Message × World Arena) → Outcome (Session Arena)
  after_receive held (done (m, w)) = done (record { world = w; held = hold m held })
  after_receive held (fault e) = fault e

  after_release : Session Arena → ℕ → Option Message → Outcome (Session Arena)
  after_release s i none = done s
  after_release s i (some m) =
      done (record { world = end_guard m s.world; held = remove_at s.held i })

  unfoldable pub step : Session Arena → Call → Outcome (Session Arena)
  unfolding after_receive after_release
  step s (sends label t) = continue s.held (send_message label t s.world)
  step s (signals label) = continue s.held (send_signal label s.world)
  step s (receives mbox) = after_receive s.held (receive mbox s.world)
  step s (releases i) = after_release s i (get_elem? s.held i)
  step s (registers mbox label) = continue s.held (register_for_label mbox label s.world)
  step s (unregisters mbox label) = continue s.held (unregister_for_label mbox label s.world)

  unfoldable pub run : Session Arena → List Call → Outcome (Session Arena)
  run s [] = done s
  run s (c ∷ cs) = elim (step s c) [ done s' ↦ run s' cs | fault e ↦ fault e ]

module _ {Arena : Type 0} ⦃r : MemoryResource Arena⦄ where
  -- Is the call a `SendMessage` that returns false?
  unfoldable pub failure : Session Arena → Call → ℕ
  failure s (sends label t) = elim (send_message label t s.world) [
    | done (b, w) ↦ if b then 0 else 1
    | fault e ↦ 0
  ]
  failure s _ = 0

  -- How many calls of `SendMessage` return false in a run?
  unfoldable pub failures : Session Arena → List Call → ℕ
  failures s [] = 0
  failures s (c ∷ cs) = failure s c + elim (step s c) [ done s' ↦ failures s' cs | fault e ↦ 0 ]

-- The mailbox of a call is one of the `n` that there are.
abbrev pub IsValid : ℕ → Call → Type 0
IsValid n (receives mbox) = mbox < n
IsValid n (registers mbox label) = mbox < n
IsValid n (unregisters mbox label) = mbox < n
IsValid n _ = Unit {0}
