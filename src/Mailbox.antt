-- ===== src/Mailbox.antt =====
-- include/msglib/Mailbox.h: the mailboxes of a program, over the shared data of MailboxData.h.
pub mod Messages
pub mod Accounting
pub mod Blocks
pub mod Sends
pub mod Registry
pub mod Signals
pub mod Registration
pub mod Session
pub mod Roundtrip
pub mod Faults
pub mod Truncated
mod Examples
use msglib_cpp.Common.{
  ℕ, ◌*◌, Bool, true, false, ◌&&◌, Option, none, some, List, [], ◌∷◌, ltb, leb, if◌then◌else◌,
  length, get_elem?, set,
}
use msglib_cpp.Common.State.{
  Outcome, done, fault, dangling_mailbox, Action, ◌>>=◌, ◌>>◌, pure, gets, focus,
}
use msglib_cpp.Pool.{DataBlock, Memory, put}
use msglib_cpp.Pool.Resource.{MemoryResource}
use msglib_cpp.Queue.{Queue, new_queue, emplace, pop_front}
use msglib_cpp.Message.{Message, signal, message}
use msglib_cpp.Receiver.{Receivers}
use msglib_cpp.MailboxData
use msglib_cpp.MailboxData.{
  MailboxData, get_receivers, small_size, large_size, allocate_small, allocate_large, free_small,
  free_large, lock, unlock,
}

-- A `Mailbox`, of whose members m_queue alone is seen by the program; m_storage, m_bytes and
-- m_resource are where that queue lives.
abbrev pub Mailbox : Type 0
Mailbox = Queue Message

-- The static `s_mailboxData`, the mailboxes by their address (`none` once destroyed), and the
-- contents of the message blocks.
pub record World (Arena : Type 0) : Type 0 where
  pub shared : MailboxData Arena
  pub mailboxes : List (Option Mailbox)
  pub memory : Memory

abbrev pub queue_size : ℕ
queue_size = 256

-- `Mailbox(queueSize)`
unfoldable pub new_mailbox : ℕ → Mailbox
new_mailbox n = new_queue n

-- `Mailbox()`
unfoldable pub new_default_mailbox : Mailbox
new_default_mailbox = new_queue queue_size

-- The object behind a `Mailbox *`, if it is alive.
abbrev pub find_mailbox : List (Option Mailbox) → ℕ → Option Mailbox
find_mailbox ms i = elim (get_elem? ms i) [ none ↦ none | some m ↦ m ]

module _ {Arena : Type 0} where
  abbrev pub on_shared : {A : Type 0} → Action (MailboxData Arena) A → Action (World Arena) A
  on_shared = focus (λ w. w.shared) (λ w d. record w { shared = d })

  -- `std::lock_guard<std::mutex> guard(s_mailboxData.GetMutex())`
  abbrev pub with_mutex : {A : Type 0} → Action (World Arena) A → Action (World Arena) A
  with_mutex body = do on_shared lock; a ← body; on_shared unlock; pure a

  -- `receiver->m_queue.emplace(...)`
  abbrev pub emplace_at : ℕ → Message → Action (World Arena) Bool
  emplace_at mbox m w = elim (find_mailbox w.mailboxes mbox) [
    | none ↦ fault dangling_mailbox
    | some q ↦
        let (ok, q') = emplace q m in
        done (ok, record w { mailboxes = set w.mailboxes mbox (some q') })
  ]

  -- `db.put(t)`
  abbrev pub put_at : DataBlock → List ℕ → Action (World Arena) Bool
  put_at block t w = let (ok, m) = put block t w.memory in done (ok, record w { memory = m })

  -- `~Mailbox`: the queue goes, what other objects refer to stays.
  unfoldable pub destroy : ℕ → World Arena → World Arena
  destroy this w = record w { mailboxes = set w.mailboxes this none }

  -- The loop of `SendSignal`.
  unfoldable pub signal_each : ℕ → Receivers → Action (World Arena) (Unit {0})
  signal_each label [] = pure tt
  signal_each label (none ∷ rs) = signal_each label rs
  signal_each label (some mbox ∷ rs) = do
    sent ← emplace_at mbox (signal label)
    signal_each label rs

  -- `SendSignal`
  unfoldable pub send_signal : ℕ → Action (World Arena) Bool
  unfolding signal_each
  send_signal label =
      with_mutex
        (do receivers ← on_shared (get_receivers label); signal_each label receivers; pure true)

  -- `Receive`: `none` where the caller stays blocked in `m_queue.pop`, the world unchanged.
  unfoldable pub receive : ℕ → Action (World Arena) (Option Message)
  receive mbox w = elim (find_mailbox w.mailboxes mbox) [
    | none ↦ fault dangling_mailbox
    | some q ↦ elim (pop_front q) [
      | none ↦ done (none, w)
      | some (m, q') ↦ done (some m, record w { mailboxes = set w.mailboxes mbox (some q') })
    ]
  ]

module _ {Arena : Type 0} ⦃r : MemoryResource Arena⦄ where
  -- The static `Initialize()`
  unfoldable pub initialize : Action (World Arena) Bool
  initialize = on_shared MailboxData.initialize

  -- The static `Initialize(smallSize, smallCap, largeSize, largeCap)`
  unfoldable pub initialize_with : ℕ → ℕ → ℕ → ℕ → Action (World Arena) Bool
  initialize_with small_size small_cap large_size large_cap =
      on_shared (MailboxData.initialize_with small_size small_cap large_size large_cap)

  -- `RegisterForLabel`, called on the mailbox `this`.
  unfoldable pub register_for_label : ℕ → ℕ → Action (World Arena) Bool
  register_for_label this label = on_shared (MailboxData.register_for_label label this)

  -- `UnregisterForLabel`, called on the mailbox `this`.
  unfoldable pub unregister_for_label : ℕ → ℕ → Action (World Arena) Bool
  unregister_for_label this label = on_shared (MailboxData.unregister_for_label label this)

  -- `ReleaseMessage`
  unfoldable pub release_message : Message → World Arena → World Arena
  release_message m w = elim m.bytes [
    | none ↦ w
    | some p ↦
        if leb m.size (small_size w.shared)
        then record w { shared = free_small m.bytes w.shared }
        else record w { shared = free_large m.bytes w.shared }
  ]

  -- `~MessageGuard`
  unfoldable pub end_guard : Message → World Arena → World Arena
  unfolding release_message
  end_guard m w = elim m.bytes [ none ↦ w | some p ↦ release_message m w ]

  -- `db.put(t)` and, on its result, the `emplace` or the `freeSmall`.
  unfoldable pub fill_and_send : ℕ → List ℕ → ℕ → DataBlock → Action (World Arena) Bool
  fill_and_send label t mbox db = do
    fits ← put_at db t
    if fits
        then emplace_at mbox (message label (length t) db.bytes)
        else (λ w. done (false, record w { shared = free_small db.bytes w.shared }))

  -- One receiver of `SendMessage` that is not null, for a value with the bytes `t`: allocate, copy,
  -- enqueue. The result is what the loop conjoins to `result`.
  unfoldable pub send_one : ℕ → List ℕ → Bool → ℕ → Action (World Arena) Bool
  unfolding fill_and_send
  send_one label t is_large mbox = do
    db ← on_shared (if is_large then allocate_large else allocate_small)
    elim db.bytes [ none ↦ pure false | some p ↦ fill_and_send label t mbox db ]

  -- The loop of `SendMessage`, with its local `result`.
  unfoldable pub send_each : ℕ → List ℕ → Bool → Bool → Receivers → Action (World Arena) Bool
  send_each label t is_large result [] = pure result
  send_each label t is_large result (none ∷ rs) = send_each label t is_large result rs
  send_each label t is_large result (some mbox ∷ rs) = do
    sent ← send_one label t is_large mbox
    send_each label t is_large (result && sent) rs

  -- `SendMessage`, for a value with the object representation `t`.
  unfoldable pub send_message : ℕ → List ℕ → Action (World Arena) Bool
  unfolding send_each send_one
  send_message label t = with_mutex (λ w. elim (ltb (large_size w.shared) (length t)) [
    | true ↦ done (false, w)
    | false ↦
        ((do
          receivers ← on_shared (get_receivers label)
          send_each label t (ltb (small_size w.shared) (length t)) true receivers)
          w)
  ])
