-- ===== src/MailboxData.antt =====
-- include/msglib/detail/MailboxData.h: what all mailboxes share. The memory resource is an
-- interface (Pool.Resource), and `m_mutex` is a flag: locking a std::mutex that the same thread
-- holds is a fault, as is going through a null `m_resources`.
pub mod Init
mod Examples
use msglib_cpp.Common.{
  ℕ, ◌+◌, ◌*◌, ◌%◌, ◌^◌, Bool, true, false, not, Option, none, some, ◌==◌, if◌then◌else◌,
}
use msglib_cpp.Common.State.{
  Outcome, done, fault, relock, null_resources, Action, ◌>>=◌, ◌>>◌, pure, gets, when,
}
use msglib_cpp.Pool.{DataBlock, BytePool, new_pool, alloc, free}
use msglib_cpp.Pool.Resource.{MemoryResource}
use msglib_cpp.Receiver.{Receivers, no_receivers, add, remove}

abbrev pub default_large_size : ℕ
default_large_size = 2048

abbrev pub default_small_size : ℕ
default_small_size = 256

abbrev pub default_large_cap : ℕ
default_large_cap = 200

abbrev pub default_small_cap : ℕ
default_small_cap = 200

-- `Resources`. `arena` is the state of m_syncResource, which both pools refer to. A Label is a
-- uint16_t and m_mailboxes has an entry for each, so the array is a function.
pub record Resources (Arena : Type 0) : Type 0 where
  pub small_size : ℕ
  pub large_size : ℕ
  pub byte_size : ℕ
  pub arena : Arena
  pub small_pool : BytePool
  pub large_pool : BytePool
  pub mailboxes : ℕ → Receivers

-- `MailboxData`
pub record MailboxData (Arena : Type 0) : Type 0 where
  pub locked : Bool
  pub initialized : Bool
  pub resources : Option (Resources Arena)

module _ {Arena : Type 0} where
  -- `MailboxData()`
  abbrev pub uninitialized : MailboxData Arena
  uninitialized = record { locked = false; initialized = false; resources = none }

  -- `m_resources->` for reading.
  abbrev pub the_resources : Action (MailboxData Arena) (Resources Arena)
  the_resources d = elim d.resources [ none ↦ fault null_resources | some x ↦ done (x, d) ]

  abbrev pub set_resources : Resources Arena → Action (MailboxData Arena) (Unit {0})
  set_resources x d = done (tt, record d { resources = some x })

  abbrev pub lock : Action (MailboxData Arena) (Unit {0})
  lock d = elim d.locked [ true ↦ fault relock | false ↦ done (tt, record d { locked = true }) ]

  abbrev pub unlock : Action (MailboxData Arena) (Unit {0})
  unlock d = done (tt, record d { locked = false })

  -- The scope of a `std::lock_guard` on m_mutex.
  abbrev pub with_lock : {A : Type 0} → Action (MailboxData Arena) A → Action (MailboxData Arena) A
  with_lock body = do lock; a ← body; unlock; pure a

  -- `m_mailboxes[label] = rs`
  abbrev pub set_receivers : Resources Arena → ℕ → Receivers → Resources Arena
  set_receivers x label rs = record x { mailboxes = λ k. if label == k then rs else x.mailboxes k }

  -- `GetReceivers`
  unfoldable pub get_receivers : ℕ → Action (MailboxData Arena) Receivers
  get_receivers label = do x ← the_resources; pure (x.mailboxes label)

  -- `smallSize`
  unfoldable pub small_size : MailboxData Arena → ℕ
  small_size d = elim d.resources [ none ↦ 0 | some x ↦ x.small_size ]

  -- `largeSize`
  unfoldable pub large_size : MailboxData Arena → ℕ
  large_size d = elim d.resources [ none ↦ 0 | some x ↦ x.large_size ]

-- The size of m_bytes, in size_t arithmetic.
unfoldable pub byte_size : ℕ → ℕ → ℕ → ℕ → ℕ
byte_size small_size small_cap large_size large_cap =
    (small_size * small_cap + large_size * large_cap + 1000) % 2 ^ 64

-- The members that `Resources(smallSize, smallCap, largeSize, largeCap)` sets, over its buffer.
unfoldable pub resources_on : {Arena : Type 0} → ℕ → ℕ → ℕ → ℕ → Arena → Resources Arena
resources_on small_size small_cap large_size large_cap a = record {
  small_size = small_size;
  large_size = large_size;
  byte_size = byte_size small_size small_cap large_size large_cap;
  arena = a;
  small_pool = new_pool small_size small_cap;
  large_pool = new_pool large_size large_cap;
  mailboxes = λ _. no_receivers;
}

module _ {Arena : Type 0} ⦃r : MemoryResource Arena⦄ where
  -- `Resources(smallSize, smallCap, largeSize, largeCap)`; `none` if it throws std::bad_alloc.
  unfoldable pub new_resources : ℕ → ℕ → ℕ → ℕ → Option (Resources Arena)
  new_resources small_size small_cap large_size large_cap =
      elim (r.make (byte_size small_size small_cap large_size large_cap)) [
        | none ↦ none
        | some a ↦ some (resources_on small_size small_cap large_size large_cap a)
      ]

  -- The body of `Initialize` under the lock, the exception caught.
  initialize_locked : Option (Resources Arena) → Action (MailboxData Arena) Bool
  initialize_locked made d = elim d.initialized [
    | false ↦ elim made [
      | none ↦ done (false, d)
      | some x ↦ done (true, record d { resources = some x; initialized = true })
    ]
    | true ↦ done (false, d)
  ]

  -- `Initialize(smallSize, smallCap, largeSize, largeCap)`
  unfoldable pub initialize_with : ℕ → ℕ → ℕ → ℕ → Action (MailboxData Arena) Bool
  unfolding initialize_locked
  initialize_with small_size small_cap large_size large_cap =
      with_lock (initialize_locked (new_resources small_size small_cap large_size large_cap))

  -- `Initialize()`
  unfoldable pub initialize : Action (MailboxData Arena) Bool
  unfolding initialize_with
  initialize =
      initialize_with default_small_size default_small_cap default_large_size default_large_cap

  -- `if (!m_initialized) { Initialize(); }`
  unfoldable pub initialize_if_needed : Action (MailboxData Arena) (Unit {0})
  unfolding initialize
  initialize_if_needed = do
    done? ← gets (λ (d : MailboxData Arena). d.initialized)
    when (not done?) (do ok ← initialize; pure tt)

  -- `RegisterForLabel`
  unfoldable pub register_for_label : ℕ → ℕ → Action (MailboxData Arena) Bool
  register_for_label label mbox = with_lock (do
    initialize_if_needed
    x ← the_resources
    let added = add mbox (x.mailboxes label)
    set_resources (set_receivers x label added.1)
    pure added.0)

  -- `UnregisterForLabel`
  unfoldable pub unregister_for_label : ℕ → ℕ → Action (MailboxData Arena) Bool
  unregister_for_label label mbox = with_lock (do
    initialize_if_needed
    x ← the_resources
    set_resources (set_receivers x label (remove mbox (x.mailboxes label)).1)
    pure true)

  -- `allocateSmall`
  unfoldable pub allocate_small : Action (MailboxData Arena) DataBlock
  allocate_small = do
    initialize_if_needed
    x ← the_resources
    let (block, pool, a) = alloc x.small_pool x.arena
    set_resources (record x { small_pool = pool; arena = a })
    pure block

  -- `allocateLarge`
  unfoldable pub allocate_large : Action (MailboxData Arena) DataBlock
  allocate_large = do
    initialize_if_needed
    x ← the_resources
    let (block, pool, a) = alloc x.large_pool x.arena
    set_resources (record x { large_pool = pool; arena = a })
    pure block

  -- `freeSmall`
  unfoldable pub free_small : Option ℕ → MailboxData Arena → MailboxData Arena
  free_small p d = elim d.resources [
    | none ↦ d
    | some x ↦
        let (pool, a) = free x.small_pool p x.arena in
        record d { resources = some (record x { small_pool = pool; arena = a }) }
  ]

  -- `freeLarge`
  unfoldable pub free_large : Option ℕ → MailboxData Arena → MailboxData Arena
  free_large p d = elim d.resources [
    | none ↦ d
    | some x ↦
        let (pool, a) = free x.large_pool p x.arena in
        record d { resources = some (record x { large_pool = pool; arena = a }) }
  ]
