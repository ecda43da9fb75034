-- ===== src/Mailbox/Blocks.antt =====
-- MailboxData.h and Mailbox.h: what allocating a block and `ReleaseMessage` do to the accounting.
use msglib_cpp.Common.{
  ℕ, ◌+◌, ◌<◌, ◌≡◌, ◌⊎◌, inl, inr, Bool, true, false, not, some, List, arith, leb, ltb,
  if◌then◌else◌, Option-cases, Bool-cases, ltb→lt,
}
use msglib_cpp.Common.State.{done, Action}
use msglib_cpp.Pool.{failed_block, alloc, free}
use msglib_cpp.Pool.Resource.{MemoryResource}
use msglib_cpp.Message.{Message}
use msglib_cpp.MailboxData.{
  MailboxData, Resources, allocate_small, allocate_large, free_small, free_large, small_size,
  initialize_if_needed, with_lock,
}
use msglib_cpp.Mailbox.{World, release_message}
use msglib_cpp.Mailbox.Messages.{block_size, owns, all_messages}
use msglib_cpp.Mailbox.Accounting.{
  Accounted, taken, freed, pool_of, live_of_message, freed-Accounted,
}

-- The program is initialised, with the resources `x`, and nobody is inside the library's lock.
pub record IsReady {Arena : Type 0} (d : MailboxData Arena) (x : Resources Arena) : Type 0 where
  pub unlocked : d.locked ≡ false
  pub initialized : d.initialized ≡ true
  pub resources : d.resources ≡ some x

abbrev pub with_resources :
    {Arena : Type 0} → MailboxData Arena → Resources Arena → MailboxData Arena
with_resources d x = record d { resources = some x }

-- What runs under a free lock runs, and the lock is free again.
pub with_lock-free :
    {Arena A : Type 0} (body : Action (MailboxData Arena) A) (d d' : MailboxData Arena) (a : A)
    → d.locked ≡ false
    → body (record d { locked = true }) ≡ done (a, d')
    → with_lock body d ≡ done (a, record d' { locked = false })
with_lock-free body d d' a u e = ground arith

module _ {Arena : Type 0} ⦃r : MemoryResource Arena⦄ where
  -- An initialised program is not initialised again.
  pub initialize_if_needed-ready :
      (d : MailboxData Arena) → d.initialized ≡ true → initialize_if_needed d ≡ done (tt, d)
  unfolding initialize_if_needed
  initialize_if_needed-ready d i = ground arith

  abbrev pub Allocated : Bool → MailboxData Arena → Resources Arena → ℕ → Arena → Type 0
  Allocated is_large d x p a =
      (if is_large then allocate_large else allocate_small) d
      ≡ done (
        record { size = (pool_of is_large x).elt_size; bytes = some p },
        with_resources d (taken is_large x a),
      )

  -- `allocateLarge` or `allocateSmall` of an initialised program fails and changes nothing, or
  -- takes a block from its pool.
  pub allocate_cases :
      (is_large : Bool) (d : MailboxData Arena) (x : Resources Arena)
      → d.initialized ≡ true
      → d.resources ≡ some x
      → ((if is_large then allocate_large else allocate_small) d
          ≡ done (failed_block, with_resources d x))
        ⊎ ((p : ℕ) × (a : Arena) × (0 < (pool_of is_large x).size)
            × (r.allocate x.arena (pool_of is_large x).elt_size ≡ some (p, a))
            × Allocated is_large d x p a)
  unfolding allocate_small allocate_large alloc initialize_if_needed
  allocate_cases true d x i e = elim (Bool-cases (ltb 0 x.large_pool.size)) [
    | inl pos ↦ elim (Option-cases (r.allocate x.arena x.large_pool.elt_size)) [
      | inl f ↦ inl (ground arith)
      | inr ((p, a), f) ↦ inr (p, a, ltb→lt _ _ pos, f, ground arith)
    ]
    | inr none_left ↦ inl (ground arith)
  ]
  allocate_cases false d x i e = elim (Bool-cases (ltb 0 x.small_pool.size)) [
    | inl pos ↦ elim (Option-cases (r.allocate x.arena x.small_pool.elt_size)) [
      | inl f ↦ inl (ground arith)
      | inr ((p, a), f) ↦ inr (p, a, ltb→lt _ _ pos, f, ground arith)
    ]
    | inr none_left ↦ inl (ground arith)
  ]

  -- The world after `ReleaseMessage` has given the block back.
  abbrev pub released : World Arena → Resources Arena → Message → Arena → World Arena
  released w x m a = record w {
    shared = with_resources w.shared (freed (not (leb m.size x.small_size)) x a);
  }

  -- `ReleaseMessage` of a message that somebody has: its block goes back to the pool it came from.
  pub release-Accounted :
      (w : World Arena) (x : Resources Arena) (m : Message) (p : ℕ) (held held' lost : List Message)
      → w.shared.resources ≡ some x
      → Accounted x w.mailboxes held lost
      → m.bytes ≡ some p
      → ((f : Message → ℕ)
          → all_messages f w.mailboxes held' lost + f m ≡ all_messages f w.mailboxes held lost)
      → (a : Arena) × (release_message m w ≡ released w x m a)
        × Accounted (freed (not (leb m.size x.small_size)) x a) w.mailboxes held' lost
  unfolding release_message small_size free_small free_large free
  release-Accounted w x m p held held' lost e v b h =
      let n : ℕ = block_size x.small_size x.large_size m in
      let l : r.live x.arena p ≡ some n = live_of_message v m p b (
        ground
          (arith, h (owns x.small_size x.large_size p (block_size x.small_size x.large_size m)))) in
      let (a, given, after) = r.deallocate-live x.arena p n l in
      (
        a,
        ground (arith, given, v.small_elt, v.large_elt),
        freed-Accounted v m p a held' b h l after,
      )
