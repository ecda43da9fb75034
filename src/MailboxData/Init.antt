-- ===== src/MailboxData/Init.antt =====
-- MailboxData.h: `Initialize`, called from outside the library's lock.
use msglib_cpp.Common.{
  ℕ, ◌≡◌, ◌⊎◌, true, false, none, some, arith, inl, inr, Option-cases, Bool-cases,
}
use msglib_cpp.Common.State.{done}
use msglib_cpp.Pool.Resource.{MemoryResource}
use msglib_cpp.MailboxData.{MailboxData, initialize_with, new_resources, byte_size, resources_on}

module _ {Arena : Type 0} ⦃r : MemoryResource Arena⦄ (d : MailboxData Arena) (ss sc ls lc : ℕ) where
  -- What `Initialize` sets up over the buffer `a`.
  abbrev pub initialized_on : Arena → MailboxData Arena
  initialized_on a = record d { initialized = true; resources = some (resources_on ss sc ls lc a) }

  -- `Initialize`, called with the lock free, does one of three things. In an initialised program it
  -- returns false and changes nothing, whatever the sizes. Where the buffer cannot be had, it returns
  -- false and changes nothing. And else it returns true and sets the resources up over the new
  -- buffer; after that it will return false and change nothing.
  pub initialize_with_lem :
      d.locked ≡ false
      → ((d.initialized ≡ true) × (initialize_with ss sc ls lc d ≡ done (false, d)))
        ⊎ (((d.initialized ≡ false)
              × (r.make (byte_size ss sc ls lc) ≡ none)
              × (initialize_with ss sc ls lc d ≡ done (false, d)))
            ⊎ ((d.initialized ≡ false)
                × ((a : Arena) × (r.make (byte_size ss sc ls lc) ≡ some a)
                    × (initialize_with ss sc ls lc d ≡ done (true, initialized_on a))
                    × ((ss' sc' ls' lc' : ℕ)
                        → initialize_with ss' sc' ls' lc' (initialized_on a)
                          ≡ done (false, initialized_on a)))))
  unfolding initialize_with new_resources
  initialize_with_lem u = elim (Bool-cases d.initialized) [
    | inl i ↦ inl (i, ground arith)
    | inr i ↦ elim (Option-cases (r.make (byte_size ss sc ls lc))) [
      | inl m ↦ inr (inl (i, m, ground arith))
      | inr (a, m) ↦ inr (inr (i, (a, m, ground arith, λ ss' sc' ls' lc'. ground arith)))
    ]
  ]
