-- ===== src/Pool/Resource.antt =====
-- The `std::pmr` memory resource below the pools (include/msglib/detail/MailboxData.h,
-- `Resources::m_syncResource` over `m_byteResource` over `m_bytes`). It belongs to the C++ standard
-- library, so it is an interface: what the two pools call, and what they may rely on.
use msglib_cpp.Common.{ℕ, ◌≤◌, ◌<◌, ◌≡◌, Option, none, some, arith, ◌==◌, if◌then◌else◌}

pub record MemoryResource (Arena : Type 0) : Type 0 where
  -- A resource over a fresh buffer of so many bytes; `none` for `std::bad_alloc`.
  pub make : ℕ → Option Arena
  -- `allocate(n)` on a polymorphic_allocator<std::byte>; `none` for an exception.
  pub allocate : Arena → ℕ → Option (ℕ × Arena)
  -- `deallocate(p, n)`; `none` for an exception.
  pub deallocate : Arena → ℕ → ℕ → Option Arena
  -- The size of the block that is out at an address, if there is one.
  pub live : Arena → ℕ → Option ℕ
  pub make-live : (n : ℕ) {a : Arena} → make n ≡ some a → (q : ℕ) → live a q ≡ none
  -- A block is handed out only where none is out.
  pub allocate-fresh :
      (a : Arena) (n : ℕ) {p : ℕ} {a' : Arena} → allocate a n ≡ some (p, a') → live a p ≡ none
  pub allocate-live :
      (a : Arena) (n : ℕ) {p : ℕ} {a' : Arena}
      → allocate a n ≡ some (p, a')
      → (q : ℕ) → live a' q ≡ (if p == q then some n else live a q)
  -- Given back with the size that it was asked for with, a block is taken without an exception.
  pub deallocate-live :
      (a : Arena) (p n : ℕ)
      → live a p ≡ some n
      → (a' : Arena) × (deallocate a p n ≡ some a')
        × ((q : ℕ) → live a' q ≡ (if p == q then none else live a q))

-- Is a block of `n` bytes out, as `live` tells it?
abbrev pub present : Option ℕ → ℕ → ℕ
present none n = 0
present (some k) n = if k == n then 1 else 0

pub present-pos : (o : Option ℕ) (n : ℕ) → 0 < present o n → o ≡ some n
present-pos none n h = absurd (omega arith)
present-pos (some k) n h = ground arith

pub present-le : (o : Option ℕ) (n : ℕ) → present o n ≤ 1
present-le none n = omega arith
present-le (some k) n = ground arith
