-- ===== src/Pool.antt =====
-- include/msglib/detail/BytePool.h: the fixed-block allocator and the block that it hands out.
-- A pointer is `Option ℕ`, `none` for nullptr. `m_alloc` refers to a memory resource which the two
-- pools of a program share, so each operation takes that resource's state and returns it anew.
pub mod Resource
pub mod Counting
pub mod Buffer
mod Examples
use msglib_cpp.Common.{
  ℕ, ◌+◌, ◌-◌, ◌%◌, ◌^◌, Bool, true, false, Option, none, some, List, ◌++◌, ltb, leb, ◌==◌,
  if◌then◌else◌, length, drop,
}
use Resource.{MemoryResource}

-- `DataBlock`: `size` is m_size and `bytes` is m_data.
pub record DataBlock : Type 0 where
  pub size : ℕ
  pub bytes : Option ℕ

-- `DataBlock()`, a failed allocation.
abbrev pub failed_block : DataBlock
failed_block = record { size = 0; bytes = none }

-- The contents of the blocks, by address.
abbrev pub Memory : Type 0
Memory = ℕ → List ℕ

-- `memcpy(p, &t, sizeof(T))`: the rest of the block stays.
abbrev pub copy_to : Memory → ℕ → List ℕ → Memory
copy_to m p t q = if p == q then t ++ drop (length t) (m q) else m q

-- `DataBlock::put` for a value with the object representation `t`, so sizeof(T) is its length.
-- (That T is trivially copyable is a static_assert.)
unfoldable pub put : DataBlock → List ℕ → Memory → Bool × Memory
put block t m = elim block.bytes [
  | none ↦ (false, m)
  | some p ↦ if leb (length t) block.size then (true, copy_to m p t) else (false, m)
]

-- `BytePool`: `size` is m_size, the blocks that can still be allocated.
pub record BytePool : Type 0 where
  pub elt_size : ℕ
  pub size : ℕ
  pub capacity : ℕ

unfoldable pub new_pool : ℕ → ℕ → BytePool
new_pool elt_size capacity = record { elt_size = elt_size; size = capacity; capacity = capacity }

-- The accessors.
unfoldable pub size : BytePool → ℕ
size pool = pool.size

unfoldable pub capacity : BytePool → ℕ
capacity pool = pool.capacity

unfoldable pub elt_size : BytePool → ℕ
elt_size pool = pool.elt_size

module _ {Arena : Type 0} ⦃r : MemoryResource Arena⦄ where
  -- `BytePool::alloc`. `none` of the resource is an exception, which is contained here.
  unfoldable pub alloc : BytePool → Arena → DataBlock × BytePool × Arena
  alloc pool a =
      if ltb 0 pool.size
      then (elim (r.allocate a pool.elt_size) [
        | none ↦ (failed_block, pool, a)
        | some (p, a') ↦ (
          record { size = pool.elt_size; bytes = some p },
          record pool { size = pool.size - 1 },
          a',
        )
      ])
      else (failed_block, pool, a)

  -- `BytePool::free`. The counter is a `std::atomic<size_t>`.
  unfoldable pub free : BytePool → Option ℕ → Arena → BytePool × Arena
  free pool none a = (pool, a)
  free pool (some t) a = elim (r.deallocate a t pool.elt_size) [
    | none ↦ (pool, a)
    | some a' ↦ (record pool { size = (pool.size + 1) % 2 ^ 64 }, a')
  ]
