-- ===== src/Sandbox/PoolProgram.antt =====
-- sandbox/pool.cpp: main takes a pool's blocks, asks for one more, and gives all back. What it
-- prints goes to spdlog.
use msglib_cpp.Common.{
  ℕ, zero, suc, ◌+◌, ◌≤◌, ◌<◌, ◌^◌, ◌≡◌, ◌⊎◌, refl, Option, none, some, List, [], ◌∷◌, arith, ◌==◌,
  if◌then◌else◌, total, Option-cases, inl, inr, length,
}
use native.Mathlib.Decide.{dec_lt}
use msglib_cpp.Pool.{DataBlock, failed_block, BytePool, new_pool, alloc, free}
use msglib_cpp.Pool.Resource.{MemoryResource, present, present-pos}

pub record Options : Type 0 where
  pub storage_size : ℕ
  pub capacity : ℕ
  pub element_size : ℕ
  pub log : ℕ

-- spdlog::level::trace is 0.
abbrev pub default_options : Options
default_options = record { storage_size = 16384; capacity = 16; element_size = 16; log = 0 }

-- What `getopt` returns, with what `std::stoul` makes of the argument.
pub data Opt : Type 0 where
  opt_s opt_c opt_e opt_l : ℕ → Opt
  opt_usage : Opt

-- The loop over the options: `none` for `exit(1)`.
unfoldable pub read_options : List Opt → Options → Option Options
read_options [] o = some o
read_options (opt_s n ∷ os) o = read_options os (record o { storage_size = n })
read_options (opt_c n ∷ os) o = read_options os (record o { capacity = n })
read_options (opt_e n ∷ os) o = read_options os (record o { element_size = n })
read_options (opt_l n ∷ os) o = read_options os (record o { log = n })
read_options (opt_usage ∷ os) o = none

-- Where main ends: `elements`, `blk`, `pool` and the resource below.
pub record End (Arena : Type 0) : Type 0 where
  pub elements : List DataBlock
  pub blk : DataBlock
  pub pool : BytePool
  pub arena : Arena

module _ {Arena : Type 0} ⦃r : MemoryResource Arena⦄ where
  -- The loop that allocates.
  unfoldable pub fill : ℕ → BytePool → Arena → List DataBlock × BytePool × Arena
  fill zero pool a = ([], pool, a)
  fill (suc n) pool a =
      let (b, pool', a') = alloc pool a in
      let (bs, pool'', a'') = fill n pool' a' in (b ∷ bs, pool'', a'')

  -- The loop that frees.
  unfoldable pub free_all : List DataBlock → BytePool → Arena → BytePool × Arena
  free_all [] pool a = (pool, a)
  free_all (b ∷ bs) pool a = let (pool', a') = free pool b.bytes a in free_all bs pool' a'

  -- main from the construction of the pool on.
  unfoldable pub run_pool : Options → Arena → End Arena
  unfolding fill free_all
  run_pool o a =
      let (elements, pool1, a1) = fill o.capacity (new_pool o.element_size o.capacity) a in
      let (blk, pool2, a2) = alloc pool1 a1 in
      let (pool3, a3) = free_all elements pool2 a2 in
      record { elements = elements; blk = blk; pool = pool3; arena = a3 }

abbrev pub is_block : DataBlock → ℕ
is_block b = elim b.bytes [ none ↦ 0 | some p ↦ 1 ]

abbrev at : ℕ → DataBlock → ℕ
at q b = elim b.bytes [ none ↦ 0 | some p ↦ if p == q then 1 else 0 ]

module _ {Arena : Type 0} ⦃r : MemoryResource Arena⦄ (e k : ℕ) where
  -- `n` blocks are out, `w q` of them at the address `q`.
  record Out (n : ℕ) (w : ℕ → ℕ) (pool : BytePool) (a : Arena) : Type 0 where
    elt : pool.elt_size ≡ e
    counted : pool.size + n ≡ k
    owned : (q : ℕ) → w q ≤ present (r.live a q) e

  alloc-Out :
      (n : ℕ) (w : ℕ → ℕ) (pool : BytePool) (a : Arena)
      → Out n w pool a
      → let (b, pool', a') = alloc pool a in Out (n + is_block b) (λ q. w q + at q b) pool' a'
  unfolding alloc
  alloc-Out n w pool a v = elim (Option-cases (r.allocate a pool.elt_size)) [
    | inl f ↦ record {
      elt = ground (arith, v.elt);
      counted = ground (arith, v.counted);
      owned = λ q. ground (arith, v.owned q);
    }
    | inr ((p, a'), f) ↦ record {
      elt = ground (arith, v.elt);
      counted = ground (arith, v.counted);
      owned = λ q.
          ground
            (arith, v.elt, v.owned q, v.owned p, r.allocate-fresh _ _ f, r.allocate-live _ _ f q);
    }
  ]

  fill-Out :
      (i n : ℕ) (w : ℕ → ℕ) (pool : BytePool) (a : Arena)
      → Out n w pool a
      → let (bs, pool', a') = fill i pool a in
        Out (n + total is_block bs) (λ q. w q + total (at q) bs) pool' a'
  unfolding fill total
  fill-Out zero n w pool a v = record {
    elt = v.elt;
    counted = omega (arith, v.counted);
    owned = λ q. omega (arith, v.owned q);
  }
  fill-Out (suc i) n w pool a v =
      let (b, pool', a') = alloc pool a in
      let u = fill-Out i (n + is_block b) (λ q. w q + at q b) pool' a' (alloc-Out n w pool a v) in
      record {
        elt = u.elt;
        counted = omega (arith, u.counted);
        owned = λ q. omega (arith, u.owned q);
      }

  free-Out :
      (b : DataBlock) (n : ℕ) (w : ℕ → ℕ) (pool : BytePool) (a : Arena)
      → k < 2 ^ 64
      → Out (n + is_block b) (λ q. w q + at q b) pool a
      → let (pool', a') = free pool b.bytes a in Out n w pool' a'
  unfolding free
  free-Out b n w pool a small v = elim (Option-cases b.bytes) [
    | inl f ↦ record {
      elt = ground (arith, v.elt);
      counted = ground (arith, v.counted);
      owned = λ q. ground (arith, v.owned q);
    }
    | inr (p, f) ↦
        let out : r.live a p ≡ some pool.elt_size =
          present-pos _ _ (ground (arith, v.owned p, v.elt)) in
        let (a', taken, after) = r.deallocate-live a p pool.elt_size out in
        record {
          elt = ground (arith, taken, v.elt);
          counted = ground (arith, taken, v.counted);
          owned = λ q. ground (arith, taken, after q, v.owned q, v.owned p, out, v.elt);
        }
  ]

  free_all-Out :
      (bs : List DataBlock) (n : ℕ) (w : ℕ → ℕ) (pool : BytePool) (a : Arena)
      → k < 2 ^ 64
      → Out (n + total is_block bs) (λ q. w q + total (at q) bs) pool a
      → let (pool', a') = free_all bs pool a in Out n w pool' a'
  unfolding free_all total
  free_all-Out [] n w pool a small v = record {
    elt = v.elt;
    counted = omega (arith, v.counted);
    owned = λ q. omega (arith, v.owned q);
  }
  free_all-Out (b ∷ bs) n w pool a small v =
      let (pool', a') = free pool b.bytes a in
      free_all-Out bs n w pool' a' small (
        free-Out b (n + total is_block bs) (λ q. w q + total (at q) bs) pool a small
          (record {
            elt = v.elt;
            counted = omega (arith, v.counted);
            owned = λ q. omega (arith, v.owned q);
          }))

module _ {Arena : Type 0} ⦃r : MemoryResource Arena⦄ where
  length-fill : (i : ℕ) (pool : BytePool) (a : Arena) → length (fill i pool a).0 ≡ i
  unfolding fill
  length-fill zero pool a = refl
  length-fill (suc i) pool a =
      let (b, pool', a') = alloc pool a in omega (arith, length-fill i pool' a')

  alloc-empty : (pool : BytePool) (a : Arena) → pool.size ≡ 0 → (alloc pool a).0 ≡ failed_block
  unfolding alloc
  alloc-empty pool a e = ground arith

  -- With a capacity below 2^64, whatever the memory resource gives: main has as many elements as the
  -- capacity. If each of them is a block, the block that is asked for on top of them is none. At the
  -- end the pool has all blocks back, but for that last one if it was given.
  pub run_pool_lem :
      (o : Options) (a : Arena)
      → o.capacity < 2 ^ 64
      → let end = run_pool o a in
        (length end.elements ≡ o.capacity)
        × ((total is_block end.elements < o.capacity) ⊎ (end.blk ≡ failed_block))
        × (end.pool.size + is_block end.blk ≡ o.capacity)
  unfolding run_pool new_pool
  run_pool_lem o a small =
      let pool = new_pool o.element_size o.capacity in
      let (elements, pool1, a1) = fill o.capacity pool a in
      let (blk, pool2, a2) = alloc pool1 a1 in
      let k = o.capacity in
      let e = o.element_size in
      let start : Out e k 0 (λ q. 0) pool a = record {
        elt = refl;
        counted = omega arith;
        owned = λ q. omega arith;
      } in
      let full = fill-Out e k k 0 (λ q. 0) pool a start in
      let more =
        alloc-Out e k (0 + total is_block elements) (λ q. 0 + total (at q) elements) pool1 a1
          full in
      let over =
        free_all-Out e k elements (is_block blk) (λ q. at q blk) pool2 a2 small
          (record {
            elt = more.elt;
            counted = omega (arith, more.counted);
            owned = λ q. omega (arith, more.owned q);
          }) in
      (
        length-fill k pool a,
        elim (dec_lt (total is_block elements) k) [
          | yes h ↦ inl h
          | no h ↦ inr (alloc-empty pool1 a1 (omega (arith, full.counted)))
        ],
        over.counted,
      )
