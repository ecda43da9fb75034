-- ===== src/Pool/Counting.antt =====
-- BytePool.h: the counter m_size against the blocks that are out, over any history of a client
-- that gives back only blocks which it holds.
use msglib_cpp.Common.{
  ℕ, zero, suc, ◌+◌, ◌^◌, ◌≤◌, ◌<◌, ◌≡◌, ◌⊎◌, ◌↔◌, inl, inr, refl, Option, none, some, List, [],
  ◌∷◌, arith, ◌==◌, if◌then◌else◌, length, get_elem?, Option-cases,
}
use msglib_cpp.Pool.Resource.{MemoryResource, present, present-pos, present-le}
use msglib_cpp.Pool
use msglib_cpp.Pool.{BytePool, DataBlock, failed_block, new_pool, alloc, free}

abbrev pub count : ℕ → List ℕ → ℕ
count a [] = 0
count a (x ∷ xs) = (if x == a then 1 else 0) + count a xs

abbrev remove_at : List ℕ → ℕ → List ℕ
remove_at [] i = []
remove_at (x ∷ xs) zero = xs
remove_at (x ∷ xs) (suc i) = x ∷ remove_at xs i

-- A pool, its resource and the blocks that its client holds.
pub record Client (Arena : Type 0) : Type 0 where
  pub pool : BytePool
  pub arena : Arena
  pub held : List ℕ

-- The client asks for a block, or gives back the block that it holds at an index.
pub data Call : Type 0 where
  take : Call
  give : ℕ → Call

pub record IsBalanced {Arena : Type 0} ⦃r : MemoryResource Arena⦄ (capacity : ℕ) (c : Client Arena)
    : Type 0 where
  pub fixed : c.pool.capacity ≡ capacity
  pub counted : c.pool.size + length c.held ≡ capacity
  pub small : capacity < 2 ^ 64
  pub owned : (q : ℕ) → count q c.held ≤ present (r.live c.arena q) c.pool.elt_size

module _ {Arena : Type 0} ⦃r : MemoryResource Arena⦄ where
  took : Client Arena → DataBlock × BytePool × Arena → Client Arena
  took c (block, pool, a) = elim block.bytes [
    | none ↦ record { pool = pool; arena = a; held = c.held }
    | some p ↦ record { pool = pool; arena = a; held = p ∷ c.held }
  ]

  gave : Client Arena → ℕ → Option ℕ → Client Arena
  gave c i none = c
  gave c i (some p) =
      let (pool, a) = free c.pool (some p) c.arena in
      record { pool = pool; arena = a; held = remove_at c.held i }

  unfoldable pub step : Client Arena → Call → Client Arena
  unfolding took gave
  step c take = took c (alloc c.pool c.arena)
  step c (give i) = gave c i (get_elem? c.held i)

  unfoldable pub run : Client Arena → List Call → Client Arena
  run c [] = c
  run c (x ∷ xs) = run (step c x) xs

  unfoldable pub start : ℕ → ℕ → Arena → Client Arena
  start elt_size capacity a = record { pool = new_pool elt_size capacity; arena = a; held = [] }

count-remove_at :
    (q : ℕ) (xs : List ℕ) (i : ℕ) {p : ℕ}
    → get_elem? xs i ≡ some p
    → count q (remove_at xs i) + (if p == q then 1 else 0) ≡ count q xs
count-remove_at q [] i e = cc
count-remove_at q (x ∷ xs) zero e = ground arith
count-remove_at q (x ∷ xs) (suc i) e = omega (arith, count-remove_at q xs i e)

length-remove_at :
    (xs : List ℕ) (i : ℕ) {p : ℕ}
    → get_elem? xs i ≡ some p
    → length (remove_at xs i) + 1 ≡ length xs
length-remove_at [] i e = cc
length-remove_at (x ∷ xs) zero e = omega arith
length-remove_at (x ∷ xs) (suc i) e = omega (arith, length-remove_at xs i e)

count_self : (xs : List ℕ) (i : ℕ) {p : ℕ} → get_elem? xs i ≡ some p → 0 < count p xs
count_self [] i e = cc
count_self (x ∷ xs) zero e = ground arith
count_self (x ∷ xs) (suc i) e = omega (arith, count_self xs i e)

module _ {Arena : Type 0} ⦃r : MemoryResource Arena⦄ {k : ℕ} where
  take-IsBalanced : (c : Client Arena) → IsBalanced k c → IsBalanced k (step c take)
  unfolding step alloc
  take-IsBalanced c v = elim (Option-cases (r.allocate c.arena c.pool.elt_size)) [
    | inl e ↦ record {
      fixed = ground arith;
      counted = ground arith;
      small = ground arith;
      owned = λ q. ground (arith, v.owned q);
    }
    | inr ((p, a'), e) ↦ record {
      fixed = ground arith;
      counted = ground arith;
      small = ground arith;
      owned = λ q.
          ground (arith, v.owned q, v.owned p, r.allocate-fresh _ _ e, r.allocate-live _ _ e q);
    }
  ]

  give-IsBalanced : (c : Client Arena) (i : ℕ) → IsBalanced k c → IsBalanced k (step c (give i))
  unfolding step free
  give-IsBalanced c i v = elim (Option-cases (get_elem? c.held i)) [
    | inl e ↦ rw (e, gave) v
    | inr (p, e) ↦
        let out : r.live c.arena p ≡ some c.pool.elt_size =
          present-pos _ _ (omega (arith, count_self c.held i e, v.owned p)) in
        let (a', taken, after) = r.deallocate-live c.arena p c.pool.elt_size out in
        record {
          fixed = ground (arith, taken);
          counted = ground (arith, taken, length-remove_at c.held i e);
          small = ground (arith, taken);
          owned = λ q.
              ground
                (arith, taken, after q, v.owned q, out, v.owned p, count-remove_at q c.held i e);
        }
  ]

  step-IsBalanced : (c : Client Arena) (x : Call) → IsBalanced k c → IsBalanced k (step c x)
  step-IsBalanced c take v = take-IsBalanced c v
  step-IsBalanced c (give i) v = give-IsBalanced c i v

  pub run-IsBalanced :
      (c : Client Arena) (xs : List Call) → IsBalanced k c → IsBalanced k (run c xs)
  unfolding run
  run-IsBalanced c [] v = v
  run-IsBalanced c (x ∷ xs) v = run-IsBalanced (step c x) xs (step-IsBalanced c x v)

  alloc_cases :
      (c : Client Arena)
      → IsBalanced k c
      → ((alloc c.pool c.arena).0 ≡ failed_block)
        ↔ ((length c.held ≡ k) ⊎ (r.allocate c.arena c.pool.elt_size ≡ none))
  unfolding alloc
  alloc_cases c v = elim (Option-cases (r.allocate c.arena c.pool.elt_size)) [
    | inl e ↦ (ground arith, ground arith)
    | inr (t, e) ↦ (ground arith, ground arith)
  ]

module _ {Arena : Type 0} ⦃r : MemoryResource Arena⦄ (elt_size capacity : ℕ) (a : Arena) where
  start-IsBalanced : capacity < 2 ^ 64 → IsBalanced capacity (start elt_size capacity a)
  unfolding start new_pool
  start-IsBalanced h = record {
    fixed = refl;
    counted = omega arith;
    small = h;
    owned = λ q. omega arith;
  }

  -- After any history of a pool of fewer than 2^64 blocks, `size` tells how many blocks the client
  -- could still get, the capacity less those that it holds, `capacity` is what it was, and the client
  -- holds no address twice. `alloc` then fails exactly when the client holds as many blocks as the
  -- capacity, or the memory resource throws.
  pub run_lem :
      (xs : List Call)
      → capacity < 2 ^ 64
      → let c = run (start elt_size capacity a) xs in
        (Pool.size c.pool + length c.held ≡ Pool.capacity c.pool)
        × (Pool.capacity c.pool ≡ capacity)
        × ((q : ℕ) → count q c.held ≤ 1)
        × (((alloc c.pool c.arena).0 ≡ failed_block)
            ↔ ((length c.held ≡ capacity) ⊎ (r.allocate c.arena (Pool.elt_size c.pool) ≡ none)))
  unfolding Pool.size Pool.capacity Pool.elt_size
  run_lem xs h = (
    omega (arith, v.counted, v.fixed),
    v.fixed,
    λ q. omega (arith, v.owned q, present-le _ _),
    alloc_cases _ v,
  )
    where
      v : IsBalanced capacity (run (start elt_size capacity a) xs)
      v = run-IsBalanced _ xs (start-IsBalanced h)
