-- ===== src/Pool/Examples.antt =====
-- Tests of BytePool.h on a concrete resource, and instances of the theorems there.
use msglib_cpp.Common.{ℕ, ◌+◌, ◌≤◌, ◌≡◌, refl, ◌⊎◌, ◌↔◌, List, [], ◌∷◌, none, arith, length}
use msglib_cpp.Pool
use msglib_cpp.Pool.{failed_block, new_pool, alloc, free}
use msglib_cpp.Pool.Buffer.{Buffer, find, remove, top, allocate, deallocate, buffer_resource}
use msglib_cpp.Pool.Counting.{Call, take, give, count, step, run, start, run_lem}

abbrev room : Buffer
room = record { room = 1000; blocks = [] }

abbrev history : List Call
history = take ∷ take ∷ take ∷ give 1 ∷ take ∷ give 7 ∷ []

-- The third `take` finds the pool empty; after a `give` the fourth is served.
history_leaves : (run (start 16 2 room) history).held ≡ 5 ∷ 3 ∷ []
unfolding run start new_pool step alloc free allocate deallocate find remove top
history_leaves = refl

run_lem_example :
    let c = run (start 16 2 room) history in
    (Pool.size c.pool + length c.held ≡ Pool.capacity c.pool)
    × (Pool.capacity c.pool ≡ 2)
    × ((q : ℕ) → count q c.held ≤ 1)
    × (((alloc c.pool c.arena).0 ≡ failed_block)
        ↔ ((length c.held ≡ 2) ⊎ (buffer_resource.allocate c.arena (Pool.elt_size c.pool) ≡ none)))
run_lem_example = run_lem 16 2 room history (omega arith)
