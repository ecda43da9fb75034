-- ===== src/Queue.antt =====
-- include/msglib/detail/Queue.h: the bounded queue, as what each method does while it holds
-- `m_mutex`. `Queue.Threads` adds the threads, the condition variable and the blocking calls.
pub mod Threads
pub mod Fifo
pub mod Refinement
mod Examples
use msglib_cpp.Common.{
  ℕ, Bool, true, false, Option, none, some, List, [], ◌∷◌, ◌++◌, ltb, ◌==◌, if◌then◌else◌, length,
}

-- `items` is m_queue, the front first, and `capacity` is m_capacity.
pub record Queue {ℓ} (A : Type ℓ) : Type ℓ where
  pub items : List A
  pub capacity : ℕ

module _ {ℓ} {A : Type ℓ} where
  -- `Queue(size_t, resource)`
  unfoldable pub new_queue : ℕ → Queue A
  new_queue cap = record { items = []; capacity = cap }

  -- `tryPush`
  unfoldable pub try_push : Queue A → A → Bool × Queue A
  try_push q v =
      if ltb (length q.items) q.capacity
      then (true, record q { items = q.items ++ v ∷ [] })
      else (false, q)

  -- `push`
  unfoldable pub push : Queue A → A → Bool × Queue A
  push q v =
      if ltb (length q.items) q.capacity
      then (true, record q { items = q.items ++ v ∷ [] })
      else (false, q)

  -- `emplace`, given the value that its arguments construct.
  unfoldable pub emplace : Queue A → A → Bool × Queue A
  emplace q v =
      if ltb (length q.items) q.capacity
      then (true, record q { items = q.items ++ v ∷ [] })
      else (false, q)

  -- `m_queue.front()` and `m_queue.pop_front()`, which the three pops share; `none` if empty.
  unfoldable pub pop_front : Queue A → Option (A × Queue A)
  pop_front q = elim q.items [ [] ↦ none | x ∷ xs ↦ some (x, record q { items = xs }) ]

  -- `tryPop`: `none` for false.
  unfoldable pub try_pop : Queue A → Option (A × Queue A)
  unfolding pop_front
  try_pop q = pop_front q

  -- `empty`
  unfoldable pub empty : Queue A → Bool
  empty q = elim q.items [ [] ↦ true | x ∷ xs ↦ false ]

  -- `size`
  unfoldable pub size : Queue A → ℕ
  size q = length q.items
