-- ===== src/Sandbox/QueueProgram/Threads/Examples.antt =====
-- Tests of the two threads of sandbox/queue.cpp, and instances of the theorems on them.
use msglib_cpp.Common.{◌≤◌, ◌≡◌, refl, true, false, none, [], ◌∷◌, ◌++◌, arith, length}
use msglib_cpp.Message.{message}
use msglib_cpp.Queue.{emplace, pop_front, new_queue}
use msglib_cpp.Sandbox.QueueProgram.{numbered, prefill, prefill_from}
use msglib_cpp.Sandbox.QueueProgram.Threads.{
  State, finished, begin, produced, produces, enters, receives, Reach, here, next,
}
use msglib_cpp.Sandbox.QueueProgram.Threads.Order.{taken, Reach-in_order}
use msglib_cpp.Sandbox.QueueProgram.Threads.End.{Reach-ends}

-- A queue for one message, which main has filled: `producer` tries in vain, the consumer takes the
-- message, and the next one of `producer` finds room.
half_way :
    (t : State) × Reach 3 (begin 1) t
    × (t.results ≡ false ∷ true ∷ [])
    × (t.received ≡ message 0 16 none ∷ [])
unfolding begin prefill prefill_from emplace pop_front new_queue produced
half_way = (
  _,
  next
      (next
        (next (next here (produces false _ refl (omega arith) refl refl)) (enters refl refl refl))
        (receives _ _ refl refl refl))
      (produces true _ refl (omega arith) refl refl),
  refl,
  refl,
)

Reach-in_order_example :
    (half_way.0.received ++ half_way.0.queue.items ≡ numbered 1 0 ++ taken half_way.0.results 0)
    × (length half_way.0.queue.items ≤ 1)
    × (length half_way.0.results ≡ half_way.0.index)
    × (half_way.0.index ≤ 3)
    × (half_way.0.main ≡ finished → length half_way.0.results ≡ 3)
Reach-in_order_example = Reach-in_order 1 3 (omega arith) (omega arith) half_way.1

Reach-ends_example :
    (u : State) × Reach 3 half_way.0 u
    × (u.main ≡ finished)
    × (u.received ++ u.queue.items ≡ numbered 1 0 ++ taken u.results 0)
    × (length u.results ≡ 3)
Reach-ends_example = Reach-ends 1 3 (omega arith) (omega arith) half_way.1
