-- ===== src/Queue/Examples.antt =====
-- Tests of Queue.h and instances of its theorems.
use msglib_cpp.Common.{
  ℕ, ◌≤◌, ◌<◌, ◌≡◌, refl, true, false, some, List, [], ◌∷◌, ◌++◌, arith, length, get_elem?, total,
}
use msglib_cpp.Queue.{Queue, new_queue, push, try_pop, pop_front, empty, size}
use msglib_cpp.Queue.Threads
use msglib_cpp.Queue.Fifo.{start, Reach-fifo, no_lost_wakeup}
use msglib_cpp.Queue.Refinement.{events, put_in, Leaves, Reach-refines}

abbrev full_queue : Queue ℕ
full_queue = record { items = 5 ∷ 6 ∷ []; capacity = 2 }

push-full : push full_queue 7 ≡ (false, full_queue)
unfolding push
push-full = refl

try_pop-full : try_pop full_queue ≡ some (5, record { items = 6 ∷ []; capacity = 2 })
unfolding try_pop
try_pop-full = refl

empty-new : empty (new_queue {A = ℕ} 2) ≡ true
unfolding empty new_queue
empty-new = refl

size-full : size full_queue ≡ 2
unfolding size
size-full = refl

abbrev three_running : List Threads.Phase
three_running = Threads.running ∷ Threads.running ∷ Threads.running ∷ []

-- Threads 0 and 2 wait, thread 2 with a deadline; thread 1 has pushed 5 and woken thread 0.
abbrev one_pushed : Threads.System ℕ
one_pushed = record {
  queue = record { items = 5 ∷ []; capacity = 2 };
  threads = Threads.woken false ∷ Threads.running ∷ Threads.waiting true ∷ [];
  pushed = 5 ∷ [];
  popped = [];
}

Reach-one_pushed : Threads.Reach (start 2 three_running) one_pushed
unfolding start new_queue push pop_front
Reach-one_pushed =
    Threads.next
      (Threads.next (Threads.next Threads.here (Threads.blocks 0 false refl refl refl))
        (Threads.blocks 2 true refl refl refl))
      (Threads.push_wakes 1 0 5 false _ refl refl refl refl)

Reach-fifo_example :
    (one_pushed.pushed ≡ one_pushed.popped ++ one_pushed.queue.items)
    × (length one_pushed.queue.items ≤ 2)
unfolding total
Reach-fifo_example = Reach-fifo 2 three_running refl Reach-one_pushed

no_lost_wakeup_example :
    (i : ℕ) × (p : Threads.Phase) × (get_elem? one_pushed.threads i ≡ some p)
    × (0 < Threads.is_awake p)
    × ((u : Threads.System ℕ) × Threads.Step one_pushed u
        × (u.popped ≡ one_pushed.popped ++ 5 ∷ [])
        × (u.queue.items ≡ []))
unfolding total
no_lost_wakeup_example =
    no_lost_wakeup 2 three_running refl Reach-one_pushed 5 [] refl (omega arith)

events-one_pushed : events Reach-one_pushed ≡ put_in 5 ∷ []
unfolding Reach-one_pushed
events-one_pushed = refl

Reach-refines_example : Leaves 2 (events Reach-one_pushed) (5 ∷ [])
unfolding total
Reach-refines_example = Reach-refines 2 three_running refl Reach-one_pushed
