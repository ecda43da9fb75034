-- ===== src/Queue/Refinement.antt =====
-- Queue.h as an abstract bounded queue: its state is the list of what is in it, and each call of a
-- thread has one outcome, which depends on that list alone. It knows of no threads, no waiting and
-- no notifications.
use msglib_cpp.Common.{
  ℕ, ◌<◌, ◌≡◌, refl, true, Option, none, some, List, [], ◌∷◌, ◌++◌, arith, length, total,
}
use msglib_cpp.Queue.{Queue, new_queue, push}
use msglib_cpp.Queue.Threads
use msglib_cpp.Queue.Fifo.{
  Inv, push-true, push-false, pop_front-some, pop_front-none, start, start-Inv, Reach-Inv,
}

-- How a call of a thread ends.
pub data Event {ℓ} (A : Type ℓ) : Type ℓ where
  -- A push returns true, or false.
  put_in refused : A → Event A
  -- A pop returns an element.
  taken_out : A → Event A
  -- `popWait` returns false.
  gave_up : Event A

module _ {ℓ} {A : Type ℓ} where
  -- What the call ends with that a step completes; the steps of waiting complete none.
  abbrev pub event : {s t : Threads.System A} → Threads.Step s t → Option (Event A)
  event (Threads.push_full i x q e f g) = some (refused x)
  event (Threads.push_unheard i x q e f w g) = some (put_in x)
  event (Threads.push_wakes i j x timed q e f w g) = some (put_in x)
  event (Threads.pops i x q e f g) = some (taken_out x)
  event (Threads.blocks i timed e f g) = none
  event (Threads.spurious i timed e g) = none
  event (Threads.times_out i e g) = none
  event (Threads.resumes i timed x q e f g) = some (taken_out x)
  event (Threads.waits_again i timed e f g) = none
  event (Threads.takes_late i x q e f g) = some (taken_out x)
  event (Threads.gives_up i e f g) = some gave_up

  abbrev pub before : Option (Event A) → List (Event A) → List (Event A)
  before none es = es
  before (some e) es = e ∷ es

  -- How the calls have ended, the latest first.
  abbrev pub events : {s t : Threads.System A} → Threads.Reach s t → List (Event A)
  events Threads.here = []
  events (Threads.next r st) = before (event st) (events r)

module _ {ℓ} {A : Type ℓ} (cap : ℕ) where
  -- What the abstract queue of the capacity `cap` does: an element goes to the end while fewer than
  -- `cap` are in it, and is refused only while `cap` are; the oldest is taken out; and a pop gives up
  -- only on the empty queue.
  abbrev pub Does : List A → Event A → List A → Type ℓ
  Does xs (put_in x) ys = (length xs < cap) × (ys ≡ xs ++ x ∷ [])
  Does xs (refused x) ys = (length xs ≡ cap) × (ys ≡ xs)
  Does xs (taken_out x) ys = xs ≡ x ∷ ys
  Does xs gave_up ys = (xs ≡ []) × (ys ≡ [])

  -- From the empty queue, these calls, the latest first, leave `ys`.
  abbrev pub Leaves : List (Event A) → List A → Type ℓ
  Leaves [] ys = ys ≡ []
  Leaves (e ∷ es) ys = (xs : List A) × Leaves es xs × Does xs e ys

  abbrev Follows : Option (Event A) → List A → List A → Type ℓ
  Follows none xs ys = ys ≡ xs
  Follows (some e) xs ys = Does xs e ys

  put-Does :
      {s : Threads.System A}
      → Inv cap s
      → (x : A) (q : Queue A) → push s.queue x ≡ (true, q)
      → Does s.queue.items (put_in x) q.items
  put-Does {s} v x q f =
      let (items, same, room) = push-true s.queue x f in (omega (arith, v.fixed), items)

  -- A step ends its call as the abstract queue does, or leaves the elements alone.
  Step-Follows :
      {s t : Threads.System A}
      → Inv cap s
      → (st : Threads.Step s t) → Follows (event st) s.queue.items t.queue.items
  Step-Follows {s} v (Threads.push_full i x q e f g) =
      rw (g, (push-false s.queue x f).0)
        (omega (arith, v.fixed, v.bounded, (push-false s.queue x f).1), refl)
  Step-Follows {s} v (Threads.push_unheard i x q e f w g) = rw g (put-Does v x q f)
  Step-Follows {s} v (Threads.push_wakes i j x timed q e f w g) = rw g (put-Does v x q f)
  Step-Follows {s} v (Threads.pops i x q e f g) = rw g (pop_front-some s.queue f).0
  Step-Follows v (Threads.blocks i timed e f g) = rw g refl
  Step-Follows v (Threads.spurious i timed e g) = rw g refl
  Step-Follows v (Threads.times_out i e g) = rw g refl
  Step-Follows {s} v (Threads.resumes i timed x q e f g) = rw g (pop_front-some s.queue f).0
  Step-Follows v (Threads.waits_again i timed e f g) = rw g refl
  Step-Follows {s} v (Threads.takes_late i x q e f g) = rw g (pop_front-some s.queue f).0
  Step-Follows {s} v (Threads.gives_up i e f g) =
      let empty : s.queue.items ≡ [] = pop_front-none s.queue f in rw g (empty, empty)

  Leaves-before :
      (o : Option (Event A)) (es : List (Event A)) (xs ys : List A)
      → Leaves es xs
      → Follows o xs ys
      → Leaves (before o es) ys
  Leaves-before none es xs ys h f = rw f h
  Leaves-before (some e) es xs ys h f = (xs, h, f)

  Reach-Leaves :
      {s t : Threads.System A}
      → Inv cap s
      → s.queue.items ≡ []
      → (r : Threads.Reach s t) → Leaves (events r) t.queue.items
  Reach-Leaves v z Threads.here = z
  Reach-Leaves v z (Threads.next r st) =
      Leaves-before (event st) (events r) _ _ (Reach-Leaves v z r) (Step-Follows (Reach-Inv v r) st)

  -- However the threads that share a new queue interleave, their calls end as those of the abstract
  -- queue of that capacity do, one after the other: a push returns true exactly if the queue is not
  -- full, a pop returns the oldest element, and `popWait` returns false only on the empty queue.
  -- What is queued at the end is what the abstract queue then has.
  pub Reach-refines :
      (ts : List Threads.Phase) {t : Threads.System A}
      → total Threads.is_waiting ts ≡ 0
      → (r : Threads.Reach (start cap ts) t) → Leaves (events r) t.queue.items
  unfolding start new_queue
  Reach-refines ts h r = Reach-Leaves (start-Inv cap ts h) refl r
