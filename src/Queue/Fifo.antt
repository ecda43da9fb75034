-- ===== src/Queue/Fifo.antt =====
-- Queue.h: what every interleaving of the threads keeps.
use msglib_cpp.Common.{
  ℕ, ◌+◌, ◌≤◌, ◌<◌, ◌≡◌, refl, ◌∙◌, ap, ◌⊎◌, inl, inr, true, false, none, some, List, [], ◌∷◌, ◌++◌,
  arith, length, get_elem?, total, total-set, le-total, length-append, get_elem?_of_total,
}
use mathlib.Core.List.{append_assoc}
use msglib_cpp.Queue.{Queue, push, pop_front, new_queue}
use msglib_cpp.Queue.Threads

-- The queue holds what was pushed and not popped, in order, within its capacity; and while a thread
-- waits, each element has a thread awake to take it.
pub record Inv {ℓ} {A : Type ℓ} (cap : ℕ) (s : Threads.System A) : Type ℓ where
  pub fifo : s.pushed ≡ s.popped ++ s.queue.items
  pub fixed : s.queue.capacity ≡ cap
  pub bounded : length s.queue.items ≤ cap
  pub heard :
      (total Threads.is_waiting s.threads ≡ 0)
      ⊎ (length s.queue.items ≤ total Threads.is_awake s.threads)

module _ {ℓ} {A : Type ℓ} where
  pub push-true :
      (q : Queue A) (x : A) {q' : Queue A}
      → push q x ≡ (true, q')
      → (q'.items ≡ q.items ++ x ∷ []) × (q'.capacity ≡ q.capacity) × (length q.items < q.capacity)
  unfolding push
  push-true q x e = ground arith

  pub push-false :
      (q : Queue A) (x : A) {q' : Queue A}
      → push q x ≡ (false, q')
      → (q' ≡ q) × (q.capacity ≤ length q.items)
  unfolding push
  push-false q x e = ground arith

  pub pop_front-some :
      (q : Queue A) {x : A} {q' : Queue A}
      → pop_front q ≡ some (x, q')
      → (q.items ≡ x ∷ q'.items) × (q'.capacity ≡ q.capacity)
  unfolding pop_front
  pop_front-some q e = ground arith

  pub pop_front-none : (q : Queue A) → pop_front q ≡ none → q.items ≡ []
  unfolding pop_front
  pop_front-none q e = ground arith

awake-le : (p : Threads.Phase) → Threads.is_awake p ≤ 1
awake-le Threads.running = omega arith
awake-le _ = omega arith

module _ {ℓ} {A : Type ℓ} {cap : ℕ} {s : Threads.System A} (v : Inv cap s) where
  -- A change of phase that takes no waiter's chance away.
  at_phase-Inv :
      (i : ℕ) (p p' : Threads.Phase)
      → get_elem? s.threads i ≡ some p
      → (s.queue.items ≡ [])
        ⊎ ((Threads.is_waiting p' ≤ Threads.is_waiting p)
            × (Threads.is_awake p ≤ Threads.is_awake p'))
      → Inv cap (Threads.at_phase s i p')
  at_phase-Inv i p p' e h = record {
    fifo = v.fifo;
    fixed = v.fixed;
    bounded = v.bounded;
    heard = ground (
      arith,
      v.heard,
      total-set Threads.is_waiting s.threads i p' e,
      total-set Threads.is_awake s.threads i p' e,
    );
  }

  took-Inv :
      (i : ℕ) (p : Threads.Phase) (x : A) (q : Queue A)
      → get_elem? s.threads i ≡ some p
      → Threads.is_waiting p ≡ 0
      → pop_front s.queue ≡ some (x, q)
      → Inv cap (Threads.took s i x q)
  took-Inv i p x q e w f = record {
    fifo = rw append_assoc (v.fifo ∙ ap (◌++◌ s.popped) (pop_front-some s.queue f).0);
    fixed = (pop_front-some s.queue f).1 ∙ v.fixed;
    bounded = ground (arith, pop_front-some s.queue f);
    heard = ground (
      arith,
      v.heard,
      pop_front-some s.queue f,
      awake-le p,
      total-set Threads.is_waiting s.threads i Threads.running e,
      total-set Threads.is_awake s.threads i Threads.running e,
    );
  }

  put-length :
      (x : A) (q : Queue A) → push s.queue x ≡ (true, q) → length q.items ≡ length s.queue.items + 1
  put-length x q f = ground (arith, push-true s.queue x f, length-append s.queue.items (x ∷ []))

  put-fifo :
      (x : A) (q : Queue A) → push s.queue x ≡ (true, q) → s.pushed ++ x ∷ [] ≡ s.popped ++ q.items
  put-fifo x q f = rw (v.fifo, append_assoc, (push-true s.queue x f).0) refl

  put-Inv :
      (x : A) (q : Queue A) (ts : List Threads.Phase)
      → push s.queue x ≡ (true, q)
      → (total Threads.is_waiting ts ≡ 0) ⊎ (length q.items ≤ total Threads.is_awake ts)
      → Inv cap (record (Threads.put s x q) { threads = ts })
  put-Inv x q ts f h = record {
    fifo = put-fifo x q f;
    fixed = (push-true s.queue x f).1 ∙ v.fixed;
    bounded = ground (arith, v.fixed, push-true s.queue x f, put-length x q f);
    heard = h;
  }

  pub Step-Inv : {t : Threads.System A} → Threads.Step s t → Inv cap t
  Step-Inv (Threads.push_full i x q e f g) = rw (g, (push-false s.queue x f).0) v
  Step-Inv (Threads.push_unheard i x q e f w g) = rw g (put-Inv x q s.threads f (inl w))
  Step-Inv (Threads.push_wakes i j x timed q e f w g) = rw g (
      put-Inv x q _ f (
        ground (
          arith,
          v.heard,
          put-length x q f,
          le-total Threads.is_waiting s.threads j w,
          total-set Threads.is_awake s.threads j (Threads.woken timed) w,
        )))
  Step-Inv (Threads.pops i x q e f g) = rw g (took-Inv i _ x q e refl f)
  Step-Inv (Threads.blocks i timed e f g) =
      rw g (at_phase-Inv i _ _ e (inl (pop_front-none s.queue f)))
  Step-Inv (Threads.spurious i timed e g) = rw g (at_phase-Inv i _ _ e (inr (omega arith)))
  Step-Inv (Threads.times_out i e g) = rw g (at_phase-Inv i _ _ e (inr (omega arith)))
  Step-Inv (Threads.resumes i timed x q e f g) = rw g (took-Inv i _ x q e refl f)
  Step-Inv (Threads.waits_again i timed e f g) =
      rw g (at_phase-Inv i _ _ e (inl (pop_front-none s.queue f)))
  Step-Inv (Threads.takes_late i x q e f g) = rw g (took-Inv i _ x q e refl f)
  Step-Inv (Threads.gives_up i e f g) = rw g (at_phase-Inv i _ _ e (inl (pop_front-none s.queue f)))

module _ {ℓ} {A : Type ℓ} where
  pub Reach-Inv : {cap : ℕ} {s t : Threads.System A} → Inv cap s → Threads.Reach s t → Inv cap t
  Reach-Inv v Threads.here = v
  Reach-Inv v (Threads.next r st) = Step-Inv (Reach-Inv v r) st

  -- A new queue, and `n` threads outside its calls.
  unfoldable pub start : ℕ → List Threads.Phase → Threads.System A
  start cap ts = record { queue = new_queue cap; threads = ts; pushed = []; popped = [] }

  pub start-Inv :
      (cap : ℕ) (ts : List Threads.Phase) → total Threads.is_waiting ts ≡ 0 → Inv cap (start cap ts)
  unfolding start new_queue
  start-Inv cap ts h = record { fifo = refl; fixed = refl; bounded = omega arith; heard = inl h }

  -- However the threads that share a new queue interleave, what has been popped, followed by what
  -- is queued, is what has been pushed with success, in the order of the pushes; and the queue
  -- never holds more than its capacity.
  pub Reach-fifo :
      (cap : ℕ) (ts : List Threads.Phase) {t : Threads.System A}
      → total Threads.is_waiting ts ≡ 0
      → Threads.Reach (start cap ts) t
      → (t.pushed ≡ t.popped ++ t.queue.items) × (length t.queue.items ≤ cap)
  Reach-fifo cap ts h r = let v = Reach-Inv (start-Inv cap ts h) r in (v.fifo, v.bounded)

  -- Some step pops `x`, and leaves `xs` queued.
  abbrev pub Serves : Threads.System A → A → List A → Type ℓ
  Serves t x xs =
      (u : Threads.System A) × Threads.Step t u
      × (u.popped ≡ t.popped ++ x ∷ [])
      × (u.queue.items ≡ xs)

  awake-Serves :
      (t : Threads.System A) (x : A) (xs : List A) (i : ℕ) (p : Threads.Phase)
      → get_elem? t.threads i ≡ some p
      → 0 < Threads.is_awake p
      → t.queue.items ≡ x ∷ xs
      → Serves t x xs
  unfolding pop_front
  awake-Serves t x xs i Threads.running at a e = absurd (omega arith)
  awake-Serves t x xs i (Threads.waiting b) at a e = absurd (omega arith)
  awake-Serves t x xs i (Threads.woken b) at a e =
      let q : Queue A = record t.queue { items = xs } in
      (Threads.took t i x q, Threads.resumes i b x q at (rw e refl) refl, refl, refl)
  awake-Serves t x xs i Threads.expired at a e =
      let q : Queue A = record t.queue { items = xs } in
      (Threads.took t i x q, Threads.takes_late i x q at (rw e refl) refl, refl, refl)

  -- No wake-up is lost: in every state that the threads of a new queue reach, if an element is
  -- queued and a thread waits, then some thread is awake that can pop the oldest element next.
  pub no_lost_wakeup :
      (cap : ℕ) (ts : List Threads.Phase) {t : Threads.System A}
      → total Threads.is_waiting ts ≡ 0
      → Threads.Reach (start cap ts) t
      → (x : A) (xs : List A) → t.queue.items ≡ x ∷ xs
      → 0 < total Threads.is_waiting t.threads
      → (i : ℕ) × (p : Threads.Phase) × (get_elem? t.threads i ≡ some p)
        × (0 < Threads.is_awake p)
        × Serves t x xs
  no_lost_wakeup cap ts {t} h r x xs e w =
      let v = Reach-Inv (start-Inv cap ts h) r in
      let (i, p, at, a) = get_elem?_of_total Threads.is_awake t.threads (ground (arith, v.heard)) in
      (i, p, at, a, awake-Serves t x xs i p at a e)
