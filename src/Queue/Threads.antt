-- ===== src/Queue/Threads.antt =====
-- Queue.h among threads: `pop` and `popWait` block on the condition variable, a push notifies one
-- waiter, and wake-ups may be spurious or come from a timeout. A step is what one thread does
-- between taking `m_mutex` and releasing it, or what the environment does to a waiting thread.
-- A push stands for `tryPush`, `push` and `emplace`, and an immediate pop for all three pops.
use msglib_cpp.Common.{
  ℕ, ◌≡◌, Bool, true, false, none, some, List, [], ◌∷◌, ◌++◌, get_elem?, set, total,
}
use msglib_cpp.Queue.{Queue, push, pop_front}

-- Where a thread stands. `waiting` and `woken` carry whether the call is `popWait`.
pub data Phase : Type 0 where
  -- outside every call of the queue
  running : Phase
  -- in the wait of `pop` (false) or of `popWait` (true), with the mutex released
  waiting : Bool → Phase
  -- notified, or woken for no reason: it will take the mutex and test the predicate
  woken : Bool → Phase
  -- past the deadline of `popWait`: it will take the mutex and test the predicate a last time
  expired : Phase

-- The queue, the threads, and what pushes have put in and pops have taken out, oldest first.
pub record System {ℓ} (A : Type ℓ) : Type ℓ where
  pub queue : Queue A
  pub threads : List Phase
  pub pushed : List A
  pub popped : List A

abbrev pub is_waiting : Phase → ℕ
is_waiting (waiting t) = 1
is_waiting _ = 0

-- Threads that will come to test the predicate.
abbrev pub is_awake : Phase → ℕ
is_awake (woken t) = 1
is_awake expired = 1
is_awake _ = 0

module _ {ℓ} {A : Type ℓ} where
  -- A state after thread `i` has moved to phase `p`.
  abbrev pub at_phase : System A → ℕ → Phase → System A
  at_phase s i p = record s { threads = set s.threads i p }

  -- A state after thread `i` has popped `x`, which leaves the queue `q`.
  abbrev pub took : System A → ℕ → A → Queue A → System A
  took s i x q = record s {
    queue = q;
    threads = set s.threads i running;
    popped = s.popped ++ x ∷ [];
  }

  -- A state after `x` was pushed.
  abbrev pub put : System A → A → Queue A → System A
  put s x q = record s { queue = q; pushed = s.pushed ++ x ∷ [] }

  pub data Step (s t : System A) : Type ℓ where
    -- A push that finds the queue full.
    push_full :
        (i : ℕ) (x : A) (q : Queue A)
        → get_elem? s.threads i ≡ some running
        → push s.queue x ≡ (false, q)
        → t ≡ record s { queue = q }
        → Step s t
    -- A push whose `notify_one` finds no waiter.
    push_unheard :
        (i : ℕ) (x : A) (q : Queue A)
        → get_elem? s.threads i ≡ some running
        → push s.queue x ≡ (true, q)
        → total is_waiting s.threads ≡ 0
        → t ≡ put s x q
        → Step s t
    -- A push whose `notify_one` wakes thread `j`.
    push_wakes :
        (i j : ℕ) (x : A) (timed : Bool) (q : Queue A)
        → get_elem? s.threads i ≡ some running
        → push s.queue x ≡ (true, q)
        → get_elem? s.threads j ≡ some (waiting timed)
        → t ≡ at_phase (put s x q) j (woken timed)
        → Step s t
    -- `pop`, `popWait` or `tryPop` by a thread that finds an element at once.
    pops :
        (i : ℕ) (x : A) (q : Queue A)
        → get_elem? s.threads i ≡ some running
        → pop_front s.queue ≡ some (x, q)
        → t ≡ took s i x q
        → Step s t
    -- `pop` or `popWait` on the empty queue blocks.
    blocks :
        (i : ℕ) (timed : Bool)
        → get_elem? s.threads i ≡ some running
        → pop_front s.queue ≡ none
        → t ≡ at_phase s i (waiting timed)
        → Step s t
    -- A wake-up with no notification.
    spurious :
        (i : ℕ) (timed : Bool)
        → get_elem? s.threads i ≡ some (waiting timed)
        → t ≡ at_phase s i (woken timed)
        → Step s t
    -- The duration of a `popWait` is over.
    times_out :
        (i : ℕ) → get_elem? s.threads i ≡ some (waiting true) → t ≡ at_phase s i expired → Step s t
    -- A woken thread finds an element.
    resumes :
        (i : ℕ) (timed : Bool) (x : A) (q : Queue A)
        → get_elem? s.threads i ≡ some (woken timed)
        → pop_front s.queue ≡ some (x, q)
        → t ≡ took s i x q
        → Step s t
    -- A woken thread finds nothing and waits again.
    waits_again :
        (i : ℕ) (timed : Bool)
        → get_elem? s.threads i ≡ some (woken timed)
        → pop_front s.queue ≡ none
        → t ≡ at_phase s i (waiting timed)
        → Step s t
    -- A `popWait` past its deadline finds an element after all.
    takes_late :
        (i : ℕ) (x : A) (q : Queue A)
        → get_elem? s.threads i ≡ some expired
        → pop_front s.queue ≡ some (x, q)
        → t ≡ took s i x q
        → Step s t
    -- A `popWait` past its deadline returns false.
    gives_up :
        (i : ℕ)
        → get_elem? s.threads i ≡ some expired
        → pop_front s.queue ≡ none
        → t ≡ at_phase s i running
        → Step s t

  pub data Reach (s : System A) : System A → Type ℓ where
    here : Reach s s
    next : {t u : System A} → Reach s t → Step t u → Reach s u
