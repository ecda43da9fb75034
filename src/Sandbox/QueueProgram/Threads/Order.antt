-- ===== src/Sandbox/QueueProgram/Threads/Order.antt =====
-- sandbox/queue.cpp: what the consumer gets of what main and `producer` put in.
use msglib_cpp.Common.{
  ℕ, zero, suc, ◌≢◌, ◌+◌, ◌%◌, ◌≤◌, ◌<◌, ◌^◌, ◌≡◌, ◌∙◌, refl, ap, Bool, true, false, List, [], ◌∷◌,
  ◌++◌, arith, length, length-append,
}
use mathlib.Core.List.{append-nil, append_assoc}
use native.Mathlib.Decide.{dec_lt}
use msglib_cpp.Message.{Message}
use msglib_cpp.Queue.{Queue, emplace}
use msglib_cpp.Queue.Fifo.{pop_front-some}
use msglib_cpp.Sandbox.QueueProgram.{numbered, prefill_lem, emplace-free, emplace-full}
use msglib_cpp.Sandbox.QueueProgram.Threads.{
  State, producing, finished, ConsumerPhase, testing, popping, gone, begin, produced, Step,
  produces, stops, joins, enters, leaves, receives, times_out, Reach, here, next,
}

-- The messages of the indices from `i` on that `emplace` took.
abbrev pub taken : List Bool → ℕ → List Message
taken [] i = []
taken (true ∷ oks) i = produced i ∷ taken oks (i + 1)
taken (false ∷ oks) i = taken oks (i + 1)

taken-append :
    (oks : List Bool) (ok : Bool) (i : ℕ)
    → taken (oks ++ ok ∷ []) i ≡ taken oks i ++ taken (ok ∷ []) (i + length oks)
taken-append [] ok i = let e : i + 0 ≡ i = omega arith in rw e refl
taken-append (true ∷ oks) ok i =
    let e : i + 1 + length oks ≡ i + suc (length oks) = omega arith in
    ap (◌∷◌ (produced i))
      (taken-append oks ok (i + 1) ∙ ap (λ j. taken oks (i + 1) ++ taken (ok ∷ []) j) e)
taken-append (false ∷ oks) ok i =
    let e : i + 1 + length oks ≡ i + suc (length oks) = omega arith in
    taken-append oks ok (i + 1) ∙ ap (λ j. taken oks (i + 1) ++ taken (ok ∷ []) j) e

-- Between two steps.
pub record Inv (n count : ℕ) (s : State) : Type 0 where
  pub conserved : s.received ++ s.queue.items ≡ numbered n 0 ++ taken s.results 0
  pub capacity : s.queue.capacity ≡ n
  pub bounded : length s.queue.items ≤ n
  pub counted : length s.results ≡ s.index
  pub within : s.index ≤ count
  pub stopped : s.main ≢ producing → (s.index ≡ count) × (s.running ≡ false)
  pub runs : s.main ≡ producing → s.running ≡ true

length-numbered : (n i : ℕ) → length (numbered n i) ≡ n
length-numbered zero i = refl
length-numbered (suc n) i = ap suc (length-numbered n (i + 1))

pub begin-Inv : (n count : ℕ) → n + 1 < 2 ^ 64 → Inv n count (begin n)
unfolding begin
begin-Inv n count h =
    let filled = prefill_lem n h in
    rw filled (record {
      conserved = rw append-nil refl;
      capacity = refl;
      bounded = omega (arith, length-numbered n 0);
      counted = refl;
      within = omega arith;
      stopped = λ m. absurd (m refl);
      runs = λ m. refl;
    })

module _ (n count : ℕ) (small : count < 2 ^ 32) where
  produce-Inv :
      (s : State) (ok : Bool) (q : Queue Message)
      → Inv n count s
      → s.main ≡ producing
      → s.index < count
      → emplace s.queue (produced s.index) ≡ (ok, q)
      → Inv n count
          (record s { queue = q; index = (s.index + 1) % 2 ^ 32; results = s.results ++ ok ∷ [] })
  produce-Inv s ok q v at lt e =
      let wraps_not : (s.index + 1) % 2 ^ 32 ≡ s.index + 1 = omega arith in
      let m = produced s.index in
      let here_it_stands : 0 + length s.results ≡ s.index = omega (arith, v.counted) in
      elim (dec_lt (length s.queue.items) s.queue.capacity) [
        | yes room ↦
            let run = emplace-free s.queue m room in
            let right : true ≡ ok = ground (arith, run, e) in
            let after : record s.queue { items = s.queue.items ++ m ∷ [] } ≡ q =
              ground (arith, run, e) in
            rw (wraps_not, ← right, ← after)
              (record {
                conserved =
                    (rw (← append_assoc, v.conserved, taken-append, here_it_stands, append_assoc)
                      refl);
                capacity = v.capacity;
                bounded = omega (arith, length-append s.queue.items (m ∷ []), v.capacity);
                counted = omega (arith, length-append s.results (true ∷ []), v.counted);
                within = omega arith;
                stopped = λ not_there. absurd (not_there at);
                runs = v.runs;
              })
        | no full ↦
            let run = emplace-full s.queue m (omega arith) in
            let wrong : false ≡ ok = ground (arith, run, e) in
            let after : s.queue ≡ q = ground (arith, run, e) in
            rw (wraps_not, ← wrong, ← after)
              (record {
                conserved = (rw (taken-append, append-nil) v.conserved);
                capacity = v.capacity;
                bounded = v.bounded;
                counted = omega (arith, length-append s.results (false ∷ []), v.counted);
                within = omega arith;
                stopped = λ not_there. absurd (not_there at);
                runs = v.runs;
              })
      ]

  -- A move of the consumer that takes no message.
  moved :
      (s : State) → Inv n count s → (c : ConsumerPhase) → Inv n count (record s { consumer = c })
  moved s v c = record {
    conserved = v.conserved;
    capacity = v.capacity;
    bounded = v.bounded;
    counted = v.counted;
    within = v.within;
    stopped = v.stopped;
    runs = v.runs;
  }

  Step-Inv : {s t : State} → Inv n count s → Step count s t → Inv n count t
  Step-Inv {s} v (produces ok q at lt e g) = rw g (produce-Inv s ok q v at lt e)
  Step-Inv {s} v (stops at le g) = rw g (record {
    conserved = v.conserved;
    capacity = v.capacity;
    bounded = v.bounded;
    counted = v.counted;
    within = v.within;
    stopped = λ m. (omega (arith, v.within), refl);
    runs = λ m. absurd (ground arith);
  })
  Step-Inv {s} v (joins at behind g) = rw g (record {
    conserved = v.conserved;
    capacity = v.capacity;
    bounded = v.bounded;
    counted = v.counted;
    within = v.within;
    stopped = λ m. v.stopped (λ x. absurd (ground arith));
    runs = λ m. absurd (ground arith);
  })
  Step-Inv {s} v (enters at on g) = rw g (moved s v popping)
  Step-Inv {s} v (leaves at off g) = rw g (moved s v gone)
  Step-Inv {s} v (times_out at empty g) = rw g (moved s v testing)
  Step-Inv {s} v (receives m q at e g) =
      let (all, same) = pop_front-some s.queue e in
      rw g (record {
        conserved = rw (append_assoc, ← all) v.conserved;
        capacity = ground (arith, v.capacity);
        bounded = ground (arith, v.bounded);
        counted = v.counted;
        within = v.within;
        stopped = v.stopped;
        runs = v.runs;
      })

  pub Reach-Inv : {s t : State} → Inv n count s → Reach count s t → Inv n count t
  Reach-Inv v here = v
  Reach-Inv v (next r st) = Step-Inv (Reach-Inv v r) st

-- Let main fill a queue of fewer than 2^64 - 1 messages and `producer` be called with a count below
-- 2^32. In each state that the two threads can reach, in any order of their steps: what the consumer
-- got, and behind it what is in the queue, are the messages that main put in and behind them those
-- that `emplace` took from `producer`, in the order of their indices; the queue has no more messages
-- than it has room for; and when main has joined the consumer, `producer` has tried all its messages.
pub Reach-in_order :
    (n count : ℕ) {t : State}
    → n + 1 < 2 ^ 64
    → count < 2 ^ 32
    → Reach count (begin n) t
    → (t.received ++ t.queue.items ≡ numbered n 0 ++ taken t.results 0)
      × (length t.queue.items ≤ n)
      × (length t.results ≡ t.index)
      × (t.index ≤ count)
      × (t.main ≡ finished → length t.results ≡ count)
Reach-in_order n count h small r =
    let v = Reach-Inv n count small (begin-Inv n count h) r in
    (
      v.conserved,
      v.bounded,
      v.counted,
      v.within,
      λ e. omega (arith, v.counted, (v.stopped (λ x. absurd (ground arith))).0),
    )
