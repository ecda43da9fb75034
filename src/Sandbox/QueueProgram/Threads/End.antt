-- ===== src/Sandbox/QueueProgram/Threads/End.antt =====
-- sandbox/queue.cpp: how the two threads come to an end.
use msglib_cpp.Common.{
  ℕ, zero, suc, ◌+◌, ◌-◌, ◌%◌, ◌<◌, ◌^◌, ◌≡◌, ◌⊎◌, refl, false, [], ◌∷◌, ◌++◌, arith, length,
  Option-cases, inl, inr,
}
use msglib_cpp.Queue.{emplace, pop_front}
use msglib_cpp.Sandbox.QueueProgram.{numbered}
use msglib_cpp.Sandbox.QueueProgram.Threads.{
  State, MainPhase, producing, joining, finished, ConsumerPhase, testing, popping, gone, begin,
  produced, produces, stops, joins, leaves, receives, times_out, Reach, here, next,
}
use msglib_cpp.Sandbox.QueueProgram.Threads.Order.{taken, Inv, begin-Inv, Reach-Inv}

Reach-trans : {count : ℕ} {s t u : State} → Reach count s t → Reach count t u → Reach count s u
Reach-trans r here = r
Reach-trans r (next q st) = next (Reach-trans r q) st

main-cases : (m : MainPhase) → (m ≡ producing) ⊎ ((m ≡ joining) ⊎ (m ≡ finished))
main-cases producing = inl refl
main-cases joining = inr (inl refl)
main-cases finished = inr (inr refl)

consumer-cases : (c : ConsumerPhase) → (c ≡ testing) ⊎ ((c ≡ popping) ⊎ (c ≡ gone))
consumer-cases testing = inl refl
consumer-cases popping = inr (inl refl)
consumer-cases gone = inr (inr refl)

module _ (count : ℕ) (small : count < 2 ^ 32) where
  -- The loop of `producer` ends, and main stops the consumer.
  stop :
      (left : ℕ) (s : State)
      → s.main ≡ producing
      → s.index + left ≡ count
      → (u : State) × Reach count s u × (u.main ≡ joining) × (u.running ≡ false)
  stop zero s at e = (
    record s { main = joining; running = false },
    next here (stops at (omega arith) refl),
    refl,
    refl,
  )
  stop (suc left) s at e =
      let (ok, q) = emplace s.queue (produced s.index) in
      let s1 : State = record s {
        queue = q;
        index = (s.index + 1) % 2 ^ 32;
        results = s.results ++ ok ∷ [];
      } in
      let (u, r, m, off) = stop left s1 at (omega arith) in
      (u, Reach-trans (next here (produces ok q at (omega arith) refl refl)) r, m, off)

  from_testing :
      (s : State)
      → s.main ≡ joining
      → s.running ≡ false
      → s.consumer ≡ testing
      → (u : State) × Reach count s u × (u.main ≡ finished)
  from_testing s m off c = (
    record s { consumer = gone; main = finished },
    next (next here (leaves c off refl)) (joins m refl refl),
    refl,
  )

  -- The consumer looks at the flag again after one more `popWait` at most.
  from_joining :
      (s : State)
      → s.main ≡ joining
      → s.running ≡ false
      → (u : State) × Reach count s u × (u.main ≡ finished)
  from_joining s m off = elim (consumer-cases s.consumer) [
    | inl c ↦ from_testing s m off c
    | inr (inr c) ↦ (record s { main = finished }, next here (joins m c refl), refl)
    | inr (inl c) ↦ elim (Option-cases (pop_front s.queue)) [
      | inl e ↦
          let (u, r, f) = from_testing (record s { consumer = testing }) m off refl in
          (u, Reach-trans (next here (times_out c e refl)) r, f)
      | inr ((msg, q), e) ↦
          let (u, r, f) =
            from_testing
              (record s { queue = q; consumer = testing; received = s.received ++ msg ∷ [] }) m off
              refl in
          (u, Reach-trans (next here (receives msg q c e refl)) r, f)
    ]
  ]

  ends : (n : ℕ) (s : State) → Inv n count s → (u : State) × Reach count s u × (u.main ≡ finished)
  ends n s v = elim (main-cases s.main) [
    | inr (inr f) ↦ (s, here, f)
    | inr (inl j) ↦ from_joining s j (v.stopped (λ x. absurd (ground arith))).1
    | inl p ↦
        let (s1, r1, m, off) = stop (count - s.index) s p (omega (arith, v.within)) in
        let (u, r, f) = from_joining s1 m off in (u, Reach-trans r1 r, f)
  ]

-- Let main fill a queue of fewer than 2^64 - 1 messages and `producer` be called with a count below
-- 2^32. From each state that the two threads can reach, the program can go on to its end, where main
-- has joined the consumer; there every message that was put in was either received or is left in the
-- queue, in order, and `emplace` was called `count` times.
pub Reach-ends :
    (n count : ℕ) {t : State}
    → n + 1 < 2 ^ 64
    → count < 2 ^ 32
    → Reach count (begin n) t
    → (u : State) × Reach count t u
      × (u.main ≡ finished)
      × (u.received ++ u.queue.items ≡ numbered n 0 ++ taken u.results 0)
      × (length u.results ≡ count)
Reach-ends n count h small r =
    let v = Reach-Inv n count small (begin-Inv n count h) r in
    let (u, onward, end) = ends count small n _ v in
    let w = Reach-Inv n count small v onward in
    (
      u,
      onward,
      end,
      w.conserved,
      omega (arith, w.counted, (w.stopped (λ x. absurd (ground arith))).0),
    )
