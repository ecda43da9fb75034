-- ===== src/Example/Started.antt =====
-- example/timer.cpp: the timers that main starts.
use msglib_cpp.Common.{
  ℕ, zero, suc, ◌+◌, ◌<◌, ◌≤◌, ◌≡◌, refl, subst, ◌∙◌, Bool, true, false, ◌||◌, ◌&&◌, none, some,
  arith, ◌==◌, leb, ltb, Bool-cases, Option-cases, inl, inr,
}
use msglib_cpp.Mailbox.Signals.{replicate}
use msglib_cpp.Common.Int.{pos}
use msglib_cpp.Common.State.{done}
use msglib_cpp.TimeConv.{Timespec, chrono2timespec}
use msglib_cpp.TimerManagerData.{
  TimerType, one_shot, periodic, Result, returned, TimerResources, TimerManagerData, spec_of,
}
use msglib_cpp.TimerManagerData
use msglib_cpp.TimerManagerData.Api.{TimerApi, TimerMemory, is_time, max_timers}
use msglib_cpp.TimerManagerData.Consistent.{IsConsistent}
use msglib_cpp.TimerManagerData.Calls.{start_timer-free}
use msglib_cpp.TimerManager.{start_timer, start_timer_duration}
use msglib_cpp.Worker.Owing.{elem}
use msglib_cpp.Example.Timer.{labels, start_one_shots, start_timers}
use msglib_cpp.Example.Registered.{elem-labels}

-- The labels that main starts timers for, with `n` one-shot timers of 100ms.
abbrev pub wanted : ℕ → ℕ → Bool
wanted n l = (l == 1) || ((l == 2) || (leb 5 l && ltb l (5 + n)))

wanted-elem : (n l : ℕ) → ((1 == l) || (elem l (labels n 5) || (2 == l))) ≡ wanted n l
wanted-elem n l = ground (arith, elem-labels l n 5)

module _ {Kernel Heap : Type 0} ⦃k : TimerApi Kernel⦄ ⦃m : TimerMemory Heap⦄ where
  -- The state after calls that started `n` timers, one for each label of `b`.
  record Grown (b : ℕ → Bool) (n : ℕ) (x : TimerResources Heap) (d' : TimerManagerData Kernel Heap)
      (x' : TimerResources Heap) : Type 0 where
    consistent : IsConsistent d' x'
    has : (l : ℕ) → b l ≡ true → (p : ℕ) × (x'.slots l ≡ some p)
    others : (l : ℕ) → b l ≡ false → x'.slots l ≡ x.slots l
    used : m.used x'.heap ≡ m.used x.heap + n

  Grown-trans :
      (b c : ℕ → Bool) (i j : ℕ) {n : ℕ} (x x1 x2 : TimerResources Heap)
      {d1 d2 : TimerManagerData Kernel Heap}
      → n ≡ i + j
      → Grown b i x d1 x1
      → Grown c j x1 d2 x2
      → Grown (λ l. b l || c l) n x d2 x2
  Grown-trans b c i j x x1 x2 eq g h = record {
    consistent = h.consistent;
    has = λ l e. elim (Bool-cases (c l)) [
      | inl later ↦ h.has l later
      | inr now ↦ let (p, f) = g.has l (ground arith) in (p, h.others l now ∙ f)
    ];
    others = λ l e. h.others l (ground arith) ∙ g.others l (ground arith);
    used = omega (arith, g.used, h.used, eq);
  }

  start_timers-runs :
      (d d1 d2 d3 : TimerManagerData Kernel Heap)
      → TimerManagerData.start_timer 1 (record { sec = pos 0; nsec = pos 750000000 }) periodic d
        ≡ done (returned true, d1)
      → start_one_shots (labels 41 5) d1 ≡ done (replicate 41 (returned true), d2)
      → TimerManagerData.start_timer 2 (record { sec = pos 0; nsec = pos 900000000 }) one_shot d2
        ≡ done (returned true, d3)
      → start_timers d ≡ done (replicate 43 (returned true), d3)
  unfolding start_timers start_timer start_timer_duration chrono2timespec
  start_timers-runs d d1 d2 d3 run1 run2 run3 = ground (arith, run1, run2, run3)

module _ {Kernel Heap : Type 0} ⦃k : TimerApi Kernel⦄ ⦃m : TimerMemory Heap⦄
    (creates : (kernel : Kernel) (p : ℕ)
      → (id : ℕ) × (kernel' : Kernel) × (k.create kernel p ≡ some (id, kernel'))) where
  start_one :
      (label : ℕ) (time : Timespec) (type : TimerType) (d : TimerManagerData Kernel Heap)
      (x : TimerResources Heap)
      → IsConsistent d x
      → x.slots label ≡ none
      → is_time time ≡ true
      → m.used x.heap < max_timers
      → (d' : TimerManagerData Kernel Heap) × (x' : TimerResources Heap)
        × (TimerManagerData.start_timer label time type d ≡ done (returned true, d'))
        × Grown (λ l. label == l) 1 x d' x'
  start_one label time type d x v free ok room = elim (Option-cases (m.allocate x.heap)) [
    | inl e ↦ absurd (omega (arith, m.allocate-none x.heap e))
    | inr ((p, a), e) ↦
        let (id, kernel, c) = creates d.kernel p in
        let (d', x', (run, v', slots, timer, used)) =
          start_timer-free d x label time type v free ok p id a kernel e c in
        (
          d',
          x',
          run,
          record {
            consistent = v';
            has = λ l h. (p, ground (arith, slots l));
            others = λ l h. ground (arith, slots l);
            used = used;
          },
        )
  ]

  start_many :
      (n from : ℕ) (d : TimerManagerData Kernel Heap) (x : TimerResources Heap)
      → IsConsistent d x
      → ((l : ℕ) → elem l (labels n from) ≡ true → x.slots l ≡ none)
      → m.used x.heap + n ≤ max_timers
      → (d' : TimerManagerData Kernel Heap) × (x' : TimerResources Heap) × (start_one_shots
            (labels n from)
            d
          ≡ done (replicate n (returned true), d'))
        × Grown (λ l. elem l (labels n from)) n x d' x'
  unfolding start_one_shots start_timer_duration chrono2timespec
  start_many zero from d x v free room = (
    d,
    x,
    refl,
    record {
      consistent = v;
      has = λ l h. absurd (ground arith);
      others = λ l h. refl;
      used = omega arith;
    },
  )
  start_many (suc n) from d x v free room =
      let time : Timespec = record { sec = pos 0; nsec = pos 100000000 } in
      let (d1, x1, run, g) =
        start_one from time one_shot d x v (free from (ground arith)) refl (omega arith) in
      let (d2, x2, runs, h) =
        start_many n (from + 1) d1 x1 g.consistent
          (λ l e. ground (arith, g.others l, free l, elem-labels l n (from + 1)))
          (omega (arith, g.used)) in
      (
        d2,
        x2,
        ground (arith, run, runs),
        Grown-trans (λ l. from == l) (λ l. elem l (labels n (from + 1))) 1 n x x1 x2 (omega arith) g
            h,
      )

  start_all :
      (n : ℕ) (d : TimerManagerData Kernel Heap) (x : TimerResources Heap)
      → IsConsistent d x
      → ((l : ℕ) → wanted n l ≡ true → x.slots l ≡ none)
      → m.used x.heap + n + 2 ≤ max_timers
      → (d1 d2 d3 : TimerManagerData Kernel Heap) × (x3 : TimerResources Heap)
        × (TimerManagerData.start_timer 1 (record { sec = pos 0; nsec = pos 750000000 }) periodic d
            ≡ done (returned true, d1))
        × (start_one_shots (labels n 5) d1 ≡ done (replicate n (returned true), d2))
        × (TimerManagerData.start_timer 2 (record { sec = pos 0; nsec = pos 900000000 }) one_shot d2
            ≡ done (returned true, d3))
        × Grown (wanted n) (1 + (n + 1)) x d3 x3
  start_all n d x v free room =
      let (d1, x1, run1, g1) =
        start_one 1 (record { sec = pos 0; nsec = pos 750000000 }) periodic d x v (free 1 refl) refl
          (omega arith) in
      let (d2, x2, run2, g2) =
        start_many n 5 d1 x1 g1.consistent
          (λ l e. ground (arith, g1.others l, free l, elem-labels l n 5))
          (omega (arith, g1.used)) in
      let (d3, x3, run3, g3) =
        start_one 2 (record { sec = pos 0; nsec = pos 900000000 }) one_shot d2 x2 g2.consistent
          (ground (arith, g2.others 2, g1.others 2, free 2, elem-labels 2 n 5)) refl
          (omega (arith, g1.used, g2.used)) in
      let all : Grown (λ l. (1 == l) || (elem l (labels n 5) || (2 == l))) (1 + (n + 1)) x d3 x3 =
        Grown-trans (λ l. 1 == l) (λ l. elem l (labels n 5) || (2 == l)) 1 (n + 1) x x1 x3 refl g1
          (Grown-trans (λ l. elem l (labels n 5)) (λ l. 2 == l) n 1 x1 x2 x3 refl g2 g3) in
      (
        d1,
        d2,
        d3,
        x3,
        run1,
        run2,
        run3,
        subst (λ (b : ℕ → Bool). Grown b (1 + (n + 1)) x d3 x3) (λ i l. wanted-elem n l i) all,
      )

  -- Let the timers be consistent, let no label that main uses have a timer, let there be memory for
  -- 43 more, and let timer_create succeed whenever it is called. Then all 43 calls return true, each
  -- of the labels 1, 2 and 5 to 45 has a timer afterwards, and the slots of other labels are as before.
  pub start_timers_lem :
      (d : TimerManagerData Kernel Heap) (x : TimerResources Heap)
      → IsConsistent d x
      → ((l : ℕ) → wanted 41 l ≡ true → x.slots l ≡ none)
      → m.used x.heap + 43 ≤ max_timers
      → (d' : TimerManagerData Kernel Heap) × (x' : TimerResources Heap) × (start_timers d
          ≡ done (replicate 43 (returned true), d'))
        × IsConsistent d' x'
        × ((l : ℕ) → wanted 41 l ≡ true → (p : ℕ) × (x'.slots l ≡ some p))
        × ((l : ℕ) → wanted 41 l ≡ false → x'.slots l ≡ x.slots l)
  start_timers_lem d x v free room =
      let (d1, d2, d3, x3, run1, run2, run3, g) = start_all 41 d x v free (omega arith) in
      (d3, x3, start_timers-runs d d1 d2 d3 run1 run2 run3, g.consistent, g.has, g.others)
