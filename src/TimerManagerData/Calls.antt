-- ===== src/TimerManagerData/Calls.antt =====
-- TimerManagerData.h: what `startTimer` and `cancelTimer` do.
use msglib_cpp.Common.{
  ℕ, ◌≡◌, ◌≢◌, ◌⊎◌, ◌+◌, ◌<◌, refl, ap, subst, true, false, none, some, arith, ◌==◌, if◌then◌else◌,
  Option-cases, inl, inr,
}
use msglib_cpp.Common.State.{done}
use msglib_cpp.TimeConv.{Timespec}
use msglib_cpp.TimerManagerData.{
  Timer, TimerType, spec_of, Result, returned, threw, bad_alloc, no_timer, not_started,
  TimerResources, TimerManagerData, start_timer, cancel, cancel_timer, construct,
}
use msglib_cpp.TimerManagerData.Api.{
  TimerApi, TimerMemory, Itimerspec, disarmed, is_time, max_timers,
}
use msglib_cpp.TimerManagerData.Consistent.{
  IsConsistent, begun, begun-IsConsistent, ended, ended-IsConsistent, spec-is_time,
}

module _ {Kernel : Type 0} ⦃k : TimerApi Kernel⦄ where
  -- The timers of the process after one was created and set.
  pub set-timer :
      (k₀ : Kernel) (p id : ℕ) (spec : Itimerspec) {k₁ k₂ : Kernel}
      → k.create k₀ p ≡ some (id, k₁)
      → k.settime k₁ id spec ≡ some k₂
      → (j : ℕ) → k.timer k₂ j ≡ (if id == j then some (p, spec) else k.timer k₀ j)
  set-timer k₀ p id spec {k₁} {k₂} c s j =
      let (none_yet, created) = k.create-timer k₀ p c in
      let made : k.timer k₁ id ≡ some (p, disarmed) = ground (arith, created id) in
      ground (arith, created j, k.settime-timer k₁ id spec made s j)

  cancel-timer :
      (t : Timer) (kernel : Kernel) {p : ℕ} {s : Itimerspec}
      → k.timer kernel t.id ≡ some (p, s)
      → (j : ℕ)
      → k.timer (k.delete (cancel t kernel) t.id) j ≡ (if t.id == j then none else k.timer kernel j)
  unfolding cancel
  cancel-timer t kernel e j = elim (Option-cases (k.settime kernel t.id disarmed)) [
    | inl fails ↦ rw (cancel, fails) (k.delete-timer kernel t.id j)
    | inr (kernel', works) ↦
        rw (cancel, works)
          (ground
            (arith, k.delete-timer kernel' t.id j, k.settime-timer kernel t.id disarmed e works j))
  ]

module _ {Kernel Heap : Type 0} ⦃k : TimerApi Kernel⦄ ⦃m : TimerMemory Heap⦄
    (d : TimerManagerData Kernel Heap) (x : TimerResources Heap) where
  -- The state after a `startTimer` that returned true.
  abbrev pub Begun :
      ℕ → Timespec → TimerType → ℕ → ℕ → TimerManagerData Kernel Heap → TimerResources Heap → Type 0
  Begun label time type p id d' x' =
      (start_timer label time type d ≡ done (returned true, d'))
      × IsConsistent d' x'
      × ((l : ℕ) → x'.slots l ≡ (if label == l then some p else x.slots l))
      × ((j : ℕ)
          → k.timer d'.kernel j
            ≡ (if id == j then some (p, spec_of time type) else k.timer d.kernel j))
      × (m.used x'.heap ≡ m.used x.heap + 1)

  pub start_timer-Begun :
      (label : ℕ) (time : Timespec) (type : TimerType)
      → IsConsistent d x
      → x.slots label ≡ none
      → (p id : ℕ) (a : Heap) (kernel kernel' : Kernel) → m.allocate x.heap ≡ some (p, a)
      → k.create d.kernel p ≡ some (id, kernel)
      → k.settime kernel id (spec_of time type) ≡ some kernel'
      → (d' : TimerManagerData Kernel Heap) × (x' : TimerResources Heap) × Begun label time type p
          id d' x'
  unfolding start_timer construct
  start_timer-Begun label time type v free p id a kernel kernel' al cr st =
      let t : Timer = record { label = label; id = id; type = type; spec = spec_of time type } in
      let timer = set-timer d.kernel p id (spec_of time type) cr st in
      let (lt, used, new, handed) = m.allocate-some x.heap al in
      let (none_yet, created) = k.create-timer d.kernel p cr in
      (
        record d { kernel = kernel'; resources = some (begun v a p t) },
        begun v a p t,
        (
          ground (arith, v.resources, free, al, cr, st),
          begun-IsConsistent v kernel' a p t free new handed none_yet timer,
          λ l. refl,
          timer,
          used,
        ),
      )

  pub start_timer-free :
      (label : ℕ) (time : Timespec) (type : TimerType)
      → IsConsistent d x
      → x.slots label ≡ none
      → is_time time ≡ true
      → (p id : ℕ) (a : Heap) (kernel : Kernel) → m.allocate x.heap ≡ some (p, a)
      → k.create d.kernel p ≡ some (id, kernel)
      → (d' : TimerManagerData Kernel Heap) × (x' : TimerResources Heap) × Begun label time type p
          id d' x'
  start_timer-free label time type v free ok p id a kernel al cr =
      let (none_yet, created) = k.create-timer d.kernel p cr in
      let made : k.timer kernel id ≡ some (p, disarmed) = ground (arith, created id) in
      let (okv, oki) = spec-is_time time type ok in
      let (kernel', st) = k.settime-valid kernel id (spec_of time type) made okv oki in
      start_timer-Begun label time type v free p id a kernel kernel' al cr st

  pub start_timer-taken :
      (label : ℕ) (time : Timespec) (type : TimerType)
      → IsConsistent d x
      → (p : ℕ) → x.slots label ≡ some p
      → start_timer label time type d ≡ done (returned false, d)
  unfolding start_timer
  start_timer-taken label time type v p e = ground (arith, v.resources)

  -- Where the timers are consistent and memory and a timer of the process can be had, `startTimer`
  -- with a valid time does one of two things. If the label has a timer, it returns false and changes
  -- nothing. If it has none, it returns true: the label's slot has the timer, the process has one
  -- timer more, set to the time and repeated if it is periodic, memory for one timer more is used,
  -- nothing else has changed, and all is consistent.
  pub start_timer_lem :
      (label : ℕ) (time : Timespec) (type : TimerType) (p id : ℕ) (a : Heap) (kernel : Kernel)
      → IsConsistent d x
      → is_time time ≡ true
      → m.allocate x.heap ≡ some (p, a)
      → k.create d.kernel p ≡ some (id, kernel)
      → ((q : ℕ) × (x.slots label ≡ some q)
          × (start_timer label time type d ≡ done (returned false, d)))
        ⊎ ((x.slots label ≡ none)
            × ((d' : TimerManagerData Kernel Heap) × (x' : TimerResources Heap) × Begun label time
                  type p id d' x'))
  start_timer_lem label time type p id a kernel v ok al cr = elim (Option-cases (x.slots label)) [
    | inl free ↦ inr (free, start_timer-free label time type v free ok p id a kernel al cr)
    | inr (q, e) ↦ inl (q, e, start_timer-taken label time type v q e)
  ]

  -- What a `startTimer` that has returned or thrown can have done.
  pub start_timer-cases :
      (label : ℕ) (time : Timespec) (type : TimerType) {res : Result}
      {d' : TimerManagerData Kernel Heap}
      → IsConsistent d x
      → start_timer label time type d ≡ done (res, d')
      → ((res ≡ returned true)
          × (x.slots label ≡ none)
          × (m.used x.heap < max_timers)
          × ((p id : ℕ) × (x' : TimerResources Heap) × Begun label time type p id d' x'))
        ⊎ (((d' ≡ d) × ((res ≡ threw bad_alloc) ⊎ (res ≡ returned false)))
            ⊎ ((res ≡ threw no_timer) ⊎ (res ≡ threw not_started)))
  unfolding start_timer construct
  start_timer-cases label time type {res} {d'} v e = elim (Option-cases (x.slots label)) [
    | inr (p, f) ↦ inr (inl (ground (arith, v.resources), inr (ground (arith, v.resources))))
    | inl f ↦ elim (Option-cases (m.allocate x.heap)) [
      | inl g ↦ inr (inl (ground (arith, v.resources), inl (ground (arith, v.resources))))
      | inr ((p, a), g) ↦ elim (Option-cases (k.create d.kernel p)) [
        | inl h ↦ inr (inr (inl (ground (arith, v.resources))))
        | inr ((id, kernel), h) ↦ elim (Option-cases (k.settime kernel id (spec_of time type))) [
          | inl i ↦ inr (inr (inr (ground (arith, v.resources))))
          | inr (kernel', i) ↦
              let (d₁, x₁, (run, v₁, slots, timer, used)) =
                start_timer-Begun label time type v f p id a kernel kernel' g h i in
              let same : d₁ ≡ d' = ground (arith, run) in
              inl (
                ground (arith, run),
                f,
                (m.allocate-some x.heap g).0,
                (
                  p,
                  id,
                  x₁,
                  subst (λ (z : TimerManagerData Kernel Heap). Begun label time type p id z x₁) same
                      (run, v₁, slots, timer, used),
                ),
              )
        ]
      ]
    ]
  ]

  -- The state after a `cancelTimer` that returned true.
  abbrev pub Ended : ℕ → ℕ → TimerManagerData Kernel Heap → TimerResources Heap → Type 0
  Ended label p d' x' =
      (cancel_timer label d ≡ done (true, d'))
      × IsConsistent d' x'
      × ((l : ℕ) → x'.slots l ≡ (if label == l then none else x.slots l))
      × ((id : ℕ) (s : Itimerspec) → k.timer d'.kernel id ≢ some (p, s))
      × (m.used x'.heap ≡ m.used x.heap)

  pub cancel_timer-taken :
      (label : ℕ)
      → IsConsistent d x
      → (p : ℕ) → x.slots label ≡ some p
      → (d' : TimerManagerData Kernel Heap) × (x' : TimerResources Heap) × Ended label p d' x'
  unfolding cancel_timer
  cancel_timer-taken label v p e =
      let (t, is, of) = v.slot label p e in
      let (at, set, handed) = v.object p t is in
      let kernel = k.delete (cancel t d.kernel) t.id in
      let v' = ended-IsConsistent v label p t e is of kernel (cancel-timer t d.kernel set) in
      (
        record d { kernel = kernel; resources = some (ended v label p) },
        ended v label p,
        (
          ground (arith, v.resources, e, is),
          v',
          λ l. refl,
          λ id s f. let (u, g, h) = v'.set_by_us id p s f in ground arith,
          ap m.used (m.deallocate-same x.heap p),
        ),
      )

  pub cancel_timer-none :
      (label : ℕ) → IsConsistent d x → x.slots label ≡ none → cancel_timer label d ≡ done (false, d)
  unfolding cancel_timer
  cancel_timer-none label v e = ground (arith, v.resources)

  -- Where the timers are consistent, `cancelTimer` does one of two things. If the label has no timer,
  -- it returns false and changes nothing. If it has one, it returns true: the slot is free, no other
  -- slot has changed, the process has no timer that would signal with its pointer, the memory of the
  -- timer stays used, and all is consistent.
  pub cancel_timer_lem :
      (label : ℕ)
      → IsConsistent d x
      → ((x.slots label ≡ none) × (cancel_timer label d ≡ done (false, d)))
        ⊎ ((p : ℕ) × (x.slots label ≡ some p)
            × ((d' : TimerManagerData Kernel Heap) × (x' : TimerResources Heap) × Ended label p d'
                  x'))
  cancel_timer_lem label v = elim (Option-cases (x.slots label)) [
    | inl e ↦ inl (e, cancel_timer-none label v e)
    | inr (p, e) ↦ inr (p, e, cancel_timer-taken label v p e)
  ]
