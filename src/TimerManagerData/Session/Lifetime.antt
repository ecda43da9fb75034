-- ===== src/TimerManagerData/Session/Lifetime.antt =====
-- TimerManagerData.h: the timers over the life of the program.
use msglib_cpp.Common.{
  ℕ, zero, suc, ◌+◌, ◌≤◌, ◌&&◌, ◌≡◌, refl, subst, Bool, true, false, none, some, arith,
  Option-cases, Bool-cases, inl, inr,
}
use native.Mathlib.Nat.{add-zero}
use msglib_cpp.Common.State.{done, Action, ◌>>=◌, pure}
use msglib_cpp.TimeConv.{Timespec}
use msglib_cpp.TimerManagerData.{
  TimerType, Result, returned, threw, bad_alloc, TimerResources, TimerManagerData, Program,
  start_timer, cancel_timer, initialize, new_resources,
}
use msglib_cpp.TimerManagerData.Api.{TimerApi, TimerMemory, max_timers, is_time}
use msglib_cpp.TimerManagerData.Consistent.{IsConsistent}
use msglib_cpp.TimerManagerData.Calls.{start_timer-free, cancel_timer-taken}
use msglib_cpp.TimerManagerData.Session.{
  Step, starts, refuses, runs_out, cancels, fires, elsewhere, Reach, here, next,
}
use msglib_cpp.TimerManagerData.Session.Kept.{Inv, start-Inv, same-Inv, cancel-Inv, fire-Inv}

-- `TimerResources` with no timers.
abbrev pub no_timers_on : {Heap : Type 0} → Heap → TimerResources Heap
no_timers_on a = record { heap = a; slots = λ l. none; objects = λ p. none }

module _ {Kernel Heap : Type 0} ⦃k : TimerApi Kernel⦄ ⦃m : TimerMemory Heap⦄ where
  pub no_timers-IsConsistent :
      (kernel : Kernel) (a : Heap)
      → ((id : ℕ) → k.timer kernel id ≡ none)
      → IsConsistent
          (record { kernel = kernel; initialized = true; resources = some (no_timers_on a) })
          (no_timers_on a)
  no_timers-IsConsistent kernel a h = record {
    resources = refl;
    slot = λ l p g. absurd (ground arith);
    object = λ p t g. absurd (ground arith);
    set_by_us = λ id p s g. absurd (ground (arith, h id));
  }

  -- What `Initialize` leaves when it returns true.
  initialize-true :
      (kernel : Kernel) (thread : Bool) {d : TimerManagerData Kernel Heap}
      → initialize
          (new_resources (λ l. none) thread)
          (record { kernel = kernel; initialized = false; resources = none })
        ≡ done (true, d)
      → (a : Heap) × (m.make ≡ some a)
        × (record { kernel = kernel; initialized = true; resources = some (no_timers_on a) } ≡ d)
  unfolding initialize new_resources
  initialize-true kernel thread e = elim (Option-cases m.make) [
    | inl f ↦ absurd (ground arith)
    | inr (a, f) ↦ elim (Bool-cases thread) [
      | inl y ↦ (a, f, ground arith)
      | inr n ↦ absurd (ground arith)
    ]
  ]

  pub fresh-Inv :
      (kernel : Kernel) (thread : Bool) {d : TimerManagerData Kernel Heap}
      → ((id : ℕ) → k.timer kernel id ≡ none)
      → initialize
          (new_resources (λ l. none) thread)
          (record { kernel = kernel; initialized = false; resources = none })
        ≡ done (true, d)
      → Inv d 0
  unfolding Inv
  fresh-Inv kernel thread h e =
      let (a, made, same) = initialize-true kernel thread e in
      let x = no_timers_on a in
      (
        x,
        subst (λ (z : TimerManagerData Kernel Heap). IsConsistent z x) same
            (no_timers-IsConsistent kernel a h),
        m.make-used made,
        omega arith,
      )

module _ {Arena Kernel Heap : Type 0} ⦃k : TimerApi Kernel⦄ ⦃m : TimerMemory Heap⦄ where
  Step-Inv :
      (s t : Program Arena Kernel Heap) (n i : ℕ)
      → Inv s.timers n
      → Step s t i
      → Inv t.timers (n + i)
  Step-Inv s t n i v (starts label time type d e f) =
      rw f (start-Inv s.timers n label time type d v e)
  Step-Inv s t n i v (refuses label time type d e f) =
      rw (f, add-zero) (same-Inv s.timers n label time type d _ v e (inl refl))
  Step-Inv s t n i v (runs_out label time type d e f) =
      rw (f, add-zero) (same-Inv s.timers n label time type d _ v e (inr refl))
  Step-Inv s t n i v (cancels label ok d e f) =
      rw (f, add-zero) (cancel-Inv s.timers n label ok d v e)
  Step-Inv s t n i v (fires id p spec ok e f) = rw add-zero (fire-Inv n id p spec s v e f)
  Step-Inv s t n i v (elsewhere w f) = rw (f, add-zero) v

  Reach-Inv :
      (s t : Program Arena Kernel Heap) (n : ℕ) → Inv s.timers 0 → Reach s t n → Inv t.timers n
  Reach-Inv s t n v here = v
  Reach-Inv s u n v (next {t = t} n' i r st) = Step-Inv t u n' i (Reach-Inv s t n' v r) st

  -- After an `Initialize` that returned true, with m_timers null and no timer of the process, the
  -- timers stay consistent whatever is started, cancelled and fires, as long as every `startTimer`
  -- returns or throws std::bad_alloc; and at most 65536 timers are started, however many of them are
  -- cancelled or have fired.
  pub Reach-IsConsistent :
      (kernel : Kernel) (s t : Program Arena Kernel Heap) (n : ℕ)
      → ((id : ℕ) → k.timer kernel id ≡ none)
      → initialize
          (new_resources (λ l. none) true)
          (record { kernel = kernel; initialized = false; resources = none })
        ≡ done (true, s.timers)
      → Reach s t n
      → (x : TimerResources Heap) × IsConsistent t.timers x × (m.used x.heap ≡ n) × (n ≤ max_timers)
  unfolding Inv
  Reach-IsConsistent kernel s t n h e r = Reach-Inv s t n (fresh-Inv kernel true h e) r

abbrev pub is_started : Result → Bool
is_started (returned b) = b
is_started (threw e) = false

module _ {Kernel Heap : Type 0} ⦃k : TimerApi Kernel⦄ ⦃m : TimerMemory Heap⦄ (label : ℕ)
    (time : Timespec) (type : TimerType) where
  -- A timer is started and cancelled, `n` times. Did every call return true?
  unfoldable pub start_and_cancel : ℕ → Action (TimerManagerData Kernel Heap) Bool
  start_and_cancel zero = pure true
  start_and_cancel (suc n) = do
    started ← start_timer label time type
    cancelled ← cancel_timer label
    others ← start_and_cancel n
    pure (is_started started && (cancelled && others))

  start_and_cancel_lem :
      (n : ℕ) (d : TimerManagerData Kernel Heap) (x : TimerResources Heap)
      → ((kernel : Kernel) (p : ℕ)
          → (id : ℕ) × (kernel' : Kernel) × (k.create kernel p ≡ some (id, kernel')))
      → is_time time ≡ true
      → IsConsistent d x
      → x.slots label ≡ none
      → m.used x.heap + n ≤ max_timers
      → (d' : TimerManagerData Kernel Heap) × (x' : TimerResources Heap) × (start_and_cancel n d
          ≡ done (true, d'))
        × IsConsistent d' x'
        × ((l : ℕ) → x'.slots l ≡ x.slots l)
        × (m.used x'.heap ≡ m.used x.heap + n)
  unfolding start_and_cancel
  start_and_cancel_lem zero d x creates ok v free room = (d, x, refl, v, λ l. refl, omega arith)
  start_and_cancel_lem (suc n) d x creates ok v free room =
      elim (Option-cases (m.allocate x.heap)) [
        | inl out ↦ absurd (omega (arith, m.allocate-none x.heap out))
        | inr ((p, a), al) ↦
            let (id, kernel, cr) = creates d.kernel p in
            let (d1, x1, (run1, v1, slots1, set, used1)) =
              start_timer-free d x label time type v free ok p id a kernel al cr in
            let (d2, x2, (run2, v2, slots2, gone, used2)) =
              cancel_timer-taken d1 x1 label v1 p (ground (arith, slots1 label)) in
            let (d3, x3, run3, v3, slots3, used3) =
              start_and_cancel_lem n d2 x2 creates ok v2 (ground (arith, slots2 label))
                (omega arith) in
            (
              d3,
              x3,
              ground (arith, run1, run2, run3),
              v3,
              λ l. ground (arith, slots1 l, slots2 l, slots3 l),
              omega arith,
            )
      ]

  start_timer-full :
      (d : TimerManagerData Kernel Heap) (x : TimerResources Heap)
      → IsConsistent d x
      → max_timers ≤ m.used x.heap
      → x.slots label ≡ none
      → start_timer label time type d ≡ done (threw bad_alloc, d)
  unfolding start_timer
  start_timer-full d x v full free = elim (Option-cases (m.allocate x.heap)) [
    | inl none_left ↦ ground (arith, v.resources)
    | inr ((p, a), some_left) ↦ absurd (ground (arith, m.allocate-some x.heap some_left))
  ]

module _ {Kernel Heap : Type 0} ⦃k : TimerApi Kernel⦄ ⦃m : TimerMemory Heap⦄ where
  -- After an `Initialize` that returned true, with m_timers null and no timer of the process, start
  -- and cancel a timer 65536 times, with a valid time and where timer_create never fails: each of
  -- these calls returns true. No timer is left then, and yet from there on `startTimer` throws
  -- std::bad_alloc for every label, and changes nothing.
  pub start_timer-exhausted :
      (kernel : Kernel) (d : TimerManagerData Kernel Heap) (label : ℕ) (time : Timespec)
      (type : TimerType)
      → ((id : ℕ) → k.timer kernel id ≡ none)
      → ((kernel' : Kernel) (p : ℕ)
          → (id : ℕ) × (kernel'' : Kernel) × (k.create kernel' p ≡ some (id, kernel'')))
      → is_time time ≡ true
      → initialize
          (new_resources (λ l. none) true)
          (record { kernel = kernel; initialized = false; resources = none })
        ≡ done (true, d)
      → (d' : TimerManagerData Kernel Heap) × (x' : TimerResources Heap) × (start_and_cancel label
            time type max_timers d
          ≡ done (true, d'))
        × (d'.resources ≡ some x')
        × ((l : ℕ) → x'.slots l ≡ none)
        × ((l : ℕ) (time' : Timespec) (type' : TimerType)
            → start_timer l time' type' d' ≡ done (threw bad_alloc, d'))
  start_timer-exhausted kernel d label time type none_yet creates ok e =
      let (a, made, same) = initialize-true kernel true e in
      let v =
        subst (λ (z : TimerManagerData Kernel Heap). IsConsistent z (no_timers_on a)) same
          (no_timers-IsConsistent kernel a none_yet) in
      let (d', x', run, v', slots, used) =
        start_and_cancel_lem label time type max_timers d (no_timers_on a) creates ok v refl
          (omega (arith, m.make-used made)) in
      (
        d',
        x',
        run,
        v'.resources,
        slots,
        λ l time' type'.
            start_timer-full l time' type' d' x' v' (omega (arith, m.make-used made)) (slots l),
      )
