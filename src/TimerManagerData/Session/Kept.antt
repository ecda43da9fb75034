-- ===== src/TimerManagerData/Session/Kept.antt =====
-- TimerManagerData.h: what each call and each event keeps of the timers.
use msglib_cpp.Common.{
  ℕ, ◌+◌, ◌≤◌, ◌≡◌, subst, Bool, true, false, some, arith, Option-cases, inl, inr, ◌⊎◌,
}
use msglib_cpp.Common.State.{done, Outcome-cases}
use msglib_cpp.TimeConv.{Timespec}
use msglib_cpp.Mailbox.{send_signal}
use msglib_cpp.TimerManagerData.{
  Timer, TimerType, Result, returned, threw, bad_alloc, TimerResources, TimerManagerData, Program,
  start_timer, cancel_timer, handle_signal, timer_event,
}
use msglib_cpp.TimerManagerData.Api.{TimerApi, TimerMemory, Itimerspec, max_timers}
use msglib_cpp.TimerManagerData.Consistent.{IsConsistent}
use msglib_cpp.TimerManagerData.Calls.{start_timer-cases, cancel_timer-taken, cancel_timer-none}
use msglib_cpp.TimerManagerData.Events.{TimerType-cases}

module _ {Kernel Heap : Type 0} ⦃k : TimerApi Kernel⦄ ⦃m : TimerMemory Heap⦄ where
  -- The timers are consistent, memory for `n` of them is used, and that is within its bound.
  unfoldable pub Inv : TimerManagerData Kernel Heap → ℕ → Type 0
  Inv d n = (x : TimerResources Heap) × IsConsistent d x × (m.used x.heap ≡ n) × (n ≤ max_timers)

  pub start-Inv :
      (d : TimerManagerData Kernel Heap) (n label : ℕ) (time : Timespec) (type : TimerType)
      (d' : TimerManagerData Kernel Heap)
      → Inv d n
      → start_timer label time type d ≡ done (returned true, d')
      → Inv d' (n + 1)
  unfolding Inv
  start-Inv d n label time type d' (x, v, u, le) e =
      elim (start_timer-cases d x label time type v e) [
        | inl (right, free, room, (p, id, x', (run, v', slots, timer, used))) ↦
            (x', v', ground (arith, used), omega (arith, room))
        | inr (inl (same, inl f)) ↦ absurd (ground arith)
        | inr (inl (same, inr f)) ↦ absurd (ground arith)
        | inr (inr (inl f)) ↦ absurd (ground arith)
        | inr (inr (inr f)) ↦ absurd (ground arith)
      ]

  pub same-Inv :
      (d : TimerManagerData Kernel Heap) (n label : ℕ) (time : Timespec) (type : TimerType)
      (d' : TimerManagerData Kernel Heap) (res : Result)
      → Inv d n
      → start_timer label time type d ≡ done (res, d')
      → (res ≡ returned false) ⊎ (res ≡ threw bad_alloc)
      → Inv d' n
  unfolding Inv
  same-Inv d n label time type d' res (x, c, u, le) e same =
      elim (start_timer-cases d x label time type c e) [
        | inl (right, free, room, begun) ↦ absurd (ground arith)
        | inr (inl (d_same, f)) ↦
            subst (λ (z : TimerManagerData Kernel Heap). Inv z n) (ground (arith, d_same))
              (x, c, u, le)
        | inr (inr (inl f)) ↦ absurd (ground arith)
        | inr (inr (inr f)) ↦ absurd (ground arith)
      ]

  pub cancel-Inv :
      (d : TimerManagerData Kernel Heap) (n label : ℕ) (ok : Bool)
      (d' : TimerManagerData Kernel Heap)
      → Inv d n
      → cancel_timer label d ≡ done (ok, d')
      → Inv d' n
  unfolding Inv
  cancel-Inv d n label ok d' (x, v, u, le) e = elim (Option-cases (x.slots label)) [
    | inl f ↦ (
      x,
      subst (λ (z : TimerManagerData Kernel Heap). IsConsistent z x)
          (ground (arith, cancel_timer-none d x label v f)) v,
      u,
      le,
    )
    | inr (p, f) ↦
        let (d₁, x₁, (run, v₁, slots, gone, used)) = cancel_timer-taken d x label v p f in
        (
          x₁,
          subst (λ (z : TimerManagerData Kernel Heap). IsConsistent z x₁) (ground (arith, run)) v₁,
          ground (arith, used),
          le,
        )
  ]

module _ {Arena Kernel Heap : Type 0} ⦃k : TimerApi Kernel⦄ ⦃m : TimerMemory Heap⦄ where
  event-Inv :
      (u : Timer) (n : ℕ) (s : Program Arena Kernel Heap) {ok : Bool}
      {t : Program Arena Kernel Heap}
      → Inv s.timers n
      → timer_event u s ≡ done (ok, t)
      → Inv t.timers n
  unfolding timer_event
  event-Inv u n s {ok} {t} v e = elim (Outcome-cases (send_signal u.label s.world)) [
    | inr (f, g) ↦ absurd (ground arith)
    | inl ((b, w), g) ↦ elim (TimerType-cases u.type) [
      | inl y ↦
          let same : s.timers ≡ t.timers = ground arith in
          subst (λ (z : TimerManagerData Kernel Heap). Inv z n) same v
      | inr y ↦ elim (Outcome-cases (cancel_timer u.label s.timers)) [
        | inr (f, h) ↦ absurd (ground arith)
        | inl ((c, d), h) ↦
            let same : d ≡ t.timers = ground arith in
            subst (λ (z : TimerManagerData Kernel Heap). Inv z n) same
              (cancel-Inv s.timers n u.label c d v h)
      ]
    ]
  ]

  pub fire-Inv :
      (n id p : ℕ) (spec : Itimerspec) (s : Program Arena Kernel Heap) {ok : Bool}
      {t' : Program Arena Kernel Heap}
      → Inv s.timers n
      → k.timer s.timers.kernel id ≡ some (p, spec)
      → handle_signal (some p) s ≡ done (ok, t')
      → Inv t'.timers n
  unfolding handle_signal Inv
  fire-Inv n id p spec s {ok} {t'} (x, v, u, le) f e =
      let (t, is, same) = v.set_by_us id p spec f in
      let run : timer_event t s ≡ done (ok, t') = ground (arith, v.resources) in
      event-Inv t n s (x, v, u, le) run
