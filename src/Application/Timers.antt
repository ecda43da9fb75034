-- ===== src/Application/Timers.antt =====
-- A program as a whole: what its steps do to the timers, and to the pointers in pending signals.
use msglib_cpp.Common.{
  ℕ, ◌≡◌, ◌⊎◌, refl, subst, Bool, true, false, some, List, [], ◌∷◌, ◌++◌, arith, inl, inr,
}
use msglib_cpp.Common.State.{done, Outcome-cases}
use msglib_cpp.TimerManagerData.{construct}
use msglib_cpp.TimerManagerData
use msglib_cpp.TimeConv.{Timespec}
use msglib_cpp.Pool.Resource.{MemoryResource}
use msglib_cpp.Mailbox.{World, send_signal}
use msglib_cpp.TimerManagerData.{
  Timer, TimerType, Result, returned, threw, bad_alloc, TimerResources, TimerManagerData,
  handle_signal,
}
use msglib_cpp.TimerManagerData.Api.{TimerApi, TimerMemory}
use msglib_cpp.TimerManagerData.Consistent.{IsConsistent}
use msglib_cpp.TimerManagerData.Calls.{start_timer-cases, cancel_timer_lem}
use msglib_cpp.TimerManagerData.Events.{timer_event-Handled}
use msglib_cpp.TimerManager.{start_timer, cancel_timer}
use msglib_cpp.Worker.Owing.{elem-append, elem}
use msglib_cpp.Application.{cancel_each}

-- Each pending signal is of a timer that stands in a slot.
abbrev pub AreDue : {Heap : Type 0} → List ℕ → TimerResources Heap → Type 0
AreDue pending x = (p : ℕ) → elem p pending ≡ true → (l : ℕ) × (x.slots l ≡ some p)

-- No timer has two signals pending.
abbrev pub AreDistinct : List ℕ → Type 0
AreDistinct [] = Unit {0}
AreDistinct (p ∷ ps) = (elem p ps ≡ false) × AreDistinct ps

pub AreDistinct-append :
    (p : ℕ) (ps : List ℕ) → elem p ps ≡ false → AreDistinct ps → AreDistinct (ps ++ p ∷ [])
AreDistinct-append p [] e h = (refl, tt)
AreDistinct-append p (q ∷ ps) e h =
    (ground (arith, elem-append q ps (p ∷ []), h.0), AreDistinct-append p ps (ground arith) h.1)

module _ {Kernel Heap : Type 0} ⦃k : TimerApi Kernel⦄ ⦃m : TimerMemory Heap⦄ where
  pub start-AreDue :
      (label : ℕ) (time : Timespec) (type : TimerType) (d d' : TimerManagerData Kernel Heap)
      (x : TimerResources Heap) {res : Result} (pending : List ℕ)
      → IsConsistent d x
      → start_timer label time type d ≡ done (res, d')
      → (res ≡ threw bad_alloc) ⊎ ((b : Bool) × (res ≡ returned b))
      → AreDue pending x
      → (x' : TimerResources Heap) × IsConsistent d' x' × AreDue pending x'
  unfolding start_timer
  start-AreDue label time type d d' x pending v e fine due =
      elim (start_timer-cases d x label time type v e) [
        | inl (right, free, room, (p, id, x', (run, v', slots, timer, used))) ↦
            (x', v', λ q h. let (l, f) = due q h in (l, ground (arith, slots l)))
        | inr (inl (same, f)) ↦ (x, rw same v, due)
        | inr (inr (inl f)) ↦ absurd (ground arith)
        | inr (inr (inr f)) ↦ absurd (ground arith)
      ]

  -- In an initialized program, `StartTimer` returns or throws.
  pub start_timer-returns :
      (label : ℕ) (time : Timespec) (type : TimerType) (d : TimerManagerData Kernel Heap)
      (x : TimerResources Heap)
      → d.resources ≡ some x
      → (res : Result) × (d' : TimerManagerData Kernel Heap) × (start_timer label time type d
          ≡ done (res, d'))
  unfolding start_timer TimerManagerData.start_timer construct
  start_timer-returns label time type d x e = elim (Outcome-cases (start_timer label time type d)) [
    | inl ((res, d'), f) ↦ (res, d', f)
    | inr (y, f) ↦ absurd (ground arith)
  ]

  pub cancel_timer-returns :
      (label : ℕ) (d : TimerManagerData Kernel Heap) (x : TimerResources Heap)
      → IsConsistent d x
      → (b : Bool) × (d' : TimerManagerData Kernel Heap) × (cancel_timer label d ≡ done (b, d'))
  unfolding cancel_timer
  cancel_timer-returns label d x v = elim (cancel_timer_lem d x label v) [
    | inl (free, run) ↦ (false, d, run)
    | inr (p, at, (d', x', (run, v', slots, gone, used))) ↦ (true, d', run)
  ]

  pub cancel_each-AreDue :
      (ls : List ℕ) (d : TimerManagerData Kernel Heap) (x : TimerResources Heap) (pending : List ℕ)
      → IsConsistent d x
      → ((l p : ℕ) → elem l ls ≡ true → x.slots l ≡ some p → elem p pending ≡ false)
      → AreDue pending x
      → (d' : TimerManagerData Kernel Heap) × (x' : TimerResources Heap) × (cancel_each ls d
          ≡ done (tt, d'))
        × IsConsistent d' x'
        × AreDue pending x'
  unfolding cancel_each cancel_timer
  cancel_each-AreDue [] d x pending v quiet due = (d, x, refl, v, due)
  cancel_each-AreDue (l ∷ ls) d x pending v quiet due = elim (cancel_timer_lem d x l v) [
    | inl (free, run) ↦
        let (d', x', runs, v', due') =
          cancel_each-AreDue ls d x pending v (λ k p e. quiet k p (ground arith)) due in
        (d', x', ground (arith, run, runs), v', due')
    | inr (p, at, (d1, x1, (run, v1, slots, gone, used))) ↦
        let (d', x', runs, v', due') =
          cancel_each-AreDue ls d1 x1 pending v1
            (λ j q e f. quiet j q (ground arith) (ground (arith, slots j)))
            (λ q e. let (j, f) = due q e in (j, ground (arith, slots j, quiet l p, at))) in
        (d', x', ground (arith, run, runs), v', due')
  ]

module _ {Arena Kernel Heap : Type 0} ⦃r : MemoryResource Arena⦄ ⦃k : TimerApi Kernel⦄
    ⦃m : TimerMemory Heap⦄ where
  pub handle-AreDue :
      (w w' : World Arena) (d : TimerManagerData Kernel Heap) (x : TimerResources Heap) (p : ℕ)
      (ps : List ℕ) (t : Timer)
      → IsConsistent d x
      → AreDue ps x
      → elem p ps ≡ false
      → x.objects p ≡ some t
      → send_signal t.label w ≡ done (true, w')
      → (d' : TimerManagerData Kernel Heap) × (x' : TimerResources Heap) × (handle_signal
            (some p)
            (record { world = w; timers = d })
          ≡ done (true, record { world = w'; timers = d' }))
        × IsConsistent d' x'
        × AreDue ps x'
  unfolding handle_signal
  handle-AreDue w w' d x p ps t v due apart is sent =
      let at = (v.object p t is).0 in
      let (d', x', event, (v', what)) = timer_event-Handled t p w w' d x v at sent in
      (
        d',
        x',
        ground (arith, v.resources, is, event),
        v',
        elim what [
          | inl (y, same) ↦
              let still : x ≡ x' = ground (arith, v.resources, v'.resources, same) in
              subst (λ (z : TimerResources Heap). AreDue ps z) still due
          | inr (y, slots) ↦ λ q e. let (j, f) = due q e in (j, ground (arith, slots j, at))
        ],
      )
