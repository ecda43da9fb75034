-- ===== src/TimerManagerData/Consistent.antt =====
-- TimerManagerData.h: m_timers, the Timer objects and the timers of the process stay in step.
use msglib_cpp.Common.{
  ℕ, ◌≡◌, refl, true, false, ◌||◌, none, some, arith, ◌==◌, if◌then◌else◌, Bool-cases, Option-cases,
  inl, inr,
}
use msglib_cpp.TimeConv.{Timespec}
use msglib_cpp.TimerManagerData.{
  Timer, TimerType, periodic, one_shot, spec_of, TimerResources, TimerManagerData, update,
}
use msglib_cpp.TimerManagerData.Api.{TimerApi, TimerMemory, Itimerspec, is_time}

-- Each slot has a timer of its label, each timer stands in the slot of its label and is set in the
-- process as it was asked for, and the process has no other timer.
pub record IsConsistent {Kernel Heap : Type 0} ⦃k : TimerApi Kernel⦄ ⦃m : TimerMemory Heap⦄
    (d : TimerManagerData Kernel Heap) (x : TimerResources Heap) : Type 0 where
  pub resources : d.resources ≡ some x
  pub slot : (l p : ℕ) → x.slots l ≡ some p → (t : Timer) × (x.objects p ≡ some t) × (t.label ≡ l)
  pub object :
      (p : ℕ) (t : Timer)
      → x.objects p ≡ some t
      → (x.slots t.label ≡ some p)
        × (k.timer d.kernel t.id ≡ some (p, t.spec))
        × (m.handed x.heap p ≡ true)
  pub set_by_us :
      (id p : ℕ) (s : Itimerspec)
      → k.timer d.kernel id ≡ some (p, s)
      → (t : Timer) × (x.objects p ≡ some t) × (t.id ≡ id)

pub spec-is_time :
    (time : Timespec) (type : TimerType)
    → is_time time ≡ true
    → (is_time (spec_of time type).value ≡ true) × (is_time (spec_of time type).interval ≡ true)
unfolding spec_of
spec-is_time time periodic h = (h, h)
spec-is_time time one_shot h = (h, refl)

module _ {Kernel Heap : Type 0} ⦃k : TimerApi Kernel⦄ ⦃m : TimerMemory Heap⦄
    {d : TimerManagerData Kernel Heap} {x : TimerResources Heap} (v : IsConsistent d x) where
  -- The state after a `startTimer` that returned true.
  abbrev pub begun : Heap → ℕ → Timer → TimerResources Heap
  begun a p t = record x {
    heap = a;
    slots = update x.slots t.label (some p);
    objects = update x.objects p (some t);
  }

  pub object-none : (p : ℕ) → m.handed x.heap p ≡ false → x.objects p ≡ none
  object-none p h = elim (Option-cases (x.objects p)) [
    | inl e ↦ e
    | inr (t, e) ↦ ground (arith, v.object p t e)
  ]

  module _ (kernel : Kernel) (a : Heap) (p : ℕ) (t : Timer) (free : x.slots t.label ≡ none)
      (new : m.handed x.heap p ≡ false)
      (handed : (q : ℕ) → m.handed a q ≡ ((p == q) || m.handed x.heap q))
      (fresh : k.timer d.kernel t.id ≡ none)
      (timer : (j : ℕ)
        → k.timer kernel j ≡ (if t.id == j then some (p, t.spec) else k.timer d.kernel j)) where
    begun-slot :
        (l q : ℕ)
        → update x.slots t.label (some p) l ≡ some q
        → (u : Timer) × (update x.objects p (some t) q ≡ some u) × (u.label ≡ l)
    begun-slot l q e = elim (Bool-cases (t.label == l)) [
      | inl hit ↦ (t, ground arith, ground arith)
      | inr miss ↦
          let (u, f, g) = v.slot l q (ground arith) in (u, ground (arith, object-none p new), g)
    ]

    begun-object :
        (q : ℕ) (u : Timer)
        → update x.objects p (some t) q ≡ some u
        → (update x.slots t.label (some p) u.label ≡ some q)
          × (k.timer kernel u.id ≡ some (q, u.spec))
          × (m.handed a q ≡ true)
    begun-object q u e = elim (Bool-cases (p == q)) [
      | inl hit ↦ (ground arith, ground (arith, timer t.id), ground (arith, handed q))
      | inr miss ↦
          let (f, g, h) = v.object q u (ground arith) in
          (ground arith, ground (arith, timer u.id), ground (arith, handed q))
    ]

    begun-set_by_us :
        (id q : ℕ) (s : Itimerspec)
        → k.timer kernel id ≡ some (q, s)
        → (u : Timer) × (update x.objects p (some t) q ≡ some u) × (u.id ≡ id)
    begun-set_by_us id q s e = elim (Bool-cases (t.id == id)) [
      | inl hit ↦ (t, ground (arith, timer id), ground arith)
      | inr miss ↦
          let (u, f, g) = v.set_by_us id q s (ground (arith, timer id)) in
          (u, ground (arith, object-none p new), g)
    ]

    pub begun-IsConsistent :
        IsConsistent (record d { kernel = kernel; resources = some (begun a p t) }) (begun a p t)
    begun-IsConsistent = record {
      resources = refl;
      slot = begun-slot;
      object = begun-object;
      set_by_us = begun-set_by_us;
    }

  -- The resources after a `cancelTimer` that returned true.
  abbrev pub ended : ℕ → ℕ → TimerResources Heap
  ended l p = record x {
    heap = m.deallocate x.heap p;
    slots = update x.slots l none;
    objects = update x.objects p none;
  }

  module _ (l p : ℕ) (t : Timer) (at : x.slots l ≡ some p) (is : x.objects p ≡ some t)
      (of : t.label ≡ l) (kernel : Kernel)
      (timer : (j : ℕ) → k.timer kernel j ≡ (if t.id == j then none else k.timer d.kernel j)) where
    ended-slot :
        (l' q : ℕ)
        → update x.slots l none l' ≡ some q
        → (u : Timer) × (update x.objects p none q ≡ some u) × (u.label ≡ l')
    ended-slot l' q e = elim (Bool-cases (l == l')) [
      | inl hit ↦ absurd (ground arith)
      | inr miss ↦ let (u, f, g) = v.slot l' q (ground arith) in (u, ground arith, g)
    ]

    ended-object :
        (q : ℕ) (u : Timer)
        → update x.objects p none q ≡ some u
        → (update x.slots l none u.label ≡ some q)
          × (k.timer kernel u.id ≡ some (q, u.spec))
          × (m.handed (m.deallocate x.heap p) q ≡ true)
    ended-object q u e = elim (Bool-cases (p == q)) [
      | inl hit ↦ absurd (ground arith)
      | inr miss ↦
          let (f, g, h) = v.object q u (ground arith) in
          (
            ground arith,
            ground (arith, timer u.id, v.object p t is),
            rw (m.deallocate-same x.heap p) h,
          )
    ]

    ended-set_by_us :
        (id q : ℕ) (s : Itimerspec)
        → k.timer kernel id ≡ some (q, s)
        → (u : Timer) × (update x.objects p none q ≡ some u) × (u.id ≡ id)
    ended-set_by_us id q s e = elim (Bool-cases (t.id == id)) [
      | inl hit ↦ absurd (ground (arith, timer id))
      | inr miss ↦
          let (u, f, g) = v.set_by_us id q s (ground (arith, timer id)) in (u, ground arith, g)
    ]

    pub ended-IsConsistent :
        IsConsistent (record d { kernel = kernel; resources = some (ended l p) }) (ended l p)
    ended-IsConsistent = record {
      resources = refl;
      slot = ended-slot;
      object = ended-object;
      set_by_us = ended-set_by_us;
    }
