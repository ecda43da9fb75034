-- ===== src/TimerManagerData/Process.antt =====
-- Instances of the interfaces of TimerManagerData.Api: the timers of a process as a table, and a
-- buffer for 65536 timers of which only the number in use is kept.
use msglib_cpp.Common.{
  ℕ, ◌+◌, ◌≤◌, ◌<◌, ◌≡◌, refl, Bool, true, false, ◌&&◌, ◌||◌, Option, none, some, arith, ltb, ◌==◌,
  if◌then◌else◌, Option-cases, inl, inr,
}
use msglib_cpp.TimerManagerData.{TimerResources, TimerManagerData, update}
use msglib_cpp.TimerManagerData.Consistent.{IsConsistent}
use msglib_cpp.TimerManagerData.Api.{
  TimerApi, TimerMemory, Itimerspec, disarmed, is_time, is_nsec, is_natural, max_timers,
}

-- Timers from `next` on have not been created.
pub record Process : Type 0 where
  pub next : ℕ
  pub table : ℕ → Option (ℕ × Itimerspec)

abbrev pub find : Process → ℕ → Option (ℕ × Itimerspec)
find k id = if ltb id k.next then k.table id else none

abbrev pub create : Process → ℕ → Option (ℕ × Process)
create k p =
    some (k.next, record { next = k.next + 1; table = update k.table k.next (some (p, disarmed)) })

abbrev pub settime : Process → ℕ → Itimerspec → Option Process
settime k id s = elim (find k id) [
  | none ↦ none
  | some (p, old) ↦
      if is_time s.value && is_time s.interval
      then some (record k { table = update k.table id (some (p, s)) })
      else none
]

abbrev pub delete : Process → ℕ → Process
delete k id = record k { table = update k.table id none }

and_false : (b : Bool) → (b && false) ≡ false
and_false true = refl
and_false false = refl

pub settime-bad :
    (k : Process) (id : ℕ) (s : Itimerspec) → is_nsec s.value.nsec ≡ false → settime k id s ≡ none
settime-bad k id s e = elim (Option-cases (find k id)) [
  | inl f ↦ ground arith
  | inr (o, f) ↦ ground (arith, and_false (is_natural s.value.sec))
]

pub settime-good :
    (k : Process) (id : ℕ) (s : Itimerspec) {p : ℕ} {s₀ : Itimerspec}
    → find k id ≡ some (p, s₀)
    → is_time s.value ≡ true
    → is_time s.interval ≡ true
    → (k' : Process) × (settime k id s ≡ some k')
settime-good k id s {p} e v i = (record k { table = update k.table id (some (p, s)) }, ground arith)

pub create-find :
    (k : Process) (p : ℕ) {id : ℕ} {k' : Process}
    → create k p ≡ some (id, k')
    → (find k id ≡ none)
      × ((j : ℕ) → find k' j ≡ (if id == j then some (p, disarmed) else find k j))
create-find k p e = (ground arith, λ j. ground arith)

pub settime-find :
    (k : Process) (id : ℕ) (s : Itimerspec) {k' : Process} {p : ℕ} {s₀ : Itimerspec}
    → find k id ≡ some (p, s₀)
    → settime k id s ≡ some k'
    → (j : ℕ) → find k' j ≡ (if id == j then some (p, s) else find k j)
settime-find k id s f e j = ground arith

pub delete-find :
    (k : Process) (id j : ℕ) → find (delete k id) j ≡ (if id == j then none else find k j)
delete-find k id j = ground arith

instance abbrev pub process_timers : TimerApi Process
process_timers = record {
  create = create;
  settime = settime;
  delete = delete;
  timer = find;
  create-timer = create-find;
  settime-timer = settime-find;
  settime-invalid = settime-bad;
  settime-valid = settime-good;
  delete-timer = delete-find;
}

abbrev pub take_one : ℕ → Option (ℕ × ℕ)
take_one a = if ltb a max_timers then some (a, a + 1) else none

pub take_one-some :
    (a : ℕ) {p a' : ℕ}
    → take_one a ≡ some (p, a')
    → (a < max_timers)
      × (a' ≡ a + 1)
      × (ltb p a ≡ false)
      × ((q : ℕ) → ltb q a' ≡ ((p == q) || ltb q a))
take_one-some a e = (ground arith, ground arith, ground arith, λ q. ground arith)

pub take_one-none : (a : ℕ) → take_one a ≡ none → max_timers ≤ a
take_one-none a e = ground arith

pub some-zero : {a : ℕ} → some 0 ≡ some a → a ≡ 0
some-zero e = ground arith

instance abbrev pub counted_memory : TimerMemory ℕ
counted_memory = record {
  make = some 0;
  allocate = take_one;
  deallocate = λ a p. a;
  used = λ a. a;
  handed = λ a q. ltb q a;
  make-used = some-zero;
  allocate-some = take_one-some;
  allocate-none = take_one-none;
  deallocate-same = λ a p. refl;
}

-- A process without timers, and a program that has just been initialised.
abbrev pub no_process_timers : Process
no_process_timers = record { next = 0; table = λ id. none }

abbrev pub no_timers : TimerResources ℕ
no_timers = record { heap = 0; slots = λ l. none; objects = λ p. none }

abbrev pub idle : TimerManagerData Process ℕ
idle = record { kernel = no_process_timers; initialized = true; resources = some no_timers }

pub idle-IsConsistent : IsConsistent idle no_timers
idle-IsConsistent = record {
  resources = refl;
  slot = λ l p e. absurd (ground arith);
  object = λ p t e. absurd (ground arith);
  set_by_us =
      λ id p s e. let f : find no_process_timers id ≡ some (p, s) = e in absurd (ground arith);
}
