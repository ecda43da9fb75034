-- ===== src/TimerManagerData/Api.antt =====
-- What include/msglib/detail/TimerManagerData.h calls that is not code of the repository: the POSIX
-- timers of the process, and the memory that timers are allocated from (a polymorphic_allocator over
-- a monotonic_buffer_resource with room for 65536 timers and no upstream). Both are interfaces.
use msglib_cpp.Common.{
  ℕ, ◌+◌, ◌≤◌, ◌<◌, ◌≡◌, Bool, true, false, ◌||◌, Option, none, some, ltb, ◌==◌, ◌&&◌,
  if◌then◌else◌,
}
use msglib_cpp.Common.Int.{ℤ, pos, negsuc}
use msglib_cpp.TimeConv.{Timespec}

-- `itimerspec` of POSIX.
pub record Itimerspec : Type 0 where
  pub value : Timespec
  pub interval : Timespec

abbrev pub zero_time : Timespec
zero_time = record { sec = pos 0; nsec = pos 0 }

abbrev pub disarmed : Itimerspec
disarmed = record { value = zero_time; interval = zero_time }

-- Are these the nanoseconds of a second?
abbrev pub is_nsec : ℤ → Bool
is_nsec (pos n) = ltb n 1000000000
is_nsec (negsuc n) = false

abbrev pub is_natural : ℤ → Bool
is_natural (pos n) = true
is_natural (negsuc n) = false

-- A time that timer_settime takes.
abbrev pub is_time : Timespec → Bool
is_time t = is_natural t.sec && is_nsec t.nsec

pub record TimerApi (Kernel : Type 0) : Type 0 where
  -- `timer_create` with a sigevent that carries a pointer; `none` for -1.
  pub create : Kernel → ℕ → Option (ℕ × Kernel)
  -- `timer_settime`; `none` for -1.
  pub settime : Kernel → ℕ → Itimerspec → Option Kernel
  -- `timer_delete`
  pub delete : Kernel → ℕ → Kernel
  -- The pointer and the setting of a timer that exists.
  pub timer : Kernel → ℕ → Option (ℕ × Itimerspec)
  pub create-timer :
      (k : Kernel) (p : ℕ) {id : ℕ} {k' : Kernel}
      → create k p ≡ some (id, k')
      → (timer k id ≡ none)
        × ((j : ℕ) → timer k' j ≡ (if id == j then some (p, disarmed) else timer k j))
  pub settime-timer :
      (k : Kernel) (id : ℕ) (s : Itimerspec) {k' : Kernel} {p : ℕ} {s₀ : Itimerspec}
      → timer k id ≡ some (p, s₀)
      → settime k id s ≡ some k'
      → (j : ℕ) → timer k' j ≡ (if id == j then some (p, s) else timer k j)
  -- EINVAL, for nanoseconds below 0 or not below 10^9.
  pub settime-invalid :
      (k : Kernel) (id : ℕ) (s : Itimerspec) → is_nsec s.value.nsec ≡ false → settime k id s ≡ none
  pub settime-valid :
      (k : Kernel) (id : ℕ) (s : Itimerspec) {p : ℕ} {s₀ : Itimerspec}
      → timer k id ≡ some (p, s₀)
      → is_time s.value ≡ true
      → is_time s.interval ≡ true
      → (k' : Kernel) × (settime k id s ≡ some k')
  pub delete-timer :
      (k : Kernel) (id j : ℕ) → timer (delete k id) j ≡ (if id == j then none else timer k j)

abbrev pub max_timers : ℕ
max_timers = 65536

pub record TimerMemory (Heap : Type 0) : Type 0 where
  -- A new m_bytes with its m_byteResource; `none` for std::bad_alloc.
  pub make : Option Heap
  -- `m_timerResource.allocate(1)`; `none` for std::bad_alloc.
  pub allocate : Heap → Option (ℕ × Heap)
  -- `m_timerResource.deallocate(p, 1)`
  pub deallocate : Heap → ℕ → Heap
  -- How many timers have been handed out, and which addresses.
  pub used : Heap → ℕ
  pub handed : Heap → ℕ → Bool
  pub make-used : {a : Heap} → make ≡ some a → used a ≡ 0
  pub allocate-some :
      (a : Heap) {p : ℕ} {a' : Heap}
      → allocate a ≡ some (p, a')
      → (used a < max_timers)
        × (used a' ≡ used a + 1)
        × (handed a p ≡ false)
        × ((q : ℕ) → handed a' q ≡ ((p == q) || handed a q))
  pub allocate-none : (a : Heap) → allocate a ≡ none → max_timers ≤ used a
  -- A monotonic resource takes nothing back.
  pub deallocate-same : (a : Heap) (p : ℕ) → deallocate a p ≡ a
