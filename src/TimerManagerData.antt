-- ===== src/TimerManagerData.antt =====
-- include/msglib/detail/TimerManagerData.h: the timers of the program, one at most for each label.
-- m_mutex is recursive, so that `timerEvent` may cancel its timer while the handler thread holds it;
-- a call is what runs while it is held.
pub mod Api
pub mod Consistent
pub mod Calls
pub mod Events
pub mod Session
pub mod Failures
pub mod Process
pub mod Handler
mod Examples
use msglib_cpp.Common.{
  ℕ, Bool, true, false, not, Option, none, some, List, [], ◌∷◌, ◌==◌, if◌then◌else◌,
}
use msglib_cpp.Common.State.{
  Outcome, done, fault, null_resources, dangling_timer, Action, ◌>>=◌, ◌>>◌, pure, focus,
}
use msglib_cpp.TimeConv.{Timespec}
use msglib_cpp.Mailbox.{World, send_signal}
use Api.{Itimerspec, TimerApi, TimerMemory, zero_time, disarmed}

-- `TimerType_e`
pub data TimerType : Type 0 where
  periodic one_shot : TimerType

-- `Timer`, whose references to the mailbox and to the TimerManagerData are to statics.
pub record Timer : Type 0 where
  pub label : ℕ
  pub id : ℕ
  pub type : TimerType
  pub spec : Itimerspec

-- The m_spec that the constructor of `Timer` sets.
unfoldable pub spec_of : Timespec → TimerType → Itimerspec
spec_of time periodic = record { value = time; interval = time }
spec_of time one_shot = record { value = time; interval = zero_time }

-- What leaves `startTimer` as an exception.
pub data Exception : Type 0 where
  bad_alloc no_timer not_started : Exception

pub data Result : Type 0 where
  returned : Bool → Result
  threw : Exception → Result

-- `TimerResources`: `heap` is m_byteResource, `slots` is m_timers, by label, and `objects` the
-- timers that are constructed, by address.
pub record TimerResources (Heap : Type 0) : Type 0 where
  pub heap : Heap
  pub slots : ℕ → Option ℕ
  pub objects : ℕ → Option Timer

-- `TimerManagerData`, and the timers of the process.
pub record TimerManagerData (Kernel Heap : Type 0) : Type 0 where
  pub kernel : Kernel
  pub initialized : Bool
  pub resources : Option (TimerResources Heap)

abbrev pub update {ℓ} : {A : Type ℓ} → (ℕ → A) → ℕ → A → ℕ → A
update f i v j = if i == j then v else f j

module _ {Kernel Heap : Type 0} where
  -- `Initialize`: `made` is what `make_unique<TimerResources>` gives, `none` for an exception.
  unfoldable pub initialize :
      Option (TimerResources Heap) → Action (TimerManagerData Kernel Heap) Bool
  initialize made d = elim d.initialized [
    | true ↦ done (true, d)
    | false ↦ elim made [
      | none ↦ done (false, d)
      | some x ↦ done (true, record d { resources = some x; initialized = true })
    ]
  ]

module _ {Heap : Type 0} ⦃m : TimerMemory Heap⦄ where
  -- `TimerResources(mutex)`: m_timers is not initialised, so its contents are an argument, as is
  -- whether the thread can be started.
  unfoldable pub new_resources : (ℕ → Option ℕ) → Bool → Option (TimerResources Heap)
  new_resources slots thread = elim m.make [
    | none ↦ none
    | some a ↦
        if thread then some (record { heap = a; slots = slots; objects = λ p. none }) else none
  ]

module _ {Kernel : Type 0} ⦃k : TimerApi Kernel⦄ where
  -- `Timer::cancel`, whose result of timer_settime is not looked at.
  unfoldable pub cancel : Timer → Kernel → Kernel
  cancel t kernel = elim (k.settime kernel t.id disarmed) [ none ↦ kernel | some kernel' ↦ kernel' ]

module _ {Kernel Heap : Type 0} ⦃k : TimerApi Kernel⦄ ⦃m : TimerMemory Heap⦄ where
  -- `construct<Timer>` at the address `p`, which m_timers has already.
  unfoldable pub construct :
      ℕ
      → ℕ
      → Timespec
      → TimerType
      → TimerResources Heap
      → Action (TimerManagerData Kernel Heap) Result
  construct p label time type x d = elim (k.create d.kernel p) [
    | none ↦ done (threw no_timer, record d { resources = some x })
    | some (id, kernel) ↦
        let spec = spec_of time type in
        elim (k.settime kernel id spec) [
          | none ↦ done (threw not_started, record d { kernel = kernel; resources = some x })
          | some kernel' ↦
              let t : Timer = record { label = label; id = id; type = type; spec = spec } in
              done (
                returned true,
                record d {
                  kernel = kernel';
                  resources = some (record x { objects = update x.objects p (some t) });
                },
              )
        ]
  ]

  -- `startTimer`
  unfoldable pub start_timer :
      ℕ → Timespec → TimerType → Action (TimerManagerData Kernel Heap) Result
  unfolding construct
  start_timer label time type d = elim d.resources [
    | none ↦ fault null_resources
    | some x ↦ elim (x.slots label) [
      | some p ↦ done (returned false, d)
      | none ↦ elim (m.allocate x.heap) [
        | none ↦ done (threw bad_alloc, d)
        | some (p, a) ↦
            construct p label time type
              (record x { heap = a; slots = update x.slots label (some p) }) d
      ]
    ]
  ]

  -- `cancelTimer`: `cancel`, the destructor, `deallocate`.
  unfoldable pub cancel_timer : ℕ → Action (TimerManagerData Kernel Heap) Bool
  unfolding cancel
  cancel_timer label d = elim d.resources [
    | none ↦ fault null_resources
    | some x ↦ elim (x.slots label) [
      | none ↦ done (false, d)
      | some p ↦ elim (x.objects p) [
        | none ↦ fault dangling_timer
        | some t ↦
            let x' = record x {
              heap = m.deallocate x.heap p;
              slots = update x.slots label none;
              objects = update x.objects p none;
            } in
            done
              (true, record d { kernel = k.delete (cancel t d.kernel) t.id; resources = some x' })
      ]
    ]
  ]

-- The object that a pointer of a signal points to.
abbrev pub find_timer : {Heap : Type 0} → Option (TimerResources Heap) → ℕ → Option Timer
find_timer none p = none
find_timer (some x) p = x.objects p

-- The static data of Mailbox.h and of TimerManager.h.
pub record Program (Arena Kernel Heap : Type 0) : Type 0 where
  pub world : World Arena
  pub timers : TimerManagerData Kernel Heap

module _ {Arena Kernel Heap : Type 0} ⦃k : TimerApi Kernel⦄ ⦃m : TimerMemory Heap⦄ where
  abbrev pub on_world : {A : Type 0} → Action (World Arena) A → Action (Program Arena Kernel Heap) A
  on_world = focus (λ s. s.world) (λ s w. record s { world = w })

  abbrev pub on_timers :
      {A : Type 0} → Action (TimerManagerData Kernel Heap) A → Action (Program Arena Kernel Heap) A
  on_timers = focus (λ s. s.timers) (λ s d. record s { timers = d })

  -- `Timer::timerEvent`
  unfoldable pub timer_event : Timer → Action (Program Arena Kernel Heap) Bool
  timer_event t = do
    sent ← on_world (send_signal t.label)
    elim t.type [ periodic ↦ pure sent | one_shot ↦ on_timers (cancel_timer t.label) ]

  -- One round of the loop of `HandleSignals`, for what `sigtimedwait` gives: the pointer of a
  -- SIGRTMIN, or nothing.
  unfoldable pub handle_signal : Option ℕ → Action (Program Arena Kernel Heap) Bool
  unfolding timer_event
  handle_signal none s = done (false, s)
  handle_signal (some p) s = elim (find_timer s.timers.resources p) [
    | none ↦ fault dangling_timer
    | some t ↦ timer_event t s
  ]

-- What a turn of the loop of `HandleSignals` finds: m_shutdown, and what `sigtimedwait` gives.
pub record Round : Type 0 where
  pub shutdown : Bool
  pub signal : Option ℕ

module _ {Arena Kernel Heap : Type 0} ⦃k : TimerApi Kernel⦄ ⦃m : TimerMemory Heap⦄ where
  -- The loop of `HandleSignals`: has it ended after these rounds?
  unfoldable pub handle_signals : List Round → Action (Program Arena Kernel Heap) Bool
  handle_signals [] = pure false
  handle_signals (r ∷ rs) = elim r.shutdown [
    | true ↦ pure true
    | false ↦ do handled ← handle_signal r.signal; handle_signals rs
  ]

  -- `~TimerResources`, which sets m_shutdown and joins the thread, where the thread may still be in
  -- a round.
  unfoldable pub stop : Option ℕ → Action (Program Arena Kernel Heap) Bool
  unfolding handle_signals
  stop last =
      handle_signals (
        record { shutdown = false; signal = last } ∷ record { shutdown = true; signal = none } ∷ [])

  -- `HandleSignals`, where `sigemptyset`, `sigaddset` and `pthread_sigmask` return 0 or not: `none`
  -- for an exception, by which the process ends.
  unfoldable pub handler_thread :
      Bool → Bool → Bool → List Round → Action (Program Arena Kernel Heap) (Option Bool)
  unfolding handle_signals
  handler_thread emptyset addset mask rs = elim emptyset [
    | false ↦ pure none
    | true ↦ elim addset [
      | false ↦ pure none
      | true ↦ elim mask [
        | false ↦ pure none
        | true ↦ do ended ← handle_signals rs; pure (some ended)
      ]
    ]
  ]
