-- ===== src/TimerManagerData/Examples.antt =====
-- Tests of TimerManagerData.h on a concrete process, and instances of its theorems.
use msglib_cpp.Common.{
  ℕ, ◌<◌, ◌≤◌, ◌≡◌, ◌⊎◌, refl, subst, true, false, Option, none, some, List, [], ◌∷◌, arith, ◌==◌,
  if◌then◌else◌,
}
use msglib_cpp.Common.Int.{pos, negsuc}
use msglib_cpp.Common.State.{done, fault, dangling_timer}
use msglib_cpp.TimeConv.{Timespec}
use msglib_cpp.Common.{total}
use msglib_cpp.Pool.Buffer
use msglib_cpp.Pool.Buffer.{Buffer, buffer_resource}
use msglib_cpp.Receiver.{no_receivers}
use msglib_cpp.Receiver.Slots.{slots}
use msglib_cpp.MailboxData.{Resources}
use msglib_cpp.Mailbox.{World, Mailbox, find_mailbox}
use msglib_cpp.Mailbox.Messages.{all_messages}
use msglib_cpp.Mailbox.Accounting.{Accounted}
use msglib_cpp.Mailbox.Blocks.{IsReady}
use msglib_cpp.Mailbox.Signals.{signalled}
use msglib_cpp.TimerManagerData.Events.{Handled, handle_signal_lem, handle_signal-stale}
use msglib_cpp.TimerManagerData.Handler.{rounds, Running, handle_signals-ends}
use msglib_cpp.TimerManagerData.Session.{here, next, starts}
use msglib_cpp.TimerManagerData.Session.Lifetime.{
  start_and_cancel, Reach-IsConsistent, start_timer-exhausted,
}
use msglib_cpp.TimerManagerData.{
  Timer, TimerType, periodic, one_shot, spec_of, returned, threw, bad_alloc, not_started,
  TimerResources, TimerManagerData, Program, update, start_timer, cancel_timer, construct,
  handle_signal, handle_signals, initialize, new_resources,
}
use msglib_cpp.TimerManagerData.Api.{disarmed, zero_time, max_timers}
use msglib_cpp.TimerManagerData.Consistent.{IsConsistent, begun-IsConsistent}
use msglib_cpp.TimerManagerData.Calls.{Begun, Ended, start_timer_lem, cancel_timer_lem}
use msglib_cpp.TimerManagerData.Failures.{start_timer-invalid}
use msglib_cpp.TimerManagerData.Process.{
  Process, process_timers, counted_memory, no_process_timers, no_timers, idle, idle-IsConsistent,
}

abbrev five_seconds : Timespec
five_seconds = record { sec = pos 5; nsec = pos 0 }

-- Label 7 has a one-shot timer, at address 0.
abbrev alarm : Timer
alarm = record {
  label = 7;
  id = 0;
  type = one_shot;
  spec = record { value = five_seconds; interval = zero_time };
}

abbrev alarm_created : Process
alarm_created = record { next = 1; table = update no_process_timers.table 0 (some (0, disarmed)) }

abbrev alarm_set : Process
alarm_set = record alarm_created { table = update alarm_created.table 0 (some (0, alarm.spec)) }

abbrev one_timer : TimerResources ℕ
one_timer = record {
  heap = 1;
  slots = update no_timers.slots 7 (some 0);
  objects = update no_timers.objects 0 (some alarm);
}

abbrev busy : TimerManagerData Process ℕ
busy = record { kernel = alarm_set; initialized = true; resources = some one_timer }

start_alarm : start_timer 7 five_seconds one_shot idle ≡ done (returned true, busy)
unfolding start_timer construct spec_of
start_alarm = refl

busy-IsConsistent : IsConsistent busy one_timer
busy-IsConsistent =
    begun-IsConsistent idle-IsConsistent alarm_set 1 0 alarm refl refl (λ q. ground arith) refl
      (λ j. ground arith)

start_timer_lem_example :
    ((q : ℕ) × (no_timers.slots 7 ≡ some q)
      × (start_timer 7 five_seconds one_shot idle ≡ done (returned false, idle)))
    ⊎ ((no_timers.slots 7 ≡ none)
        × ((d' : TimerManagerData Process ℕ) × (x' : TimerResources ℕ) × Begun idle no_timers 7
              five_seconds one_shot 0 0 d' x'))
start_timer_lem_example =
    start_timer_lem idle no_timers 7 five_seconds one_shot 0 0 1 alarm_created idle-IsConsistent
      refl refl refl

cancel_timer_lem_example :
    ((one_timer.slots 7 ≡ none) × (cancel_timer 7 busy ≡ done (false, busy)))
    ⊎ ((p : ℕ) × (one_timer.slots 7 ≡ some p)
        × ((d' : TimerManagerData Process ℕ) × (x' : TimerResources ℕ) × Ended busy one_timer 7 p d'
              x'))
cancel_timer_lem_example = cancel_timer_lem busy one_timer 7 busy-IsConsistent

abbrev minus_one : Timespec
minus_one = record { sec = pos 0; nsec = negsuc 999999 }

start_timer-invalid_example :
    (d' : TimerManagerData Process ℕ) × (start_timer 3 minus_one periodic busy
      ≡ done (threw not_started, d'))
    × (start_timer 3 five_seconds one_shot d' ≡ done (returned false, d'))
    × (cancel_timer 3 d' ≡ fault dangling_timer)
start_timer-invalid_example =
    start_timer-invalid busy one_timer 3 1 1 minus_one five_seconds periodic one_shot 2 _
      busy-IsConsistent refl refl refl refl

-- One mailbox, registered for label 7, in an initialised program.
abbrev resources : Resources Buffer
resources = record {
  small_size = 4;
  large_size = 16;
  byte_size = 1024;
  arena = record { room = 1024; blocks = [] };
  small_pool = record { elt_size = 4; size = 2; capacity = 2 };
  large_pool = record { elt_size = 16; size = 1; capacity = 1 };
  mailboxes = λ l. if 7 == l then none ∷ some 0 ∷ none ∷ [] else no_receivers;
}

abbrev world : World Buffer
world = record {
  shared = record { locked = false; initialized = true; resources = some resources };
  mailboxes = some (record { items = []; capacity = 2 }) ∷ [];
  memory = λ _. [];
}

world-IsReady : IsReady world.shared resources
world-IsReady = record { unlocked = refl; initialized = refl; resources = refl }

world-Accounted : Accounted resources world.mailboxes [] []
unfolding all_messages total Buffer.find
world-Accounted = record {
  small_elt = refl;
  large_elt = refl;
  small_cap = omega arith;
  large_cap = omega arith;
  fits = omega arith;
  small_counted = refl;
  large_counted = refl;
  owned = λ p n. refl;
}

handle_signal_lem_example :
    (ms' : List (Option Mailbox)) × (d' : TimerManagerData Process ℕ) × (x' : TimerResources ℕ)
    × (handle_signal (some 0) (record { world = world; timers = busy })
        ≡ done (true, record { world = record world { mailboxes = ms' }; timers = d' }))
    × ((i : ℕ) (q : Mailbox)
        → find_mailbox world.mailboxes i ≡ some q
        → find_mailbox ms' i ≡ some (signalled 7 (slots i (resources.mailboxes 7)) q))
    × Handled alarm busy one_timer d' x'
handle_signal_lem_example =
    handle_signal_lem world resources [] [] busy one_timer 0 alarm world-IsReady world-Accounted
      ((_, refl), tt) busy-IsConsistent refl

world-alive :
    (label i : ℕ)
    → 0 < slots i (resources.mailboxes label)
    → (q : Mailbox) × (find_mailbox world.mailboxes i ≡ some q)
world-alive label i h =
    let at_zero : 0 ≡ i = ground arith in
    subst (λ (j : ℕ). (q : Mailbox) × (find_mailbox world.mailboxes j ≡ some q)) at_zero (_, refl)

-- The signal of the timer, a round without one, and the end of the program.
handle_signals-ends_example :
    (s' : Program Buffer Process ℕ) × (handle_signals
        (rounds (some 0 ∷ none ∷ []))
        (record { world = world; timers = busy })
      ≡ done (true, s'))
    × Running resources [] [] s' (update one_timer.objects 0 none)
handle_signals-ends_example =
    handle_signals-ends resources [] [] (some 0 ∷ none ∷ [])
      (record { world = world; timers = busy }) one_timer.objects
      (record {
        timers = one_timer;
        consistent = busy-IsConsistent;
        objects_are = refl;
        ready = world-IsReady;
        accounted = world-Accounted;
        alive = world-alive;
      })
      (alarm, refl, tt)

handle_signal-stale_example :
    (d' : TimerManagerData Process ℕ) × (cancel_timer 7 busy ≡ done (true, d'))
    × (handle_signal (some 0) (record { world = world; timers = d' }) ≡ fault dangling_timer)
handle_signal-stale_example = handle_signal-stale world busy one_timer 0 7 busy-IsConsistent refl

abbrev before : Program Buffer Process ℕ
before = record { world = world; timers = idle }

abbrev after : Program Buffer Process ℕ
after = record { world = world; timers = busy }

Reach-IsConsistent_example :
    (x : TimerResources ℕ) × IsConsistent after.timers x × (x.heap ≡ 1) × (1 ≤ max_timers)
unfolding initialize new_resources
Reach-IsConsistent_example =
    Reach-IsConsistent no_process_timers before after 1 (λ id. ground arith) refl
      (next 0 1 here (starts 7 five_seconds one_shot busy start_alarm refl))

start_timer-exhausted_example :
    (d' : TimerManagerData Process ℕ) × (x' : TimerResources ℕ) × (start_and_cancel 7 five_seconds
        one_shot max_timers idle
      ≡ done (true, d'))
    × (d'.resources ≡ some x')
    × ((l : ℕ) → x'.slots l ≡ none)
    × ((l : ℕ) (time' : Timespec) (type' : TimerType)
        → start_timer l time' type' d' ≡ done (threw bad_alloc, d'))
unfolding initialize new_resources
start_timer-exhausted_example =
    start_timer-exhausted no_process_timers idle 7 five_seconds one_shot (λ id. ground arith)
      (λ kernel p. (_, _, refl)) refl refl
