-- ===== src/Example/Timer.antt =====
-- example/timer.cpp: main starts timers, two threads receive their signals.
mod Examples
use msglib_cpp.Common.{
  ℕ, zero, suc, ◌+◌, true, false, ◌&&◌, Option, List, [], ◌∷◌, ◌++◌, ◌==◌, leb, if◌then◌else◌,
}
use msglib_cpp.Common.Int.{pos}
use msglib_cpp.Common.State.{Action, ◌>>=◌, pure}
use msglib_cpp.TimerManagerData.{
  TimerManagerData, TimerResources, Program, on_timers, Result, periodic, one_shot,
}
use msglib_cpp.TimerManagerData.Api.{TimerApi, TimerMemory}
use msglib_cpp.TimerManager.{MaskCalls, start_timer, start_timer_duration}
use msglib_cpp.Msglib
use msglib_cpp.Application.{Thread}
use msglib_cpp.Pool.Resource.{MemoryResource}
use msglib_cpp.Worker.{Cleanup, drops, takes, signals, Reaction, Script}

-- The labels.
abbrev pub recurring_timer : ℕ
recurring_timer = 1

abbrev pub one_shot_timer : ℕ
one_shot_timer = 2

abbrev pub done_label : ℕ
done_label = 3

abbrev pub exit_thread : ℕ
exit_thread = 4

-- The `n` labels from `l` on, which a loop over labels counts through.
abbrev pub labels : ℕ → ℕ → List ℕ
labels zero l = []
labels (suc n) l = l ∷ labels n (l + 1)

unfoldable pub handle1 : ℕ → Reaction
handle1 l =
    if l == recurring_timer
    then record { releases = true; sends = []; exits = false }
    else (if l == exit_thread
        then record { releases = true; sends = []; exits = true }
        else record { releases = false; sends = []; exits = false })

unfoldable pub thread1 : Script
thread1 = record {
  registers = recurring_timer ∷ exit_thread ∷ [];
  handle = handle1;
  cleanup = drops recurring_timer ∷ drops exit_thread ∷ [];
}

unfoldable pub handle2 : ℕ → Reaction
handle2 l =
    if l == one_shot_timer
    then record { releases = true; sends = []; exits = false }
    else (if leb 5 l && leb l 45
        then record {
          releases = true;
          sends = if l == 45 then done_label ∷ [] else [];
          exits = false;
        }
        else (if l == exit_thread
            then record { releases = true; sends = []; exits = true }
            else record { releases = false; sends = []; exits = false }))

-- `for (i = 5; i < 45; i++) mbox.RegisterForLabel(i)`
abbrev pub take_all : List ℕ → List Cleanup
take_all [] = []
take_all (l ∷ ls) = takes l ∷ take_all ls

unfoldable pub thread2 : Script
thread2 = record {
  registers = one_shot_timer ∷ labels 41 5 ++ exit_thread ∷ [];
  handle = handle2;
  cleanup = drops one_shot_timer ∷ take_all (labels 40 5) ++ drops exit_thread ∷ [];
}

-- main as a receiver, from line 114 on.
unfoldable pub main_script : Script
main_script = record {
  registers = done_label ∷ [];
  handle = λ l. record { releases = true; sends = []; exits = l == done_label };
  cleanup = signals exit_thread ∷ [];
}

-- On DONE the body of the loop of main cancels the recurring timer, before the guard releases the
-- message.
unfoldable pub main_cancels : ℕ → List ℕ
main_cancels l = if l == done_label then recurring_timer ∷ [] else []

unfoldable pub main_thread : Thread
main_thread = record { script = main_script; cancels = main_cancels }

-- The threads of the program, main first; the other two cancel no timer.
unfoldable pub timer_threads : List Thread
timer_threads =
    main_thread
    ∷ record { script = thread1; cancels = λ l. [] }
    ∷ record { script = thread2; cancels = λ l. [] }
    ∷ []

module _ {Kernel Heap : Type 0} ⦃k : TimerApi Kernel⦄ ⦃m : TimerMemory Heap⦄ where
  -- The loop over the one-shot timers, for 100ms each, with the results that it logs.
  unfoldable pub start_one_shots : List ℕ → Action (TimerManagerData Kernel Heap) (List Result)
  start_one_shots [] = pure []
  start_one_shots (x ∷ xs) = do
    result ← start_timer_duration x 1000 1000000 1 (pos 100) one_shot
    results ← start_one_shots xs
    pure (result ∷ results)

  -- The timers that main starts, with the results of all calls.
  unfoldable pub start_timers : Action (TimerManagerData Kernel Heap) (List Result)
  start_timers = do
    first ← start_timer recurring_timer (record { sec = pos 0; nsec = pos 750000000 }) periodic
    results ← start_one_shots (labels 41 5)
    last ← start_timer_duration one_shot_timer 1000 1000000 1 (pos 900) one_shot
    pure (first ∷ results ++ last ∷ [])

module _ {Arena Kernel Heap : Type 0} ⦃r : MemoryResource Arena⦄ ⦃k : TimerApi Kernel⦄
    ⦃m : TimerMemory Heap⦄ where
  -- main up to line 112, with the results of `StartTimer`; that of `Initialize` is not looked at.
  unfoldable pub start_program :
      MaskCalls → Option (TimerResources Heap) → Action (Program Arena Kernel Heap) (List Result)
  start_program calls made = do ok ← Msglib.initialize calls made; on_timers start_timers
