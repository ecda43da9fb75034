-- ===== src/Example/Begun.antt =====
-- example/timer.cpp: main up to its registration, in a new process.
use msglib_cpp.Common.{ℕ, ◌≡◌, refl, true, false, none, some, List, arith}
use msglib_cpp.Mailbox.Signals.{replicate}
use msglib_cpp.Common.State.{done}
use msglib_cpp.Pool.Resource.{MemoryResource}
use msglib_cpp.MailboxData
use msglib_cpp.MailboxData.{
  Resources, resources_on, byte_size, default_small_size, default_small_cap, default_large_size,
  default_large_cap,
}
use msglib_cpp.Mailbox
use msglib_cpp.Mailbox.{World}
use msglib_cpp.TimerManagerData
use msglib_cpp.TimerManagerData.{
  Result, returned, TimerResources, TimerManagerData, Program, new_resources,
}
use msglib_cpp.TimerManagerData.Api.{TimerApi, TimerMemory}
use msglib_cpp.TimerManagerData.Consistent.{IsConsistent}
use msglib_cpp.TimerManagerData.Session.Lifetime.{no_timers_on, no_timers-IsConsistent}
use msglib_cpp.TimerManager
use msglib_cpp.Msglib
use msglib_cpp.Msglib.Init.{all_ok}
use msglib_cpp.Example.Timer.{start_timers, start_program}
use msglib_cpp.Example.Started.{wanted, start_timers_lem}

module _ {Arena Kernel Heap : Type 0} ⦃r : MemoryResource Arena⦄ ⦃k : TimerApi Kernel⦄
    ⦃m : TimerMemory Heap⦄ where
  start_program-runs :
      (s : Program Arena Kernel Heap) (kernel : Kernel) (h : Heap) (a : Arena)
      (results : List Result) (d : TimerManagerData Kernel Heap)
      → s.timers ≡ record { kernel = kernel; initialized = false; resources = none }
      → s.world.shared.initialized ≡ false
      → s.world.shared.locked ≡ false
      → m.make ≡ some h
      → r.make (byte_size default_small_size default_small_cap default_large_size default_large_cap)
        ≡ some a
      → start_timers
          (record { kernel = kernel; initialized = true; resources = some (no_timers_on h) })
        ≡ done (results, d)
      → (t : Program Arena Kernel Heap) × (start_program all_ok (new_resources (λ l. none) true) s
          ≡ done (results, t))
        × (t.timers ≡ d)
        × (t.world.shared.resources
            ≡ some (
                resources_on default_small_size default_small_cap default_large_size
                  default_large_cap a))
  unfolding start_program Msglib.initialize TimerManager.initialize TimerManagerData.initialize
      new_resources Mailbox.initialize MailboxData.initialize MailboxData.initialize_with
      MailboxData.new_resources
  start_program-runs s kernel h a results d new un free heap buffer run = (
    record {
      world = record s.world {
        shared = record s.world.shared {
          initialized = true;
          resources = some (
              resources_on default_small_size default_small_cap default_large_size default_large_cap
                a);
        };
      };
      timers = d;
    },
    ground (arith, run),
    refl,
    refl,
  )

  -- In a new process without timers, where the POSIX calls succeed, timer_create included, the memory
  -- of the timers and the buffer of the pools can be had, and m_timers is all null after the
  -- constructor of TimerResources, which the source does not ensure: main initialises the library with the
  -- default sizes and starts all its timers. All 43 calls of StartTimer return true, each of the labels
  -- 1, 2 and 5 to 45 has a timer afterwards and no other label has one, all timers are consistent, and
  -- the mailboxes are ready.
  pub start_program_lem :
      (s : Program Arena Kernel Heap) (kernel : Kernel) (h : Heap) (a : Arena)
      → s.timers ≡ record { kernel = kernel; initialized = false; resources = none }
      → s.world.shared.initialized ≡ false
      → s.world.shared.locked ≡ false
      → ((id : ℕ) → k.timer kernel id ≡ none)
      → ((kernel : Kernel) (p : ℕ)
          → (id : ℕ) × (kernel' : Kernel) × (k.create kernel p ≡ some (id, kernel')))
      → m.make ≡ some h
      → r.make (byte_size default_small_size default_small_cap default_large_size default_large_cap)
        ≡ some a
      → (t : Program Arena Kernel Heap) × (x : TimerResources Heap) × (start_program all_ok
            (new_resources (λ l. none) true)
            s
          ≡ done (replicate 43 (returned true), t))
        × IsConsistent t.timers x
        × ((l : ℕ) → wanted 41 l ≡ true → (p : ℕ) × (x.slots l ≡ some p))
        × ((l : ℕ) → wanted 41 l ≡ false → x.slots l ≡ none)
        × (t.world.shared.resources
            ≡ some (
                resources_on default_small_size default_small_cap default_large_size
                  default_large_cap a))
  start_program_lem s kernel h a new un free none_yet creates heap buffer =
      let (d, x, run, v, has, others) =
        start_timers_lem creates _ (no_timers_on h) (no_timers-IsConsistent kernel h none_yet)
          (λ l e. refl) (omega (arith, m.make-used heap)) in
      let (t, runs, timers, ready) =
        start_program-runs s kernel h a (replicate 43 (returned true)) d new un free heap buffer
          run in
      (t, x, runs, rw timers v, has, others, ready)
