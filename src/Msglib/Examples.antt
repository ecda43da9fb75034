-- ===== src/Msglib/Examples.antt =====
-- Msglib.h: an instance of its theorem.
use msglib_cpp.Common.{ℕ, ◌≡◌, refl, true, false, none, some, []}
use msglib_cpp.Common.State.{done}
use msglib_cpp.Pool.Buffer.{Buffer, buffer_resource}
use msglib_cpp.MailboxData.{uninitialized, resources_on, byte_size}
use msglib_cpp.TimerManagerData.{Program}
use msglib_cpp.TimerManagerData.Process.{
  Process, process_timers, counted_memory, no_process_timers, no_timers,
}
use msglib_cpp.Msglib.{initialize_with}
use msglib_cpp.Msglib.Init.{all_ok, initialize-twice}

abbrev before : Program Buffer Process ℕ
before = record {
  world = record { shared = uninitialized; mailboxes = []; memory = λ p. [] };
  timers = record { kernel = no_process_timers; initialized = false; resources = none };
}

initialize-twice_example :
    (t : Program Buffer Process ℕ) × (initialize_with all_ok (some no_timers) 4 2 16 1 before
      ≡ done (true, t))
    × (t.timers.resources ≡ some no_timers)
    × (t.world.shared.resources
        ≡ some (resources_on 4 2 16 1 (record { room = 1024; blocks = [] })))
    × (initialize_with all_ok (some no_timers) 4 2 16 1 t ≡ done (false, t))
unfolding byte_size
initialize-twice_example =
    initialize-twice before no_timers (record { room = 1024; blocks = [] }) 4 2 16 1 refl refl refl
      refl
