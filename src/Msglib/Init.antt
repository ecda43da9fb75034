-- ===== src/Msglib/Init.antt =====
-- Msglib.h: initialising a program again.
use msglib_cpp.Common.{ℕ, ◌≡◌, refl, true, false, some, arith}
use msglib_cpp.Common.State.{done}
use msglib_cpp.Pool.Resource.{MemoryResource}
use msglib_cpp.MailboxData
use msglib_cpp.MailboxData.{resources_on, byte_size, new_resources}
use msglib_cpp.Mailbox
use msglib_cpp.Mailbox.{World}
use msglib_cpp.TimerManagerData
use msglib_cpp.TimerManagerData.{TimerResources, TimerManagerData, Program}
use msglib_cpp.TimerManagerData.Api.{TimerApi, TimerMemory}
use msglib_cpp.TimerManager
use msglib_cpp.TimerManager.{MaskCalls}
use msglib_cpp.Msglib.{initialize_with}

abbrev pub all_ok : MaskCalls
all_ok = record { emptyset = true; addset = true; process_mask = true; thread_mask = true }

module _ {Arena Kernel Heap : Type 0} ⦃r : MemoryResource Arena⦄ ⦃k : TimerApi Kernel⦄
    ⦃m : TimerMemory Heap⦄ where
  -- In a program that is not initialised, where the POSIX calls succeed and the timer resources and
  -- the buffer of the pools can be had, `Initialize` returns true and sets both parts up. Called
  -- again, it returns false, though both parts are set up, and changes nothing.
  pub initialize-twice :
      (s : Program Arena Kernel Heap) (x : TimerResources Heap) (a : Arena) (ss sc ls lc : ℕ)
      → s.timers.initialized ≡ false
      → s.world.shared.initialized ≡ false
      → s.world.shared.locked ≡ false
      → r.make (byte_size ss sc ls lc) ≡ some a
      → (t : Program Arena Kernel Heap) × (initialize_with all_ok (some x) ss sc ls lc s
          ≡ done (true, t))
        × (t.timers.resources ≡ some x)
        × (t.world.shared.resources ≡ some (resources_on ss sc ls lc a))
        × (initialize_with all_ok (some x) ss sc ls lc t ≡ done (false, t))
  unfolding initialize_with TimerManager.initialize TimerManagerData.initialize
      Mailbox.initialize_with MailboxData.initialize_with new_resources
  initialize-twice s x a ss sc ls lc ti mi free made = (
    record {
      world = record s.world {
        shared = record s.world.shared {
          initialized = true;
          resources = some (resources_on ss sc ls lc a);
        };
      };
      timers = record s.timers { initialized = true; resources = some x };
    },
    ground arith,
    refl,
    refl,
    ground arith,
  )
