-- ===== src/Msglib.antt =====
-- include/msglib/Msglib.h: `Initialize` of the whole library.
pub mod Init
mod Examples
use msglib_cpp.Common.{
  ℕ, ◌≡◌, Bool, true, false, ◌&&◌, Option, none, some, arith, Bool-cases, inl, inr,
}
use msglib_cpp.Common.State.{Outcome, done, fault, Action, ◌>>=◌, ◌>>◌, pure}
use msglib_cpp.Pool.Resource.{MemoryResource}
use msglib_cpp.Mailbox
use msglib_cpp.TimerManagerData
use msglib_cpp.TimerManagerData.{TimerResources, TimerManagerData, Program, on_world, on_timers}
use msglib_cpp.TimerManagerData.Api.{TimerApi, TimerMemory}
use msglib_cpp.TimerManager
use msglib_cpp.TimerManager.{MaskCalls}

module _ {Arena Kernel Heap : Type 0} ⦃r : MemoryResource Arena⦄ ⦃k : TimerApi Kernel⦄
    ⦃m : TimerMemory Heap⦄ where
  -- `Initialize(smallSize, smallCap, largeSize, largeCap)`, for what the POSIX calls return and for
  -- the timer resources that can be made.
  unfoldable pub initialize_with :
      MaskCalls
      → Option (TimerResources Heap)
      → ℕ
      → ℕ
      → ℕ
      → ℕ
      → Action (Program Arena Kernel Heap) Bool
  initialize_with calls made small_size small_cap large_size large_cap = do
    result ← on_timers (TimerManager.initialize calls made)
    ok ← on_world (Mailbox.initialize_with small_size small_cap large_size large_cap)
    pure (result && ok)

  -- `Initialize()`
  unfoldable pub initialize :
      MaskCalls → Option (TimerResources Heap) → Action (Program Arena Kernel Heap) Bool
  initialize calls made = do
    result ← on_timers (TimerManager.initialize calls made)
    ok ← on_world Mailbox.initialize
    pure (result && ok)
