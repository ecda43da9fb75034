-- ===== src/Sandbox/QueueProgram/Threads.antt =====
-- sandbox/queue.cpp: the two threads of the program together, main with its calls of `producer` and
-- `join`, and `consumer`, over one queue and the flag `running`.
pub mod Order
pub mod End
mod Examples
use msglib_cpp.Common.{
  ℕ, ◌+◌, ◌%◌, ◌≤◌, ◌<◌, ◌^◌, ◌≡◌, Bool, true, false, none, some, List, [], ◌∷◌, ◌++◌,
}
use msglib_cpp.Message.{Message, message}
use msglib_cpp.Queue.{Queue, new_queue, emplace, pop_front}
use msglib_cpp.Sandbox.QueueProgram.{prefill}

-- Where main stands: in the loop of `producer`, in `join`, or behind it.
pub data MainPhase : Type 0 where
  producing joining finished : MainPhase

-- Where the consumer stands: at the test of its loop, in `popWait`, or at its end.
pub data ConsumerPhase : Type 0 where
  testing popping gone : ConsumerPhase

-- `results` is what the calls of `emplace` in `producer` returned, `received` what the consumer got,
-- each oldest first.
pub record State : Type 0 where
  pub queue : Queue Message
  pub index : ℕ
  pub running : Bool
  pub main : MainPhase
  pub consumer : ConsumerPhase
  pub results : List Bool
  pub received : List Message

-- The threads begin, with the queue filled by main.
unfoldable pub begin : ℕ → State
begin queue_size = record {
  queue = (prefill queue_size (new_queue queue_size)).1;
  index = 0;
  running = true;
  main = producing;
  consumer = testing;
  results = [];
  received = [];
}

-- The message that `producer` makes of its index, a `uint32_t`.
unfoldable pub produced : ℕ → Message
produced i = message (i % 2 ^ 16) ((i + 1) % 2 ^ 32) none

pub data Step (count : ℕ) (s t : State) : Type 0 where
  produces :
      (ok : Bool) (q : Queue Message)
      → s.main ≡ producing
      → s.index < count
      → emplace s.queue (produced s.index) ≡ (ok, q)
      → t ≡ record s { queue = q; index = (s.index + 1) % 2 ^ 32; results = s.results ++ ok ∷ [] }
      → Step count s t
  -- `running = false`
  stops :
      s.main ≡ producing
      → count ≤ s.index
      → t ≡ record s { main = joining; running = false }
      → Step count s t
  joins : s.main ≡ joining → s.consumer ≡ gone → t ≡ record s { main = finished } → Step count s t
  enters :
      s.consumer ≡ testing → s.running ≡ true → t ≡ record s { consumer = popping } → Step count s t
  leaves :
      s.consumer ≡ testing → s.running ≡ false → t ≡ record s { consumer = gone } → Step count s t
  receives :
      (m : Message) (q : Queue Message)
      → s.consumer ≡ popping
      → pop_front s.queue ≡ some (m, q)
      → t ≡ record s { queue = q; consumer = testing; received = s.received ++ m ∷ [] }
      → Step count s t
  -- `popWait` returns false after 500ms, which it does only if the queue is empty then.
  times_out :
      s.consumer ≡ popping
      → pop_front s.queue ≡ none
      → t ≡ record s { consumer = testing }
      → Step count s t

pub data Reach (count : ℕ) (s : State) : State → Type 0 where
  here : Reach count s s
  next : {t u : State} → Reach count s t → Step count t u → Reach count s u
