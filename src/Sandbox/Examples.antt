-- ===== src/Sandbox/Examples.antt =====
-- Tests of the sandbox programs, and instances of the theorems on them.
use msglib_cpp.Common.{
  ℕ, ◌+◌, ◌≤◌, ◌<◌, ◌^◌, ◌≡◌, ◌⊎◌, refl, Bool, true, false, none, some, List, [], ◌∷◌, ◌++◌, arith,
  total, length, leb, if◌then◌else◌,
}
use msglib_cpp.Pool.{failed_block}
use msglib_cpp.Pool.Buffer.{Buffer, buffer_resource}
use msglib_cpp.Queue.{Queue, new_queue}
use msglib_cpp.Message.{Message, message}
use msglib_cpp.Sandbox.DiagResource
use msglib_cpp.Sandbox.DiagResource.{
  Upstream, Entry, allocates, deallocates, through, direct, entries, do_is_equal, through-direct,
}
use msglib_cpp.Sandbox.PoolProgram
use msglib_cpp.Sandbox.PoolProgram.{run_pool, is_block, run_pool_lem}
use msglib_cpp.Sandbox.QueueProgram.{producer, consumer, Turn, producer_ends_iff, consumer_lem}

-- A resource that gives addresses in order, up to a limit of bytes, and takes nothing back.
instance abbrev monotonic : Upstream (ℕ × ℕ)
monotonic = record {
  allocate = λ (next, limit) n alignment.
      if leb (next + n) limit then some (next, (next + n, limit)) else none;
  deallocate = λ a p n alignment. some a;
}

abbrev calls : List DiagResource.Call
calls = allocates 6 1 ∷ allocates 8 1 ∷ deallocates 0 6 1 ∷ []

abbrev quiet : DiagResource.DiagResource (ℕ × ℕ)
quiet = record { upstream = (0, 10); log = [] }

abbrev directly : List DiagResource.Answer × (ℕ × ℕ)
directly = direct calls quiet.upstream

through-direct_example :
    through calls quiet
    ≡ (directly.0, record { upstream = directly.1; log = entries calls directly.0 })
through-direct_example = through-direct calls (0, 10) []

do_is_equal_self : do_is_equal 3 3 ≡ true
unfolding do_is_equal
do_is_equal_self = refl

abbrev two_blocks : PoolProgram.Options
two_blocks = record { storage_size = 100; capacity = 2; element_size = 16; log = 0 }

abbrev room : Buffer
room = record { room = 100; blocks = [] }

run_pool_lem_example :
    let end = run_pool two_blocks room in
    (length end.elements ≡ 2)
    × ((total is_block end.elements < 2) ⊎ (end.blk ≡ failed_block))
    × (end.pool.size + is_block end.blk ≡ 2)
run_pool_lem_example = run_pool_lem two_blocks room (omega arith)

producer_ends_iff_example :
    ((2 < 2 ^ 32)
      × ((oks : List Bool) × (q' : Queue Message) × (producer (λ i q. q) 3 0 2 (new_queue 1)
            ≡ some (oks, q'))
          × (length oks ≡ 2)))
    ⊎ ((2 ^ 32 ≤ 2) × ((fuel : ℕ) → producer (λ i q. q) fuel 0 2 (new_queue 1) ≡ none))
producer_ends_iff_example = producer_ends_iff (λ i q. q) 2 (new_queue 1)

-- The consumer gets what was in the queue, waits once for nothing, and is told to stop.
abbrev turns : List Turn
turns =
    record { running = true; pushed = [] }
    ∷ record { running = true; pushed = [] }
    ∷ record { running = true; pushed = message 7 16 none ∷ message 8 16 none ∷ [] }
    ∷ record { running = false; pushed = message 9 16 none ∷ [] }
    ∷ []

consumer_receives :
    let (ms, q') = consumer turns (record { items = message 6 16 none ∷ []; capacity = 3 }) in
    ms ++ q'.items ≡ message 6 16 none ∷ message 7 16 none ∷ message 8 16 none ∷ []
consumer_receives = consumer_lem turns (record { items = message 6 16 none ∷ []; capacity = 3 })
