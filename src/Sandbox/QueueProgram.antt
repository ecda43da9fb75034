-- ===== src/Sandbox/QueueProgram.antt =====
-- sandbox/queue.cpp: main fills a queue and one more, then produces messages while a thread consumes
-- them. What it prints goes to spdlog; what the other thread does meanwhile is an argument
-- here, and Threads has the two together.
pub mod Threads
use msglib_cpp.Common.{
  ℕ, zero, suc, ◌+◌, ◌%◌, ◌≤◌, ◌<◌, ◌^◌, ◌≡◌, ◌⊎◌, refl, ap, Bool, true, false, Option, none, some,
  List, [], ◌∷◌, ◌++◌, arith, if◌then◌else◌, Option-cases, Bool-cases, inl, inr, ltb, lt→ltb,
  le→ltb-false, length, length-append,
}
use native.Mathlib.Decide.{dec_lt}
use mathlib.Core.List.{append-nil, append_assoc}
use mathlib.Core.Option.{map}
use msglib_cpp.Message.{Message, message}
use msglib_cpp.Queue.{Queue, new_queue, emplace, pop_front}
use msglib_cpp.Queue.Fifo.{pop_front-some}
use msglib_cpp.Mailbox.Signals.{replicate}

pub record Options : Type 0 where
  pub storage_size : ℕ
  pub count : ℕ
  pub queue_size : ℕ
  pub log : ℕ

-- spdlog::level::trace is 0.
abbrev pub default_options : Options
default_options = record { storage_size = 12228; count = 10; queue_size = 5; log = 0 }

-- What `getopt` returns, with what `std::stoul` and `std::stoi` make of the argument.
pub data Opt : Type 0 where
  opt_s opt_c opt_q opt_l : ℕ → Opt
  opt_usage : Opt

-- The loop over the options: `none` for `exit(1)`.
unfoldable pub read_options : List Opt → Options → Option Options
read_options [] o = some o
read_options (opt_s n ∷ os) o = read_options os (record o { storage_size = n })
read_options (opt_c n ∷ os) o = read_options os (record o { count = n })
read_options (opt_q n ∷ os) o = read_options os (record o { queue_size = n })
read_options (opt_l n ∷ os) o = read_options os (record o { log = n })
read_options (opt_usage ∷ os) o = none

-- `n` turns of the loop of main from the index `i` on, which is cut to a 16-bit label.
unfoldable pub prefill_from : ℕ → ℕ → Queue Message → List Bool × Queue Message
prefill_from zero i q = ([], q)
prefill_from (suc n) i q =
    let (ok, q') = emplace q (message (i % 2 ^ 16) 16 none) in
    let (oks, q'') = prefill_from n (i + 1) q' in (ok ∷ oks, q'')

-- The loop of main, to a `size_t` bound.
unfoldable pub prefill : ℕ → Queue Message → List Bool × Queue Message
prefill queue_size q = prefill_from ((queue_size + 1) % 2 ^ 64) 0 q

-- `producer`, for so many turns at most; `others i` is what the consumer does to the queue before
-- the turn with the index `i`, a `uint32_t`.
unfoldable pub producer :
    (ℕ → Queue Message → Queue Message)
    → ℕ
    → ℕ
    → ℕ
    → Queue Message
    → Option (List Bool × Queue Message)
producer others zero i count q = none
producer others (suc fuel) i count q =
    let (ok, q') = emplace (others i q) (message (i % 2 ^ 16) ((i + 1) % 2 ^ 32) none) in
    let rest = producer others fuel ((i + 1) % 2 ^ 32) count q' in
    if ltb i count then map (λ (oks, end). (ok ∷ oks, end)) rest else some ([], q)

-- A turn of `consumer`: what `running` is, and the messages that others put into the queue before
-- `popWait` looks at it for the last time.
pub record Turn : Type 0 where
  pub running : Bool
  pub pushed : List Message

-- `consumer`, with what it logs, for the turns of a run.
unfoldable pub consumer : List Turn → Queue Message → List Message × Queue Message
consumer [] q = ([], q)
consumer (t ∷ ts) q =
    let offered : Queue Message = record q { items = q.items ++ t.pushed } in
    elim t.running [
      | false ↦ ([], q)
      | true ↦ elim (pop_front offered) [
        | none ↦ consumer ts offered
        | some (m, q') ↦ let (ms, q'') = consumer ts q' in (m ∷ ms, q'')
      ]
    ]

-- The messages of `n` turns of the loop of main from `i` on.
abbrev pub numbered : ℕ → ℕ → List Message
numbered zero i = []
numbered (suc n) i = message (i % 2 ^ 16) 16 none ∷ numbered n (i + 1)

pub emplace-free :
    (q : Queue Message) (m : Message)
    → length q.items < q.capacity
    → emplace q m ≡ (true, record q { items = q.items ++ m ∷ [] })
unfolding emplace
emplace-free q m h = rw (lt→ltb _ _ h) refl

pub emplace-full :
    (q : Queue Message) (m : Message) → q.capacity ≤ length q.items → emplace q m ≡ (false, q)
unfolding emplace
emplace-full q m h = rw (le→ltb-false _ _ h) refl

prefill_from-free :
    (n i : ℕ) (q : Queue Message)
    → length q.items < q.capacity
    → let m = message (i % 2 ^ 16) 16 none in
      let (oks, q') = prefill_from n (i + 1) (record q { items = q.items ++ m ∷ [] }) in
      prefill_from (suc n) i q ≡ (true ∷ oks, q')
unfolding prefill_from
prefill_from-free n i q h = rw (emplace-free q (message (i % 2 ^ 16) 16 none) h) refl

prefill_from-full :
    (i : ℕ) (q : Queue Message) → q.capacity ≤ length q.items → prefill_from 1 i q ≡ (false ∷ [], q)
unfolding prefill_from
prefill_from-full i q h = rw (emplace-full q (message (i % 2 ^ 16) 16 none) h) refl

prefill_from-one_more :
    (n i : ℕ) (q : Queue Message)
    → length q.items + n ≡ q.capacity
    → prefill_from (suc n) i q
      ≡ (replicate n true ++ false ∷ [], record q { items = q.items ++ numbered n i })
prefill_from-one_more zero i q h = rw (prefill_from-full i q (omega arith), append-nil) refl
prefill_from-one_more (suc n) i q h =
    let m = message (i % 2 ^ 16) 16 none in
    let next =
      prefill_from-one_more n (i + 1) (record q { items = q.items ++ m ∷ [] })
        (omega (arith, length-append q.items (m ∷ []))) in
    rw (prefill_from-free (suc n) i q (omega arith), next, append_assoc) refl

-- A queue of fewer than 2^64 - 1 messages takes one message for each index that it has room for,
-- labelled with the index modulo 2^16, in order, and the last call of main's loop fails.
pub prefill_lem :
    (n : ℕ)
    → n + 1 < 2 ^ 64
    → prefill n (new_queue n)
      ≡ (replicate n true ++ false ∷ [], record { items = numbered n 0; capacity = n })
unfolding prefill new_queue
prefill_lem n h =
    let same : (n + 1) % 2 ^ 64 ≡ suc n = omega arith in
    rw same (prefill_from-one_more n 0 (record { items = []; capacity = n }) (omega arith))

module _ (others : ℕ → Queue Message → Queue Message) (count : ℕ) where
  producer-ends :
      (fuel i : ℕ) (q : Queue Message)
      → count < 2 ^ 32
      → i ≤ count
      → count < i + fuel
      → (oks : List Bool) × (q' : Queue Message) × (producer others fuel i count q ≡ some (oks, q'))
        × (length oks + i ≡ count)
  unfolding producer
  producer-ends zero i q small le h = absurd (omega arith)
  producer-ends (suc fuel) i q small le h =
      let (ok, q') = emplace (others i q) (message (i % 2 ^ 16) ((i + 1) % 2 ^ 32) none) in
      elim (dec_lt i count) [
        | yes more ↦
            let same : (i + 1) % 2 ^ 32 ≡ i + 1 = omega arith in
            let (oks, q'', run, n) =
              producer-ends fuel (i + 1) q' small (omega arith) (omega arith) in
            (ok ∷ oks, q'', ground (arith, run, same), omega (arith, n))
        | no over ↦ ([], q, rw (le→ltb-false i count (omega arith)) refl, omega arith)
      ]

  producer-goes_on :
      (fuel i : ℕ) (q : Queue Message)
      → 2 ^ 32 ≤ count
      → i < 2 ^ 32
      → producer others fuel i count q ≡ none
  unfolding producer
  producer-goes_on zero i q large lt = refl
  producer-goes_on (suc fuel) i q large lt =
      let (ok, q') = emplace (others i q) (message (i % 2 ^ 16) ((i + 1) % 2 ^ 32) none) in
      rw
        (
          lt→ltb i count (omega arith),
          producer-goes_on fuel ((i + 1) % 2 ^ 32) q' large (omega arith),
        )
        refl

  -- Whatever the consumer does: below 2^32, the producer returns after as many calls of `emplace` as
  -- its count. From 2^32 on it never returns, since its 32-bit index wraps before it reaches the count.
  pub producer_ends_iff :
      (q : Queue Message)
      → ((count < 2 ^ 32)
          × ((oks : List Bool) × (q' : Queue Message) × (producer others (suc count) 0 count q
                ≡ some (oks, q'))
              × (length oks ≡ count)))
        ⊎ ((2 ^ 32 ≤ count) × ((fuel : ℕ) → producer others fuel 0 count q ≡ none))
  producer_ends_iff q = elim (dec_lt count (2 ^ 32)) [
    | yes small ↦
        let (oks, q', run, n) = producer-ends (suc count) 0 q small (omega arith) (omega arith) in
        inl (small, (oks, q', run, omega (arith, n)))
    | no large ↦
        let le : 2 ^ 32 ≤ count = omega arith in
        inr (le, λ fuel. producer-goes_on fuel 0 q le (omega arith))
  ]

-- What others put into the queue while the consumer runs.
abbrev pub while_running : List Turn → List Message
while_running [] = []
while_running (t ∷ ts) = if t.running then t.pushed ++ while_running ts else []

-- What the consumer logs, with what it leaves in the queue, is what the queue had at first and what
-- was put into it while the consumer ran, in that order, with nothing lost or logged twice.
pub consumer_lem :
    (ts : List Turn) (q : Queue Message)
    → let (ms, q') = consumer ts q in ms ++ q'.items ≡ q.items ++ while_running ts
unfolding consumer
consumer_lem [] q = rw append-nil refl
consumer_lem (t ∷ ts) q = elim (Bool-cases t.running) [
  | inl goes ↦
      let offered : Queue Message = record q { items = q.items ++ t.pushed } in
      let again = append_assoc q.items t.pushed (while_running ts) in
      elim (Option-cases (pop_front offered)) [
        | inl f ↦ ground (arith, goes, f, consumer_lem ts offered, again)
        | inr ((m, q'), f) ↦
            let (items, same) = pop_front-some offered f in
            let rest = ap (◌∷◌ m) (consumer_lem ts q') in
            ground (arith, goes, f, rest, items, again)
      ]
  | inr stops ↦ ground (arith, stops, append-nil q.items)
]
