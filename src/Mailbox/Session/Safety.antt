-- ===== src/Mailbox/Session/Safety.antt =====
-- Mailbox.h: what holds after any calls of an initialised program.
use msglib_cpp.Common.{
  ℕ, zero, suc, ◌+◌, ◌≤◌, ◌<◌, ◌^◌, ◌≡◌, ◌≢◌, refl, ◌∙◌, subst, inl, inr, Option-cases, true, false,
  Option, none, some, List, [], ◌∷◌, arith, length, ◌==◌, if◌then◌else◌, total-cons, total-nil,
}
use native.Mathlib.Decide.{ℕ_discrete}
use msglib_cpp.Common.State.{done}
use msglib_cpp.Pool.{Memory, new_pool}
use msglib_cpp.Pool.Resource.{MemoryResource, present, present-le}
use msglib_cpp.Message.{Message}
use msglib_cpp.Queue.{new_queue}
use msglib_cpp.MailboxData
use msglib_cpp.MailboxData.{
  MailboxData, Resources, uninitialized, new_resources, byte_size, resources_on,
}
use msglib_cpp.Mailbox.{World, Mailbox, new_mailbox, find_mailbox, initialize_with}
use msglib_cpp.Mailbox.Messages.{
  all_messages, owns, in_small, in_large, queued, all_mono, all-le-add,
}
use msglib_cpp.Mailbox.Session.{Session, Call, IsValid, run, failure, failures}
use msglib_cpp.Mailbox.Session.Invariant.{Setup, Inv}
use msglib_cpp.Mailbox.Session.Steps.{step-Keeps}
use msglib_cpp.Mailbox.Sends.{All}

-- Does a message carry the block at `p`?
abbrev pub has_block : ℕ → Message → ℕ
has_block p m = elim m.bytes [ none ↦ 0 | some q ↦ if q == p then 1 else 0 ]

present-two : (o : Option ℕ) (n k : ℕ) → n ≢ k → present o n + present o k ≤ 1
present-two none n k h = omega arith
present-two (some j) n k h = ground arith

-- If each message owns its block as a small one or as a large one, a block has one message.
unshared_block :
    (small large : ℕ) (ms : List (Option Mailbox)) (held lost : List Message) (p : ℕ) (o : Option ℕ)
    → all_messages (owns small large p small) ms held lost ≡ present o small
    → all_messages (owns small large p large) ms held lost ≡ present o large
    → all_messages (has_block p) ms held lost ≤ 1
unshared_block small large ms held lost p o a b = elim (ℕ_discrete small large) [
  | yes same ↦ omega (
    arith,
    all_mono (has_block p) ms held lost (owns small large p small) (λ m. ground arith),
    present-le o small,
  )
  | no other ↦ omega (
    arith,
    all-le-add (has_block p) ms held lost (owns small large p small) (owns small large p large)
        (λ m. ground arith),
    present-two o small large other,
  )
]

-- Mailboxes with the given queue sizes.
abbrev pub new_mailboxes : List ℕ → List (Option Mailbox)
new_mailboxes [] = []
new_mailboxes (k ∷ ks) = some (new_mailbox k) ∷ new_mailboxes ks

all-new : (f : Message → ℕ) (ks : List ℕ) → all_messages f (new_mailboxes ks) [] [] ≡ 0
unfolding all_messages new_mailbox new_queue
all-new f [] = omega (arith, total-nil (queued f), total-nil f)
all-new f (k ∷ ks) = omega (
  arith,
  total-nil f,
  total-cons (queued f) (some (new_mailbox k)) (new_mailboxes ks),
  all-new f ks,
)

new-alive :
    (ks : List ℕ) (i : ℕ)
    → i < length ks
    → (q : Mailbox) × (find_mailbox (new_mailboxes ks) i ≡ some q)
new-alive [] i h = absurd (omega arith)
new-alive (k ∷ ks) zero h = (new_mailbox k, refl)
new-alive (k ∷ ks) (suc i) h = new-alive ks i (omega arith)

module _ {Arena : Type 0} ⦃r : MemoryResource Arena⦄ where
  abbrev pub fresh_world : List ℕ → Memory → World Arena
  fresh_world ks memory = record {
    shared = uninitialized;
    mailboxes = new_mailboxes ks;
    memory = memory;
  }

  run-Inv :
      {n : Setup} (s : Session Arena) (cs : List Call)
      → All (IsValid n.mailboxes) cs
      → (v : Inv n s)
      → (s' : Session Arena) × (v' : Inv n s') × (run s cs ≡ done s')
        × (failures s cs ≡ 0 → v'.lost ≡ v.lost)
  unfolding run failures
  run-Inv s [] h v = (s, v, refl, λ _. refl)
  run-Inv s (c ∷ cs) h v =
      let (s1, v1, e, k) = step-Keeps s c h.0 v in
      let (s2, v2, e2, k2) = run-Inv s1 cs h.1 v1 in
      (
        s2,
        v2,
        rw (e, run) e2,
        λ z.
            let both : failure s c + failures s1 cs ≡ 0 = rw e at z in
            k2 (omega arith) ∙ k (omega arith),
      )

  module _ (n : Setup) (ks : List ℕ) (memory : Memory) (a : Arena) where
    initialized_shared : MailboxData Arena
    initialized_shared = record {
      locked = false;
      initialized = true;
      resources = some (resources_on n.small_size n.small_cap n.large_size n.large_cap a);
    }

    initialized-Inv :
        (k : ℕ)
        → r.make k ≡ some a
        → n.mailboxes ≡ length ks
        → n.small_cap < 2 ^ 64
        → n.large_cap < 2 ^ 64
        → n.large_size < 2 ^ 16
        → Inv n (record {
          world = record (fresh_world ks memory) { shared = initialized_shared };
          held = [];
        })
    unfolding initialized_shared resources_on new_pool
    initialized-Inv k made count sc lc ls = record {
      resources = resources_on n.small_size n.small_cap n.large_size n.large_cap a;
      lost = [];
      fixed = record { small_size = refl; large_size = refl; small_cap = refl; large_cap = refl };
      ready = record { unlocked = refl; initialized = refl; resources = refl };
      accounted = record {
        small_elt = refl;
        large_elt = refl;
        small_cap = sc;
        large_cap = lc;
        fits = ls;
        small_counted = omega (arith, all-new (in_small n.small_size) ks);
        large_counted = omega (arith, all-new (in_large n.small_size) ks);
        owned = λ p k. rw (all-new (owns n.small_size n.large_size p k) ks, r.make-live _ made p);
      };
      alive = λ i h. new-alive ks i (omega arith);
      known = λ label i h. absurd (omega arith);
    }

  -- What `Initialize` leaves when it returns true.
  initialize-true :
      (n : Setup) (ks : List ℕ) (memory : Memory) (w : World Arena)
      → initialize_with n.small_size n.small_cap n.large_size n.large_cap (fresh_world ks memory)
        ≡ done (true, w)
      → (a : Arena) × (r.make (byte_size n.small_size n.small_cap n.large_size n.large_cap)
          ≡ some a)
        × (record (fresh_world ks memory) { shared = initialized_shared n ks memory a } ≡ w)
  unfolding initialize_with MailboxData.initialize_with new_resources initialized_shared
  initialize-true n ks memory w e =
      elim (Option-cases (r.make (byte_size n.small_size n.small_cap n.large_size n.large_cap))) [
        | inl failed ↦ cc
        | inr (a, made) ↦ (a, made, ground (arith, made))
      ]

  -- How the blocks of a session are spread: what the small pool has left and the messages with a
  -- block of it make up its capacity, so for the large pool. A message has the block at `p`, with the
  -- size `k` of its pool, once if the memory resource has that block out with that size, and not at
  -- all otherwise. No block has two messages.
  pub record IsBalanced (n : Setup) (s : Session Arena) : Type 0 where
    pub resources : Resources Arena
    pub lost : List Message
    pub here : s.world.shared.resources ≡ some resources
    pub small_counted :
        resources.small_pool.size
          + all_messages (in_small n.small_size) s.world.mailboxes s.held lost
        ≡ n.small_cap
    pub large_counted :
        resources.large_pool.size
          + all_messages (in_large n.small_size) s.world.mailboxes s.held lost
        ≡ n.large_cap
    pub owned :
        (p k : ℕ)
        → all_messages (owns n.small_size n.large_size p k) s.world.mailboxes s.held lost
          ≡ present (r.live resources.arena p) k
    pub unshared : (p : ℕ) → all_messages (has_block p) s.world.mailboxes s.held lost ≤ 1

  Inv-IsBalanced : (n : Setup) (s : Session Arena) → Inv n s → IsBalanced n s
  Inv-IsBalanced n s v = record {
    resources = v.resources;
    lost = v.lost;
    here = v.ready.resources;
    small_counted = rw (← v.fixed.small_size, ← v.fixed.small_cap) v.accounted.small_counted;
    large_counted = rw (← v.fixed.small_size, ← v.fixed.large_cap) v.accounted.large_counted;
    owned = rw (← v.fixed.small_size, ← v.fixed.large_size) v.accounted.owned;
    unshared = λ p.
        let x = v.resources in
        unshared_block x.small_size x.large_size s.world.mailboxes s.held v.lost p
          (r.live x.arena p) (v.accounted.owned p x.small_size) (v.accounted.owned p x.large_size);
  }

  -- After a first `Initialize` that returned true, with capacities below 2^64 and a large size
  -- below 2^16, no sequence of calls on the program's mailboxes runs into a fault. Afterwards what
  -- each pool has left and the messages that carry a block of it, queued, received and not released,
  -- or lost, make up its capacity; the blocks that these messages carry, with the sizes of their
  -- pools, are exactly those that the memory resource has out, and no two carry the same. If no
  -- `SendMessage` of the sequence returned false, no message is lost.
  pub run-IsBalanced :
      (n : Setup) (ks : List ℕ) (memory : Memory) (w : World Arena) (cs : List Call)
      → initialize_with n.small_size n.small_cap n.large_size n.large_cap (fresh_world ks memory)
        ≡ done (true, w)
      → n.mailboxes ≡ length ks
      → n.small_cap < 2 ^ 64
      → n.large_cap < 2 ^ 64
      → n.large_size < 2 ^ 16
      → All (IsValid n.mailboxes) cs
      → let begin : Session Arena = record { world = w; held = [] } in
        (s : Session Arena) × (spread : IsBalanced n s) × (run begin cs ≡ done s)
        × (failures begin cs ≡ 0 → spread.lost ≡ [])
  unfolding Inv-IsBalanced initialized-Inv
  run-IsBalanced n ks memory w cs e count sc lc ls valid =
      let (a, made, same) = initialize-true n ks memory w e in
      let start = initialized-Inv n ks memory a _ made count sc lc ls in
      let (v0, none_lost) =
        subst (λ z. (v0 : Inv n (record { world = z; held = [] })) × (v0.lost ≡ [])) same
          (start, refl) in
      let (s, v, ran, kept) = run-Inv _ cs valid v0 in
      (s, Inv-IsBalanced n s v, ran, λ z. kept z ∙ none_lost)
