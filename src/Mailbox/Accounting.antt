-- ===== src/Mailbox/Accounting.antt =====
-- Mailbox.h: who owns each message block. A block that the memory resource has out belongs to one
-- message: one in a queue, one that a client has received and not released, or one that the
-- library has dropped (`lost`); and the message's size says which pool the block came from.
use msglib_cpp.Common.{
  ℕ, ◌+◌, ◌-◌, ◌%◌, ◌^◌, ◌<◌, ◌≡◌, Bool, true, false, not, Option, none, some, List, ◌∷◌, arith,
  leb, ◌==◌, if◌then◌else◌,
}
use msglib_cpp.Pool.{BytePool}
use msglib_cpp.Pool.Resource.{MemoryResource, present, present-pos}
use msglib_cpp.Message.{Message}
use msglib_cpp.MailboxData.{Resources}
use msglib_cpp.Mailbox.{Mailbox}
use msglib_cpp.Mailbox.Messages.{block_size, owns, in_small, in_large, all_messages, all-hold}

pub record Accounted {Arena : Type 0} ⦃r : MemoryResource Arena⦄ (x : Resources Arena)
    (ms : List (Option Mailbox)) (held lost : List Message) : Type 0 where
  pub small_elt : x.small_pool.elt_size ≡ x.small_size
  pub large_elt : x.large_pool.elt_size ≡ x.large_size
  pub small_cap : x.small_pool.capacity < 2 ^ 64
  pub large_cap : x.large_pool.capacity < 2 ^ 64
  pub fits : x.large_size < 2 ^ 16
  pub small_counted :
      x.small_pool.size + all_messages (in_small x.small_size) ms held lost ≡ x.small_pool.capacity
  pub large_counted :
      x.large_pool.size + all_messages (in_large x.small_size) ms held lost ≡ x.large_pool.capacity
  pub owned :
      (p n : ℕ)
      → all_messages (owns x.small_size x.large_size p n) ms held lost
        ≡ present (r.live x.arena p) n

-- The resources after one pool has handed out a block, or taken one back.
abbrev pub taken : {Arena : Type 0} → Bool → Resources Arena → Arena → Resources Arena
taken true x a = record x {
  large_pool = record x.large_pool { size = x.large_pool.size - 1 };
  arena = a;
}
taken false x a = record x {
  small_pool = record x.small_pool { size = x.small_pool.size - 1 };
  arena = a;
}

abbrev pub freed : {Arena : Type 0} → Bool → Resources Arena → Arena → Resources Arena
freed true x a = record x {
  large_pool = record x.large_pool { size = (x.large_pool.size + 1) % 2 ^ 64 };
  arena = a;
}
freed false x a = record x {
  small_pool = record x.small_pool { size = (x.small_pool.size + 1) % 2 ^ 64 };
  arena = a;
}

abbrev pub pool_of : {Arena : Type 0} → Bool → Resources Arena → BytePool
pool_of true x = x.large_pool
pool_of false x = x.small_pool

module _ {Arena : Type 0} ⦃r : MemoryResource Arena⦄ {x : Resources Arena}
    {ms : List (Option Mailbox)} {held lost : List Message} (v : Accounted x ms held lost) where
  -- A new block, and a message that carries it in a client's hands.
  pub taken-Accounted :
      (is_large : Bool) (m : Message) {p : ℕ} {a : Arena}
      → 0 < (pool_of is_large x).size
      → r.allocate x.arena (pool_of is_large x).elt_size ≡ some (p, a)
      → m.bytes ≡ some p
      → leb m.size x.small_size ≡ not is_large
      → Accounted (taken is_large x a) ms (m ∷ held) lost
  taken-Accounted is_large m {p} {a} pos e b s = record {
    small_elt = ground (arith, v.small_elt);
    large_elt = ground (arith, v.large_elt);
    small_cap = ground (arith, v.small_cap);
    large_cap = ground (arith, v.large_cap);
    fits = ground (arith, v.fits);
    small_counted =
        ground (arith, v.small_counted, all-hold (in_small x.small_size) ms held lost m);
    large_counted =
        ground (arith, v.large_counted, all-hold (in_large x.small_size) ms held lost m);
    owned = λ q n. ground (
      arith,
      v.owned q n,
      v.small_elt,
      v.large_elt,
      all-hold (owns x.small_size x.large_size q n) ms held lost m,
      r.allocate-fresh _ _ e,
      r.allocate-live _ _ e q,
    );
  }

  -- What owns what does not depend on where a message is, nor on messages with no data.
  pub moved-Accounted :
      (ms' : List (Option Mailbox)) (held' lost' : List Message)
      → ((f : Message → ℕ)
          → ((m : Message) → m.bytes ≡ none → f m ≡ 0)
          → all_messages f ms' held' lost' ≡ all_messages f ms held lost)
      → Accounted x ms' held' lost'
  moved-Accounted ms' held' lost' h = record {
    small_elt = v.small_elt;
    large_elt = v.large_elt;
    small_cap = v.small_cap;
    large_cap = v.large_cap;
    fits = v.fits;
    small_counted = rw (h (in_small x.small_size) (λ m e. ground arith)) v.small_counted;
    large_counted = rw (h (in_large x.small_size) (λ m e. ground arith)) v.large_counted;
    owned = λ p n. rw (h (owns x.small_size x.large_size p n) (λ m e. ground arith)) (v.owned p n);
  }

  -- The block of a message that somebody has is out, with the size of the pool it came from.
  pub live_of_message :
      (m : Message) (p : ℕ)
      → m.bytes ≡ some p
      → (let n = block_size x.small_size x.large_size m in
          0 < all_messages (owns x.small_size x.large_size p n) ms held lost)
      → r.live x.arena p ≡ some (block_size x.small_size x.large_size m)
  live_of_message m p e h = present-pos _ _ (omega (arith, v.owned p _))

  -- A block goes back to its pool, and its message is gone.
  pub freed-Accounted :
      (m : Message) (p : ℕ) (a : Arena) (held' : List Message)
      → m.bytes ≡ some p
      → ((f : Message → ℕ) → all_messages f ms held' lost + f m ≡ all_messages f ms held lost)
      → r.live x.arena p ≡ some (block_size x.small_size x.large_size m)
      → ((q : ℕ) → r.live a q ≡ (if p == q then none else r.live x.arena q))
      → Accounted (freed (not (leb m.size x.small_size)) x a) ms held' lost
  freed-Accounted m p a held' b h l after = record {
    small_elt = ground (arith, v.small_elt);
    large_elt = ground (arith, v.large_elt);
    small_cap = ground (arith, v.small_cap);
    large_cap = ground (arith, v.large_cap);
    fits = ground (arith, v.fits);
    small_counted = ground (arith, v.small_counted, v.small_cap, h (in_small x.small_size));
    large_counted = ground (arith, v.large_counted, v.large_cap, h (in_large x.small_size));
    owned = λ q n. ground (arith, v.owned q n, after q, h (owns x.small_size x.large_size q n));
  }
