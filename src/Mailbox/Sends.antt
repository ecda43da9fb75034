-- ===== src/Mailbox/Sends.antt =====
-- Mailbox.h: what sending does to every mailbox, as a relation between the worlds before and after
-- that composes along the loop of `SendMessage`.
pub mod One
pub mod Loop
use msglib_cpp.Common.{
  ℕ, ◌+◌, ◌≤◌, ◌<◌, ◌≡◌, refl, sym, ap, ◌∙◌, Bool, true, false, ◌&&◌, Option, none, some, List, [],
  ◌∷◌, ◌++◌, arith, length, take, length-append, get_elem?,
}
use mathlib.Core.List.{append-nil, append_assoc}
use msglib_cpp.Pool.{Memory}
use msglib_cpp.Pool.Resource.{MemoryResource}
use msglib_cpp.Queue.{Queue}
use msglib_cpp.Message.{Message}
use msglib_cpp.MailboxData.{Resources}
use msglib_cpp.Mailbox.{World, Mailbox, find_mailbox}
use msglib_cpp.Mailbox.Accounting.{Accounted}
use msglib_cpp.Mailbox.Blocks.{with_resources}

abbrev pub All {ℓ κ} : {A : Type ℓ} → (A → Type κ) → List A → Type κ
All P [] = Unit
All P (x ∷ xs) = P x × All P xs

pub All-append {ℓ κ} :
    {A : Type ℓ} (P : A → Type κ) (xs ys : List A) → All P xs → All P ys → All P (xs ++ ys)
All-append P [] ys a b = b
All-append P (x ∷ xs) ys a b = (a.0, All-append P xs ys a.1 b)

pub All-map {ℓ κ} :
    {A : Type ℓ} (P Q : A → Type κ) (f : (a : A) → P a → Q a) (xs : List A) → All P xs → All Q xs
All-map P Q f [] a = tt
All-map P Q f (x ∷ xs) a = (f x a.0, All-map P Q f xs a.1)

both : (a b : Bool) → (a && b) ≡ true → (a ≡ true) × (b ≡ true)
both a b e = ground arith

-- A mailbox after the messages `new` were put behind those it had.
abbrev pub behind : Mailbox → List Message → Mailbox
behind q new = record q { items = q.items ++ new }

module _ {Arena : Type 0} ⦃r : MemoryResource Arena⦄ (label : ℕ) (t : List ℕ) where
  -- The message carries the label and the value `t`, in a block of its own that is out.
  pub record Holds (memory : Memory) (x : Resources Arena) (m : Message) : Type 0 where
    pub labelled : m.label ≡ label
    pub sized : m.size ≡ length t
    pub block : ℕ
    pub bytes : m.bytes ≡ some block
    pub live : (n : ℕ) × (r.live x.arena block ≡ some n)
    pub content : take (length t) (memory block) ≡ t

  -- Between `w` and `w'` each mailbox `i` got at most `c i` new messages that hold `t`, and exactly
  -- as many if the result `b` is true, and no mailbox came to life; blocks that were out are out, with what they contained.
  pub record Sends (held : List Message) (c : ℕ → ℕ) (w : World Arena) (x : Resources Arena)
      (lost : List Message) (b : Bool) (w' : World Arena) (x' : Resources Arena)
      (lost' : List Message) : Type 0 where
    pub accounted : Accounted x' w'.mailboxes held lost'
    pub shared : w'.shared ≡ with_resources w.shared x'
    pub small_size : x'.small_size ≡ x.small_size
    pub large_size : x'.large_size ≡ x.large_size
    pub small_capacity : x'.small_pool.capacity ≡ x.small_pool.capacity
    pub large_capacity : x'.large_pool.capacity ≡ x.large_pool.capacity
    pub registered : x'.mailboxes ≡ x.mailboxes
    pub kept :
        (p n : ℕ)
        → r.live x.arena p ≡ some n
        → (r.live x'.arena p ≡ some n) × (w'.memory p ≡ w.memory p)
    pub dead : (i : ℕ) → get_elem? w.mailboxes i ≡ some none → get_elem? w'.mailboxes i ≡ some none
    pub nothing_lost : b ≡ true → lost' ≡ lost
    pub delivered :
        (i : ℕ) (q : Mailbox)
        → find_mailbox w.mailboxes i ≡ some q
        → (new : List Message) × (find_mailbox w'.mailboxes i ≡ some (behind q new))
          × All (Holds w'.memory x') new
          × (length new ≤ c i)
          × (b ≡ true → length new ≡ c i)

  Holds-kept :
      (w w' : World Arena) (x x' : Resources Arena)
      → ((p n : ℕ)
          → r.live x.arena p ≡ some n
          → (r.live x'.arena p ≡ some n) × (w'.memory p ≡ w.memory p))
      → (m : Message) → Holds w.memory x m
      → Holds w'.memory x' m
  Holds-kept w w' x x' k m h =
      let (n, l) = h.live in
      let (l', e) = k h.block n l in
      record {
        labelled = h.labelled;
        sized = h.sized;
        block = h.block;
        bytes = h.bytes;
        live = (n, l');
        content = rw e h.content;
      }

  module _ {held : List Message} where
    pub Sends-none :
        {w : World Arena} {x : Resources Arena} {lost : List Message}
        → w.shared.resources ≡ some x
        → Accounted x w.mailboxes held lost
        → Sends held (λ _. 0) w x lost true w x lost
    Sends-none e v = record {
      accounted = v;
      shared = ground arith;
      small_size = refl;
      large_size = refl;
      small_capacity = refl;
      large_capacity = refl;
      registered = refl;
      kept = λ p n l. (l, refl);
      dead = λ i f. f;
      nothing_lost = λ _. refl;
      delivered = λ i q f. ([], rw append-nil f, tt, omega arith, λ _. refl);
    }

    pub Sends-trans :
        {c d : ℕ → ℕ} {w w' w'' : World Arena} {x x' x'' : Resources Arena}
        {lost lost' lost'' : List Message} {a b : Bool}
        → Sends held c w x lost a w' x' lost'
        → Sends held d w' x' lost' b w'' x'' lost''
        → Sends held (λ i. c i + d i) w x lost (a && b) w'' x'' lost''
    Sends-trans {c} {d} {w} {w'} {w''} {x} {x'} {x''} {a} {b} f g = record {
      accounted = g.accounted;
      shared = g.shared ∙ ap (λ d. with_resources d x'') f.shared;
      small_size = g.small_size ∙ f.small_size;
      large_size = g.large_size ∙ f.large_size;
      small_capacity = g.small_capacity ∙ f.small_capacity;
      large_capacity = g.large_capacity ∙ f.large_capacity;
      registered = g.registered ∙ f.registered;
      kept = λ p n l. let (l', e) = f.kept p n l in let (l'', e') = g.kept p n l' in (l'', e' ∙ e);
      dead = λ i h. g.dead i (f.dead i h);
      nothing_lost = λ y. let (ya, yb) = both a b y in g.nothing_lost yb ∙ f.nothing_lost ya;
      delivered = λ i q e.
          let (new, e', all, le, eq) = f.delivered i q e in
          let (more, e'', all', le', eq') = g.delivered i (behind q new) e' in
          (
            new ++ more,
            rw append_assoc at e'',
            All-append _ new more (All-map _ _ (Holds-kept w' w'' x' x'' g.kept) new all) all',
            omega (arith, length-append new more),
            λ y. let (ya, yb) = both a b y in omega (arith, length-append new more, eq ya, eq' yb),
          );
    }
