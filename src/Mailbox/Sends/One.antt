-- ===== src/Mailbox/Sends/One.antt =====
-- Mailbox.h: one receiver in the loop of `SendMessage`.
use msglib_cpp.Common.{
  ℕ, ◌+◌, ◌≤◌, ◌<◌, ◌≡◌, refl, sym, ◌∙◌, ap, inl, inr, Bool, true, false, Option, none, some,
  get_elem?, List, [], ◌∷◌, arith, ltb, ◌==◌, if◌then◌else◌, length, drop, set, take-append_length,
  get_elem?-set_self, get_elem?-set_ne, lt-length_of_get_elem?, Bool-cases,
}
use mathlib.Core.List.{append-nil}
use native.Mathlib.Decide.{dec_lt, ℕ_discrete}
use msglib_cpp.Common.State.{done}
use msglib_cpp.Pool.{put, copy_to, Memory}
use msglib_cpp.Pool.Resource.{MemoryResource}
use msglib_cpp.Queue.{emplace}
use msglib_cpp.Message.{Message, message}
use msglib_cpp.MailboxData.{Resources}
use msglib_cpp.Mailbox.{World, Mailbox, find_mailbox, send_one, fill_and_send}
use msglib_cpp.Mailbox.Messages.{all-hold, all-lose, all-enqueue, all-same}
use msglib_cpp.Mailbox.Accounting.{Accounted, taken, pool_of, taken-Accounted, moved-Accounted}
use msglib_cpp.Mailbox.Blocks.{with_resources, allocate_cases}
use msglib_cpp.Mailbox.Sends.{Holds, Sends, behind, All}

pub find-set :
    (ms : List (Option Mailbox)) (i j : ℕ) (q q' : Mailbox)
    → find_mailbox ms i ≡ some q
    → find_mailbox (set ms i (some q')) j ≡ (if i == j then some q' else find_mailbox ms j)
find-set ms i j q q' e = ground (
  arith,
  lt-length_of_get_elem? ms i {x = some q},
  get_elem?-set_self ms i (some q'),
  get_elem?-set_ne ms i j (some q'),
)

pub dead-set :
    (ms : List (Option Mailbox)) (i j : ℕ) (q q' : Mailbox)
    → find_mailbox ms i ≡ some q
    → get_elem? ms j ≡ some none
    → get_elem? (set ms i (some q')) j ≡ some none
dead-set ms i j q q' e f = elim (ℕ_discrete i j) [
  | yes same ↦ ground arith
  | no other ↦ rw (get_elem?-set_ne ms i j (some q') other) f
]

-- `put` into a block that is large enough.
put-fits :
    (t : List ℕ) (n p : ℕ) (m : Memory)
    → length t ≤ n
    → put (record { size = n; bytes = some p }) t m ≡ (true, copy_to m p t)
unfolding put
put-fits t n p m h = ground arith

abbrev pub new_message : ℕ → List ℕ → ℕ → Message
new_message label t p = message label (length t) (some p)

-- The world in which a block at `p` was taken, filled with `t` and handed to mailbox `i`.
abbrev pub filled :
    {Arena : Type 0} → World Arena → Resources Arena → ℕ → List ℕ → ℕ → Mailbox → World Arena
filled w x p t i q = record {
  shared = with_resources w.shared x;
  mailboxes = set w.mailboxes i (some q);
  memory = copy_to w.memory p t;
}

module _ {Arena : Type 0} ⦃r : MemoryResource Arena⦄ (label : ℕ) (t : List ℕ) where
  module _ (is_large : Bool) (mbox : ℕ) (q : Mailbox) (w : World Arena) (x : Resources Arena)
      (e : w.shared.resources ≡ some x) (f : find_mailbox w.mailboxes mbox ≡ some q)
      (fits : length t ≤ x.large_size) (l : is_large ≡ ltb x.small_size (length t))
      {held lost : List Message} (v : Accounted x w.mailboxes held lost) (p : ℕ) (a : Arena)
      (pos : 0 < (pool_of is_large x).size)
      (given : r.allocate x.arena (pool_of is_large x).elt_size ≡ some (p, a)) where
    -- The message has the block in hand.
    in_hand : Accounted (taken is_large x a) w.mailboxes (new_message label t p ∷ held) lost
    unfolding message
    in_hand =
        taken-Accounted v is_large (new_message label t p) pos given refl (ground (arith, v.fits))

    kept :
        (q' : Mailbox) (k n : ℕ)
        → r.live x.arena k ≡ some n
        → (r.live (taken is_large x a).arena k ≡ some n)
          × ((filled w (taken is_large x a) p t mbox q').memory k ≡ w.memory k)
    kept q' k n h = (
      ground (arith, r.allocate-fresh _ _ given, r.allocate-live _ _ given k),
      ground (arith, r.allocate-fresh _ _ given),
    )

    stored :
        (q' : Mailbox)
        → Holds label t
            (filled w (taken is_large x a) p t mbox q').memory
            (taken is_large x a)
            (new_message label t p)
    unfolding message
    stored q' = record {
      labelled = refl;
      sized = ground (arith, v.fits);
      block = p;
      bytes = refl;
      live = ((pool_of is_large x).elt_size, ground (arith, r.allocate-live _ _ given p));
      content = ground (arith, take-append_length t (drop (length t) (w.memory p)));
    }

    put-block :
        put (record { size = (pool_of is_large x).elt_size; bytes = some p }) t w.memory
        ≡ (true, copy_to w.memory p t)
    put-block = put-fits t _ p w.memory (ground (arith, v.small_elt, v.large_elt))

    -- The mailbox has room.
    room_lem :
        length q.items < q.capacity
        → fill_and_send label t mbox
            (record { size = (pool_of is_large x).elt_size; bytes = some p })
            (record w { shared = with_resources w.shared (taken is_large x a) })
          ≡ done
              (true, filled w (taken is_large x a) p t mbox (behind q (new_message label t p ∷ [])))
    unfolding fill_and_send emplace
    room_lem h = ground (arith, put-block)

    -- The mailbox is full: the block has been taken and filled, and no message carries it.
    pub full_lem :
        q.capacity ≤ length q.items
        → fill_and_send label t mbox
            (record { size = (pool_of is_large x).elt_size; bytes = some p })
            (record w { shared = with_resources w.shared (taken is_large x a) })
          ≡ done (false, filled w (taken is_large x a) p t mbox (behind q []))
    unfolding fill_and_send emplace
    full_lem h = ground (arith, put-block, append-nil q.items)

    -- What each mailbox then has, if mailbox `mbox` got `new`.
    delivers :
        (b : Bool) (new : List Message)
        → (let w' = filled w (taken is_large x a) p t mbox (behind q new) in
            All (Holds label t w'.memory (taken is_large x a)) new)
        → length new ≤ 1
        → (b ≡ true → length new ≡ 1)
        → let w' = filled w (taken is_large x a) p t mbox (behind q new) in
          (i : ℕ) (q0 : Mailbox)
          → find_mailbox w.mailboxes i ≡ some q0
          → (more : List Message) × (find_mailbox w'.mailboxes i ≡ some (behind q0 more))
            × All (Holds label t w'.memory (taken is_large x a)) more
            × (length more ≤ (if mbox == i then 1 else 0))
            × (b ≡ true → length more ≡ (if mbox == i then 1 else 0))
    delivers b new all le eq i q0 f0 = elim (Bool-cases (mbox == i)) [
      | inl same ↦ (
        new,
        ground (arith, find-set w.mailboxes mbox i q (behind q new) f),
        all,
        rw same le,
        rw same eq,
      )
      | inr other ↦ (
        [],
        ground (arith, find-set w.mailboxes mbox i q (behind q new) f, append-nil q0.items),
        tt,
        omega arith,
        λ y. rw other,
      )
    ]

    room-Sends :
        Sends label t held
          (λ i. if mbox == i then 1 else 0)
          w
          x
          lost
          true
          (filled w (taken is_large x a) p t mbox (behind q (new_message label t p ∷ [])))
          (taken is_large x a)
          lost
    room-Sends = record {
      accounted = moved-Accounted in_hand _ held lost λ g _.
          all-enqueue g w.mailboxes held lost mbox (new_message label t p) q _ f refl
          ∙ sym (all-hold g w.mailboxes held lost (new_message label t p));
      shared = refl;
      small_size = ground arith;
      large_size = ground arith;
      small_capacity = ground arith;
      large_capacity = ground arith;
      registered = ground arith;
      kept = kept (behind q (new_message label t p ∷ []));
      dead = λ i h. dead-set w.mailboxes mbox i q _ f h;
      nothing_lost = λ _. refl;
      delivered =
          delivers true (new_message label t p ∷ [])
            (stored (behind q (new_message label t p ∷ [])), tt) (omega arith) (λ _. refl);
    }

    full-Sends :
        Sends label t held
          (λ i. if mbox == i then 1 else 0)
          w
          x
          lost
          false
          (filled w (taken is_large x a) p t mbox (behind q []))
          (taken is_large x a)
          (new_message label t p ∷ lost)
    full-Sends = record {
      accounted = moved-Accounted in_hand _ held (new_message label t p ∷ lost) λ g _.
          all-lose g _ held lost (new_message label t p)
          ∙ (ap (λ n. g (new_message label t p) + n)
                (all-same g w.mailboxes held lost mbox q _ f (append-nil q.items))
              ∙ sym (all-hold g w.mailboxes held lost (new_message label t p)));
      shared = refl;
      small_size = ground arith;
      large_size = ground arith;
      small_capacity = ground arith;
      large_capacity = ground arith;
      registered = ground arith;
      kept = kept (behind q []);
      dead = λ i h. dead-set w.mailboxes mbox i q _ f h;
      nothing_lost = λ y. cc;
      delivered = delivers false [] tt (omega arith) (λ y. cc);
    }

  failed-Sends :
      (mbox : ℕ) (w : World Arena) (x : Resources Arena) (held lost : List Message)
      → Accounted x w.mailboxes held lost
      → Sends label t held
          (λ i. if mbox == i then 1 else 0)
          w
          x
          lost
          false
          (record w { shared = with_resources w.shared x })
          x
          lost
  failed-Sends mbox w x held lost v = record {
    accounted = v;
    shared = refl;
    small_size = refl;
    large_size = refl;
    small_capacity = refl;
    large_capacity = refl;
    registered = refl;
    kept = λ p n l. (l, refl);
    dead = λ i h. h;
    nothing_lost = λ y. refl;
    delivered = λ i q f. ([], rw append-nil f, tt, omega arith, λ y. cc);
  }

  -- `send_one` returns, and does what the loop needs of one receiver.
  pub send_one-Sends :
      (is_large : Bool) (mbox : ℕ) (q : Mailbox) (w : World Arena) (x : Resources Arena)
      (held lost : List Message)
      → w.shared.initialized ≡ true
      → w.shared.resources ≡ some x
      → Accounted x w.mailboxes held lost
      → find_mailbox w.mailboxes mbox ≡ some q
      → length t ≤ x.large_size
      → is_large ≡ ltb x.small_size (length t)
      → (b : Bool) × (w' : World Arena) × (x' : Resources Arena) × (lost' : List Message)
        × (send_one label t is_large mbox w ≡ done (b, w'))
        × Sends label t held (λ i. if mbox == i then 1 else 0) w x lost b w' x' lost'
  unfolding send_one
  send_one-Sends is_large mbox q w x held lost i e v f fits l =
      elim (allocate_cases is_large w.shared x i e) [
        | inl failed ↦ (
          false,
          record w { shared = with_resources w.shared x },
          x,
          lost,
          ground (arith, failed),
          failed-Sends mbox w x held lost v,
        )
        | inr (p, a, pos, given, out) ↦ elim (dec_lt (length q.items) q.capacity) [
          | yes room ↦ (
            true,
            filled w (taken is_large x a) p t mbox (behind q (new_message label t p ∷ [])),
            taken is_large x a,
            lost,
            ground (arith, out, room_lem is_large mbox q w x e f fits l v p a pos given room),
            room-Sends is_large mbox q w x e f fits l v p a pos given,
          )
          | no full ↦ (
            false,
            filled w (taken is_large x a) p t mbox (behind q []),
            taken is_large x a,
            new_message label t p ∷ lost,
            ground
                (arith, out, full_lem is_large mbox q w x e f fits l v p a pos given (omega arith)),
            full-Sends is_large mbox q w x e f fits l v p a pos given,
          )
        ]
      ]
