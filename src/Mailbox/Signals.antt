-- ===== src/Mailbox/Signals.antt =====
-- Mailbox.h: `SendSignal` and `Receive`.
use msglib_cpp.Common.{
  ℕ, zero, suc, ◌+◌, ◌-◌, ◌≡◌, refl, sym, ◌∙◌, ap, true, Option, none, some, List, [], ◌∷◌, ◌++◌,
  arith, Bool, ltb, ◌==◌, length, set, get_elem?, length-append, inl, inr, Bool-cases, lt→ltb,
  le→ltb-false,
}
use Prim.Native.Nat.{min}
use native.Mathlib.Nat.{zero-add}
use native.Mathlib.Decide.{dec_lt}
use mathlib.Core.List.{append-nil, append_assoc}
use msglib_cpp.Common.State.{done}
use msglib_cpp.Pool.Resource.{MemoryResource}
use msglib_cpp.Queue.{emplace}
use msglib_cpp.Message.{Message, signal}
use msglib_cpp.Receiver.{Receivers}
use msglib_cpp.Receiver.Slots.{slots}
use msglib_cpp.MailboxData.{Resources, get_receivers}
use msglib_cpp.Mailbox.{World, Mailbox, find_mailbox, signal_each, send_signal}
use msglib_cpp.Mailbox.Messages.{all_messages, all-enqueue, all-same}
use msglib_cpp.Mailbox.Accounting.{Accounted, moved-Accounted}
use msglib_cpp.Mailbox.Blocks.{IsReady}
use msglib_cpp.Mailbox.Sends.{behind}
use msglib_cpp.Mailbox.Sends.One.{find-set, dead-set}
use msglib_cpp.Mailbox.Sends.Loop.{AreAlive}

abbrev pub replicate {ℓ} : {A : Type ℓ} → ℕ → A → List A
replicate zero a = []
replicate (suc n) a = a ∷ replicate n a

-- The messages that a mailbox can still take.
abbrev pub room : Mailbox → ℕ
room q = q.capacity - length q.items

-- A mailbox after it got up to `n` signals, as many as it has room for.
abbrev pub signalled : ℕ → ℕ → Mailbox → Mailbox
signalled label n q = behind q (replicate (min n (room q)) (signal label))

emplace-signal : (label : ℕ) (q : Mailbox) → (emplace q (signal label)).1 ≡ signalled label 1 q
unfolding emplace
emplace-signal label q = elim (dec_lt (length q.items) q.capacity) [
  | yes h ↦ let e : min 1 (room q) ≡ suc 0 = omega arith in rw (e, lt→ltb _ _ h)
  | no h ↦
      let e : min 1 (room q) ≡ 0 = omega arith in
      rw (e, le→ltb-false (length q.items) q.capacity (omega arith), append-nil)
]

signalled-zero : (label : ℕ) (q : Mailbox) → signalled label 0 q ≡ q
signalled-zero label q = let e : min 0 (room q) ≡ 0 = omega arith in rw (e, append-nil)

signalled-signalled :
    (label n : ℕ) (q : Mailbox)
    → signalled label n (signalled label 1 q) ≡ signalled label (1 + n) q
signalled-signalled label n q = elim (dec_lt 0 (room q)) [
  | yes h ↦
      let k : ℕ = min n (room q - 1) in
      let e : min 1 (room q) ≡ suc 0 = omega arith in
      let e' : min (1 + n) (room q) ≡ suc k = omega arith in
      let e'' : min n (q.capacity - length (q.items ++ signal label ∷ [])) ≡ k =
        omega (arith, length-append q.items (signal label ∷ [])) in
      rw (e, e', e'', append_assoc)
  | no h ↦
      let e : min 1 (room q) ≡ 0 = omega arith in
      let e' : min (1 + n) (room q) ≡ 0 = omega arith in
      let e'' : min n (q.capacity - length (q.items ++ [])) ≡ 0 =
        omega (arith, length-append q.items []) in
      rw (e, e', e'', append-nil, append-nil)
]

module _ (label : ℕ) where
  -- What a loop of `SendSignal` over `rs` has done to the mailboxes `ms`.
  pub record Signals (rs : Receivers) (ms ms' : List (Option Mailbox)) : Type 0 where
    pub got :
        (i : ℕ) (q : Mailbox)
        → find_mailbox ms i ≡ some q
        → find_mailbox ms' i ≡ some (signalled label (slots i rs) q)
    pub dead : (i : ℕ) → get_elem? ms i ≡ some none → get_elem? ms' i ≡ some none
    pub same :
        (held lost : List Message) (f : Message → ℕ)
        → ((m : Message) → m.bytes ≡ none → f m ≡ 0)
        → all_messages f ms' held lost ≡ all_messages f ms held lost

  pub alive-set :
      (ms : List (Option Mailbox)) (i j : ℕ) (q q' : Mailbox)
      → find_mailbox ms i ≡ some q
      → (p : Mailbox) × (find_mailbox ms j ≡ some p)
      → (p : Mailbox) × (find_mailbox (set ms i (some q')) j ≡ some p)
  alive-set ms i j q q' e (p, f) = elim (Bool-cases (i == j)) [
    | inl hit ↦ (q', ground (arith, find-set ms i j q q' e))
    | inr miss ↦ (p, ground (arith, find-set ms i j q q' e))
  ]

  pub AreAlive-set :
      (ms : List (Option Mailbox)) (i : ℕ) (q q' : Mailbox) (rs : Receivers)
      → find_mailbox ms i ≡ some q
      → AreAlive ms rs
      → AreAlive (set ms i (some q')) rs
  AreAlive-set ms i q q' [] e h = tt
  AreAlive-set ms i q q' (none ∷ rs) e h = AreAlive-set ms i q q' rs e h
  AreAlive-set ms i q q' (some j ∷ rs) e h =
      (alive-set ms i j q q' e h.0, AreAlive-set ms i q q' rs e h.1)

  emplace-same :
      (ms : List (Option Mailbox)) (i : ℕ) (q : Mailbox) (held lost : List Message)
      (f : Message → ℕ)
      → find_mailbox ms i ≡ some q
      → ((m : Message) → m.bytes ≡ none → f m ≡ 0)
      → all_messages f (set ms i (some (emplace q (signal label)).1)) held lost
        ≡ all_messages f ms held lost
  unfolding emplace signal
  emplace-same ms i q held lost f e z = elim (Bool-cases (ltb (length q.items) q.capacity)) [
    | inl free ↦ omega (
      arith,
      all-enqueue f ms held lost i (signal label) q (emplace q (signal label)).1 e (rw free refl),
      z (signal label) refl,
    )
    | inr full ↦ all-same f ms held lost i q (emplace q (signal label)).1 e (rw full refl)
  ]

  got_one :
      {o : Option Mailbox} (j : ℕ) (q p : Mailbox) (n : ℕ)
      → p ≡ q
      → o ≡ some (signalled label n (emplace q (signal label)).1)
      → o ≡ some (signalled label (1 + n) p)
  got_one j q p n e h =
      h
      ∙ (ap (λ z. some (signalled label n z)) (emplace-signal label q)
          ∙ (ap some (signalled-signalled label n q)
              ∙ ap (λ z. some (signalled label (1 + n) z)) (sym e)))

  Signals-cons :
      (rs : Receivers) (ms ms' : List (Option Mailbox)) (i : ℕ) (q : Mailbox)
      → find_mailbox ms i ≡ some q
      → Signals rs (set ms i (some (emplace q (signal label)).1)) ms'
      → Signals (some i ∷ rs) ms ms'
  Signals-cons rs ms ms' i q e s = record {
    got = λ j p f. elim (Bool-cases (i == j)) [
      | inl hit ↦ rw hit (
          got_one j q p (slots j rs) (ground arith)
            (s.got j _ (ground (arith, find-set ms i j q (emplace q (signal label)).1 e))))
      | inr miss ↦
          rw (miss, zero-add)
            (s.got j p (ground (arith, find-set ms i j q (emplace q (signal label)).1 e)))
    ];
    dead = λ j h. s.dead j (dead-set ms i j q _ e h);
    same = λ held lost f z. s.same held lost f z ∙ emplace-same ms i q held lost f e z;
  }

  module _ {Arena : Type 0} where
    pub signal_each-Signals :
        (rs : Receivers) (w : World Arena)
        → AreAlive w.mailboxes rs
        → (ms' : List (Option Mailbox)) × (signal_each label rs w
            ≡ done (tt, record w { mailboxes = ms' }))
          × Signals rs w.mailboxes ms'
    unfolding signal_each
    signal_each-Signals [] w h = (
      w.mailboxes,
      refl,
      record { got = λ i q e. rw signalled-zero e; dead = λ i h. h; same = λ held lost f z. refl },
    )
    signal_each-Signals (none ∷ rs) w h =
        let (ms', run, s) = signal_each-Signals rs w h in
        (ms', run, record { got = s.got; dead = s.dead; same = s.same })
    signal_each-Signals (some mbox ∷ rs) w h =
        let (q, f) = h.0 in
        let (ms', run, s) =
          signal_each-Signals rs
            (record w { mailboxes = set w.mailboxes mbox (some (emplace q (signal label)).1) })
            (AreAlive-set w.mailboxes mbox q _ rs f h.1) in
        (ms', ground (arith, f, run), Signals-cons rs w.mailboxes ms' mbox q f s)

  module _ {Arena : Type 0} ⦃r : MemoryResource Arena⦄ where
    -- In an initialised program `SendSignal` returns true, if the label's receivers are alive: each
    -- mailbox gets the signal behind its messages once for each slot that it takes for the label, as
    -- far as it has room, and signals that it has no room for are dropped. Nothing else changes, and
    -- blocks stay accounted for.
    pub send_signal_lem :
        (w : World Arena) (x : Resources Arena) (held lost : List Message)
        → IsReady w.shared x
        → Accounted x w.mailboxes held lost
        → AreAlive w.mailboxes (x.mailboxes label)
        → (ms' : List (Option Mailbox)) × (send_signal label w
            ≡ done (true, record w { mailboxes = ms' }))
          × Accounted x ms' held lost
          × ((i : ℕ) (q : Mailbox)
              → find_mailbox w.mailboxes i ≡ some q
              → find_mailbox ms' i ≡ some (signalled label (slots i (x.mailboxes label)) q))
    unfolding send_signal get_receivers
    send_signal_lem w x held lost ready v h =
        let (ms', run, s) =
          signal_each-Signals (x.mailboxes label)
            (record w { shared = record w.shared { locked = true } }) h in
        (
          ms',
          ground (arith, ready.unlocked, ready.resources, run),
          moved-Accounted v ms' held lost (s.same held lost),
          s.got,
        )

    -- No mailbox comes to life by a signal.
    pub send_signal-dead :
        (w : World Arena) (x : Resources Arena) {b : Bool} {w' : World Arena}
        → IsReady w.shared x
        → AreAlive w.mailboxes (x.mailboxes label)
        → send_signal label w ≡ done (b, w')
        → (i : ℕ) → get_elem? w.mailboxes i ≡ some none
        → get_elem? w'.mailboxes i ≡ some none
    unfolding send_signal get_receivers
    send_signal-dead w x {b} {w'} ready h e i f =
        let (ms', run, s) =
          signal_each-Signals (x.mailboxes label)
            (record w { shared = record w.shared { locked = true } }) h in
        let same : ms' ≡ w'.mailboxes = ground (arith, ready.unlocked, ready.resources, run) in
        ground (arith, same, s.dead i f)
