-- ===== src/Worker/Safety.antt =====
-- The threads of the examples, together: what every interleaving of their steps with the sends of
-- `main` keeps, if each script is tidy.
use msglib_cpp.Common.{
  ℕ, zero, suc, ◌<◌, ◌≡◌, ◌≢◌, refl, sym, subst, Bool, Option, some, List, [], ◌∷◌, ◌++◌, arith,
  length, get_elem?, set, get_elem?-set_self, get_elem?-set_ne, lt-length_of_get_elem?,
}
use native.Mathlib.Decide.{ℕ_discrete}
use msglib_cpp.Common.State.{done}
use msglib_cpp.Pool.Resource.{MemoryResource}
use msglib_cpp.Receiver.Slots.{slots}
use msglib_cpp.Message.{Message}
use msglib_cpp.MailboxData.{Resources}
use msglib_cpp.Mailbox.{World, Mailbox, send_message, send_signal}
use msglib_cpp.Mailbox.Sends.{All, behind}
use msglib_cpp.Worker.{
  Script, Phase, starting, registering, waiting, handling, answering, leaving, gone, step, System,
  Step, moves, sends, signalled, Reach, here, next,
}
use msglib_cpp.Worker.Healthy.{Grows, Healthy, held-Healthy}
use msglib_cpp.Worker.Calls.{send_message-Healthy, send_signal-Healthy}
use msglib_cpp.Worker.Owing.{IsTidy, Owes, Lives, carry, carried, carried-set}
use msglib_cpp.Worker.Moves.{Frame, Moved, step-Moved}

pub All_of_get_elem? {ℓ κ} :
    {A : Type ℓ} (P : A → Type κ) (xs : List A) (i : ℕ) {a : A}
    → All P xs
    → get_elem? xs i ≡ some a
    → P a
All_of_get_elem? P [] i h e = cc
All_of_get_elem? P (x ∷ xs) zero h e = let same : x ≡ _ = ground arith in subst P same h.0
All_of_get_elem? P (x ∷ xs) (suc i) h e = All_of_get_elem? P xs i h.1 e

-- A thread that has not begun is found to have no mailbox, and that one that runs is alive.
Lives-Frame :
    {Arena : Type 0} (i : ℕ) (x x' : Resources Arena) (ms ms' : List (Option Mailbox)) (p : Phase)
    (j : ℕ)
    → i ≢ j
    → Frame i x x' ms ms'
    → Lives p ms j
    → Lives p ms' j
Lives-Frame i x x' ms ms' starting j n f h = f.dead j n h
Lives-Frame i x x' ms ms' gone j n f h = tt
Lives-Frame i x x' ms ms' (registering ls) j n f h = f.alive j n h
Lives-Frame i x x' ms ms' waiting j n f h = f.alive j n h
Lives-Frame i x x' ms ms' (handling m) j n f h = f.alive j n h
Lives-Frame i x x' ms ms' (answering ls b) j n f h = f.alive j n h
Lives-Frame i x x' ms ms' (leaving cs) j n f h = f.alive j n h

Lives-Grows :
    (ms ms' : List (Option Mailbox)) (p : Phase) (j : ℕ)
    → Grows ms ms'
    → Lives p ms j
    → Lives p ms' j
Lives-Grows ms ms' starting j g h = g.dead j h
Lives-Grows ms ms' gone j g h = tt
Lives-Grows ms ms' (registering ls) j g (q, e) = let (n, e') = g.grown j q e in (behind q n, e')
Lives-Grows ms ms' waiting j g (q, e) = let (n, e') = g.grown j q e in (behind q n, e')
Lives-Grows ms ms' (handling m) j g (q, e) = let (n, e') = g.grown j q e in (behind q n, e')
Lives-Grows ms ms' (answering ls b) j g (q, e) = let (n, e') = g.grown j q e in (behind q n, e')
Lives-Grows ms ms' (leaving cs) j g (q, e) = let (n, e') = g.grown j q e in (behind q n, e')

-- What a thread owes depends on the number of its slots alone.
Owes-same :
    (sc : Script) (p : Phase) (s s' : ℕ → ℕ) → ((l : ℕ) → s' l ≡ s l) → Owes sc p s → Owes sc p s'
Owes-same sc starting s s' e o = λ l. rw (e l) (o l)
Owes-same sc gone s s' e o = λ l. rw (e l) (o l)
Owes-same sc (registering ls) s s' e o = (o.0, λ l h. o.1 l (omega (arith, e l)))
Owes-same sc waiting s s' e o = λ l h. o l (omega (arith, e l))
Owes-same sc (handling m) s s' e o = λ l h. o l (omega (arith, e l))
Owes-same sc (answering ls b) s s' e o = λ l h. o l (omega (arith, e l))
Owes-same sc (leaving cs) s s' e o = λ l. rw (e l) (o l)

module _ {Arena : Type 0} ⦃r : MemoryResource Arena⦄ (scripts : List Script) where
  -- Between two steps.
  pub record Inv (s : System Arena) : Type 0 where
    pub resources : Resources Arena
    pub lost : List Message
    pub healthy : Healthy s.world resources (carried s.phases) lost
    pub threads :
        (i : ℕ) (sc : Script) (p : Phase)
        → get_elem? scripts i ≡ some sc
        → get_elem? s.phases i ≡ some p
        → Owes sc p (λ l. slots i (resources.mailboxes l)) × Lives p s.world.mailboxes i

  module _ (s : System Arena) (v : Inv s) where
    pub move-Moved :
        (i : ℕ) (sc : Script) (p : Phase)
        → IsTidy sc
        → get_elem? scripts i ≡ some sc
        → get_elem? s.phases i ≡ some p
        → Moved sc i s.world v.resources (carried (set s.phases i gone)) v.lost p
    move-Moved i sc p tidy e f =
        let (o, a) = v.threads i sc p e f in
        let h : Healthy s.world v.resources (carry p ++ carried (set s.phases i gone)) v.lost =
          held-Healthy v.healthy _ (λ g. sym (carried-set g s.phases i p p f).0) in
        step-Moved sc i s.world v.resources (carried (set s.phases i gone)) v.lost p tidy h o a

    moved-threads :
        (i : ℕ) (sc : Script) {p : Phase} (p' : Phase) (x' : Resources Arena)
        (ms' : List (Option Mailbox))
        → get_elem? scripts i ≡ some sc
        → get_elem? s.phases i ≡ some p
        → Owes sc p' (λ l. slots i (x'.mailboxes l))
        → Lives p' ms' i
        → Frame i v.resources x' s.world.mailboxes ms'
        → (j : ℕ) (sc' : Script) (q : Phase) → get_elem? scripts j ≡ some sc'
        → get_elem? (set s.phases i p') j ≡ some q
        → Owes sc' q (λ l. slots j (x'.mailboxes l)) × Lives q ms' j
    moved-threads i sc {p} p' x' ms' e f o a frame j sc' q e' f' = elim (ℕ_discrete i j) [
      | yes same ↦
          let same_sc : sc ≡ sc' = ground arith in
          let bound : i < length s.phases = lt-length_of_get_elem? s.phases i {x = p} f in
          let same_q : p' ≡ q = ground (arith, get_elem?-set_self s.phases i p' bound) in
          rw (← same, ← same_sc, ← same_q) (o, a)
      | no other ↦
          let before : get_elem? s.phases j ≡ some q =
            ground (arith, get_elem?-set_ne s.phases i j p' other) in
          let (o', a') = v.threads j sc' q e' before in
          (
            Owes-same sc' q _ _ (λ l. frame.others l j other) o',
            Lives-Frame i v.resources x' s.world.mailboxes ms' q j other frame a',
          )
    ]

    pub move-Inv :
        (i : ℕ) (sc : Script) (p p' : Phase) (w : World Arena)
        → IsTidy sc
        → get_elem? scripts i ≡ some sc
        → get_elem? s.phases i ≡ some p
        → step sc i p s.world ≡ done (p', w)
        → Inv (record { world = w; phases = set s.phases i p' })
    move-Inv i sc p p' w tidy e f run =
        let (p'', w'', x', lost', run', h, o, a, frame) = move-Moved i sc p tidy e f in
        let same_p : p'' ≡ p' = ground arith in
        let same_w : w'' ≡ w = ground arith in
        rw (← same_p, ← same_w)
          (record {
            resources = x';
            lost = lost';
            healthy = held-Healthy h _ (λ g. (carried-set g s.phases i p p'' f).1);
            threads = moved-threads i sc p'' x' w''.mailboxes e f o a frame;
          })

    world-Inv :
        (w' : World Arena) (x' : Resources Arena) (lost' : List Message)
        → Healthy w' x' (carried s.phases) lost'
        → x'.mailboxes ≡ v.resources.mailboxes
        → Grows s.world.mailboxes w'.mailboxes
        → Inv (record s { world = w' })
    world-Inv w' x' lost' h same g = record {
      resources = x';
      lost = lost';
      healthy = h;
      threads = λ j sc q e f.
          let (o, a) = v.threads j sc q e f in
          (rw same o, Lives-Grows s.world.mailboxes w'.mailboxes q j g a);
    }

    pub send-Inv :
        (label : ℕ) (t : List ℕ) {ok : Bool} {w : World Arena}
        → send_message label t s.world ≡ done (ok, w)
        → Inv (record s { world = w })
    send-Inv label t {ok} {w} e =
        let (b, w', x', lost', run, h, same, g) =
          send_message-Healthy s.world v.resources (carried s.phases) v.lost label t v.healthy in
        let same_w : w' ≡ w = ground arith in rw (← same_w) (world-Inv w' x' lost' h same g)

    pub signal-Inv :
        (label : ℕ) {ok : Bool} {w : World Arena}
        → send_signal label s.world ≡ done (ok, w)
        → Inv (record s { world = w })
    signal-Inv label {ok} {w} e =
        let (w', run, h, g) =
          send_signal-Healthy s.world v.resources (carried s.phases) v.lost label v.healthy in
        let same_w : w' ≡ w = ground arith in
        rw (← same_w) (world-Inv w' v.resources v.lost h refl g)

  module _ (tidy : All IsTidy scripts) where
    Step-Inv : {s t : System Arena} → Inv s → Step scripts s t → Inv t
    Step-Inv {s} v (moves i sc p p' w e f run g) =
        rw g (move-Inv s v i sc p p' w (All_of_get_elem? IsTidy scripts i tidy e) e f run)
    Step-Inv {s} v (sends label t ok w e g) = rw g (send-Inv s v label t e)
    Step-Inv {s} v (signalled label ok w e g) = rw g (signal-Inv s v label e)

    pub Reach-Inv : {s t : System Arena} → Inv s → Reach scripts s t → Inv t
    Reach-Inv v here = v
    Reach-Inv v (next r st) = Step-Inv (Reach-Inv v r) st
