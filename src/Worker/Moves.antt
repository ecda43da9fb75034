-- ===== src/Worker/Moves.antt =====
-- The threads of the examples: the steps of a thread with a tidy script, phase by phase.
use msglib_cpp.Common.{
  ℕ, ◌≡◌, ◌≢◌, refl, Bool, true, false, Option, none, some, List, [], ◌∷◌, ◌++◌, arith, ltb,
  get_elem?, Bool-cases, inl, inr, get_elem?-set_ne,
}
use msglib_cpp.Common.State.{done}
use msglib_cpp.Pool.Resource.{MemoryResource}
use msglib_cpp.Message.{Message}
use msglib_cpp.Receiver.Slots.{slots}
use msglib_cpp.MailboxData.{Resources}
use msglib_cpp.Mailbox.{World, Mailbox, new_default_mailbox, destroy}
use msglib_cpp.Mailbox.Sends.{behind}
use msglib_cpp.Mailbox.Sends.One.{dead-set}
use msglib_cpp.Mailbox.Signals.{alive-set}
use msglib_cpp.Worker.{
  Cleanup, drops, takes, signals, Script, Phase, starting, registering, waiting, handling,
  answering, leaving, gone, step, construct,
}
use msglib_cpp.Worker.Healthy.{
  Alive, Grows, Healthy, Alive-write, find-write, some_of_find, construct-Healthy, destroy-Healthy,
  drop-Healthy,
}
use msglib_cpp.Worker.Calls.{
  send_signal-Healthy, register-Healthy, unregister-Healthy, receive-Healthy, release-Healthy,
}
use msglib_cpp.Worker.Owing.{IsTidy, Owes, Lives, carry, stays_mono, leave-Owes}

-- What the other threads have is untouched.
pub record Frame {Arena : Type 0} (i : ℕ) (x x' : Resources Arena) (ms ms' : List (Option Mailbox))
    : Type 0 where
  pub others : (l j : ℕ) → i ≢ j → slots j (x'.mailboxes l) ≡ slots j (x.mailboxes l)
  pub alive : (j : ℕ) → i ≢ j → Alive ms j → Alive ms' j
  pub dead : (j : ℕ) → i ≢ j → get_elem? ms j ≡ some none → get_elem? ms' j ≡ some none

module _ {Arena : Type 0} ⦃r : MemoryResource Arena⦄ (sc : Script) (i : ℕ) (w : World Arena)
    (x : Resources Arena) (rest lost : List Message) where
  abbrev pub owned : Resources Arena → ℕ → ℕ
  owned y l = slots i (y.mailboxes l)

  -- The step from phase `p` returns, with all in order.
  abbrev pub Moved : Phase → Type 0
  Moved p =
      (p' : Phase) × (w' : World Arena) × (x' : Resources Arena) × (lost' : List Message) × (step sc
          i p w
        ≡ done (p', w'))
      × Healthy w' x' (carry p' ++ rest) lost'
      × Owes sc p' (owned x')
      × Lives p' w'.mailboxes i
      × Frame i x x' w.mailboxes w'.mailboxes

  Frame-same : Frame i x x w.mailboxes w.mailboxes
  Frame-same = record { others = λ l j n. refl; alive = λ j n a. a; dead = λ j n d. d }

  Frame-Grows : (ms' : List (Option Mailbox)) → Grows w.mailboxes ms' → Frame i x x w.mailboxes ms'
  Frame-Grows ms' g = record {
    others = λ l j n. refl;
    alive = λ j n (q, e). let (new, e') = g.grown j q e in (behind q new, e');
    dead = λ j n d. g.dead j d;
  }

  starting-Moved :
      Healthy w x rest lost
      → Owes sc starting (owned x)
      → get_elem? w.mailboxes i ≡ some none
      → Moved starting
  unfolding step construct
  starting-Moved v o e = (
    registering sc.registers,
    construct i w,
    x,
    lost,
    refl,
    construct-Healthy v i e,
    (λ l h. h, λ l h. absurd (omega (arith, o l))),
    (new_default_mailbox, ground (arith, find-write w.mailboxes i i (some new_default_mailbox) e)),
    record {
      others = λ l j n. refl;
      alive = λ j n a. Alive-write w.mailboxes i j _ e (λ z. absurd (n z)) a;
      dead = λ j n d. rw (get_elem?-set_ne w.mailboxes i j (some new_default_mailbox) n) d;
    },
  )

  registering-Moved :
      (l : ℕ) (ls : List ℕ)
      → Healthy w x rest lost
      → Owes sc (registering (l ∷ ls)) (owned x)
      → Alive w.mailboxes i
      → Moved (registering (l ∷ ls))
  unfolding step
  registering-Moved l ls v (todo, o) a =
      let (b, w', x', run, v', same, put) = register-Healthy w x rest lost i l v a in
      (
        registering ls,
        w',
        x',
        lost,
        ground (arith, run),
        v',
        (λ k h. todo k (ground arith), λ k h. ground (arith, put k i, o k, todo k)),
        rw same a,
        record {
          others = λ k j n. ground (arith, put k j);
          alive = λ j n e. rw same e;
          dead = λ j n e. rw same e;
        },
      )

  waiting-Moved :
      Healthy w x rest lost → Owes sc waiting (owned x) → Alive w.mailboxes i → Moved waiting
  unfolding step
  waiting-Moved v o (q, e) = elim (receive-Healthy w x rest lost i q v e) [
    | inl (empty, run) ↦ (waiting, w, x, lost, ground (arith, run), v, o, (q, e), Frame-same)
    | inr (m, q', items, run, v') ↦ (
      handling m,
      _,
      x,
      lost,
      ground (arith, run),
      v',
      o,
      alive-set 0 w.mailboxes i i q q' e (q, e),
      record {
        others = λ l j n. refl;
        alive = λ j n a. alive-set 0 w.mailboxes i j q q' e a;
        dead = λ j n d. dead-set w.mailboxes i j q q' e d;
      },
    )
  ]

  handling-Moved :
      (m : Message)
      → Healthy w x (m ∷ rest) lost
      → Owes sc (handling m) (owned x)
      → Alive w.mailboxes i
      → Moved (handling m)
  unfolding step
  handling-Moved m v o a =
      let reaction = sc.handle m.label in
      elim (Bool-cases reaction.releases) [
        | inl releases ↦
            let (w', x', run, v', same, known) = release-Healthy w x rest lost m v in
            (
              answering reaction.sends reaction.exits,
              w',
              x',
              lost,
              ground (arith, run),
              v',
              rw known o,
              rw same a,
              record {
                others = λ l j n. rw known refl;
                alive = λ j n e. rw same e;
                dead = λ j n e. rw same e;
              },
            )
        | inr keeps ↦ (
          answering reaction.sends reaction.exits,
          w,
          x,
          m ∷ lost,
          ground arith,
          drop-Healthy v m rest refl,
          o,
          a,
          Frame-same,
        )
      ]

  answering-Moved :
      (l : ℕ) (ls : List ℕ) (exits : Bool)
      → Healthy w x rest lost
      → Owes sc (answering (l ∷ ls) exits) (owned x)
      → Alive w.mailboxes i
      → Moved (answering (l ∷ ls) exits)
  unfolding step
  answering-Moved l ls exits v o (q, e) =
      let (w', run, v', g) = send_signal-Healthy w x rest lost l v in
      let (new, e') = g.grown i q e in
      (
        answering ls exits,
        w',
        x,
        lost,
        ground (arith, run),
        v',
        o,
        (behind q new, e'),
        Frame-Grows w'.mailboxes g,
      )

  answered-Moved :
      (exits : Bool)
      → IsTidy sc
      → Healthy w x rest lost
      → Owes sc (answering [] exits) (owned x)
      → Alive w.mailboxes i
      → Moved (answering [] exits)
  unfolding step
  answered-Moved true tidy v o a =
      (leaving sc.cleanup, w, x, lost, refl, v, leave-Owes sc (owned x) tidy o, a, Frame-same)
  answered-Moved false tidy v o a = (waiting, w, x, lost, refl, v, o, a, Frame-same)

  leaving-Moved :
      (c : Cleanup) (cs : List Cleanup)
      → Healthy w x rest lost
      → Owes sc (leaving (c ∷ cs)) (owned x)
      → Alive w.mailboxes i
      → Moved (leaving (c ∷ cs))
  unfolding step
  leaving-Moved (drops l) cs v o a =
      let (w', x', run, v', same, put) = unregister-Healthy w x rest lost i l v in
      (
        leaving cs,
        w',
        x',
        lost,
        ground (arith, run),
        v',
        λ k. ground (arith, put k i, o k),
        rw same a,
        record {
          others = λ k j n. ground (arith, put k j);
          alive = λ j n e. rw same e;
          dead = λ j n e. rw same e;
        },
      )
  leaving-Moved (takes l) cs v o a =
      let (b, w', x', run, v', same, put) = register-Healthy w x rest lost i l v a in
      (
        leaving cs,
        w',
        x',
        lost,
        ground (arith, run),
        v',
        λ k. ground (arith, put k i, o k, stays_mono k cs (ltb 0 (owned x' k))),
        rw same a,
        record {
          others = λ k j n. ground (arith, put k j);
          alive = λ j n e. rw same e;
          dead = λ j n e. rw same e;
        },
      )
  leaving-Moved (signals l) cs v o (q, e) =
      let (w', run, v', g) = send_signal-Healthy w x rest lost l v in
      let (new, e') = g.grown i q e in
      (
        leaving cs,
        w',
        x,
        lost,
        ground (arith, run),
        v',
        o,
        (behind q new, e'),
        Frame-Grows w'.mailboxes g,
      )

  left-Moved :
      Healthy w x rest lost
      → Owes sc (leaving []) (owned x)
      → Alive w.mailboxes i
      → Moved (leaving [])
  unfolding step destroy
  left-Moved v o (q, e) =
      let at = some_of_find w.mailboxes i q e in
      let zero_left : (l : ℕ) → owned x l ≡ 0 = λ l. ground (arith, o l) in
      (
        gone,
        destroy i w,
        x,
        q.items ++ lost,
        refl,
        destroy-Healthy v i q e zero_left,
        zero_left,
        tt,
        record {
          others = λ l j n. refl;
          alive = λ j n a. Alive-write w.mailboxes i j none at (λ z. absurd (n z)) a;
          dead = λ j n d. rw (get_elem?-set_ne w.mailboxes i j none n) d;
        },
      )

  pub step-Moved :
      (p : Phase)
      → IsTidy sc
      → Healthy w x (carry p ++ rest) lost
      → Owes sc p (owned x)
      → Lives p w.mailboxes i
      → Moved p
  unfolding step
  step-Moved starting tidy v o a = starting-Moved v o a
  step-Moved (registering []) tidy v o a = (waiting, w, x, lost, refl, v, o.1, a, Frame-same)
  step-Moved (registering (l ∷ ls)) tidy v o a = registering-Moved l ls v o a
  step-Moved waiting tidy v o a = waiting-Moved v o a
  step-Moved (handling m) tidy v o a = handling-Moved m v o a
  step-Moved (answering [] exits) tidy v o a = answered-Moved exits tidy v o a
  step-Moved (answering (l ∷ ls) exits) tidy v o a = answering-Moved l ls exits v o a
  step-Moved (leaving []) tidy v o a = left-Moved v o a
  step-Moved (leaving (c ∷ cs)) tidy v o a = leaving-Moved c cs v o a
  step-Moved gone tidy v o a = (gone, w, x, lost, refl, v, o, tt, Frame-same)
