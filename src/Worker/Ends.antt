-- ===== src/Worker/Ends.antt =====
-- The threads of the examples: a thread that has a message in its queue by which it leaves its loop.
use msglib_cpp.Common.{
  ℕ, zero, suc, ◌≡◌, refl, Bool, true, false, ◌||◌, some, List, [], ◌∷◌, ◌++◌, arith, ◌<◌, ◌^◌,
  get_elem?, set, Bool-cases, inl, inr,
}
use msglib_cpp.Common.State.{done, Action, ◌>>=◌, pure, Outcome-cases}
use mathlib.Core.List.{append-nil, append_assoc}
use msglib_cpp.Pool.{Memory}
use msglib_cpp.Pool.Resource.{MemoryResource}
use msglib_cpp.Receiver.Slots.{slots}
use msglib_cpp.Message.{Message}
use msglib_cpp.MailboxData.{Resources}
use msglib_cpp.Mailbox.{World, Mailbox, find_mailbox, initialize_with}
use msglib_cpp.Mailbox.Sends.{All, behind}
use msglib_cpp.Mailbox.Sends.One.{find-set}
use msglib_cpp.Worker.{
  Cleanup, Script, System, Reach, Phase, waiting, handling, answering, leaving, gone, step,
  cleanup_call, after_answers, received,
}
use msglib_cpp.Worker.Healthy.{Healthy, drop-Healthy}
use msglib_cpp.Worker.Calls.{send_signal-Healthy, receive-Healthy, release-Healthy}
use msglib_cpp.Worker.Owing.{IsTidy, Owes, carry, carried, leave-Owes}
use msglib_cpp.Worker.Moves.{step-Moved}
use msglib_cpp.Worker.Safety.{All_of_get_elem?, Inv, Reach-Inv}
use msglib_cpp.Worker.Start.{uninitialized_world, not_begun, begun-Inv}

-- Does one of the messages make the thread leave its loop?
abbrev pub leaves_by : Script → List Message → Bool
leaves_by sc [] = false
leaves_by sc (m ∷ ms) = (sc.handle m.label).exits || leaves_by sc ms

pub pure_of_done :
    {S A B : Type 0} (a : Action S A) {p p' : B} (s : S) {s' : S}
    → (do ok ← a; pure p) s ≡ done (p', s')
    → p' ≡ p
pure_of_done a s e = elim (Outcome-cases (a s)) [
  | inl ((b, t), f) ↦ ground (arith, e, f)
  | inr (x, f) ↦ absurd (ground (arith, e, f))
]

module _ {Arena : Type 0} ⦃r : MemoryResource Arena⦄ where
  -- The thread takes `n` steps while no other takes one.
  unfoldable pub run_alone : ℕ → Script → ℕ → Phase → Action (World Arena) Phase
  run_alone zero sc i p w = done (p, w)
  run_alone (suc n) sc i p w = (do p' ← step sc i p; run_alone n sc i p') w

  Ends : Script → ℕ → Phase → World Arena → Type 0
  Ends sc i p w = (n : ℕ) × (w' : World Arena) × (run_alone n sc i p w ≡ done (gone, w'))

  Ends-step :
      (sc : Script) (i : ℕ) (p p' : Phase) (w w' : World Arena)
      → step sc i p w ≡ done (p', w')
      → Ends sc i p' w'
      → Ends sc i p w
  unfolding Ends run_alone
  Ends-step sc i p p' w w' e (n, w'', run) = (suc n, w'', ground (arith, e, run))

module _ {Arena : Type 0} ⦃r : MemoryResource Arena⦄ (sc : Script) (i : ℕ)
    (rest : List Message) where
  -- The thread is at `p`, its mailbox is `q`, and all is in order.
  record At (p : Phase) (w : World Arena) (q : Mailbox) : Type 0 where
    resources : Resources Arena
    lost : List Message
    healthy : Healthy w resources (carry p ++ rest) lost
    owes : Owes sc p (λ l. slots i (resources.mailboxes l))
    found : find_mailbox w.mailboxes i ≡ some q

  leaving-Ends :
      (cs : List Cleanup) (w : World Arena) {q : Mailbox}
      → IsTidy sc
      → At (leaving cs) w q
      → Ends sc i (leaving cs) w
  unfolding Ends run_alone step
  leaving-Ends [] w tidy a = (1, _, refl)
  leaving-Ends (c ∷ cs) w {q} tidy a =
      let (p', w', x', lost', run, h, o, alive, frame) =
        step-Moved sc i w a.resources rest a.lost (leaving (c ∷ cs)) tidy a.healthy a.owes
          (q, a.found) in
      let same : p' ≡ leaving cs = pure_of_done (cleanup_call i c) w run in
      let (q', e) = rw same at alive in
      Ends-step sc i (leaving (c ∷ cs)) (leaving cs) w w' (ground (arith, run, same)) (
        leaving-Ends cs w' tidy (record {
          resources = x';
          lost = lost';
          healthy = rw same at h;
          owes = rw same at o;
          found = e;
        }))

  -- To the end of the answers: the mailbox has at most new messages behind those that it had.
  answered :
      (ls : List ℕ) (exits : Bool) (w : World Arena) {q : Mailbox}
      → At (answering ls exits) w q
      → (w' : World Arena) × (q' : Mailbox) × (new : List Message) × (q'.items ≡ q.items ++ new)
        × At (answering [] exits) w' q'
        × (Ends sc i (answering [] exits) w' → Ends sc i (answering ls exits) w)
  unfolding step
  answered [] exits w {q} a = (w, q, [], rw append-nil refl, a, λ h. h)
  answered (l ∷ ls) exits w {q} a =
      let (w1, run, h, g) = send_signal-Healthy w a.resources rest a.lost l a.healthy in
      let (new, e) = g.grown i q a.found in
      let next_one : At (answering ls exits) w1 (behind q new) = record {
        resources = a.resources;
        lost = a.lost;
        healthy = h;
        owes = a.owes;
        found = e;
      } in
      let (w', q', more, all, b, ends) = answered ls exits w1 next_one in
      (
        w',
        q',
        new ++ more,
        rw (← append_assoc) all,
        b,
        λ h.
            Ends-step sc i (answering (l ∷ ls) exits) (answering ls exits) w w1
              (ground (arith, run)) (ends h),
      )

  handled :
      (m : Message) (w : World Arena) {q : Mailbox}
      → At (handling m) w q
      → let reaction = sc.handle m.label in
        (w' : World Arena) × At (answering reaction.sends reaction.exits) w' q
        × (Ends sc i (answering reaction.sends reaction.exits) w' → Ends sc i (handling m) w)
  unfolding step
  handled m w {q} a =
      let reaction = sc.handle m.label in
      let then_ = answering reaction.sends reaction.exits in
      elim (Bool-cases reaction.releases) [
        | inl releases ↦
            let (w', x', run, h, same, known) =
              release-Healthy w a.resources rest a.lost m a.healthy in
            (
              w',
              record {
                resources = x';
                lost = a.lost;
                healthy = h;
                owes = rw known a.owes;
                found = rw same a.found;
              },
              Ends-step sc i (handling m) then_ w w' (ground (arith, run)),
            )
        | inr keeps ↦ (
          w,
          record {
            resources = a.resources;
            lost = m ∷ a.lost;
            healthy = drop-Healthy a.healthy m rest refl;
            owes = a.owes;
            found = a.found;
          },
          Ends-step sc i (handling m) then_ w w (ground arith),
        )
      ]

  -- With the last answer given, the thread leaves or waits again.
  answered-Ends :
      (exits : Bool) (w : World Arena) {q : Mailbox}
      → IsTidy sc
      → At (answering [] exits) w q
      → (exits ≡ false → At waiting w q → Ends sc i waiting w)
      → Ends sc i (answering [] exits) w
  unfolding step after_answers
  answered-Ends true w tidy a h = Ends-step sc i (answering [] true) (leaving sc.cleanup) w w refl (
      leaving-Ends sc.cleanup w tidy (record {
        resources = a.resources;
        lost = a.lost;
        healthy = a.healthy;
        owes = leave-Owes sc (λ l. slots i (a.resources.mailboxes l)) tidy a.owes;
        found = a.found;
      }))
  answered-Ends false w tidy a h = Ends-step sc i (answering [] false) waiting w w refl (
      h refl (record {
        resources = a.resources;
        lost = a.lost;
        healthy = a.healthy;
        owes = a.owes;
        found = a.found;
      }))

  waiting-Ends :
      (items extra : List Message) (w : World Arena) {q : Mailbox}
      → IsTidy sc
      → q.items ≡ items ++ extra
      → leaves_by sc items ≡ true
      → At waiting w q
      → Ends sc i waiting w
  unfolding step received
  waiting-Ends [] extra w tidy e h a = cc
  waiting-Ends (m ∷ items) extra w {q} tidy e h a =
      elim (receive-Healthy w a.resources rest a.lost i q a.healthy a.found) [
        | inl (empty, run) ↦ absurd (ground arith)
        | inr (m', q1, all, run, h1) ↦
            let w1 : World Arena = record w { mailboxes = set w.mailboxes i (some q1) } in
            let same : m' ≡ m = ground arith in
            let left : q1.items ≡ items ++ extra = ground arith in
            let held : At (handling m') w1 q1 = record {
              resources = a.resources;
              lost = a.lost;
              healthy = h1;
              owes = a.owes;
              found = ground (arith, find-set w.mailboxes i i q q1 a.found);
            } in
            let (w2, b, ends2) = handled m' w1 held in
            let (w3, q3, new, all3, c, ends3) =
              answered (sc.handle m'.label).sends (sc.handle m'.label).exits w2 b in
            Ends-step sc i waiting (handling m') w w1 (ground (arith, run)) (
              ends2 (
                ends3 (
                  answered-Ends (sc.handle m'.label).exits w3 tidy c λ stays_on b'.
                    waiting-Ends items (extra ++ new) w3 tidy
                      (ground (arith, append_assoc items extra new)) (ground arith) b')))
      ]

-- In a state that the threads can be in between two steps.
pub Inv-Ends :
    {Arena : Type 0} ⦃r : MemoryResource Arena⦄ (scripts : List Script) {t : System Arena} (i : ℕ)
    {s : Script} {q : Mailbox}
    → Inv scripts t
    → All IsTidy scripts
    → get_elem? scripts i ≡ some s
    → get_elem? t.phases i ≡ some waiting
    → find_mailbox t.world.mailboxes i ≡ some q
    → leaves_by s q.items ≡ true
    → (n : ℕ) × (w' : World Arena) × (run_alone n s i waiting t.world ≡ done (gone, w'))
unfolding Ends
Inv-Ends scripts {t = t} i {s} {q} v tidy f g a h =
    waiting-Ends s i (carried t.phases) q.items [] t.world
      (All_of_get_elem? IsTidy scripts i tidy f) (rw append-nil refl) h
      (record {
        resources = v.resources;
        lost = v.lost;
        healthy = v.healthy;
        owes = (v.threads i s waiting f g).0;
        found = a;
      })

-- Let the library be initialized from nothing, with fewer than 2^64 blocks of each size and large
-- blocks of fewer than 2^16 bytes, and let every script undo its registrations behind its loop. In
-- each state that the threads and the sends of main can reach, a thread that waits for a message,
-- and that has one in its queue which makes it leave its loop, comes to its end in finitely many
-- steps of its own, whatever other messages it has, before or behind that one.
pub thread_ends :
    {Arena : Type 0} ⦃r : MemoryResource Arena⦄ (scripts : List Script) (memory : Memory)
    (ss sc ls lc : ℕ) {w : World Arena} {t : System Arena} (i : ℕ) {s : Script} {q : Mailbox}
    → initialize_with ss sc ls lc (uninitialized_world scripts memory ss sc ls lc) ≡ done (true, w)
    → sc < 2 ^ 64
    → lc < 2 ^ 64
    → ls < 2 ^ 16
    → All IsTidy scripts
    → Reach scripts (record { world = w; phases = not_begun scripts }) t
    → get_elem? scripts i ≡ some s
    → get_elem? t.phases i ≡ some waiting
    → find_mailbox t.world.mailboxes i ≡ some q
    → leaves_by s q.items ≡ true
    → (n : ℕ) × (w' : World Arena) × (run_alone n s i waiting t.world ≡ done (gone, w'))
thread_ends scripts memory ss sc ls lc i e scb lcb lsb tidy reach f g a h =
    let v = Reach-Inv scripts tidy (begun-Inv scripts memory ss sc ls lc e scb lcb lsb) reach in
    Inv-Ends scripts i v tidy f g a h
