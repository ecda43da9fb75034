-- ===== src/Worker/Start.antt =====
-- The threads of the examples, from the beginning of the program.
use msglib_cpp.Common.{
  ℕ, zero, suc, ◌<◌, ◌^◌, ◌≡◌, refl, Bool, true, Option, none, some, List, [], ◌∷◌, arith,
  get_elem?, total-cons, total-nil, inl, inr,
}
use msglib_cpp.Common.State.{done}
use msglib_cpp.Pool.{Memory, new_pool}
use msglib_cpp.Pool.Resource.{MemoryResource}
use msglib_cpp.Receiver.Slots.{slots}
use msglib_cpp.Message.{Message}
use msglib_cpp.MailboxData.{Resources, uninitialized, resources_on, byte_size}
use msglib_cpp.MailboxData.Init.{initialize_with_lem, initialized_on}
use msglib_cpp.Mailbox.{World, Mailbox, send_message, send_signal, initialize_with}
use msglib_cpp.Mailbox.Messages.{all_messages, queued, in_small, in_large, owns}
use msglib_cpp.Mailbox.Blocks.{IsReady}
use msglib_cpp.Mailbox.Sends.{All}
use msglib_cpp.Worker.{Script, Phase, starting, gone, step, System, Reach}
use msglib_cpp.Worker.Healthy.{Alive}
use msglib_cpp.Worker.Calls.{send_message-Healthy, send_signal-Healthy}
use msglib_cpp.Worker.Owing.{IsTidy, carried}
use msglib_cpp.Worker.Safety.{Inv, move-Moved, Reach-Inv, All_of_get_elem?}

-- No thread has begun, and so no mailbox is there.
abbrev pub not_begun : List Script → List Phase
not_begun [] = []
not_begun (sc ∷ scs) = starting ∷ not_begun scs

abbrev pub nobody : List Script → List (Option Mailbox)
nobody [] = []
nobody (sc ∷ scs) = none ∷ nobody scs

not_begun-carried : (scs : List Script) → carried (not_begun scs) ≡ []
not_begun-carried [] = refl
not_begun-carried (sc ∷ scs) = not_begun-carried scs

not_begun-starting :
    (scs : List Script) (i : ℕ) {p : Phase} → get_elem? (not_begun scs) i ≡ some p → p ≡ starting
not_begun-starting [] i e = cc
not_begun-starting (sc ∷ scs) zero e = ground arith
not_begun-starting (sc ∷ scs) (suc i) e = not_begun-starting scs i e

nobody-dead :
    (scs : List Script) (i : ℕ) {sc : Script}
    → get_elem? scs i ≡ some sc
    → get_elem? (nobody scs) i ≡ some none
nobody-dead [] i e = cc
nobody-dead (sc ∷ scs) zero e = refl
nobody-dead (sc ∷ scs) (suc i) e = nobody-dead scs i e

all-nobody : (f : Message → ℕ) (scs : List Script) → all_messages f (nobody scs) [] [] ≡ 0
unfolding all_messages
all-nobody f [] = omega (arith, total-nil (queued f), total-nil f)
all-nobody f (sc ∷ scs) =
    omega (arith, total-nil f, total-cons (queued f) none (nobody scs), all-nobody f scs)

module _ {Arena : Type 0} ⦃r : MemoryResource Arena⦄ (scripts : List Script) (memory : Memory)
    (ss sc ls lc : ℕ) where
  abbrev pub uninitialized_world : World Arena
  uninitialized_world = record {
    shared = uninitialized;
    mailboxes = nobody scripts;
    memory = memory;
  }

  initialized-Inv :
      (k : ℕ) (a : Arena)
      → r.make k ≡ some a
      → sc < 2 ^ 64
      → lc < 2 ^ 64
      → ls < 2 ^ 16
      → Inv scripts (record {
        world = record uninitialized_world { shared = initialized_on uninitialized ss sc ls lc a };
        phases = not_begun scripts;
      })
  unfolding resources_on new_pool
  initialized-Inv k a made scb lcb lsb = record {
    resources = resources_on ss sc ls lc a;
    lost = [];
    healthy = rw (not_begun-carried scripts) (record {
      ready = record { unlocked = refl; initialized = refl; resources = refl };
      accounted = record {
        small_elt = refl;
        large_elt = refl;
        small_cap = scb;
        large_cap = lcb;
        fits = lsb;
        small_counted = omega (arith, all-nobody (in_small ss) scripts);
        large_counted = omega (arith, all-nobody (in_large ss) scripts);
        owned = λ p n. rw (all-nobody (owns ss ls p n) scripts, r.make-live _ made p);
      };
      alive = λ label i h. absurd (omega arith);
    });
    threads =
        λ i s p e f. rw (not_begun-starting scripts i f) ((λ l. refl, nobody-dead scripts i e));
  }

  initialize-world :
      {w : World Arena}
      → initialize_with ss sc ls lc uninitialized_world ≡ done (true, w)
      → (a : Arena) × (r.make (byte_size ss sc ls lc) ≡ some a)
        × (record uninitialized_world { shared = initialized_on uninitialized ss sc ls lc a } ≡ w)
  unfolding initialize_with
  initialize-world e = elim (initialize_with_lem {Arena = Arena} uninitialized ss sc ls lc refl) [
    | inl (i, f) ↦ cc
    | inr (inl (i, m, f)) ↦ absurd (ground arith)
    | inr (inr (i, (a, m, f, again))) ↦ (a, m, ground (arith, f))
  ]

module _ {Arena : Type 0} ⦃r : MemoryResource Arena⦄ (scripts : List Script) (memory : Memory)
    (ss sc ls lc : ℕ) {w : World Arena} where
  pub begun-Inv :
      initialize_with ss sc ls lc (uninitialized_world scripts memory ss sc ls lc) ≡ done (true, w)
      → sc < 2 ^ 64
      → lc < 2 ^ 64
      → ls < 2 ^ 16
      → Inv scripts (record { world = w; phases = not_begun scripts })
  begun-Inv e scb lcb lsb =
      let (a, made, same) = initialize-world scripts memory ss sc ls lc e in
      rw (← same)
        (initialized-Inv scripts memory ss sc ls lc (byte_size ss sc ls lc) a made scb lcb lsb)

  -- Let the library be initialized from nothing, with fewer than 2^64 blocks of each size and large
  -- blocks of fewer than 2^16 bytes, and let every script undo its registrations behind its loop. In
  -- each state that the threads and the sends of main can reach, in any order: the next step of each
  -- thread returns, and so does every SendMessage and SendSignal; each mailbox that is registered
  -- for a label is alive; and a thread that is gone is registered for no label.
  pub threads_run_safely :
      {t : System Arena}
      → initialize_with ss sc ls lc (uninitialized_world scripts memory ss sc ls lc)
        ≡ done (true, w)
      → sc < 2 ^ 64
      → lc < 2 ^ 64
      → ls < 2 ^ 16
      → All IsTidy scripts
      → Reach scripts (record { world = w; phases = not_begun scripts }) t
      → ((i : ℕ) (s : Script) (p : Phase)
          → get_elem? scripts i ≡ some s
          → get_elem? t.phases i ≡ some p
          → (p' : Phase) × (w' : World Arena) × (step s i p t.world ≡ done (p', w')))
        × ((label : ℕ) (bytes : List ℕ)
            → (b : Bool) × (w' : World Arena) × (send_message label bytes t.world ≡ done (b, w')))
        × ((label : ℕ) → (w' : World Arena) × (send_signal label t.world ≡ done (true, w')))
        × ((x : Resources Arena) × IsReady t.world.shared x
            × ((label i : ℕ) → 0 < slots i (x.mailboxes label) → Alive t.world.mailboxes i)
            × ((i : ℕ) (s : Script)
                → get_elem? scripts i ≡ some s
                → get_elem? t.phases i ≡ some gone
                → (label : ℕ) → slots i (x.mailboxes label) ≡ 0))
  threads_run_safely {t} e scb lcb lsb tidy reach =
      let v = Reach-Inv scripts tidy (begun-Inv e scb lcb lsb) reach in
      let x = v.resources in
      let held = carried t.phases in
      (
        λ i s p f g.
            let (p', w', x', lost', run, h, o, alive, frame) =
              move-Moved scripts t v i s p (All_of_get_elem? IsTidy scripts i tidy f) f g in
            (p', w', run),
        λ label bytes.
            let (b, w', x', lost', run, h, same, grows) =
              send_message-Healthy t.world x held v.lost label bytes v.healthy in
            (b, w', run),
        λ label.
            let (w', run, h, grows) = send_signal-Healthy t.world x held v.lost label v.healthy in
            (w', run),
        (x, v.healthy.ready, v.healthy.alive, λ i s f g. (v.threads i s gone f g).0),
      )
