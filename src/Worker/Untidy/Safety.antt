-- ===== src/Worker/Untidy/Safety.antt =====
-- The threads of the examples, with scripts that leave registrations behind, from the beginning of
-- the program.
use msglib_cpp.Common.{
  ℕ, suc, ◌<◌, ◌^◌, ◌≡◌, refl, ap, subst, ◌∙◌, Bool, true, false, some, List, [], ◌∷◌, get_elem?,
  Bool-cases, inl, inr,
}
use msglib_cpp.Common.State.{done}
use msglib_cpp.Pool.{Memory}
use msglib_cpp.Pool.Resource.{MemoryResource}
use msglib_cpp.Receiver.Slots.{slots}
use msglib_cpp.MailboxData.{Resources}
use msglib_cpp.Mailbox.{World, send_message, send_signal, initialize_with}
use msglib_cpp.Mailbox.Blocks.{IsReady}
use msglib_cpp.Mailbox.Sends.{All}
use msglib_cpp.Worker.{Script, Phase, gone, step, System, Reach}
use msglib_cpp.Worker.Healthy.{Alive}
use msglib_cpp.Worker.Owing.{IsTidy}
use msglib_cpp.Worker.Start.{uninitialized_world, not_begun, threads_run_safely}
use msglib_cpp.Worker.Untidy.{complete-IsTidy}
use msglib_cpp.Worker.Untidy.Simulation.{
  followed, longer, all_followed, get_followed, get_longer, longer-not_begun, nobody-followed,
  step-returns, NotGone, system_followed, Reach-followed,
}

pub all_followed-IsTidy :
    (f : ℕ → Bool) (scs : List Script)
    → ((i : ℕ) (sc : Script) → get_elem? scs i ≡ some sc → f i ≡ false → IsTidy sc)
    → All IsTidy (all_followed f scs)
all_followed-IsTidy f [] h = tt
all_followed-IsTidy f (sc ∷ scs) h = (
  elim (Bool-cases (f 0)) [
    | inl on ↦ rw on (complete-IsTidy sc)
    | inr off ↦ rw off (h 0 sc refl off)
  ],
  all_followed-IsTidy (λ i. f (suc i)) scs (λ i s e. h (suc i) s e),
)

module _ {Arena : Type 0} ⦃r : MemoryResource Arena⦄ (scripts : List Script) (memory : Memory)
    (ss sc ls lc : ℕ) (f : ℕ → Bool) where
  -- Both programs begin in the same world.
  world-followed :
      uninitialized_world {Arena = Arena} (all_followed f scripts) memory ss sc ls lc
      ≡ uninitialized_world scripts memory ss sc ls lc
  world-followed =
      ap
        (λ ms. record (uninitialized_world {Arena = Arena} scripts memory ss sc ls lc) {
          mailboxes = ms;
        })
        (nobody-followed f scripts)

  -- Let the library be initialized from nothing, with fewer than 2^64 blocks of each size and large
  -- blocks of fewer than 2^16 bytes; the scripts with `f` may leave registrations behind, and every
  -- other undoes its registrations behind its loop. In each state that the threads and the sends of
  -- main can reach, in any order, before a thread of the former is at its end: the next step of each
  -- thread returns, and so does every SendMessage and SendSignal; each mailbox that is registered for
  -- a label is alive; and a thread of the latter that is gone is registered for no label.
  pub threads_run_until_gone :
      {w : World Arena} {t : System Arena}
      → initialize_with ss sc ls lc (uninitialized_world scripts memory ss sc ls lc)
        ≡ done (true, w)
      → sc < 2 ^ 64
      → lc < 2 ^ 64
      → ls < 2 ^ 16
      → ((i : ℕ) (s : Script) → get_elem? scripts i ≡ some s → f i ≡ false → IsTidy s)
      → Reach scripts (record { world = w; phases = not_begun scripts }) t
      → NotGone scripts f t
      → ((i : ℕ) (s : Script) (p : Phase)
          → get_elem? scripts i ≡ some s
          → get_elem? t.phases i ≡ some p
          → (p' : Phase) × (w' : World Arena) × (step s i p t.world ≡ done (p', w')))
        × ((label : ℕ) (bytes : List ℕ)
            → (b : Bool) × (w' : World Arena) × (send_message label bytes t.world ≡ done (b, w')))
        × ((label : ℕ) → (w' : World Arena) × (send_signal label t.world ≡ done (true, w')))
        × ((x : Resources Arena) × IsReady t.world.shared x
            × ((label i : ℕ) → 0 < slots i (x.mailboxes label) → Alive t.world.mailboxes i)
            × ((i : ℕ) (s : Script)
                → f i ≡ false
                → get_elem? scripts i ≡ some s
                → get_elem? t.phases i ≡ some gone
                → (label : ℕ) → slots i (x.mailboxes label) ≡ 0))
  threads_run_until_gone {w} {t} e scb lcb lsb tidy reach open_end =
      let from_same : Reach (all_followed f scripts)
          (record { world = w; phases = not_begun (all_followed f scripts) })
          (system_followed scripts f t) =
        subst
          (λ (ps : List Phase).
            Reach (all_followed f scripts) (record { world = w; phases = ps })
              (system_followed scripts f t))
          (longer-not_begun f scripts) (Reach-followed scripts f open_end reach) in
      let (steps, sends, signals, (x, ready, alive, gone_free)) =
        threads_run_safely (all_followed f scripts) memory ss sc ls lc
          (ap (initialize_with ss sc ls lc) world-followed ∙ e) scb lcb lsb
          (all_followed-IsTidy f scripts tidy) from_same in
      (
        λ i s p g h.
            let (p₂, w₂, run) =
              steps i (followed (f i) s) (longer (f i) s p) (get_followed f scripts i g)
                (get_longer f scripts t.phases i g h) in
            step-returns s i (f i) p p₂ t.world w₂ run,
        sends,
        signals,
        (
          x,
          ready,
          alive,
          λ i s off g h.
              gone_free i (followed (f i) s) (get_followed f scripts i g)
                (get_longer f scripts t.phases i g h),
        ),
      )
