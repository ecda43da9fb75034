-- ===== src/Worker/Untidy/Simulation.antt =====
-- The threads of the examples: scripts that leave registrations behind, against their completions.
use msglib_cpp.Common.{
  ℕ, zero, suc, ◌≡◌, ◌≢◌, refl, ap, ◌∙◌, Bool, true, false, none, some, List, [], ◌∷◌, ◌++◌, arith,
  if◌then◌else◌, get_elem?, set, ◌<◌, length, get_elem?-set_self, get_elem?-set_ne,
  lt-length_of_get_elem?, inl, inr,
}
use native.Mathlib.Decide.{ℕ_discrete}
use msglib_cpp.Common.State.{done, Fault, fault, Outcome-cases}
use msglib_cpp.Pool.Resource.{MemoryResource}
use msglib_cpp.Mailbox.{World}
use msglib_cpp.Worker.{
  Script, Phase, starting, registering, waiting, handling, answering, leaving, gone, step,
  after_answers, received, System, Step, moves, sends, signalled, Reach, here, next,
}
use msglib_cpp.Worker.Start.{not_begun, nobody}
use msglib_cpp.Worker.Untidy.{complete, missing}

-- The script that a thread follows instead, if `b`, and where it then stands.
abbrev pub followed : Bool → Script → Script
followed b sc = if b then complete sc else sc

abbrev pub longer : Bool → Script → Phase → Phase
longer b sc (leaving cs) = leaving (if b then cs ++ missing sc else cs)
longer b sc p = p

pub longer-false : (sc : Script) (p : Phase) → longer false sc p ≡ p
longer-false sc starting = refl
longer-false sc (registering ls) = refl
longer-false sc waiting = refl
longer-false sc (handling m) = refl
longer-false sc (answering ls b) = refl
longer-false sc (leaving cs) = refl
longer-false sc gone = refl

-- The same for all threads, where `f` says which follow another script.
abbrev pub all_followed : (ℕ → Bool) → List Script → List Script
all_followed f [] = []
all_followed f (sc ∷ scs) = followed (f 0) sc ∷ all_followed (λ i. f (suc i)) scs

abbrev pub all_longer : (ℕ → Bool) → List Script → List Phase → List Phase
all_longer f [] ps = ps
all_longer f (sc ∷ scs) [] = []
all_longer f (sc ∷ scs) (p ∷ ps) = longer (f 0) sc p ∷ all_longer (λ i. f (suc i)) scs ps

pub get_followed :
    (f : ℕ → Bool) (scs : List Script) (i : ℕ) {sc : Script}
    → get_elem? scs i ≡ some sc
    → get_elem? (all_followed f scs) i ≡ some (followed (f i) sc)
get_followed f [] i e = cc
get_followed f (s ∷ scs) zero {sc} e =
    let same : s ≡ sc = ground arith in ap (λ z. some (followed (f 0) z)) same
get_followed f (s ∷ scs) (suc i) e = get_followed (λ j. f (suc j)) scs i e

pub get_longer :
    (f : ℕ → Bool) (scs : List Script) (ps : List Phase) (i : ℕ) {sc : Script} {p : Phase}
    → get_elem? scs i ≡ some sc
    → get_elem? ps i ≡ some p
    → get_elem? (all_longer f scs ps) i ≡ some (longer (f i) sc p)
get_longer f [] ps i e g = cc
get_longer f (s ∷ scs) [] i e g = cc
get_longer f (s ∷ scs) (q ∷ ps) zero {sc} {p} e g =
    let same : s ≡ sc = ground arith in
    let same_p : q ≡ p = ground arith in
    ap (λ z. some (longer (f 0) s z)) same_p ∙ ap (λ z. some (longer (f 0) z p)) same
get_longer f (s ∷ scs) (q ∷ ps) (suc i) e g = get_longer (λ j. f (suc j)) scs ps i e g

pub all_longer-set :
    (f : ℕ → Bool) (scs : List Script) (ps : List Phase) (i : ℕ) {sc : Script} (p : Phase)
    → get_elem? scs i ≡ some sc
    → all_longer f scs (set ps i p) ≡ set (all_longer f scs ps) i (longer (f i) sc p)
all_longer-set f [] ps i p e = cc
all_longer-set f (s ∷ scs) [] i p e = refl
all_longer-set f (s ∷ scs) (q ∷ ps) zero {sc} p e =
    let same : s ≡ sc = ground arith in
    ap (λ z. longer (f 0) z p ∷ all_longer (λ j. f (suc j)) scs ps) same
all_longer-set f (s ∷ scs) (q ∷ ps) (suc i) p e =
    ap (◌∷◌ (longer (f 0) s q)) (all_longer-set (λ j. f (suc j)) scs ps i p e)

pub longer-not_begun :
    (f : ℕ → Bool) (scs : List Script)
    → all_longer f scs (not_begun scs) ≡ not_begun (all_followed f scs)
longer-not_begun f [] = refl
longer-not_begun f (sc ∷ scs) = ap (◌∷◌ starting) (longer-not_begun (λ j. f (suc j)) scs)

pub nobody-followed : (f : ℕ → Bool) (scs : List Script) → nobody (all_followed f scs) ≡ nobody scs
nobody-followed f [] = refl
nobody-followed f (sc ∷ scs) = ap (◌∷◌ none) (nobody-followed (λ j. f (suc j)) scs)

module _ {Arena : Type 0} ⦃r : MemoryResource Arena⦄ (sc : Script) (i : ℕ) where
  -- A step that is not to the end of the thread is a step of the completed script.
  step-complete :
      (p : Phase) (w : World Arena) {p' : Phase} {w' : World Arena}
      → step sc i p w ≡ done (p', w')
      → p' ≢ gone
      → step (complete sc) i (longer true sc p) w ≡ done (longer true sc p', w')
  unfolding step after_answers received
  step-complete starting w e h = ground arith
  step-complete (registering []) w e h = ground arith
  step-complete (registering (l ∷ ls)) w e h = ground arith
  step-complete waiting w e h = ground arith
  step-complete (handling m) w e h = ground arith
  step-complete (answering [] true) w e h = ground arith
  step-complete (answering [] false) w e h = ground arith
  step-complete (answering (l ∷ ls) exits) w e h = ground arith
  step-complete (leaving []) w e h = absurd (h (ground arith))
  step-complete (leaving (c ∷ cs)) w e h = ground arith
  step-complete gone w e h = absurd (h (ground arith))

  step-faults :
      (p : Phase) (w : World Arena) {x : Fault}
      → step sc i p w ≡ fault x
      → step (complete sc) i (longer true sc p) w ≡ fault x
  unfolding step after_answers received
  step-faults starting w e = ground arith
  step-faults (registering []) w e = ground arith
  step-faults (registering (l ∷ ls)) w e = ground arith
  step-faults waiting w e = ground arith
  step-faults (handling m) w e = ground arith
  step-faults (answering [] exits) w e = ground arith
  step-faults (answering (l ∷ ls) exits) w e = ground arith
  step-faults (leaving []) w e = ground arith
  step-faults (leaving (c ∷ cs)) w e = ground arith
  step-faults gone w e = ground arith

  pub step-returns :
      (b : Bool) (p p₂ : Phase) (w w₂ : World Arena)
      → step (followed b sc) i (longer b sc p) w ≡ done (p₂, w₂)
      → (p' : Phase) × (w' : World Arena) × (step sc i p w ≡ done (p', w'))
  step-returns false p p₂ w w₂ e = (p₂, w₂, rw (longer-false sc p) at e)
  step-returns true p p₂ w w₂ e = elim (Outcome-cases (step sc i p w)) [
    | inl ((p', w'), f) ↦ (p', w', f)
    | inr (x, f) ↦ let g = step-faults p w f in absurd (ground arith)
  ]

  pub step-followed :
      (b : Bool) (p : Phase) (w : World Arena) {p' : Phase} {w' : World Arena}
      → step sc i p w ≡ done (p', w')
      → (b ≡ true → p' ≢ gone)
      → step (followed b sc) i (longer b sc p) w ≡ done (longer b sc p', w')
  step-followed false p w {p'} e h = rw (longer-false sc p, longer-false sc p') e
  step-followed true p w e h = step-complete p w e (h refl)

module _ {Arena : Type 0} ⦃r : MemoryResource Arena⦄ (scripts : List Script) where
  gone_stays :
      {s t : System Arena} (j : ℕ)
      → Step scripts s t
      → get_elem? s.phases j ≡ some gone
      → get_elem? t.phases j ≡ some gone
  unfolding step
  gone_stays {s} j (moves i sc p p' w e f run g) h = rw g (elim (ℕ_discrete i j) [
    | yes same ↦
        let at_end : p ≡ gone = ground arith in
        let still : p' ≡ gone = ground (arith, rw at_end at run) in
        let bound : i < length s.phases = lt-length_of_get_elem? s.phases i {x = p} f in
        ground (arith, get_elem?-set_self s.phases i p' bound)
    | no other ↦ ground (arith, get_elem?-set_ne s.phases i j p' other)
  ])
  gone_stays j (sends label t' ok w e g) h = rw g h
  gone_stays j (signalled label ok w e g) h = rw g h

  module _ (f : ℕ → Bool) where
    abbrev pub system_followed : System Arena → System Arena
    system_followed s = record { world = s.world; phases = all_longer f scripts s.phases }

    -- No thread that follows another script is at its end.
    abbrev pub NotGone : System Arena → Type 0
    NotGone s = (i : ℕ) → f i ≡ true → get_elem? s.phases i ≢ some gone

    Step-followed :
        {s t : System Arena}
        → NotGone t
        → Step scripts s t
        → Step (all_followed f scripts) (system_followed s) (system_followed t)
    Step-followed {s} h (moves i sc p p' w e g run same) =
        let phases : get_elem? s.phases i ≡ some p = g in
        let bound : i < length s.phases = lt-length_of_get_elem? s.phases i {x = p} g in
        let there : get_elem? (set s.phases i p') i ≡ some p' =
          get_elem?-set_self s.phases i p' bound in
        let open_end : f i ≡ true → p' ≢ gone = λ on at. (rw same at h) i on (there ∙ ap some at) in
        moves i (followed (f i) sc) (longer (f i) sc p) (longer (f i) sc p') w
          (get_followed f scripts i e) (get_longer f scripts s.phases i e g)
          (step-followed sc i (f i) p s.world run open_end)
          (ap system_followed same
            ∙ ap (λ (ps : List Phase). record { world = w; phases = ps })
                (all_longer-set f scripts s.phases i p' e))
    Step-followed h (sends label t' ok w e g) = sends label t' ok w e (ap system_followed g)
    Step-followed h (signalled label ok w e g) = signalled label ok w e (ap system_followed g)

    pub Reach-followed :
        {s t : System Arena}
        → NotGone t
        → Reach scripts s t
        → Reach (all_followed f scripts) (system_followed s) (system_followed t)
    Reach-followed h here = here
    Reach-followed h (next r st) =
        next (Reach-followed (λ i on at. h i on (gone_stays i st at)) r) (Step-followed h st)
