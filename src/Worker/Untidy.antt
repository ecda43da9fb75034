-- ===== src/Worker/Untidy.antt =====
-- The threads of the examples: scripts that leave registrations behind, as thread3 of mbox.cpp and
-- thread2 and main of timer.cpp do. As long as such a thread has not come to its end, it does what a
-- script does that goes on to undo them.
pub mod Simulation
pub mod Safety
use msglib_cpp.Common.{
  ℕ, zero, suc, ◌≡◌, ◌≢◌, ◌⊎◌, refl, Bool, true, false, ◌||◌, some, List, [], ◌∷◌, ◌++◌, arith,
  ◌==◌, if◌then◌else◌, get_elem?, set, Bool-cases, inl, inr,
}
use msglib_cpp.Mailbox.Sends.{All}
use msglib_cpp.Worker.{
  Cleanup, drops, takes, signals, Script, Phase, starting, registering, waiting, handling,
  answering, leaving, gone,
}
use msglib_cpp.Worker.Owing.{elem-append, elem, stays, IsTidy}
use msglib_cpp.Worker.Start.{not_begun, nobody}

drop_all : List ℕ → List Cleanup
drop_all [] = []
drop_all (l ∷ ls) = drops l ∷ drop_all ls

-- The labels that a cleanup registers for.
retaken : List Cleanup → List ℕ
retaken [] = []
retaken (drops k ∷ cs) = retaken cs
retaken (takes k ∷ cs) = k ∷ retaken cs
retaken (signals k ∷ cs) = retaken cs

-- What is missing at the end of a script, or more.
pub missing : Script → List Cleanup
missing sc = drop_all (sc.registers ++ retaken sc.cleanup)

abbrev pub complete : Script → Script
complete sc = record sc { cleanup = sc.cleanup ++ missing sc }

stays-append :
    (l : ℕ) (cs ds : List Cleanup) (b : Bool) → stays l (cs ++ ds) b ≡ stays l ds (stays l cs b)
stays-append l [] ds b = refl
stays-append l (drops k ∷ cs) ds b = stays-append l cs ds _
stays-append l (takes k ∷ cs) ds b = stays-append l cs ds _
stays-append l (signals k ∷ cs) ds b = stays-append l cs ds _

stays-drop_all :
    (l : ℕ) (ls : List ℕ) (b : Bool) → stays l (drop_all ls) b ≡ (if elem l ls then false else b)
unfolding drop_all
stays-drop_all l [] b = refl
stays-drop_all l (k ∷ ls) b = ground (arith, stays-drop_all l ls (if k == l then false else b))

stays-retaken :
    (l : ℕ) (cs : List Cleanup) (b : Bool)
    → stays l cs b ≡ true
    → (b ≡ true) ⊎ (elem l (retaken cs) ≡ true)
unfolding retaken
stays-retaken l [] b e = inl e
stays-retaken l (drops k ∷ cs) b e =
    ground (arith, stays-retaken l cs (if k == l then false else b))
stays-retaken l (takes k ∷ cs) b e = ground (arith, stays-retaken l cs (if k == l then true else b))
stays-retaken l (signals k ∷ cs) b e = stays-retaken l cs b e

pub complete-IsTidy : (sc : Script) → IsTidy (complete sc)
unfolding missing
complete-IsTidy sc l =
    let b = elem l sc.registers in
    let kept = stays-retaken l sc.cleanup b in
    let at_end = stays-drop_all l (sc.registers ++ retaken sc.cleanup) (stays l sc.cleanup b) in
    rw (stays-append) (elim (Bool-cases (stays l sc.cleanup b)) [
      | inl y ↦ ground (arith, kept y, at_end, elem-append l sc.registers (retaken sc.cleanup))
      | inr n ↦ ground (arith, at_end)
    ])
