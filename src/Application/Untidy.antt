-- ===== src/Application/Untidy.antt =====
-- A program as a whole, whose threads may leave registrations behind: until such a thread is at its
-- end, the program does what one with the completed scripts does.
pub mod Safety
use msglib_cpp.Common.{
  ℕ, zero, suc, ◌<◌, ◌^◌, ◌≡◌, ◌≢◌, refl, sym, ap, subst, ◌∙◌, Bool, true, false, Option, none,
  some, List, [], ◌∷◌, arith, get_elem?, set, length, get_elem?-set_self, get_elem?-set_ne,
  lt-length_of_get_elem?, inl, inr,
}
use native.Mathlib.Decide.{ℕ_discrete}
use msglib_cpp.Common.State.{done, Outcome-cases}
use msglib_cpp.Pool.{Memory}
use msglib_cpp.Pool.Resource.{MemoryResource}
use msglib_cpp.TimeConv.{Timespec}
use msglib_cpp.Mailbox.{World, send_message, send_signal}
use msglib_cpp.Mailbox.Sends.{All}
use msglib_cpp.TimerManagerData.{
  TimerType, Result, TimerManagerData, Program, handle_signal, new_resources,
}
use msglib_cpp.TimerManagerData.Api.{TimerApi, TimerMemory}
use msglib_cpp.TimerManager.{MaskCalls, start_timer, cancel_timer}
use msglib_cpp.Msglib.{initialize_with}
use msglib_cpp.Worker.{
  Script, Phase, starting, registering, waiting, handling, answering, leaving, gone, step,
}
use msglib_cpp.Worker.Owing.{IsTidy}
use msglib_cpp.Worker.Start.{not_begun}
use msglib_cpp.Worker.Untidy.{complete}
use msglib_cpp.Worker.Untidy.Simulation.{
  followed, longer, all_followed, all_longer, get_longer, all_longer-set, longer-not_begun,
  nobody-followed, step-followed, step-returns,
}
use msglib_cpp.Worker.Untidy.Safety.{all_followed-IsTidy}
use msglib_cpp.Application.{
  Thread, Application, cancelled, cancel_each, thread_step, IsQuiet, Step, moves, sends, signalled,
  starts, fires, handles, Reach, here, next,
}
use msglib_cpp.Application.Safety.{scripts_of, get_script}
use msglib_cpp.Application.Start.{uninitialized_program, begun, program_runs_safely}

abbrev pub followed_thread : Bool → Thread → Thread
followed_thread b th = record th { script = followed b th.script }

abbrev pub followed_threads : (ℕ → Bool) → List Thread → List Thread
followed_threads f [] = []
followed_threads f (th ∷ ths) = followed_thread (f 0) th ∷ followed_threads (λ i. f (suc i)) ths

pub scripts-followed :
    (f : ℕ → Bool) (ths : List Thread)
    → scripts_of (followed_threads f ths) ≡ all_followed f (scripts_of ths)
scripts-followed f [] = refl
scripts-followed f (th ∷ ths) =
    ap (◌∷◌ (followed (f 0) th.script)) (scripts-followed (λ i. f (suc i)) ths)

pub get_followed_thread :
    (f : ℕ → Bool) (ths : List Thread) (i : ℕ) {th : Thread}
    → get_elem? ths i ≡ some th
    → get_elem? (followed_threads f ths) i ≡ some (followed_thread (f i) th)
get_followed_thread f [] i e = cc
get_followed_thread f (t ∷ ths) zero {th} e =
    let same : t ≡ th = ground arith in ap (λ z. some (followed_thread (f 0) z)) same
get_followed_thread f (t ∷ ths) (suc i) e = get_followed_thread (λ j. f (suc j)) ths i e

pub cancelled-longer :
    (b : Bool) (th : Thread) (p : Phase)
    → cancelled (followed_thread b th) (longer b th.script p) ≡ cancelled th p
cancelled-longer b th starting = refl
cancelled-longer b th (registering ls) = refl
cancelled-longer b th waiting = refl
cancelled-longer b th (handling m) = refl
cancelled-longer b th (answering ls x) = refl
cancelled-longer b th (leaving cs) = refl
cancelled-longer b th gone = refl

module _ {Arena Kernel Heap : Type 0} ⦃r : MemoryResource Arena⦄ ⦃k : TimerApi Kernel⦄
    ⦃m : TimerMemory Heap⦄ where
  pub thread_step-followed :
      (b : Bool) (th : Thread) (i : ℕ) (p : Phase) (s : Program Arena Kernel Heap) {p' : Phase}
      {s' : Program Arena Kernel Heap}
      → thread_step th i p s ≡ done (p', s')
      → (b ≡ true → p' ≢ gone)
      → thread_step (followed_thread b th) i (longer b th.script p) s
        ≡ done (longer b th.script p', s')
  unfolding thread_step
  thread_step-followed b th i p s {p'} {s'} e h =
      elim (Outcome-cases (cancel_each (cancelled th p) s.timers)) [
        | inr (x, f) ↦ absurd (ground arith)
        | inl ((u, d), f) ↦ elim (Outcome-cases (step th.script i p s.world)) [
          | inr (x, g) ↦ absurd (ground arith)
          | inl ((p1, w1), g) ↦
              let same : p1 ≡ p' = ground (arith, e, f, g) in
              let other = step-followed th.script i b p s.world g (λ y. rw same (h y)) in
              ground (arith, cancelled-longer b th p, f, other, e, g, same)
        ]
      ]

  pub thread_step-returns :
      (b : Bool) (th : Thread) (i : ℕ) (p p₂ : Phase) (s s₂ : Program Arena Kernel Heap)
      → thread_step (followed_thread b th) i (longer b th.script p) s ≡ done (p₂, s₂)
      → (p' : Phase) × (s' : Program Arena Kernel Heap) × (thread_step th i p s ≡ done (p', s'))
  unfolding thread_step
  thread_step-returns b th i p p₂ s s₂ e =
      elim (Outcome-cases (cancel_each (cancelled th p) s.timers)) [
        | inr (x, f) ↦ absurd (ground (arith, cancelled-longer b th p))
        | inl ((u, d), f) ↦
            elim (Outcome-cases (step (followed b th.script) i (longer b th.script p) s.world)) [
              | inr (x, g) ↦ absurd (ground (arith, cancelled-longer b th p))
              | inl ((p1, w1), g) ↦
                  let (p', w', run) = step-returns th.script i b p p1 s.world w1 g in
                  (p', record { world = w'; timers = d }, ground (arith, f, run))
            ]
      ]
