-- ===== src/Application/Safety.antt =====
-- A program as a whole: what every interleaving of its steps keeps, if each script is tidy.
use msglib_cpp.Common.{
  ℕ, zero, suc, ◌≡◌, refl, subst, true, some, List, [], ◌∷◌, arith, get_elem?, set, ◌==◌,
  Bool-cases, inl, inr,
}
use msglib_cpp.Common.State.{done}
use msglib_cpp.Pool.Resource.{MemoryResource}
use msglib_cpp.Mailbox.{World, send_signal}
use msglib_cpp.Mailbox.Sends.{All}
use msglib_cpp.TimerManagerData.{Timer, TimerResources, TimerManagerData, Program, handle_signal}
use msglib_cpp.TimerManagerData.Api.{TimerApi, TimerMemory}
use msglib_cpp.TimerManagerData.Consistent.{IsConsistent}
use msglib_cpp.Worker.{Script, Phase, step, System}
use msglib_cpp.Worker.Owing.{elem-append, IsTidy, carried}
use msglib_cpp.Worker.Calls.{send_signal-Healthy}
use msglib_cpp.Worker.Safety
use msglib_cpp.Worker.Safety.{move-Moved, move-Inv, send-Inv, signal-Inv, All_of_get_elem?}
use msglib_cpp.Application.{
  Thread, Application, cancelled, thread_step, IsQuiet, Step, moves, sends, signalled, starts,
  fires, handles, Reach, here, next,
}
use msglib_cpp.Application.Timers.{
  AreDue, AreDistinct, AreDistinct-append, start-AreDue, cancel_each-AreDue, handle-AreDue,
}

abbrev pub scripts_of : List Thread → List Script
scripts_of [] = []
scripts_of (th ∷ ths) = th.script ∷ scripts_of ths

pub get_script :
    (ths : List Thread) (i : ℕ) {th : Thread}
    → get_elem? ths i ≡ some th
    → get_elem? (scripts_of ths) i ≡ some th.script
get_script [] i e = cc
get_script (th ∷ ths) zero e = ground arith
get_script (th ∷ ths) (suc i) e = get_script ths i e

module _ {Arena Kernel Heap : Type 0} ⦃r : MemoryResource Arena⦄ ⦃k : TimerApi Kernel⦄
    ⦃m : TimerMemory Heap⦄ (threads : List Thread) where
  abbrev pub system : Application Arena Kernel Heap → System Arena
  system s = record { world = s.program.world; phases = s.phases }

  -- Between two steps.
  pub record Inv (s : Application Arena Kernel Heap) : Type 0 where
    pub running : Safety.Inv (scripts_of threads) (system s)
    pub timers : TimerResources Heap
    pub consistent : IsConsistent s.program.timers timers
    pub due : AreDue s.pending timers
    pub distinct : AreDistinct s.pending

  module _ (s : Application Arena Kernel Heap) (v : Inv s) where
    -- A step of a thread returns, whatever is pending.
    pub thread_step-runs :
        (i : ℕ) (th : Thread) (p : Phase)
        → IsTidy th.script
        → get_elem? threads i ≡ some th
        → get_elem? s.phases i ≡ some p
        → (p' : Phase) × (s' : Program Arena Kernel Heap) × (thread_step th i p s.program
            ≡ done (p', s'))
          × (step th.script i p s.program.world ≡ done (p', s'.world))
          × (IsQuiet s.program (cancelled th p) s.pending
              → (x' : TimerResources Heap) × IsConsistent s'.timers x' × AreDue s.pending x')
    unfolding thread_step
    thread_step-runs i th p tidy e f =
        let (p', w', x', lost', run, h, o, a, frame) =
          move-Moved (scripts_of threads) (system s) v.running i th.script p tidy
            (get_script threads i e) f in
        let (d₀, x₀, runs₀, v₀, due₀) =
          cancel_each-AreDue (cancelled th p) s.program.timers v.timers [] v.consistent
            (λ l q g h. refl) (λ q h. absurd (ground arith)) in
        (
          p',
          record { world = w'; timers = d₀ },
          ground (arith, runs₀, run),
          run,
          λ quiet.
              let (d1, x1, runs1, v1, due1) =
                cancel_each-AreDue (cancelled th p) s.program.timers v.timers s.pending v.consistent
                  (λ l q g h. quiet l q g (rw v.consistent.resources h)) v.due in
              let same : d1 ≡ d₀ = ground (arith, runs1, runs₀) in
              (x1, subst (λ (z : TimerManagerData Kernel Heap). IsConsistent z x1) same v1, due1),
        )

    moves-Inv :
        (i : ℕ) (th : Thread) (p p' : Phase) (s' : Program Arena Kernel Heap)
        → IsTidy th.script
        → get_elem? threads i ≡ some th
        → get_elem? s.phases i ≡ some p
        → IsQuiet s.program (cancelled th p) s.pending
        → thread_step th i p s.program ≡ done (p', s')
        → Inv (record s { program = s'; phases = set s.phases i p' })
    moves-Inv i th p p' s' tidy e f quiet run =
        let (p1, s1, run1, stepped, kept) = thread_step-runs i th p tidy e f in
        let (x', v', due) = kept quiet in
        let same_p : p1 ≡ p' = ground (arith, run, run1) in
        let same_s : s1 ≡ s' = ground (arith, run, run1) in
        rw (← same_p, ← same_s)
          (record {
            running =
                move-Inv (scripts_of threads) (system s) v.running i th.script p p1 s1.world tidy
                  (get_script threads i e) f stepped;
            timers = x';
            consistent = v';
            due = due;
            distinct = v.distinct;
          })

    -- What happens to the mailboxes alone.
    world-Inv :
        (w : World Arena)
        → Safety.Inv (scripts_of threads) (record { world = w; phases = s.phases })
        → Inv (record s { program = record s.program { world = w } })
    world-Inv w running = record {
      running = running;
      timers = v.timers;
      consistent = v.consistent;
      due = v.due;
      distinct = v.distinct;
    }

    -- The oldest signal is handled.
    pub handle-runs :
        (p : ℕ) (ps : List ℕ)
        → s.pending ≡ p ∷ ps
        → (t : Timer) × (s' : Program Arena Kernel Heap) × (v.timers.objects p ≡ some t)
          × (handle_signal (some p) s.program ≡ done (true, s'))
          × (send_signal t.label s.program.world ≡ done (true, s'.world))
          × Inv (record s { program = s'; pending = ps })
    handle-runs p ps e =
        let (l, at) = v.due p (rw e (ground arith)) in
        let (t, is, of) = v.consistent.slot l p at in
        let h = v.running in
        let (w', sent, h', grows) =
          send_signal-Healthy s.program.world h.resources (carried s.phases) h.lost t.label
            h.healthy in
        let apart : AreDistinct (p ∷ ps) = rw e at v.distinct in
        let (d', x', run, v', due) =
          handle-AreDue s.program.world w' s.program.timers v.timers p ps t v.consistent
            (λ q g. v.due q (rw e (ground arith))) apart.0 is sent in
        (
          t,
          record { world = w'; timers = d' },
          is,
          run,
          sent,
          record {
            running = signal-Inv (scripts_of threads) (system s) h t.label sent;
            timers = x';
            consistent = v';
            due = due;
            distinct = apart.1;
          },
        )

  module _ (tidy : All IsTidy (scripts_of threads)) where
    Step-Inv : {s t : Application Arena Kernel Heap} → Inv s → Step threads s t → Inv t
    Step-Inv {s} v (moves i th p p' s' e f quiet run g) = rw g (
        moves-Inv s v i th p p' s'
          (All_of_get_elem? IsTidy (scripts_of threads) i tidy (get_script threads i e)) e f quiet
          run)
    Step-Inv {s} v (sends label bytes ok w e g) =
        rw g (world-Inv s v w (send-Inv (scripts_of threads) (system s) v.running label bytes e))
    Step-Inv {s} v (signalled label ok w e g) =
        rw g (world-Inv s v w (signal-Inv (scripts_of threads) (system s) v.running label e))
    Step-Inv {s} v (starts label time type res d e fine g) =
        let (x', v', due) =
          start-AreDue label time type s.program.timers d v.timers s.pending v.consistent e fine
            v.due in
        rw g (record {
          running = v.running;
          timers = x';
          consistent = v';
          due = due;
          distinct = v.distinct;
        })
    Step-Inv {s} v (fires id p spec e new g) =
        let (t, is, of) = v.consistent.set_by_us id p spec e in
        rw g (record {
          running = v.running;
          timers = v.timers;
          consistent = v.consistent;
          due = λ q h. elim (Bool-cases (p == q)) [
            | inl hit ↦ (t.label, ground (arith, (v.consistent.object p t is).0))
            | inr miss ↦ v.due q (ground (arith, elem-append q s.pending (p ∷ [])))
          ];
          distinct = AreDistinct-append p s.pending new v.distinct;
        })
    Step-Inv {s} v (handles p ps ok s' e run g) =
        let (t, s1, is, run1, sent, v1) = handle-runs s v p ps e in
        let same : s1 ≡ s' = ground (arith, run, run1) in rw (g, ← same) v1

    pub Reach-Inv : {s t : Application Arena Kernel Heap} → Inv s → Reach threads s t → Inv t
    Reach-Inv v here = v
    Reach-Inv v (next r st) = Step-Inv (Reach-Inv v r) st
