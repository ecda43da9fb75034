-- ===== src/Application/Ends.antt =====
-- A program as a whole: a timer that ends a thread.
use msglib_cpp.Common.{
  ℕ, zero, suc, ◌-◌, ◌<◌, ◌^◌, ◌≡◌, refl, Bool, true, none, some, List, [], ◌∷◌, ◌++◌, arith,
  length, get_elem?, inl, inr,
}
use Prim.Native.Nat.{min}
use msglib_cpp.Common.State.{done, Action, ◌>>=◌, Outcome-cases}
use msglib_cpp.Pool.{Memory}
use msglib_cpp.Pool.Resource.{MemoryResource}
use msglib_cpp.Receiver.Slots.{slots}
use msglib_cpp.Message.{Message, signal}
use msglib_cpp.MailboxData.{Resources}
use msglib_cpp.Mailbox.{World, Mailbox, find_mailbox}
use msglib_cpp.Mailbox.Sends.{All}
use msglib_cpp.Mailbox.Signals.{replicate, room, signalled, send_signal_lem}
use msglib_cpp.TimerManagerData.{
  Timer, TimerResources, TimerManagerData, Program, find_timer, handle_signal, new_resources,
}
use msglib_cpp.TimerManagerData.Api.{TimerApi, TimerMemory}
use msglib_cpp.TimerManagerData.Consistent.{IsConsistent}
use msglib_cpp.TimerManager.{MaskCalls}
use msglib_cpp.Msglib.{initialize_with}
use msglib_cpp.Worker.{Script, Phase, waiting, gone, step}
use msglib_cpp.Worker.Healthy.{receivers-AreAlive}
use msglib_cpp.Worker.Owing.{IsTidy, carried}
use msglib_cpp.Worker.Ends.{leaves_by, run_alone, Inv-Ends}
use msglib_cpp.Application.{Thread, Application, cancelled, thread_step, Reach}
use msglib_cpp.Application.Timers.{cancel_each-AreDue}
use msglib_cpp.Application.Safety.{scripts_of, get_script, Inv, handle-runs, Reach-Inv}
use msglib_cpp.Application.Start.{uninitialized_program, begun, started-Inv}

-- A message that makes the thread leave stands behind all others.
leaves_by-last :
    (sc : Script) (items : List Message) (n l : ℕ)
    → (sc.handle l).exits ≡ true
    → leaves_by sc (items ++ replicate (suc n) (signal l)) ≡ true
unfolding signal
leaves_by-last sc [] n l e = ground arith
leaves_by-last sc (m ∷ items) n l e = ground (arith, leaves_by-last sc items n l e)

module _ {Arena Kernel Heap : Type 0} ⦃r : MemoryResource Arena⦄ ⦃k : TimerApi Kernel⦄
    ⦃m : TimerMemory Heap⦄ where
  -- The thread takes `n` steps while nothing else happens.
  unfoldable pub run_thread : ℕ → Thread → ℕ → Phase → Action (Program Arena Kernel Heap) Phase
  run_thread zero th i p s = done (p, s)
  run_thread (suc n) th i p s = (do p' ← thread_step th i p; run_thread n th i p') s

  -- The timers do not keep it from doing so.
  run_thread-run_alone :
      (n : ℕ) (th : Thread) (i : ℕ) (p : Phase) (w : World Arena) (d : TimerManagerData Kernel Heap)
      (x : TimerResources Heap) {p' : Phase} {w' : World Arena}
      → IsConsistent d x
      → run_alone n th.script i p w ≡ done (p', w')
      → (d' : TimerManagerData Kernel Heap) × (run_thread n th i p
            (record { world = w; timers = d })
          ≡ done (p', record { world = w'; timers = d' }))
  unfolding run_thread run_alone thread_step
  run_thread-run_alone zero th i p w d x v e = (d, ground arith)
  run_thread-run_alone (suc n) th i p w d x {p'} {w'} v e =
      elim (Outcome-cases (step th.script i p w)) [
        | inr (y, f) ↦ absurd (ground arith)
        | inl ((p1, w1), f) ↦
            let (d1, x1, runs, v1, due) =
              cancel_each-AreDue (cancelled th p) d x [] v (λ l q g h. refl)
                (λ q h. absurd (ground arith)) in
            let left : run_alone n th.script i p1 w1 ≡ done (p', w') = ground (arith, e, f) in
            let (d', rest) = run_thread-run_alone n th i p1 w1 d1 x1 v1 left in
            (d', ground (arith, runs, f, rest))
      ]

module _ {Arena Kernel Heap : Type 0} ⦃r : MemoryResource Arena⦄ ⦃k : TimerApi Kernel⦄
    ⦃m : TimerMemory Heap⦄ (threads : List Thread) where
  Inv-ends :
      (t : Application Arena Kernel Heap) (i p : ℕ) (ps : List ℕ) {th : Thread} {u : Timer}
      {x : Resources Arena} {q : Mailbox}
      → Inv threads t
      → All IsTidy (scripts_of threads)
      → t.pending ≡ p ∷ ps
      → find_timer t.program.timers.resources p ≡ some u
      → get_elem? threads i ≡ some th
      → get_elem? t.phases i ≡ some waiting
      → t.program.world.shared.resources ≡ some x
      → 0 < slots i (x.mailboxes u.label)
      → find_mailbox t.program.world.mailboxes i ≡ some q
      → length q.items < q.capacity
      → (th.script.handle u.label).exits ≡ true
      → (s' s'' : Program Arena Kernel Heap) × (n : ℕ) × (handle_signal (some p) t.program
          ≡ done (true, s'))
        × (run_thread n th i waiting s' ≡ done (gone, s''))
  Inv-ends t i p ps {th} {u} {x} {q} v tidy first timer e f res registered found free exits =
      let (u', s', is, run, sent, v') = handle-runs threads t v p ps first in
      let same : u' ≡ u = ground (arith, v.consistent.resources) in
      let h = v.running.healthy in
      let (ms', run', acc, got) =
        send_signal_lem u.label t.program.world v.running.resources (carried t.phases)
          v.running.lost h.ready h.accounted (receivers-AreAlive h u.label) in
      let same_x : v.running.resources ≡ x = ground (arith, h.ready.resources) in
      let n = slots i (x.mailboxes u.label) in
      let k = min n (room q) - 1 in
      let got_it : find_mailbox s'.world.mailboxes i ≡ some (signalled u.label n q) =
        ground (arith, got i q found, same, run', sent) in
      let some_signals : min n (room q) ≡ suc k = omega arith in
      let leaves : leaves_by th.script (signalled u.label n q).items ≡ true =
        rw some_signals (leaves_by-last th.script q.items k u.label exits) in
      let (steps, w'', alone) =
        Inv-Ends (scripts_of threads) i v'.running tidy (get_script threads i e) f got_it leaves in
      let (d'', all) =
        run_thread-run_alone steps th i waiting s'.world s'.timers v'.timers v'.consistent alone in
      (s', record { world = w''; timers = d'' }, steps, run, all)

  -- Let `Initialize` succeed in a process without timers, with m_timers all null, which the source
  -- does not ensure, with fewer than 2^64 blocks of each size and large blocks of fewer than 2^16
  -- bytes, and let every script undo its registrations behind its loop. In a state that the program
  -- can reach, where no StartTimer has thrown from the constructor of Timer and no timer was cancelled
  -- while its signal was pending, let the signal that the handler thread takes next be
  -- of a timer, and let a thread wait for a message whose mailbox is registered for the timer's label
  -- and has room for a message, where the thread leaves its loop on a message with that label. Then
  -- the handler thread handles the signal, and after that the thread comes to its end in finitely
  -- many steps of its own, whatever it has in its queue.
  pub timer_ends_thread :
      (memory : Memory) (kernel : Kernel) (ss sc ls lc : ℕ) (calls : MaskCalls) (thread : Bool)
      {s : Program Arena Kernel Heap} {t : Application Arena Kernel Heap} (i p : ℕ) (ps : List ℕ)
      {th : Thread} {u : Timer} {x : Resources Arena} {q : Mailbox}
      → ((id : ℕ) → k.timer kernel id ≡ none)
      → initialize_with calls
          (new_resources (λ l. none) thread)
          ss
          sc
          ls
          lc
          (uninitialized_program threads memory kernel ss sc ls lc)
        ≡ done (true, s)
      → sc < 2 ^ 64
      → lc < 2 ^ 64
      → ls < 2 ^ 16
      → All IsTidy (scripts_of threads)
      → Reach threads (begun threads memory kernel ss sc ls lc s) t
      → t.pending ≡ p ∷ ps
      → find_timer t.program.timers.resources p ≡ some u
      → get_elem? threads i ≡ some th
      → get_elem? t.phases i ≡ some waiting
      → t.program.world.shared.resources ≡ some x
      → 0 < slots i (x.mailboxes u.label)
      → find_mailbox t.program.world.mailboxes i ≡ some q
      → length q.items < q.capacity
      → (th.script.handle u.label).exits ≡ true
      → (s' s'' : Program Arena Kernel Heap) × (n : ℕ) × (handle_signal (some p) t.program
          ≡ done (true, s'))
        × (run_thread n th i waiting s' ≡ done (gone, s''))
  timer_ends_thread memory kernel ss sc ls lc calls thread {t = t} i p ps none_yet e scb lcb lsb
        tidy reach =
      let v₀ = started-Inv threads memory kernel ss sc ls lc calls thread none_yet e scb lcb lsb in
      Inv-ends t i p ps (Reach-Inv threads tidy v₀ reach) tidy
