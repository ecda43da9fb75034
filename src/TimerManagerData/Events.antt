-- ===== src/TimerManagerData/Events.antt =====
-- TimerManagerData.h: what the handler thread does with the signal of a timer.
use msglib_cpp.Common.{
  ℕ, ◌≡◌, ◌⊎◌, refl, true, Option, none, some, List, arith, ◌==◌, if◌then◌else◌, inl, inr,
}
use msglib_cpp.Common.State.{done, fault, dangling_timer}
use msglib_cpp.Pool.Resource.{MemoryResource}
use msglib_cpp.Message.{Message}
use msglib_cpp.Receiver.Slots.{slots}
use msglib_cpp.MailboxData.{Resources}
use msglib_cpp.Mailbox.{Mailbox, World, find_mailbox, send_signal}
use msglib_cpp.Mailbox.Accounting.{Accounted}
use msglib_cpp.Mailbox.Blocks.{IsReady}
use msglib_cpp.Mailbox.Sends.Loop.{AreAlive}
use msglib_cpp.Mailbox.Signals.{signalled, send_signal_lem}
use msglib_cpp.TimerManagerData.{
  Timer, TimerType, periodic, one_shot, TimerResources, TimerManagerData, cancel_timer, cancel,
  handle_signal, timer_event,
}
use msglib_cpp.TimerManagerData.Api.{TimerApi, TimerMemory}
use msglib_cpp.TimerManagerData.Consistent.{IsConsistent, ended}
use msglib_cpp.TimerManagerData.Calls.{cancel_timer-taken}

pub TimerType-cases : (y : TimerType) → (y ≡ periodic) ⊎ (y ≡ one_shot)
TimerType-cases periodic = inl refl
TimerType-cases one_shot = inr refl

module _ {Kernel Heap : Type 0} ⦃k : TimerApi Kernel⦄ ⦃m : TimerMemory Heap⦄ where
  -- What the timers are after the event of `t`.
  abbrev pub Handled :
      Timer
      → TimerManagerData Kernel Heap
      → TimerResources Heap
      → TimerManagerData Kernel Heap
      → TimerResources Heap
      → Type 0
  Handled t d x d' x' =
      IsConsistent d' x'
      × (((t.type ≡ periodic) × (d' ≡ d))
          ⊎ ((t.type ≡ one_shot)
              × ((l : ℕ) → x'.slots l ≡ (if t.label == l then none else x.slots l))))

module _ {Arena Kernel Heap : Type 0} ⦃r : MemoryResource Arena⦄ ⦃k : TimerApi Kernel⦄
    ⦃m : TimerMemory Heap⦄ where
  pub timer_event-Handled :
      (t : Timer) (p : ℕ) (w w' : World Arena) (d : TimerManagerData Kernel Heap)
      (x : TimerResources Heap)
      → IsConsistent d x
      → x.slots t.label ≡ some p
      → send_signal t.label w ≡ done (true, w')
      → (d' : TimerManagerData Kernel Heap) × (x' : TimerResources Heap) × (timer_event t
            (record { world = w; timers = d })
          ≡ done (true, record { world = w'; timers = d' }))
        × Handled t d x d' x'
  unfolding timer_event
  timer_event-Handled t p w w' d x v at sent = elim (TimerType-cases t.type) [
    | inl a ↦ (d, x, ground (arith, sent, a), (v, inl (a, refl)))
    | inr b ↦
        let (d', x', (run, v', slots, gone, used)) = cancel_timer-taken d x t.label v p at in
        (d', x', ground (arith, sent, b, run), (v', inr (b, slots)))
  ]

  -- The signal of a living timer, in an initialised program whose mailboxes for the label are alive:
  -- each mailbox gets the timer's label as often as it has registered for it, and has room. A
  -- periodic timer stays as it is. A one-shot timer is gone, and its label is free for the next
  -- `startTimer`. The timers stay consistent.
  pub handle_signal_lem :
      (w : World Arena) (y : Resources Arena) (held lost : List Message)
      (d : TimerManagerData Kernel Heap) (x : TimerResources Heap) (p : ℕ) (t : Timer)
      → IsReady w.shared y
      → Accounted y w.mailboxes held lost
      → AreAlive w.mailboxes (y.mailboxes t.label)
      → IsConsistent d x
      → x.objects p ≡ some t
      → (ms' : List (Option Mailbox)) × (d' : TimerManagerData Kernel Heap) × (x' : TimerResources
          Heap)
        × (handle_signal (some p) (record { world = w; timers = d })
            ≡ done (true, record { world = record w { mailboxes = ms' }; timers = d' }))
        × ((i : ℕ) (q : Mailbox)
            → find_mailbox w.mailboxes i ≡ some q
            → find_mailbox ms' i ≡ some (signalled t.label (slots i (y.mailboxes t.label)) q))
        × Handled t d x d' x'
  unfolding handle_signal
  handle_signal_lem w y held lost d x p t ready acc alive v is =
      let (ms', run, acc', got) = send_signal_lem t.label w y held lost ready acc alive in
      let (at, set, handed) = v.object p t is in
      let (d', x', event, h) =
        timer_event-Handled t p w (record w { mailboxes = ms' }) d x v at run in
      (ms', d', x', ground (arith, v.resources, is, event), got, h)

module _ {Arena Kernel Heap : Type 0} ⦃k : TimerApi Kernel⦄ ⦃m : TimerMemory Heap⦄ where
  -- A signal that was queued before its timer was cancelled, and is handled after it: the handler
  -- uses a timer that is destroyed.
  pub handle_signal-stale :
      (w : World Arena) (d : TimerManagerData Kernel Heap) (x : TimerResources Heap) (p label : ℕ)
      → IsConsistent d x
      → x.slots label ≡ some p
      → (d' : TimerManagerData Kernel Heap) × (cancel_timer label d ≡ done (true, d'))
        × (handle_signal (some p) (record { world = w; timers = d' }) ≡ fault dangling_timer)
  unfolding handle_signal cancel_timer
  handle_signal-stale w d x p label v e =
      let (t, is, of) = v.slot label p e in
      let d' = record d {
        kernel = k.delete (cancel t d.kernel) t.id;
        resources = some (ended v label p);
      } in
      (d', ground (arith, v.resources, is), ground arith)
