-- ===== src/TimerManagerData/Handler.antt =====
-- TimerManagerData.h: the loop of the handler thread over any number of signals, until the end of
-- the program.
use msglib_cpp.Common.{
  ℕ, ◌<◌, ◌≡◌, ◌∙◌, refl, sym, ap, true, false, Option, none, some, List, [], ◌∷◌, arith, inl, inr,
}
use msglib_cpp.Common.State.{done}
use msglib_cpp.Pool.Resource.{MemoryResource}
use msglib_cpp.Message.{Message}
use msglib_cpp.Receiver.Slots.{slots}
use msglib_cpp.MailboxData.{Resources}
use msglib_cpp.Mailbox.{Mailbox, World, find_mailbox, send_signal}
use msglib_cpp.Mailbox.Accounting.{Accounted}
use msglib_cpp.Mailbox.Blocks.{IsReady}
use msglib_cpp.Mailbox.Session.Invariant.{AreAlive-known}
use msglib_cpp.Mailbox.Signals.{send_signal_lem}
use msglib_cpp.TimerManagerData.{
  Timer, TimerType, periodic, one_shot, TimerResources, TimerManagerData, Program, update,
  cancel_timer, cancel, Round, handle_signal, handle_signals, timer_event,
}
use msglib_cpp.TimerManagerData.Api.{TimerApi, TimerMemory}
use msglib_cpp.TimerManagerData.Consistent.{IsConsistent, ended}
use msglib_cpp.TimerManagerData.Calls.{cancel_timer-taken}
use msglib_cpp.TimerManagerData.Events.{TimerType-cases}

-- The timers that are there after the event of one of them.
abbrev pub spent : TimerType → ℕ → (ℕ → Option Timer) → ℕ → Option Timer
spent periodic p objects = objects
spent one_shot p objects = update objects p none

-- Does each signal belong to a timer that is there when it is handled?
abbrev pub AreDue : (ℕ → Option Timer) → List (Option ℕ) → Type 0
AreDue objects [] = Unit {0}
AreDue objects (none ∷ ps) = AreDue objects ps
AreDue objects (some p ∷ ps) =
    (t : Timer) × (objects p ≡ some t) × AreDue (spent t.type p objects) ps

-- The timers that are there after all these signals.
abbrev pub left_after :
    (objects : ℕ → Option Timer) (ps : List (Option ℕ)) → AreDue objects ps → ℕ → Option Timer
left_after objects [] h = objects
left_after objects (none ∷ ps) h = left_after objects ps h
left_after objects (some p ∷ ps) (t, e, h) = left_after (spent t.type p objects) ps h

-- A round for each signal, and one that finds m_shutdown set.
abbrev pub rounds : List (Option ℕ) → List Round
rounds [] = record { shutdown = true; signal = none } ∷ []
rounds (p ∷ ps) = record { shutdown = false; signal = p } ∷ rounds ps

module _ {Kernel Heap : Type 0} ⦃k : TimerApi Kernel⦄ ⦃m : TimerMemory Heap⦄ where
  cancel_timer-objects :
      (d d' : TimerManagerData Kernel Heap) (x x' : TimerResources Heap) (label p : ℕ)
      → IsConsistent d x
      → x.slots label ≡ some p
      → cancel_timer label d ≡ done (true, d')
      → d'.resources ≡ some x'
      → x'.objects ≡ update x.objects p none
  unfolding cancel_timer
  cancel_timer-objects d d' x x' label p v e run res =
      let (t, is, of) = v.slot label p e in
      let now : cancel_timer label d
          ≡ done (
            true,
            record d {
              kernel = k.delete (cancel t d.kernel) t.id;
              resources = some (ended v label p);
            },
          ) =
        ground (arith, v.resources, e, is) in
      let same : ended v label p ≡ x' = ground (arith, run, res) in sym (ap (λ z. z.objects) same)

module _ {Arena Kernel Heap : Type 0} ⦃r : MemoryResource Arena⦄ ⦃k : TimerApi Kernel⦄
    ⦃m : TimerMemory Heap⦄ (y : Resources Arena) (held lost : List Message) where
  -- Between two rounds, with the timers `objects`.
  pub record Running (s : Program Arena Kernel Heap) (objects : ℕ → Option Timer) : Type 0 where
    pub timers : TimerResources Heap
    pub consistent : IsConsistent s.timers timers
    pub objects_are : timers.objects ≡ objects
    pub ready : IsReady s.world.shared y
    pub accounted : Accounted y s.world.mailboxes held lost
    pub alive :
        (label i : ℕ)
        → 0 < slots i (y.mailboxes label)
        → (q : Mailbox) × (find_mailbox s.world.mailboxes i ≡ some q)

  event-spent :
      (t : Timer) (p : ℕ) (w w' : World Arena) (d : TimerManagerData Kernel Heap)
      (x : TimerResources Heap)
      → IsConsistent d x
      → x.slots t.label ≡ some p
      → send_signal t.label w ≡ done (true, w')
      → (d' : TimerManagerData Kernel Heap) × (x' : TimerResources Heap) × (timer_event t
            (record { world = w; timers = d })
          ≡ done (true, record { world = w'; timers = d' }))
        × IsConsistent d' x'
        × (x'.objects ≡ spent t.type p x.objects)
  unfolding timer_event
  event-spent t p w w' d x v at sent = elim (TimerType-cases t.type) [
    | inl a ↦ (d, x, ground (arith, sent, a), v, rw a refl)
    | inr b ↦
        let (d', x', (run, v', slots, gone, used)) = cancel_timer-taken d x t.label v p at in
        (
          d',
          x',
          ground (arith, sent, b, run),
          v',
          rw b (cancel_timer-objects d d' x x' t.label p v at run v'.resources),
        )
  ]

  handle_signal-Running :
      (s : Program Arena Kernel Heap) {objects : ℕ → Option Timer} (p : ℕ) (t : Timer)
      → Running s objects
      → objects p ≡ some t
      → (s' : Program Arena Kernel Heap) × (handle_signal (some p) s ≡ done (true, s'))
        × Running s' (spent t.type p objects)
  unfolding handle_signal
  handle_signal-Running s p t v is =
      let x = v.timers in
      let here : x.objects p ≡ some t = ap (λ f. f p) v.objects_are ∙ is in
      let (ms', run, acc, got) =
        send_signal_lem t.label s.world y held lost v.ready v.accounted
          (AreAlive-known s.world.mailboxes (y.mailboxes t.label) (v.alive t.label)) in
      let (at, set, handed) = v.consistent.object p t here in
      let w' : World Arena = record s.world { mailboxes = ms' } in
      let (d', x', event, v', objects') =
        event-spent t p s.world w' s.timers x v.consistent at run in
      let alive' : (label i : ℕ)
          → 0 < slots i (y.mailboxes label)
          → (q : Mailbox) × (find_mailbox ms' i ≡ some q) =
        λ l i n. let (q, e) = v.alive l i n in (_, got i q e) in
      (
        record { world = w'; timers = d' },
        ground (arith, v.consistent.resources, here, event),
        record {
          timers = x';
          consistent = v';
          objects_are = objects' ∙ ap (spent t.type p) v.objects_are;
          ready = v.ready;
          accounted = acc;
          alive = alive';
        },
      )

  handle_signal-none : (s : Program Arena Kernel Heap) → handle_signal none s ≡ done (false, s)
  unfolding handle_signal
  handle_signal-none s = refl

  -- The program is initialised, its timers are consistent, and the mailboxes that labels have are
  -- alive. Let each signal that the handler thread gets be of a timer that is there when it is
  -- handled: a one-shot timer is there for its first signal only. Then the thread handles all of
  -- them, sees m_shutdown and ends; the timers that are left are those with no one-shot signal, they
  -- are consistent, and every block of the pools is accounted for as before.
  pub handle_signals-ends :
      (ps : List (Option ℕ)) (s : Program Arena Kernel Heap) (objects : ℕ → Option Timer)
      → Running s objects
      → (due : AreDue objects ps)
      → (s' : Program Arena Kernel Heap) × (handle_signals (rounds ps) s ≡ done (true, s'))
        × Running s' (left_after objects ps due)
  unfolding handle_signals
  handle_signals-ends [] s objects v due = (s, refl, v)
  handle_signals-ends (none ∷ ps) s objects v due =
      let (s', run, v') = handle_signals-ends ps s objects v due in
      (s', ground (arith, handle_signal-none s, run), v')
  handle_signals-ends (some p ∷ ps) s objects v (t, is, due) =
      let (s1, one, v1) = handle_signal-Running s p t v is in
      let (s', run, v') = handle_signals-ends ps s1 (spent t.type p objects) v1 due in
      (s', ground (arith, one, run), v')
