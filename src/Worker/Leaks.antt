-- ===== src/Worker/Leaks.antt =====
-- The threads of the examples: what comes of a script that leaves a registration behind.
use msglib_cpp.Common.{
  ℕ, suc, ◌<◌, ◌≡◌, refl, Bool, true, false, ◌||◌, none, some, List, [], ◌∷◌, arith, get_elem?,
  ◌==◌, get_elem?-set_self, lt-length_of_get_elem?,
}
use msglib_cpp.Common.State.{done, fault, dangling_mailbox}
use msglib_cpp.Pool.Resource.{MemoryResource}
use msglib_cpp.Receiver.Slots.{slots}
use msglib_cpp.Message.{Message}
use msglib_cpp.MailboxData.{Resources, get_receivers}
use msglib_cpp.Mailbox.{World, send_signal, destroy}
use msglib_cpp.Mailbox.Blocks.{IsReady}
use msglib_cpp.Mailbox.Sends.{behind}
use msglib_cpp.Mailbox.Registration.{signal_each-dead}
use msglib_cpp.Worker.{Cleanup, drops, takes, signals, Script, leaving, gone, step, cleanup_call}
use msglib_cpp.Worker.Healthy.{Healthy, some_of_find, Alive}
use msglib_cpp.Worker.Calls.{send_signal-Healthy, register-Healthy, unregister-Healthy}
use msglib_cpp.Worker.Ends.{run_alone}

-- Does one of the calls unregister for `l`?
abbrev pub drops_label : ℕ → List Cleanup → Bool
drops_label l [] = false
drops_label l (drops k ∷ cs) = (k == l) || drops_label l cs
drops_label l (takes k ∷ cs) = drops_label l cs
drops_label l (signals k ∷ cs) = drops_label l cs

module _ {Arena : Type 0} where
  send_signal-dead_receiver :
      (label i : ℕ) (w : World Arena) (x : Resources Arena)
      → IsReady w.shared x
      → get_elem? w.mailboxes i ≡ some none
      → 0 < slots i (x.mailboxes label)
      → send_signal label w ≡ fault dangling_mailbox
  unfolding send_signal get_receivers
  send_signal-dead_receiver label i w x ready d h = ground (
    arith,
    ready.unlocked,
    ready.resources,
    signal_each-dead label i (x.mailboxes label)
        (record w { shared = record w.shared { locked = true } }) (ground (arith, d)) h,
  )

module _ {Arena : Type 0} ⦃r : MemoryResource Arena⦄ (sc : Script) (i l : ℕ)
    (rest : List Message) where
  -- In an initialised program with every registered mailbox alive, a thread is behind its loop, its
  -- mailbox registered for `l`, and none of the calls that it still makes unregisters for `l`. Then
  -- the thread comes to its end, and a `SendSignal` of `l` after that uses a mailbox that is destroyed.
  pub leaving-leaks :
      (cs : List Cleanup) (w : World Arena) (x : Resources Arena) (lost : List Message)
      → Healthy w x rest lost
      → Alive w.mailboxes i
      → 0 < slots i (x.mailboxes l)
      → drops_label l cs ≡ false
      → (n : ℕ) × (w' : World Arena) × (run_alone n sc i (leaving cs) w ≡ done (gone, w'))
        × (send_signal l w' ≡ fault dangling_mailbox)
  unfolding run_alone step cleanup_call destroy
  leaving-leaks [] w x lost v (q, e) h miss =
      let at = some_of_find w.mailboxes i q e in
      let bound = lt-length_of_get_elem? w.mailboxes i {x = some q} at in
      (
        1,
        destroy i w,
        refl,
        send_signal-dead_receiver l i (destroy i w) x
            (record {
              unlocked = v.ready.unlocked;
              initialized = v.ready.initialized;
              resources = v.ready.resources;
            })
            (get_elem?-set_self w.mailboxes i none bound) h,
      )
  leaving-leaks (drops k ∷ cs) w x lost v a h miss =
      let (w', x', run, v', same, put) = unregister-Healthy w x rest lost i k v in
      let (n, w'', runs, faults) =
        leaving-leaks cs w' x' lost v' (rw same a) (ground (arith, put l i)) (ground arith) in
      (suc n, w'', ground (arith, run, runs), faults)
  leaving-leaks (takes k ∷ cs) w x lost v a h miss =
      let (b, w', x', run, v', same, put) = register-Healthy w x rest lost i k v a in
      let (n, w'', runs, faults) =
        leaving-leaks cs w' x' lost v' (rw same a) (omega (arith, put l i)) miss in
      (suc n, w'', ground (arith, run, runs), faults)
  leaving-leaks (signals k ∷ cs) w x lost v (q, e) h miss =
      let (w', run, v', g) = send_signal-Healthy w x rest lost k v in
      let (new, e') = g.grown i q e in
      let (n, w'', runs, faults) = leaving-leaks cs w' x lost v' (behind q new, e') h miss in
      (suc n, w'', ground (arith, run, runs), faults)
