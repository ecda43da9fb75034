-- ===== src/Worker.antt =====
-- The threads of example/mbox.cpp and example/timer.cpp. Each has a mailbox on its stack, registers
-- it for labels, receives in a loop until a message makes it leave, and cleans up. What a thread
-- does in these places is its script; a step is what it does between two places where it may be
-- interrupted, that is one call of the library.
pub mod Healthy
pub mod Calls
pub mod Owing
pub mod Moves
pub mod Safety
pub mod Start
pub mod Ends
pub mod Leaks
pub mod Untidy
use msglib_cpp.Common.{ℕ, ◌≡◌, Bool, true, false, Option, none, some, List, [], ◌∷◌, get_elem?, set}
use msglib_cpp.Common.State.{Outcome, done, fault, Action, ◌>>=◌, ◌>>◌, pure}
use msglib_cpp.Pool.Resource.{MemoryResource}
use msglib_cpp.Message.{Message}
use msglib_cpp.Mailbox.{
  World, Mailbox, new_default_mailbox, receive, release_message, register_for_label,
  unregister_for_label, send_message, send_signal, destroy,
}

-- What the body of the loop does with a message: does it release it (itself, or by the end of a
-- MessageGuard), which signals does it send then, and does it leave the loop?
pub record Reaction : Type 0 where
  pub releases : Bool
  pub sends : List ℕ
  pub exits : Bool

-- A call behind the loop: `UnregisterForLabel`, `RegisterForLabel` or `SendSignal`.
pub data Cleanup : Type 0 where
  drops takes signals : ℕ → Cleanup

pub record Script : Type 0 where
  pub registers : List ℕ
  pub handle : ℕ → Reaction
  pub cleanup : List Cleanup

-- Where a thread stands, with what it still has to do there.
pub data Phase : Type 0 where
  starting : Phase
  registering : List ℕ → Phase
  waiting : Phase
  handling : Message → Phase
  answering : List ℕ → Bool → Phase
  leaving : List Cleanup → Phase
  gone : Phase

module _ {Arena : Type 0} where
  -- `Mailbox mbox;` for the mailbox with the address `this`.
  unfoldable pub construct : ℕ → World Arena → World Arena
  construct this w = record w { mailboxes = set w.mailboxes this (some new_default_mailbox) }

unfoldable pub after_answers : Script → Bool → Phase
after_answers sc true = leaving sc.cleanup
after_answers sc false = waiting

unfoldable pub received : Option Message → Phase
received none = waiting
received (some m) = handling m

module _ {Arena : Type 0} ⦃r : MemoryResource Arena⦄ where
  unfoldable pub cleanup_call : ℕ → Cleanup → Action (World Arena) Bool
  cleanup_call this (drops l) = unregister_for_label this l
  cleanup_call this (takes l) = register_for_label this l
  cleanup_call this (signals l) = send_signal l

  -- One step of the thread with the mailbox `this`. One that blocks stays where it is.
  unfoldable pub step : Script → ℕ → Phase → Action (World Arena) Phase
  unfolding after_answers received cleanup_call
  step sc this starting w = done (registering sc.registers, construct this w)
  step sc this (registering []) w = done (waiting, w)
  step sc this (registering (l ∷ ls)) w =
      (do ok ← register_for_label this l; pure (registering ls)) w
  step sc this waiting w = (do m ← receive this; pure (received m)) w
  step sc this (handling m) w =
      let reaction = sc.handle m.label in
      done (
        answering reaction.sends reaction.exits,
        elim reaction.releases [ true ↦ release_message m w | false ↦ w ],
      )
  step sc this (answering [] exits) w = done (after_answers sc exits, w)
  step sc this (answering (l ∷ ls) exits) w = (do ok ← send_signal l; pure (answering ls exits)) w
  step sc this (leaving []) w = done (gone, destroy this w)
  step sc this (leaving (c ∷ cs)) w = (do ok ← cleanup_call this c; pure (leaving cs)) w
  step sc this gone w = done (gone, w)

-- The program: the world and where its threads stand. Thread `i` has the mailbox `i`.
pub record System (Arena : Type 0) : Type 0 where
  pub world : World Arena
  pub phases : List Phase

module _ {Arena : Type 0} ⦃r : MemoryResource Arena⦄ (scripts : List Script) where
  -- A thread moves, or `main` sends a message or a signal.
  pub data Step (s t : System Arena) : Type 0 where
    moves :
        (i : ℕ) (sc : Script) (p p' : Phase) (w : World Arena)
        → get_elem? scripts i ≡ some sc
        → get_elem? s.phases i ≡ some p
        → step sc i p s.world ≡ done (p', w)
        → t ≡ record { world = w; phases = set s.phases i p' }
        → Step s t
    sends :
        (label : ℕ) (t' : List ℕ) (ok : Bool) (w : World Arena)
        → send_message label t' s.world ≡ done (ok, w)
        → t ≡ record s { world = w }
        → Step s t
    signalled :
        (label : ℕ) (ok : Bool) (w : World Arena)
        → send_signal label s.world ≡ done (ok, w)
        → t ≡ record s { world = w }
        → Step s t

  pub data Reach (s : System Arena) : System Arena → Type 0 where
    here : Reach s s
    next : {t u : System Arena} → Reach s t → Step t u → Reach s u
