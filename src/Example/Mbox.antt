-- ===== src/Example/Mbox.antt =====
-- example/mbox.cpp: three threads that receive what main sends. What is printed goes to spdlog;
-- sizes and object representations of the structs are the compiler's and so are arguments.
use msglib_cpp.Common.{ℕ, Bool, true, Option, none, some, List, [], ◌∷◌, ◌==◌, if◌then◌else◌}
use msglib_cpp.Common.State.{Action, ◌>>=◌, pure}
use msglib_cpp.Pool.Resource.{MemoryResource}
use msglib_cpp.Message.{Message, as_type}
use msglib_cpp.Mailbox.{World, send_message, send_signal}
use msglib_cpp.Worker.{Reaction, drops, Script}

-- The labels.
abbrev pub msg1 : ℕ
msg1 = 1

abbrev pub msg2 : ℕ
msg2 = 2

abbrev pub msg3 : ℕ
msg3 = 3

abbrev pub msg4 : ℕ
msg4 = 4

abbrev pub msg5 : ℕ
msg5 = 5

abbrev pub exit : ℕ
exit = 999

-- sizeof(Message1), sizeof(Message2) and sizeof(Message3).
pub record Layout : Type 0 where
  pub message1 : ℕ
  pub message2 : ℕ
  pub message3 : ℕ

-- What `displayMsg` prints: the fields of the object at an address, or a signal's label.
pub data Shown : Type 0 where
  got_data : ℕ → ℕ → Shown
  got_signal : ℕ → Shown

abbrev show_data : ℕ → Option ℕ → Option Shown
show_data label none = none
show_data label (some p) = some (got_data label p)

-- `displayMsg`: `none` where it prints nothing.
unfoldable pub display_msg : Layout → Message → Option Shown
display_msg sizes m =
    if m.label == msg1
    then show_data msg1 (as_type m sizes.message1)
    else (if m.label == msg2
        then show_data msg2 (as_type m sizes.message2)
        else (if m.label == msg3
            then show_data msg3 (as_type m sizes.message3)
            else some (got_signal m.label)))

-- The loop of each thread, whose MessageGuard releases every message.
abbrev pub until_exit : ℕ → Reaction
until_exit label = record { releases = true; sends = []; exits = label == exit }

unfoldable pub thread1 : Script
thread1 = record {
  registers = msg1 ∷ msg2 ∷ exit ∷ [];
  handle = until_exit;
  cleanup = drops msg1 ∷ drops msg2 ∷ drops exit ∷ [];
}

unfoldable pub thread2 : Script
thread2 = record {
  registers = msg1 ∷ msg3 ∷ exit ∷ [];
  handle = until_exit;
  cleanup = drops msg1 ∷ drops msg3 ∷ drops exit ∷ [];
}

unfoldable pub thread3 : Script
thread3 = record {
  registers = msg4 ∷ msg5 ∷ exit ∷ [];
  handle = until_exit;
  cleanup = drops msg1 ∷ drops msg3 ∷ drops exit ∷ [];
}

-- The sizes and capacities that `Initialize` gets.
pub record Options : Type 0 where
  pub small_size : ℕ
  pub small_cap : ℕ
  pub large_size : ℕ
  pub large_cap : ℕ

abbrev pub default_options : Options
default_options = record { small_size = 256; small_cap = 256; large_size = 2048; large_cap = 32 }

-- What `getopt` returns, with what `std::stoul` makes of the argument.
pub data Opt : Type 0 where
  opt_s opt_S opt_l opt_L : ℕ → Opt
  opt_usage : Opt

-- The loop over the options: `none` for `exit(1)`.
unfoldable pub read_options : List Opt → Options → Option Options
read_options [] o = some o
read_options (opt_s n ∷ os) o = read_options os (record o { small_size = n })
read_options (opt_S n ∷ os) o = read_options os (record o { small_cap = n })
read_options (opt_l n ∷ os) o = read_options os (record o { large_size = n })
read_options (opt_L n ∷ os) o = read_options os (record o { large_cap = n })
read_options (opt_usage ∷ os) o = none

module _ {Arena : Type 0} ⦃r : MemoryResource Arena⦄ where
  -- What main sends, for the representations of its three messages.
  unfoldable pub main_sends : List ℕ → List ℕ → List ℕ → Action (World Arena) (List Bool)
  main_sends bytes1 bytes2 bytes3 = do
    sent3 ← send_message msg3 bytes3
    sent2 ← send_message msg2 bytes2
    sent1 ← send_message msg1 bytes1
    sent4 ← send_signal msg4
    sent5 ← send_signal msg5
    sent_exit ← send_signal exit
    pure (sent3 ∷ sent2 ∷ sent1 ∷ sent4 ∷ sent5 ∷ sent_exit ∷ [])
