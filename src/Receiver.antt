-- ===== src/Receiver.antt =====
-- include/msglib/detail/Receiver.h: the mailboxes that receive a label, in three slots. A
-- `Mailbox *` is `Option ℕ`, `none` for nullptr.
pub mod Slots
mod Examples
use msglib_cpp.Common.{
  ℕ, Bool, true, false, ◌&&◌, Option, none, some, List, [], ◌∷◌, ◌==◌, if◌then◌else◌,
}

-- `Receivers`: m_receivers, a std::array of MAX_RECEIVERS = 3 pointers.
abbrev pub Receivers : Type 0
Receivers = List (Option ℕ)

abbrev pub max_receivers : ℕ
max_receivers = 3

-- `Receivers()`
abbrev pub no_receivers : Receivers
no_receivers = none ∷ none ∷ none ∷ []

-- `Receivers::operator=`: what `this` is after `this = rhs`.
unfoldable pub assign : Receivers → Receivers → Receivers
assign this rhs = rhs

-- `Receivers::add`: the first free slot is taken.
unfoldable pub add : ℕ → Receivers → Bool × Receivers
add mbox [] = (false, [])
add mbox (none ∷ rs) = (true, some mbox ∷ rs)
add mbox (some r ∷ rs) = let (ok, rs') = add mbox rs in (ok, some r ∷ rs')

abbrev is_null : Option ℕ → Bool
is_null none = true
is_null (some r) = false

-- `if (m_receivers[i] == mbox) m_receivers[i] = nullptr;`
abbrev clear : ℕ → Option ℕ → Option ℕ
clear mbox none = none
clear mbox (some r) = if r == mbox then none else some r

-- The loop of `Receivers::remove`, with its local `remove`.
remove_from : ℕ → Bool → Receivers → Bool × Receivers
remove_from mbox removed [] = (removed, [])
remove_from mbox removed (r ∷ rs) =
    let (last, rs') = remove_from mbox (removed && is_null (clear mbox r)) rs in
    (last, clear mbox r ∷ rs')

-- `Receivers::remove`
unfoldable pub remove : ℕ → Receivers → Bool × Receivers
unfolding remove_from
remove mbox rs = remove_from mbox true rs
