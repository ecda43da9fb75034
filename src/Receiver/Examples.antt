-- ===== src/Receiver/Examples.antt =====
-- Tests of Receiver.h and instances of its theorems.
use msglib_cpp.Common.{◌≡◌, refl, true, false, none, some, [], ◌∷◌}
use msglib_cpp.Receiver.{Receivers, no_receivers, add, remove}

-- Mailbox 7 twice, and mailbox 2.
abbrev crowded : Receivers
crowded = some 7 ∷ some 2 ∷ some 7 ∷ []

add-full : add 4 crowded ≡ (false, crowded)
unfolding add
add-full = refl

add-first : add 4 no_receivers ≡ (true, some 4 ∷ none ∷ none ∷ [])
unfolding add
add-first = refl

remove-twice : remove 7 crowded ≡ (false, none ∷ some 2 ∷ none ∷ [])
unfolding remove
remove-twice = refl

remove-last : remove 2 (none ∷ some 2 ∷ none ∷ []) ≡ (true, no_receivers)
unfolding remove
remove-last = refl

abbrev mixed : Receivers
mixed = some 7 ∷ none ∷ some 7 ∷ []
