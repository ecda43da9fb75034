-- ===== src/Receiver/Slots.antt =====
-- Receiver.h: `add` and `remove` against the number of slots that each mailbox takes.
use msglib_cpp.Common.{
  ℕ, ◌+◌, ◌-◌, ◌≤◌, ◌≡◌, ◌↔◌, refl, Bool, true, false, ◌&&◌, none, some, [], ◌∷◌, arith, ◌==◌,
  if◌then◌else◌, length, ltb, Bool-cases, inl, inr,
}
use msglib_cpp.Receiver.{Receivers, add, remove, remove_from}

-- In how many slots does mailbox `m` stand? How many slots are free?
abbrev pub slots : ℕ → Receivers → ℕ
slots m [] = 0
slots m (none ∷ rs) = slots m rs
slots m (some r ∷ rs) = (if r == m then 1 else 0) + slots m rs

abbrev pub free_slots : Receivers → ℕ
free_slots [] = 0
free_slots (none ∷ rs) = 1 + free_slots rs
free_slots (some r ∷ rs) = free_slots rs

-- `add` returns true exactly when a slot is free. Then it takes one free slot for the mailbox, and
-- otherwise it changes nothing; no other mailbox loses or gains a slot.
pub add_lem :
    (m : ℕ) (rs : Receivers)
    → let (ok, rs') = add m rs in
      (ok ≡ ltb 0 (free_slots rs))
      × (free_slots rs' ≡ free_slots rs - 1)
      × ((q : ℕ) → slots q rs' ≡ slots q rs + (if m == q then (if ok then 1 else 0) else 0))
      × (length rs' ≡ length rs)
unfolding add
add_lem m [] = (refl, refl, λ q. ground arith, refl)
add_lem m (none ∷ rs) = (ground arith, omega arith, λ q. ground arith, refl)
add_lem m (some r ∷ rs) =
    let (a, b, c, d) = add_lem m rs in (a, b, λ q. ground (arith, c q), omega arith)

free_slots-le : (rs : Receivers) → free_slots rs ≤ length rs
free_slots-le [] = omega arith
free_slots-le (none ∷ rs) = omega (arith, free_slots-le rs)
free_slots-le (some r ∷ rs) = omega (arith, free_slots-le rs)

record Removes (m : ℕ) (acc : Bool) (rs : Receivers) (out : Bool × Receivers) : Type 0 where
  last : out.0 ≡ (acc && (length rs == free_slots out.1))
  gone : (q : ℕ) → slots q out.1 ≡ (if m == q then 0 else slots q rs)
  freed : free_slots out.1 ≡ free_slots rs + slots m rs
  same : length out.1 ≡ length rs

remove_from-Removes :
    (m : ℕ) (acc : Bool) (rs : Receivers) → Removes m acc rs (remove_from m acc rs)
unfolding remove_from
remove_from-Removes m acc [] = record {
  last = ground arith;
  gone = λ q. ground arith;
  freed = refl;
  same = refl;
}
remove_from-Removes m acc (none ∷ rs) =
    let ih = remove_from-Removes m (acc && true) rs in
    record {
      last = ground (arith, ih.last);
      gone = ih.gone;
      freed = omega (arith, ih.freed);
      same = omega (arith, ih.same);
    }
remove_from-Removes m acc (some r ∷ rs) = elim (Bool-cases (r == m)) [
  | inl hit ↦
      let ih = remove_from-Removes m (acc && true) rs in
      rw hit (record {
        last = ground (arith, ih.last);
        gone = λ q. ground (arith, ih.gone q);
        freed = ground (arith, ih.freed);
        same = omega (arith, ih.same);
      })
  | inr miss ↦
      let ih = remove_from-Removes m (acc && false) rs in
      rw miss (record {
        last = ground (arith, ih.last, ih.same, free_slots-le (remove_from m (acc && false) rs).1);
        gone = λ q. ground (arith, ih.gone q);
        freed = ground (arith, ih.freed);
        same = omega (arith, ih.same);
      })
]

-- `remove` frees every slot of the mailbox and no other slot; it returns true exactly when all
-- slots are free afterwards.
pub remove_lem :
    (m : ℕ) (rs : Receivers)
    → let (last, rs') = remove m rs in
      ((last ≡ true) ↔ (free_slots rs' ≡ length rs'))
      × (free_slots rs' ≡ free_slots rs + slots m rs)
      × ((q : ℕ) → slots q rs' ≡ (if m == q then 0 else slots q rs))
      × (length rs' ≡ length rs)
unfolding remove
remove_lem m rs =
    let v = remove_from-Removes m true rs in
    (ground (arith, v.last, v.same), v.freed, v.gone, v.same)
