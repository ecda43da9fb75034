-- ===== src/Common/State.antt =====
-- State passing with faults. A fault is a step whose behaviour C++ leaves undefined: locking a
-- `std::mutex` that the thread holds already, going through a null `m_resources`, or using a
-- mailbox or a timer whose lifetime is over or has not begun.
use mathlib.Core.Bool.{Bool, true, false}
use mathlib.Core.Path.{◌≡◌, refl}
use mathlib.Core.Logic.{◌⊎◌, inl, inr}

pub data Fault : Type 0 where
  relock null_resources dangling_mailbox dangling_timer : Fault

pub data Outcome {ℓ} (A : Type ℓ) : Type ℓ where
  done : A → Outcome A
  fault : Fault → Outcome A

abbrev pub Action : Type 0 → Type 0 → Type 0
Action S A = S → Outcome (A × S)

infixl 5 ◌>>=◌ ◌>>◌
abbrev pub ◌>>=◌ : {S A B : Type 0} → Action S A → (A → Action S B) → Action S B
◌>>=◌ m f s = elim (m s) [ done (a, s') ↦ f a s' | fault e ↦ fault e ]

abbrev pub ◌>>◌ : {S A B : Type 0} → Action S A → Action S B → Action S B
m >> k = m >>= λ _. k

abbrev pub pure : {S A : Type 0} → A → Action S A
pure a s = done (a, s)

abbrev pub gets : {S A : Type 0} → (S → A) → Action S A
gets f s = done (f s, s)

abbrev pub when : {S : Type 0} → Bool → Action S (Unit {0}) → Action S (Unit {0})
when true m = m
when false m = pure tt

-- A computation on a component of the state.
abbrev pub focus : {S T A : Type 0} → (S → T) → (S → T → S) → Action T A → Action S A
focus get put m s = elim (m (get s)) [ done (a, t) ↦ done (a, put s t) | fault e ↦ fault e ]

pub Outcome-cases {ℓ} :
    {A : Type ℓ} (o : Outcome A) → ((a : A) × (o ≡ done a)) ⊎ ((e : Fault) × (o ≡ fault e))
Outcome-cases (done a) = inl (a, refl)
Outcome-cases (fault e) = inr (e, refl)
