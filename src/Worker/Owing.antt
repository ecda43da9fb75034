-- ===== src/Worker/Owing.antt =====
-- The threads of the examples: which labels the mailbox of a thread may be registered for, by where
-- the thread stands, and when a script leaves none behind.
use msglib_cpp.Common.{
  ℕ, zero, suc, ◌<◌, ◌≡◌, refl, Bool, true, false, ◌||◌, Option, none, some, List, [], ◌∷◌, ◌++◌,
  arith, ltb, ◌==◌, if◌then◌else◌, get_elem?, set, total, total-append, Bool-cases, inl, inr,
}
use msglib_cpp.Message.{Message}
use msglib_cpp.Mailbox.{Mailbox}
use msglib_cpp.Worker.{
  Cleanup, drops, takes, signals, Script, Phase, starting, registering, handling, leaving, gone,
}
use msglib_cpp.Worker.Healthy.{Alive}

abbrev pub elem : ℕ → List ℕ → Bool
elem l [] = false
elem l (k ∷ ks) = (k == l) || elem l ks

pub elem-append : (l : ℕ) (ks ms : List ℕ) → elem l (ks ++ ms) ≡ (elem l ks || elem l ms)
elem-append l [] ms = refl
elem-append l (k ∷ ks) ms = ground (arith, elem-append l ks ms)

-- Is the mailbox registered for `l` after the calls, if `b` says whether it is before them, and
-- registering succeeds?
abbrev pub stays : ℕ → List Cleanup → Bool → Bool
stays l [] b = b
stays l (drops k ∷ cs) b = stays l cs (if k == l then false else b)
stays l (takes k ∷ cs) b = stays l cs (if k == l then true else b)
stays l (signals k ∷ cs) b = stays l cs b

pub stays_mono :
    (l : ℕ) (cs : List Cleanup) (b : Bool) → stays l cs true ≡ false → stays l cs b ≡ false
stays_mono l cs true h = h
stays_mono l [] false h = refl
stays_mono l (drops k ∷ cs) false h = elim (Bool-cases (k == l)) [
  | inl hit ↦ rw hit (rw hit at h)
  | inr miss ↦ rw miss (stays_mono l cs false (rw miss at h))
]
stays_mono l (takes k ∷ cs) false h = elim (Bool-cases (k == l)) [
  | inl hit ↦ rw hit (rw hit at h)
  | inr miss ↦ rw miss (stays_mono l cs false (rw miss at h))
]
stays_mono l (signals k ∷ cs) false h = stays_mono l cs false h

-- The calls behind the loop undo every registration.
abbrev pub IsTidy : Script → Type 0
IsTidy sc = (l : ℕ) → stays l sc.cleanup (elem l sc.registers) ≡ false

-- What a thread with `s l` slots for each label `l` still owes.
abbrev pub Owes : Script → Phase → (ℕ → ℕ) → Type 0
Owes sc starting s = (l : ℕ) → s l ≡ 0
Owes sc (registering ls) s =
    ((l : ℕ) → elem l ls ≡ true → elem l sc.registers ≡ true)
    × ((l : ℕ) → 0 < s l → elem l sc.registers ≡ true)
Owes sc (leaving cs) s = (l : ℕ) → stays l cs (ltb 0 (s l)) ≡ false
Owes sc gone s = (l : ℕ) → s l ≡ 0
Owes sc _ s = (l : ℕ) → 0 < s l → elem l sc.registers ≡ true

pub leave-Owes :
    (sc : Script) (s : ℕ → ℕ)
    → IsTidy sc
    → ((l : ℕ) → 0 < s l → elem l sc.registers ≡ true)
    → Owes sc (leaving sc.cleanup) s
leave-Owes sc s tidy h l = elim (Bool-cases (elem l sc.registers)) [
  | inl has ↦ stays_mono l sc.cleanup (ltb 0 (s l)) (rw has at (tidy l))
  | inr not_there ↦
      let none_left : ltb 0 (s l) ≡ false = ground (arith, h l) in
      rw none_left (rw not_there at (tidy l))
]

-- Is the mailbox there?
abbrev pub Lives : Phase → List (Option Mailbox) → ℕ → Type 0
Lives starting ms i = get_elem? ms i ≡ some none
Lives gone ms i = Unit {0}
Lives _ ms i = Alive ms i

-- The message that a thread has in its hands.
abbrev pub carry : Phase → List Message
carry (handling m) = m ∷ []
carry _ = []

abbrev pub carried : List Phase → List Message
carried [] = []
carried (p ∷ ps) = carry p ++ carried ps

-- The messages of all threads, and those of all others than the thread `i`.
pub carried-set :
    (f : Message → ℕ) (ps : List Phase) (i : ℕ) (p q : Phase)
    → get_elem? ps i ≡ some p
    → (total f (carried ps) ≡ total f (carry p ++ carried (set ps i gone)))
      × (total f (carried (set ps i q)) ≡ total f (carry q ++ carried (set ps i gone)))
carried-set f [] i p q e = cc
carried-set f (x ∷ ps) zero p q e = (ground arith, refl)
carried-set f (x ∷ ps) (suc i) p q e =
    let (a, b) = carried-set f ps i p q e in
    (
      omega (
        arith,
        a,
        total-append f (carry x) (carried ps),
        total-append f (carry x) (carried (set ps i gone)),
        total-append f (carry p) (carried (set ps i gone)),
        total-append f (carry p) (carry x ++ carried (set ps i gone)),
      ),
      omega (
        arith,
        b,
        total-append f (carry x) (carried (set ps i q)),
        total-append f (carry x) (carried (set ps i gone)),
        total-append f (carry q) (carried (set ps i gone)),
        total-append f (carry q) (carry x ++ carried (set ps i gone)),
      ),
    )
