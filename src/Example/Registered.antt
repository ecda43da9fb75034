-- ===== src/Example/Registered.antt =====
-- example/mbox.cpp and example/timer.cpp: for which labels does a thread leave its mailbox
-- registered, when it is at the end of its function?
use msglib_cpp.Common.{
  ℕ, zero, suc, ◌+◌, ◌≡◌, ◌∙◌, refl, Bool, true, false, ◌||◌, ◌&&◌, List, [], ◌∷◌, ◌++◌, arith,
  ◌==◌, leb, ltb, if◌then◌else◌, Bool-cases, inl, inr,
}
use msglib_cpp.Worker.{Cleanup, drops, Script}
use msglib_cpp.Worker.Owing.{elem-append, elem, stays, IsTidy}
use msglib_cpp.Example.Mbox
use msglib_cpp.Example.Timer
use msglib_cpp.Example.Timer.{labels, take_all}

pub elem-labels : (l n k : ℕ) → elem l (labels n k) ≡ (leb k l && ltb l (k + n))
elem-labels l zero k = ground arith
elem-labels l (suc n) k = ground (arith, elem-labels l n (k + 1))

stays-take_all :
    (l : ℕ) (ls : List ℕ) (cs : List Cleanup) (b : Bool)
    → stays l (take_all ls ++ cs) b ≡ stays l cs (elem l ls || b)
stays-take_all l [] cs b = refl
stays-take_all l (k ∷ ls) cs b = elim (Bool-cases (k == l)) [
  | inl hit ↦ ground (arith, stays-take_all l ls cs true)
  | inr miss ↦ ground (arith, stays-take_all l ls cs b)
]

thread2-stays :
    (l : ℕ) (ps qs : List ℕ)
    → stays l (drops 2 ∷ take_all ps ++ drops 4 ∷ []) (elem l (2 ∷ qs ++ 4 ∷ []))
      ≡ (if 4 == l then false else (elem l ps || (if 2 == l then false else elem l qs)))
thread2-stays l ps qs =
    let start : Bool = if 2 == l then false else elem l (2 ∷ qs ++ 4 ∷ []) in
    ground (arith, stays-take_all l ps (drops 4 ∷ []) start, elem-append l qs (4 ∷ []))

in_range :
    (l : ℕ) {a b : Bool}
    → a ≡ (leb 5 l && ltb l 45)
    → b ≡ (leb 5 l && ltb l 46)
    → (if 4 == l then false else (a || (if 2 == l then false else b))) ≡ (leb 5 l && leb l 45)
in_range l e f = ground arith

-- Is the mailbox of a thread with this script still registered for the label at its end?
abbrev pub left : Script → ℕ → Bool
left sc l = stays l sc.cleanup (elem l sc.registers)

-- The labels for which a thread leaves its mailbox registered, if it could register for all it
-- wants: none for the first two threads of mbox.cpp, 4 and 5 for the third, which unregisters for 1
-- and 3 instead; none for the first thread of timer.cpp, all from 5 to 45 for the second, whose last
-- loop registers once more for all but 45; and 3 for its main.
pub labels_left :
    (l : ℕ)
    → (left Mbox.thread1 l ≡ false)
      × (left Mbox.thread2 l ≡ false)
      × (left Mbox.thread3 l ≡ ((l == 4) || (l == 5)))
      × (left Timer.thread1 l ≡ false)
      × (left Timer.thread2 l ≡ (leb 5 l && leb l 45))
      × (left Timer.main_script l ≡ (l == 3))
unfolding Mbox.thread1 Mbox.thread2 Mbox.thread3 Timer.thread1 Timer.thread2 Timer.main_script
labels_left l = (
  ground arith,
  ground arith,
  ground arith,
  ground arith,
  thread2-stays l (labels 40 5) (labels 41 5)
      ∙ in_range l (elem-labels l 40 5) (elem-labels l 41 5),
  ground arith,
)

-- The scripts that undo every registration.
pub thread1-IsTidy : IsTidy Mbox.thread1
thread1-IsTidy l = (labels_left l).0

pub thread2-IsTidy : IsTidy Mbox.thread2
thread2-IsTidy l = (labels_left l).1
