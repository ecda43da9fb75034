-- ===== src/Pool/Buffer.antt =====
-- A memory resource that meets the interface, for tests and instances: a buffer with a list of the
-- blocks that are out. It models no code.
use msglib_cpp.Common.{
  ℕ, suc, ◌+◌, ◌-◌, ◌≤◌, ◌≡◌, refl, Option, none, some, List, [], ◌∷◌, arith, leb, ◌==◌,
  if◌then◌else◌,
}
use msglib_cpp.Pool.Resource.{MemoryResource}

-- The bytes that are left, and the blocks that are out with their sizes.
pub record Buffer : Type 0 where
  pub room : ℕ
  pub blocks : List (ℕ × ℕ)

unfoldable pub find : List (ℕ × ℕ) → ℕ → Option ℕ
find [] q = none
find ((p, n) ∷ bs) q = if p == q then some n else find bs q

unfoldable pub remove : List (ℕ × ℕ) → ℕ → List (ℕ × ℕ)
remove [] q = []
remove ((p, n) ∷ bs) q = if p == q then remove bs q else (p, n) ∷ remove bs q

-- An address above every block.
unfoldable pub top : List (ℕ × ℕ) → ℕ
top [] = 1
top ((p, n) ∷ bs) = suc (p + top bs)

find-top : (bs : List (ℕ × ℕ)) (q : ℕ) → top bs ≤ q → find bs q ≡ none
unfolding find top
find-top [] q h = refl
find-top ((p, n) ∷ bs) q h = ground (arith, find-top bs q)

find-remove :
    (bs : List (ℕ × ℕ)) (p q : ℕ) → find (remove bs p) q ≡ (if p == q then none else find bs q)
unfolding find remove
find-remove [] p q = ground arith
find-remove ((p', n) ∷ bs) p q = ground (arith, find-remove bs p q)

unfoldable pub allocate : Buffer → ℕ → Option (ℕ × Buffer)
allocate b n =
    if leb n b.room
    then some (top b.blocks, record { room = b.room - n; blocks = (top b.blocks, n) ∷ b.blocks })
    else none

unfoldable pub deallocate : Buffer → ℕ → ℕ → Option Buffer
deallocate b p n = elim (find b.blocks p) [
  | none ↦ none
  | some k ↦ some (record { room = b.room + n; blocks = remove b.blocks p })
]

pub allocate-fresh :
    (b : Buffer) (n : ℕ) {p : ℕ} {b' : Buffer}
    → allocate b n ≡ some (p, b')
    → find b.blocks p ≡ none
unfolding allocate
allocate-fresh b n {p} e = ground (arith, find-top b.blocks p)

pub allocate-live :
    (b : Buffer) (n : ℕ) {p : ℕ} {b' : Buffer}
    → allocate b n ≡ some (p, b')
    → (q : ℕ) → find b'.blocks q ≡ (if p == q then some n else find b.blocks q)
unfolding allocate find
allocate-live b n e q = ground arith

pub deallocate-live :
    (b : Buffer) (p n : ℕ)
    → find b.blocks p ≡ some n
    → (b' : Buffer) × (deallocate b p n ≡ some b')
      × ((q : ℕ) → find b'.blocks q ≡ (if p == q then none else find b.blocks q))
unfolding deallocate
deallocate-live b p n e =
    (record { room = b.room + n; blocks = remove b.blocks p }, ground arith, find-remove b.blocks p)

pub make-live :
    (n : ℕ) {b : Buffer}
    → some (record { room = n; blocks = [] }) ≡ some b
    → (q : ℕ) → find b.blocks q ≡ none
unfolding find
make-live n e q = ground arith

instance abbrev pub buffer_resource : MemoryResource Buffer
buffer_resource = record {
  make = λ n. some (record { room = n; blocks = [] });
  allocate = allocate;
  deallocate = deallocate;
  live = λ b q. find b.blocks q;
  make-live = make-live;
  allocate-fresh = allocate-fresh;
  allocate-live = allocate-live;
  deallocate-live = deallocate-live;
}
