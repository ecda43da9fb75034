-- ===== src/Sandbox/DiagResource.antt =====
-- sandbox/DiagResource.h: a memory resource that logs each call and passes it on.
use msglib_cpp.Common.{
  ℕ, ◌≡◌, refl, ap, Bool, true, false, Option, none, some, List, [], ◌∷◌, ◌++◌, ◌==◌, Option-cases,
  inl, inr,
}
use mathlib.Core.List.{append-nil, append_assoc}

-- The two calls of the resource upstream, a `std::pmr::memory_resource`, that may end in an
-- exception, `none`.
pub record Upstream (Arena : Type 0) : Type 0 where
  pub allocate : Arena → ℕ → ℕ → Option (ℕ × Arena)
  pub deallocate : Arena → ℕ → ℕ → ℕ → Option Arena

-- What is logged, without the name, which is the same in each entry.
pub data Entry : Type 0 where
  -- size, alignment
  allocating : ℕ → ℕ → Entry
  -- address
  allocated : ℕ → Entry
  -- address, size, alignment
  deallocating : ℕ → ℕ → ℕ → Entry

-- `DiagResource`: the state of `m_upstream`, and the log.
pub record DiagResource (Arena : Type 0) : Type 0 where
  pub upstream : Arena
  pub log : List Entry

module _ {Arena : Type 0} ⦃u : Upstream Arena⦄ where
  -- `do_allocate`: the address, or `none` for an exception.
  unfoldable pub do_allocate : ℕ → ℕ → DiagResource Arena → Option ℕ × DiagResource Arena
  do_allocate bytes alignment d =
      let asked = d.log ++ allocating bytes alignment ∷ [] in
      elim (u.allocate d.upstream bytes alignment) [
        | none ↦ (none, record d { log = asked })
        | some (p, a) ↦ (some p, record { upstream = a; log = asked ++ allocated p ∷ [] })
      ]

  -- `do_deallocate`: did it return?
  unfoldable pub do_deallocate : ℕ → ℕ → ℕ → DiagResource Arena → Bool × DiagResource Arena
  do_deallocate p bytes alignment d =
      let told = d.log ++ deallocating p bytes alignment ∷ [] in
      elim (u.deallocate d.upstream p bytes alignment) [
        | none ↦ (false, record d { log = told })
        | some a ↦ (true, record { upstream = a; log = told })
      ]

-- `do_is_equal`, of two addresses.
unfoldable pub do_is_equal : ℕ → ℕ → Bool
do_is_equal this other = this == other

pub data Call : Type 0 where
  allocates : ℕ → ℕ → Call
  deallocates : ℕ → ℕ → ℕ → Call

-- What a caller sees of a call.
pub data Answer : Type 0 where
  address : Option ℕ → Answer
  returned : Bool → Answer

module _ {Arena : Type 0} ⦃u : Upstream Arena⦄ where
  diag_call : Call → DiagResource Arena → Answer × DiagResource Arena
  diag_call (allocates bytes alignment) d =
      let (p, d') = do_allocate bytes alignment d in (address p, d')
  diag_call (deallocates p bytes alignment) d =
      let (ok, d') = do_deallocate p bytes alignment d in (returned ok, d')

  -- The calls of a program on a DiagResource, and the same calls on the resource itself.
  unfoldable pub through : List Call → DiagResource Arena → List Answer × DiagResource Arena
  unfolding diag_call
  through [] d = ([], d)
  through (c ∷ cs) d =
      let (answer, d') = diag_call c d in
      let (answers, d'') = through cs d' in (answer ∷ answers, d'')

  direct_call : Call → Arena → Answer × Arena
  direct_call (allocates bytes alignment) a = elim (u.allocate a bytes alignment) [
    | none ↦ (address none, a)
    | some (p, a') ↦ (address (some p), a')
  ]
  direct_call (deallocates p bytes alignment) a = elim (u.deallocate a p bytes alignment) [
    | none ↦ (returned false, a)
    | some a' ↦ (returned true, a')
  ]

  unfoldable pub direct : List Call → Arena → List Answer × Arena
  unfolding direct_call
  direct [] a = ([], a)
  direct (c ∷ cs) a =
      let (answer, a') = direct_call c a in
      let (answers, a'') = direct cs a' in (answer ∷ answers, a'')

-- The entries that a call with this answer leaves.
abbrev pub entry : Call → Answer → List Entry
entry (allocates n k) (address (some p)) = allocating n k ∷ allocated p ∷ []
entry (allocates n k) _ = allocating n k ∷ []
entry (deallocates p n k) _ = deallocating p n k ∷ []

abbrev pub entries : List Call → List Answer → List Entry
entries (c ∷ cs) (x ∷ xs) = entry c x ++ entries cs xs
entries _ _ = []

module _ {Arena : Type 0} ⦃u : Upstream Arena⦄ where
  diag-direct :
      (c : Call) (a : Arena) (log : List Entry)
      → let (answer, a') = direct_call c a in
        diag_call c (record { upstream = a; log = log })
        ≡ (answer, record { upstream = a'; log = log ++ entry c answer })
  unfolding diag_call direct_call do_allocate do_deallocate
  diag-direct (allocates n k) a log = elim (Option-cases (u.allocate a n k)) [
    | inl e ↦ rw (direct_call, do_allocate, e) refl
    | inr ((p, a'), e) ↦
        rw (direct_call, do_allocate, e)
          (ap (λ l. (address (some p), record { upstream = a'; log = l }))
            (append_assoc log (allocating n k ∷ []) (allocated p ∷ [])))
  ]
  diag-direct (deallocates p n k) a log = elim (Option-cases (u.deallocate a p n k)) [
    | inl e ↦ rw (direct_call, do_deallocate, e) refl
    | inr (a', e) ↦ rw (direct_call, do_deallocate, e) refl
  ]

  -- A program that only allocates and deallocates cannot tell a DiagResource from the resource
  -- upstream: the same allocations and deallocations get the same answers and leave the resource
  -- upstream in the same state, also where they end in exceptions, and the log tells of each call and
  -- of each address given, in order. Nothing is said of `is_equal`, by which a program can tell them
  -- apart.
  pub through-direct :
      (cs : List Call) (a : Arena) (log : List Entry)
      → let (answers, a') = direct cs a in
        through cs (record { upstream = a; log = log })
        ≡ (answers, record { upstream = a'; log = log ++ entries cs answers })
  unfolding through direct
  through-direct [] a log = rw append-nil refl
  through-direct (c ∷ cs) a log =
      let (answer, a') = direct_call c a in
      rw (diag-direct c a log, through-direct cs a' (log ++ entry c answer), append_assoc) refl
