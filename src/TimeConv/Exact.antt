-- ===== src/TimeConv/Exact.antt =====
-- TimeConv.h: what the conversions keep of a time.
use msglib_cpp.Common.{
  ℕ, zero, suc, ◌+◌, ◌-◌, ◌*◌, ◌/◌, ◌%◌, ◌≤◌, ◌<◌, ◌≡◌, refl, ap, sym, ◌∙◌, arith, ltb,
}
use native.Mathlib.Nat.{
  mod-lt, div-add-mod, zero-div, mul-lt-mul_of_pos_right, lt_of_mul-lt-mul_left,
}
use msglib_cpp.Common.Int.{ℤ, pos, negsuc, neg, ◌⊖◌, ◌-ℤ◌, times, quot}
use msglib_cpp.TimeConv.{Timespec, chrono2timespec, timeval2timespec}

⊖-pos : (m n : ℕ) → n ≤ m → m ⊖ n ≡ pos (m - n)
⊖-pos m zero h = ap pos (omega arith)
⊖-pos zero (suc n) h = absurd (omega arith)
⊖-pos (suc m) (suc n) h = ⊖-pos m n (omega arith) ∙ ap pos (omega arith)

⊖-neg : (m n : ℕ) → m ≤ n → m ⊖ n ≡ neg (n - m)
⊖-neg zero zero h = refl
⊖-neg (suc m) zero h = absurd (omega arith)
⊖-neg zero (suc n) h = let e : suc n ≡ suc n - 0 = omega arith in ap neg e
⊖-neg (suc m) (suc n) h =
    let e : n - m ≡ suc n - suc m = omega arith in ⊖-neg m n (omega arith) ∙ ap neg e

times-neg : (k n : ℕ) → times (neg k) n ≡ neg (k * n)
times-neg zero n = let e : 0 ≡ 0 * n = omega arith in ap pos (omega arith) ∙ ap neg e
times-neg (suc k) n = refl

quot-neg : (k n : ℕ) → quot (neg k) n ≡ neg (k / n)
quot-neg zero n = let e : 0 ≡ 0 / n = sym (zero-div n) in ap pos (zero-div n) ∙ ap neg e
quot-neg (suc k) n = refl

neg-minus : (m k : ℕ) → k ≤ m → neg m -ℤ neg k ≡ neg (m - k)
neg-minus zero zero h = refl
neg-minus zero (suc k) h = absurd (omega arith)
neg-minus (suc m) zero h =
    let e : suc m ≡ suc m - 0 = omega arith in ap negsuc (omega arith) ∙ ap neg e
neg-minus (suc m) (suc k) h =
    let e : m - k ≡ suc m - suc k = omega arith in ⊖-neg k m (omega arith) ∙ ap neg e

-- A number of nanoseconds, as the seconds and what is left of it.
pub seconds-pos :
    (n : ℕ) → pos n -ℤ times (quot (pos n) 1000000000) 1000000000 ≡ pos (n % 1000000000)
seconds-pos n =
    let e : n - n / 1000000000 * 1000000000 ≡ n % 1000000000 =
      omega (arith, div-add-mod n 1000000000) in
    ⊖-pos n (n / 1000000000 * 1000000000) (omega (arith, div-add-mod n 1000000000)) ∙ ap pos e

pub seconds-neg :
    (n : ℕ) → neg n -ℤ times (quot (neg n) 1000000000) 1000000000 ≡ neg (n % 1000000000)
seconds-neg n =
    let e : n - n / 1000000000 * 1000000000 ≡ n % 1000000000 =
      omega (arith, div-add-mod n 1000000000) in
    rw (quot-neg n 1000000000, times-neg (n / 1000000000) 1000000000)
      (neg-minus n (n / 1000000000 * 1000000000) (omega (arith, div-add-mod n 1000000000))
        ∙ ap neg e)

module _ (den num div : ℕ) (dp : 0 < den) (vp : 0 < div) (ratio : num * den ≡ 1000000000 * div)
    (n : ℕ) where
  abbrev secs : ℕ
  secs = n / den

  abbrev rest : ℕ
  rest = n % den

  abbrev nanos : ℕ
  nanos = rest * num / div

  fits : secs * den ≤ n
  fits = grind (arith, div-add-mod n den)

  split : n - secs * den ≡ rest
  split = grind (arith, div-add-mod n den)

  chrono2timespec-pos :
      chrono2timespec den num div (pos n) ≡ record { sec = pos secs; nsec = pos nanos }
  unfolding chrono2timespec
  chrono2timespec-pos = rw (⊖-pos n (secs * den) fits, split) refl

  chrono2timespec-neg :
      chrono2timespec den num div (neg n) ≡ record { sec = neg secs; nsec = neg nanos }
  unfolding chrono2timespec
  chrono2timespec-neg =
      rw
        (
          quot-neg n den,
          times-neg secs den,
          neg-minus n (secs * den) fits,
          split,
          times-neg rest num,
          quot-neg (rest * num) div,
        )
        refl

  nanos-split : div * nanos + rest * num % div ≡ rest * num
  nanos-split = div-add-mod (rest * num) div

  num-pos : 0 < num
  num-pos = grind arith

  nanos-lt : nanos < 1000000000
  nanos-lt = lt_of_mul-lt-mul_left div (
      let h : rest * num < den * num = mul-lt-mul_of_pos_right (mod-lt n dp) num-pos in
      grind (arith, nanos-split, h))

  expand : n * num ≡ secs * (1000000000 * div) + rest * num
  expand =
      let e : n ≡ secs * den + rest = grind (arith, div-add-mod n den) in
      let f : n * num ≡ (secs * den + rest) * num = ap (λ k. k * num) e in
      let g : secs * (num * den) ≡ secs * (1000000000 * div) = ap (◌*◌ secs) ratio in
      grind (arith, f, g)

  lower : (secs * 1000000000 + nanos) * div ≤ n * num
  lower = grind (arith, expand, nanos-split)

  upper : n * num < (secs * 1000000000 + nanos) * div + div
  upper =
      let h : rest * num % div < div = mod-lt (rest * num) vp in
      grind (arith, expand, nanos-split, h)

-- A duration of `n` periods, where `num / div` nanoseconds are one period, becomes seconds and
-- nanoseconds with fewer than 10^9 of the latter, and their sum is the duration, rounded down to a
-- nanosecond. A negative duration becomes the negatives of both.
pub chrono2timespec_lem :
    (den num div : ℕ)
    → 0 < den
    → 0 < div
    → num * den ≡ 1000000000 * div
    → (n : ℕ)
    → (s k : ℕ) × (chrono2timespec den num div (pos n) ≡ record { sec = pos s; nsec = pos k })
      × (chrono2timespec den num div (neg n) ≡ record { sec = neg s; nsec = neg k })
      × (k < 1000000000)
      × ((s * 1000000000 + k) * div ≤ n * num)
      × (n * num < (s * 1000000000 + k) * div + div)
chrono2timespec_lem den num div dp vp ratio n = (
  secs den num div dp vp ratio n,
  nanos den num div dp vp ratio n,
  chrono2timespec-pos den num div dp vp ratio n,
  chrono2timespec-neg den num div dp vp ratio n,
  nanos-lt den num div dp vp ratio n,
  lower den num div dp vp ratio n,
  upper den num div dp vp ratio n,
)

-- Of microseconds that are not negative, `Timeval2Timespec` returns true exactly if they are below a
-- million. Then the seconds stay, and the microseconds become as many thousands of nanoseconds, at most 999999000; and
-- otherwise `ts` stays as it was.
pub timeval2timespec_lem :
    (s : ℤ) (u : ℕ) (ts : Timespec)
    → let (ok, ts') = timeval2timespec (record { sec = s; usec = pos u }) ts in
      (ok ≡ ltb u 1000000)
      × (u < 1000000
          → (k : ℕ) × (ts' ≡ record { sec = s; nsec = pos k }) × (k ≡ u * 1000) × (k ≤ 999999000))
      × (1000000 ≤ u → ts' ≡ ts)
unfolding timeval2timespec
timeval2timespec_lem s u ts =
    (ground arith, λ h. (u * 1000, ground arith, refl, omega arith), λ h. ground arith)
