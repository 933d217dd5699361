-- ===== src/Cal/Refcount/Sum.antt =====
-- Sums over the threads.
use xcplite.Prelude.{
  ℕ, zero, suc, ◌+◌, ◌≤◌, ◌<◌, ◌≡◌, ◌≢◌, ap, refl, inl, inr, ◌==◌, arith, Bool-cases,
}

pub sum : ℕ → (ℕ → ℕ) → ℕ
sum zero w = 0
sum (suc n) w = sum n w + w n

sum-same : (n : ℕ) (w w' : ℕ → ℕ) → ((j : ℕ) → j < n → w' j ≡ w j) → sum n w' ≡ sum n w
unfolding sum
sum-same zero w w' h = refl
sum-same (suc n) w w' h =
    omega (arith, h n (omega arith), sum-same n w w' (λ j lt. h j (omega (arith, lt))))

-- the sum where one thread has moved
pub sum-change :
    (n i : ℕ) (w w' : ℕ → ℕ)
    → i < n
    → ((j : ℕ) → j ≢ i → w' j ≡ w j)
    → sum n w' + w i ≡ sum n w + w' i
unfolding sum
sum-change zero i w w' lt h = absurd (omega (arith, lt))
sum-change (suc n) i w w' lt h = elim (Bool-cases (n == i)) [
  | inl last ↦
      let e : n ≡ i = ground (arith, last) in
      omega (
        arith,
        sum-same n w w' (λ j lt'. h j (λ f. absurd (omega (arith, lt', e, f)))),
        ap w e,
        ap w' e,
      )
  | inr below ↦
      let ne : n ≢ i = λ e. absurd (ground (arith, e, below)) in
      omega (arith, h n ne, sum-change n i w w' (ground (arith, below, lt)) h)
]

pub sum-le : (n : ℕ) (w : ℕ → ℕ) → ((j : ℕ) → w j ≤ 1) → sum n w ≤ n
unfolding sum
sum-le zero w h = omega arith
sum-le (suc n) w h = omega (arith, h n, sum-le n w h)

pub le-sum : (n i : ℕ) (w : ℕ → ℕ) → i < n → w i ≤ sum n w
unfolding sum
le-sum zero i w lt = absurd (omega (arith, lt))
le-sum (suc n) i w lt = elim (Bool-cases (i == n)) [
  | inl last ↦ let e : i ≡ n = ground (arith, last) in omega (arith, ap w e)
  | inr below ↦ omega (arith, le-sum n i w (ground (arith, below, lt)))
]

pub sum-zero : (n : ℕ) → sum n (λ i. 0) ≡ 0
unfolding sum
sum-zero zero = refl
sum-zero (suc n) = omega (arith, sum-zero n)
