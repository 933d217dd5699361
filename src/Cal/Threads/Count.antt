-- ===== src/Cal/Threads/Count.antt =====
-- The lock count of a calibration segment: how many threads are inside of a lock.
use xcplite.Prelude.{
  ℕ, zero, suc, ◌+◌, ◌≤◌, ◌<◌, ◌≡◌, ◌≢◌, ap, refl, inl, inr, subst, sym, ◌==◌, arith, Bool-cases,
}
use xcplite.Cal.Threads.{
  Reader, idle, first, next_loaded, both_loaded, hazard_set, swapped, ready, chosen, reading,
  reading_default, set_reader,
}

abbrev pub busy : Reader → ℕ
busy idle = 0
busy first = 1
busy (next_loaded n) = 1
busy (both_loaded n e) = 1
busy (hazard_set n e) = 1
busy (swapped e) = 1
busy ready = 1
busy chosen = 1
busy (reading p) = 1
busy reading_default = 1

pub total : ℕ → (ℕ → Reader) → ℕ
total zero rs = 0
total (suc n) rs = total n rs + busy (rs n)

total-set_above :
    (n : ℕ) (rs : ℕ → Reader) (i : ℕ) (r : Reader)
    → n ≤ i
    → total n (set_reader i r rs) ≡ total n rs
unfolding total
total-set_above zero rs i r h = refl
total-set_above (suc n) rs i r h = ground (arith, total-set_above n rs i r)

pub total-set :
    (n : ℕ) (rs : ℕ → Reader) (i : ℕ) (r : Reader)
    → i < n
    → total n (set_reader i r rs) + busy (rs i) ≡ total n rs + busy r
unfolding total
total-set zero rs i r h = absurd (omega arith)
total-set (suc n) rs i r h = elim (Bool-cases (n == i)) [
  | inl last ↦
      let e : n ≡ i = ground arith in
      rw last (omega (arith, total-set_above n rs i r (omega (arith, e)), ap (λ k. busy (rs k)) e))
  | inr below ↦ rw below (omega (arith, total-set n rs i r (ground arith)))
]

busy-le : (r : Reader) → busy r ≤ 1
busy-le idle = omega arith
busy-le first = omega arith
busy-le (next_loaded n) = omega arith
busy-le (both_loaded n e) = omega arith
busy-le (hazard_set n e) = omega arith
busy-le (swapped e) = omega arith
busy-le ready = omega arith
busy-le chosen = omega arith
busy-le (reading p) = omega arith
busy-le reading_default = omega arith

pub total-le : (n : ℕ) (rs : ℕ → Reader) → total n rs ≤ n
unfolding total
total-le zero rs = omega arith
total-le (suc n) rs = omega (arith, total-le n rs, busy-le (rs n))

idle_of_busy : (r : Reader) → busy r ≡ 0 → r ≡ idle
idle_of_busy idle h = refl
idle_of_busy first h = absurd (omega (arith, h))
idle_of_busy (next_loaded n) h = absurd (omega (arith, h))
idle_of_busy (both_loaded n e) h = absurd (omega (arith, h))
idle_of_busy (hazard_set n e) h = absurd (omega (arith, h))
idle_of_busy (swapped e) h = absurd (omega (arith, h))
idle_of_busy ready h = absurd (omega (arith, h))
idle_of_busy chosen h = absurd (omega (arith, h))
idle_of_busy (reading p) h = absurd (omega (arith, h))
idle_of_busy reading_default h = absurd (omega (arith, h))

-- nobody is inside when the count is 0
pub idle_of_total : (n : ℕ) (rs : ℕ → Reader) → total n rs ≡ 0 → (i : ℕ) → i < n → rs i ≡ idle
unfolding total
idle_of_total zero rs h i p = absurd (omega arith)
idle_of_total (suc n) rs h i p = elim (Bool-cases (i == n)) [
  | inl last ↦
      subst (λ k. rs k ≡ idle) (sym (ground arith)) (idle_of_busy (rs n) (omega (arith, h)))
  | inr below ↦ idle_of_total n rs (omega (arith, h)) i (ground arith)
]

pub total-pos : (n : ℕ) (rs : ℕ → Reader) (i : ℕ) → i < n → busy (rs i) ≡ 1 → 0 < total n rs
unfolding total
total-pos zero rs i p h = absurd (omega arith)
total-pos (suc n) rs i p h = elim (Bool-cases (i == n)) [
  | inl last ↦ let e : i ≡ n = ground arith in omega (arith, h, ap (λ k. busy (rs k)) e)
  | inr below ↦ omega (arith, total-pos n rs i (ground arith) h)
]

pub total-idle : (n : ℕ) → total n (λ i. idle) ≡ 0
unfolding total
total-idle zero = refl
total-idle (suc n) = omega (arith, total-idle n)

-- A property of every thread after one of them has moved.
pub each-set :
    (P : Reader → Type 0) (i : ℕ) (r : Reader) (rs : ℕ → Reader)
    → P r
    → ((j : ℕ) → j ≢ i → P (rs j))
    → (j : ℕ) → P (set_reader i r rs j)
each-set P i r rs h k j = elim (Bool-cases (j == i)) [
  | inl e ↦ rw e h
  | inr ne ↦ rw ne (k j (ground arith))
]
