-- ===== src/Prelude/Members.antt =====
-- Lists of numbers without repetition.
use Prim.Native.Nat.{ℕ, zero, suc, ◌+◌, ◌≤◌, ◌<◌}
use mathlib.Core.Path.{◌≡◌, refl, subst}
use mathlib.Core.Bool.{Bool, true, false, ◌||◌, false≢true}
use native.Mathlib.Decide.{ℕ_discrete}
use mathlib.Core.List.{List, [], ◌∷◌, ◌++◌}
use native.Mathlib.Omega.{arith}
use xcplite.Prelude.Tests.{◌==◌, if◌then◌else◌}
use xcplite.Prelude.Lists.{length}

abbrev pub All {ℓ κ} : {A : Type ℓ} → (A → Type κ) → List A → Type κ
All P [] = Unit
All P (x ∷ xs) = P x × All P xs

abbrev pub contains : ℕ → List ℕ → Bool
contains n [] = false
contains n (x ∷ xs) = x == n || contains n xs

abbrev pub Distinct : List ℕ → Type 0
Distinct [] = Unit
Distinct (x ∷ xs) = (contains x xs ≡ false) × Distinct xs

abbrev remove : ℕ → List ℕ → List ℕ
remove n [] = []
remove n (x ∷ xs) = if x == n then remove n xs else x ∷ remove n xs

contains-remove : (n a : ℕ) (xs : List ℕ) → contains a xs ≡ false → contains a (remove n xs) ≡ false
contains-remove n a [] h = refl
contains-remove n a (x ∷ xs) h = ground (arith, contains-remove n a xs)

remove_absent : (n : ℕ) (xs : List ℕ) → contains n xs ≡ false → remove n xs ≡ xs
remove_absent n [] h = refl
remove_absent n (x ∷ xs) h = ground (arith, remove_absent n xs)

length-remove : (n : ℕ) (xs : List ℕ) → Distinct xs → length xs ≤ length (remove n xs) + 1
length-remove n [] d = omega arith
length-remove n (x ∷ xs) d = ground (arith, length-remove n xs, remove_absent n xs)

Distinct-remove : (n : ℕ) (xs : List ℕ) → Distinct xs → Distinct (remove n xs)
Distinct-remove n [] d = tt
Distinct-remove n (x ∷ xs) d = ground (arith, Distinct-remove n xs, contains-remove n x xs)

All-remove : (n : ℕ) (xs : List ℕ) → All (λ x. x < suc n) xs → All (λ x. x < n) (remove n xs)
All-remove n [] a = tt
All-remove n (x ∷ xs) a = ground (arith, All-remove n xs)

-- There are at most `n` different numbers below `n`.
pub length-Distinct-le : (n : ℕ) (xs : List ℕ) → All (λ x. x < n) xs → Distinct xs → length xs ≤ n
length-Distinct-le zero [] a d = omega arith
length-Distinct-le zero (x ∷ xs) a d = absurd (omega arith)
length-Distinct-le (suc n) xs a d = omega (
  arith,
  length-remove n xs d,
  length-Distinct-le n (remove n xs) (All-remove n xs a) (Distinct-remove n xs d),
)

pub contains-append_one :
    (a n : ℕ) (xs : List ℕ) → contains a (xs ++ n ∷ []) ≡ contains a xs || n == a
contains-append_one a n [] = ground arith
contains-append_one a n (x ∷ xs) = ground (arith, contains-append_one a n xs)

pub Distinct-append_one :
    (n : ℕ) (xs : List ℕ) → Distinct xs → contains n xs ≡ false → Distinct (xs ++ n ∷ [])
Distinct-append_one n [] d h = (refl, tt)
Distinct-append_one n (x ∷ xs) d h =
    ground (arith, Distinct-append_one n xs, contains-append_one x n xs)

pub All-append_one {κ} :
    (P : ℕ → Type κ) (n : ℕ) (xs : List ℕ) → All P xs → P n → All P (xs ++ n ∷ [])
All-append_one P n [] a p = (p, tt)
All-append_one P n (x ∷ xs) a p = (a.0, All-append_one P n xs a.1 p)

pub All-contains {κ} :
    (P : ℕ → Type κ) (n : ℕ) (xs : List ℕ) → All P xs → contains n xs ≡ true → P n
All-contains P n [] a h = absurd (false≢true h)
All-contains P n (x ∷ xs) a h = elim (ℕ_discrete x n) [
  | yes e ↦ subst P e a.0
  | no ne ↦ All-contains P n xs a.1 (ground arith)
]

pub All-imp {ℓ κ μ} :
    {A : Type ℓ} (P : A → Type κ) (Q : A → Type μ) (xs : List A)
    → ((a : A) → P a → Q a)
    → All P xs
    → All Q xs
All-imp P Q [] f a = tt
All-imp P Q (x ∷ xs) f a = (f x a.0, All-imp P Q xs f a.1)
