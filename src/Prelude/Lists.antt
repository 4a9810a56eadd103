-- ===== src/Prelude/Lists.antt =====
-- Lists measured by native numbers, predicates on their elements, and membership tests.
use Prim.Native.Nat.{ℕ, zero, suc, ◌+◌}
use mathlib.Core.Path.{◌≡◌}
use mathlib.Core.Bool.{Bool, false, ◌||◌}
use mathlib.Core.List.{List, [], ◌∷◌, ◌++◌}
use native.Mathlib.Omega.{arith}
use inventory.Prelude.Tests.{◌==◌, if◌then◌else◌}

module _ {ℓ} {A : Type ℓ} where
  abbrev pub length : List A → ℕ
  length [] = 0
  length (x ∷ xs) = suc (length xs)

  abbrev pub take : ℕ → List A → List A
  take zero xs = []
  take (suc n) [] = []
  take (suc n) (x ∷ xs) = x ∷ take n xs

  pub length-append : (xs ys : List A) → length (xs ++ ys) ≡ length xs + length ys
  length-append [] ys = omega arith
  length-append (x ∷ xs) ys = omega (arith, length-append xs ys)

-- A predicate that holds of every element.
abbrev pub All {ℓ κ} : {A : Type ℓ} → (A → Type κ) → List A → Type κ
All P [] = Unit
All P (x ∷ xs) = P x × All P xs

pub All-append {ℓ κ} :
    {A : Type ℓ} (P : A → Type κ) (xs ys : List A) → All P xs → All P ys → All P (xs ++ ys)
All-append P [] ys hx hy = hy
All-append P (x ∷ xs) ys hx hy = (hx.0, All-append P xs ys hx.1 hy)

-- The library's `filter` decides into `Dec`; the program's tests are Boolean.
module _ {ℓ} {A : Type ℓ} (keep : A → Bool) where
  abbrev pub select : List A → List A
  select [] = []
  select (x ∷ xs) = if keep x then x ∷ select xs else select xs

  abbrev pub exists : List A → Bool
  exists [] = false
  exists (x ∷ xs) = keep x || exists xs

-- Membership in a list of ids.
abbrev pub member : ℕ → List ℕ → Bool
member a [] = false
member a (x ∷ xs) = x == a || member a xs
