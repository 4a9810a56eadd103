-- ===== src/Prelude/Table.antt =====
-- A database table: its rows in a list, under a primary key. `find` is a SELECT by the key, `modify`
-- an UPDATE, `remove` a DELETE and `insert` an INSERT, which a second row with the key makes fail.
pub mod Laws
use Prim.Native.Nat.{ℕ, ◌+◌, ◌≤◌}
use mathlib.Core.Path.{◌≡◌, refl}
use mathlib.Core.Bool.{Bool, true, false}
use mathlib.Core.List.{List, [], ◌∷◌, ◌++◌}
use mathlib.Core.Option.{Option, none, some}
use native.Mathlib.Omega.{arith}
use inventory.Prelude.Tests.{◌==◌, if◌then◌else◌, is_some, Bool-cases, ==_iff}
use inventory.Prelude.Lists.{All}

module _ {A : Type 0} (key : A → ℕ) where
  unfoldable pub find : ℕ → List A → Option A
  find k [] = none
  find k (r ∷ rs) = if key r == k then some r else find k rs

  unfoldable pub modify : ℕ → (A → A) → List A → List A
  modify k f [] = []
  modify k f (r ∷ rs) = (if key r == k then f r else r) ∷ modify k f rs

  unfoldable pub remove : ℕ → List A → List A
  remove k [] = []
  remove k (r ∷ rs) = let rest = remove k rs in if key r == k then rest else r ∷ rest

  -- `none` is a violation of the primary key.
  unfoldable pub insert : A → List A → Option (List A)
  insert r rs = if is_some (find (key r) rs) then none else some (rs ++ r ∷ [])

  -- No two rows have one key.
  abbrev pub Unique : List A → Type 0
  Unique [] = Unit
  Unique (r ∷ rs) = (find (key r) rs ≡ none) × Unique rs

-- The sum of a column over the table.
module _ {A : Type 0} (w : A → ℕ) where
  unfoldable pub total : List A → ℕ
  total [] = 0
  total (r ∷ rs) = w r + total rs

  pub total-append : (rs ss : List A) → total (rs ++ ss) ≡ total rs + total ss
  unfolding total
  total-append [] ss = omega arith
  total-append (r ∷ rs) ss = omega (arith, total-append rs ss)

-- An UPDATE under any other condition, and how many rows it reaches.
module _ {A : Type 0} (test : A → Bool) where
  unfoldable pub update_where : (A → A) → List A → List A
  update_where f [] = []
  update_where f (r ∷ rs) = (if test r then f r else r) ∷ update_where f rs

  unfoldable pub count_where : List A → ℕ
  count_where [] = 0
  count_where (r ∷ rs) = (if test r then 1 else 0) + count_where rs
