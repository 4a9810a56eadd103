-- ===== src/Store/RowSets.antt =====
-- matchRowIDs of internal/store/ingestion.go and matchBatchIDs of internal/store/stocktake.go: a
-- confirm names every row that it was shown, each once. The sets that the Go code keeps in maps are
-- lists here; `distinct` is the size of the map that a list of keys fills.
pub mod Exact
use inventory.Prelude.{ℕ, zero, suc, List, [], ◌∷◌, Bool, true, false, ◌||◌, if◌then◌else◌, length}
use inventory.Prelude.{◌==◌, Option, none, some, String, ℤ}
use inventory.Store.Schema.{RowId}
use inventory.Store.Tx.{StoreError, Result, ok, err, validation, internal}
use text.Mathlib.Text

module _ {K : Type 0} (eq : K → K → Bool) where
  unfoldable pub has : K → List K → Bool
  has k [] = false
  has k (x ∷ xs) = eq x k || has k xs

  unfoldable pub distinct : List K → ℕ
  unfolding has
  distinct [] = 0
  distinct (x ∷ xs) = let n = distinct xs in if has x xs then n else suc n

  -- The loop over the ids: `seen` are the keys so far. An id that was not issued, or that was seen,
  -- ends it; else the answer is what was seen.
  unfoldable pub check_ids : List K → List K → List K → Result (List K)
  unfolding has
  check_ids issued seen [] = ok seen
  check_ids issued seen (k ∷ ks) =
      let rest = check_ids issued (k ∷ seen) ks in
      if has k issued then (if has k seen then err validation else rest) else err validation

  -- The comparison of the two sizes after the loop.
  abbrev pub compare_sizes : List K → Result (List K) → Result (Unit {0})
  compare_sizes issued (err e) = err e
  compare_sizes issued (ok seen) =
      if distinct seen == distinct issued then ok tt else err validation

  unfoldable pub match_ids : List K → List K → Result (Unit {0})
  unfolding check_ids distinct
  match_ids issued ids = compare_sizes issued (check_ids issued [] ids)

-- `matchBatchIDs`
unfoldable pub match_batch_ids : List RowId → List RowId → Result (Unit {0})
unfolding match_ids
match_batch_ids held counted = match_ids (λ a b. a == b) held counted

-- The row ids of a decoded proposal; `none` is an error of the JSON decoder.
abbrev match_decoded : Option (List String) → List String → Result (Unit {0})
match_decoded none ids = err internal
match_decoded (some issued) ids = match_ids (λ a b. Text.◌==◌ a b) issued ids

-- `matchRowIDs`. `decode` stands for the JSON decoder; the payload of a row may be NULL.
unfoldable pub match_row_ids :
    (Option String → Option (List String)) → Option String → List String → Result (Unit {0})
unfolding match_ids
match_row_ids decode payload ids = match_decoded (decode payload) ids
