-- ===== src/Store/Stocktake.antt =====
-- internal/store/stocktake.go: the confirm of a walked shelf. A read of the sheet is not modelled.
pub mod Rows
pub mod Counted
pub mod Exact
use inventory.Prelude.{
  ℕ, suc, Option, none, some, List, [], ◌∷◌, map, Bool, true, false, ◌&&◌, ℤ, ◌==◌, is_some,
  if◌then◌else◌, select,
}
use inventory.Expiry.{Day}
use inventory.Store.Schema.{
  RowId, Instant, audit, ExpirationSource, derived, user, Location, Batch, Inventory, Database,
}
use inventory.Store.Tx.{Result, Tx, ◌>>=◌, ◌>>◌, pure, from_result, gets, Env, in_tx}
use inventory.Store.Rows.{find_product, require_same_storage}
use inventory.Store.RowSets.{match_batch_ids}
use inventory.Store.Batches.{NewBatch, create_batch_tx}
use inventory.Store.Batches.Update.{set_batch_quantity}
use inventory.Store.Locations.{update_location_row}

pub record StocktakeCount : Type 0 where
  pub batch_id : RowId
  pub quantity : ℤ

pub record FoundStock : Type 0 where
  pub product_id : RowId
  pub quantity : ℤ
  pub expiration_date : Option Day
  pub stated_expiration : Bool

pub record StocktakeResult : Type 0 where
  pub audited_at : Instant
  pub corrected : ℕ
  pub created_batch_ids : List RowId

-- b.location_id = $1 AND p.storage_id = $2, joined to the product
abbrev pub is_held : RowId → RowId → Inventory → Batch → Bool
is_held storage place t b = b.location_id == place && is_some (find_product storage b.product_id t)

abbrev pub batch_id_of : Batch → RowId
batch_id_of b = b.id

-- `lockLocationBatches`; the order in which the rows are locked is left out.
unfoldable pub lock_location_batches : RowId → RowId → Tx (List RowId)
lock_location_batches storage place =
    gets (λ s. map batch_id_of (select (is_held storage place s.db.tables) s.db.tables.batches))

abbrev pub counted_id : StocktakeCount → RowId
counted_id c = c.batch_id

-- The loop over the counts; the answer is how many quantities moved.
unfoldable pub apply_counts : RowId → Option RowId → List StocktakeCount → Tx ℕ
apply_counts storage by [] = pure 0
apply_counts storage by (c ∷ cs) = do
  r ← set_batch_quantity storage c.batch_id c.quantity by
  n ← apply_counts storage by cs
  pure (if r.1 then suc n else n)

abbrev stated_source : Bool → ExpirationSource
stated_source true = user
stated_source false = derived

abbrev pub found_batch : RowId → Option RowId → FoundStock → NewBatch
found_batch place by f = record {
  product_id = f.product_id;
  location_id = place;
  quantity = f.quantity;
  expiration_date = f.expiration_date;
  expiration_source = stated_source f.stated_expiration;
  reason = audit;
  created_by = by;
  container_label = none;
  container_type = none;
}

-- The loop over the found stock.
unfoldable pub add_found : RowId → RowId → Option RowId → List FoundStock → Tx (List RowId)
add_found storage place by [] = pure []
add_found storage place by (f ∷ fs) = do
  v ← create_batch_tx storage (found_batch place by f)
  ids ← add_found storage place by fs
  pure (v.batch.id ∷ ids)

abbrev pub audited : Instant → Location → Location
audited now l = record l { last_audited_at = some now; updated_at = now }

unfoldable pub confirm_stocktake_tx :
    RowId → RowId → Option RowId → List StocktakeCount → List FoundStock → Tx StocktakeResult
unfolding lock_location_batches apply_counts add_found match_batch_ids update_location_row
confirm_stocktake_tx storage place by counts found = do
  require_same_storage storage place
  held ← lock_location_batches storage place
  from_result (match_batch_ids held (map counted_id counts))
  corrected ← apply_counts storage by counts
  created ← add_found storage place by found
  now ← gets (λ s. s.clock.instant)
  update_location_row place (audited now)
  pure (record { audited_at = now; corrected = corrected; created_batch_ids = created })

-- `ConfirmStocktake`
unfoldable pub confirm_stocktake :
    Env
    → RowId
    → RowId
    → Option RowId
    → List StocktakeCount
    → List FoundStock
    → Database
    → Result StocktakeResult × Database
unfolding confirm_stocktake_tx
confirm_stocktake env storage place by counts found =
    in_tx env (confirm_stocktake_tx storage place by counts found)
