-- ===== src/Store/Dates.antt =====
-- internal/store/expiry.go: the dates of the batches that are in stock follow the rules, unless a
-- person set them.
pub mod Cascade
pub mod Recompute
use inventory.Prelude.{
  ℕ, ◌+◌, Option, none, some, List, [], ◌∷◌, map, Bool, true, false, ◌&&◌, ◌==◌, pos, ltb, select,
  if◌then◌else◌,
}
use inventory.Prelude.Table.{modify, update_where, count_where}
use inventory.Expiry.{Time, Day, Rules, Resolution, resolve, date_for}
use inventory.Store.Schema.{
  RowId, Instant, ExpirationSource, derived, Batch, Inventory, Database, batch_key,
}
use inventory.Store.Tx.{
  Result, not_found, Tx, ◌>>=◌, ◌>>◌, pure, row_or, gets, put_tables, Env, in_tx,
}
use inventory.Store.Rows.{find_batch}
use inventory.Store.ShelfLife.{expiry_rules_for}
use inventory.Store.Batches.{BatchView, load_batch}

abbrev pub is_derived : ExpirationSource → Bool
is_derived derived = true
is_derived _ = false

pub record DerivedBatch : Type 0 where
  pub id : RowId
  pub created_at : Instant

abbrev pub derived_batch : Batch → DerivedBatch
derived_batch b = record { id = b.id; created_at = b.created_at }

-- ORDER BY id
unfoldable pub insert_by_id : DerivedBatch → List DerivedBatch → List DerivedBatch
insert_by_id d [] = d ∷ []
insert_by_id d (e ∷ es) =
    let rest = insert_by_id d es in if ltb e.id d.id then e ∷ rest else d ∷ e ∷ es

unfoldable pub by_id : List DerivedBatch → List DerivedBatch
unfolding insert_by_id
by_id [] = []
by_id (d ∷ ds) = insert_by_id d (by_id ds)

-- product_id = $1 AND expiration_source = 'derived'
abbrev pub follows_rules : RowId → Batch → Bool
follows_rules product b = b.product_id == product && is_derived b.expiration_source

-- `loadDerivedBatches`
unfoldable pub load_derived_batches : RowId → List Batch → List DerivedBatch
unfolding by_id
load_derived_batches product bs = by_id (map derived_batch (select (follows_rules product) bs))

-- id = $2 AND expiration_source = 'derived'
abbrev pub is_redated : RowId → Batch → Bool
is_redated id b = b.id == id && is_derived b.expiration_source

abbrev pub redated : Option Day → Batch → Batch
redated date b = record b { expiration_date = date; expiration_source = derived }

-- The date of a row that was created at an instant; the zone of the clock plays no part in it.
abbrev pub date_of_row : Resolution → Instant → Option Day
date_of_row r created = date_for (record { instant = created; offset = pos 0 }) r

-- `applyDerivedExpiry`
unfoldable pub apply_derived_expiry : List DerivedBatch → Resolution → Tx ℕ
apply_derived_expiry [] r = pure 0
apply_derived_expiry (d ∷ ds) r = do
  t ← gets (λ s. s.db.tables)
  put_tables (record t {
    batches = update_where (is_redated d.id) (redated (date_of_row r d.created_at)) t.batches;
  })
  affected ← apply_derived_expiry ds r
  pure (count_where (is_redated d.id) t.batches + affected)

-- `recomputeDerivedExpiry`
unfoldable pub recompute_derived_expiry_tx : RowId → RowId → Tx ℕ
unfolding apply_derived_expiry load_derived_batches
recompute_derived_expiry_tx storage product = do
  rules ← expiry_rules_for storage product
  t ← gets (λ s. s.db.tables)
  apply_derived_expiry (load_derived_batches product t.batches) (resolve rules)

-- `RecomputeDerivedExpiry`
unfoldable pub recompute_derived_expiry : Env → RowId → RowId → Database → Result ℕ × Database
unfolding recompute_derived_expiry_tx
recompute_derived_expiry env storage product =
    in_tx env (recompute_derived_expiry_tx storage product)

-- `ResetBatchExpirationToDerived`
unfoldable pub reset_batch_expiration_to_derived :
    Env → RowId → RowId → Database → Result BatchView × Database
reset_batch_expiration_to_derived env storage batch = in_tx env (do
  t ← gets (λ s. s.db.tables)
  b ← row_or (find_batch storage batch t) not_found
  rules ← expiry_rules_for storage b.product_id
  put_tables (record t {
    batches = modify batch_key batch (redated (date_of_row (resolve rules) b.created_at)) t.batches;
  })
  load_batch storage b.id)
