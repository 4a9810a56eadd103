-- ===== src/Store/Rows.antt =====
-- The lookups, guards and row writers that the operations of internal/store share. A query joined to
-- a storage finds only what belongs to that storage.
use inventory.Prelude.{
  Option, none, some, map, Bool, not, ◌&&◌, ℤ, pos, negsuc, leb_ℤ, ◌==◌, is_some, if◌then◌else◌,
}
use inventory.Prelude.Table.{find, modify, remove, insert}
use inventory.Store.Schema.{
  RowId, LogReason, Product, Location, Batch, InventoryLog, Inventory, product_key, location_key,
  batch_key, log_key,
}
use inventory.Store.Tx.{err, not_found, internal, Tx, ◌>>=◌, refuse_if, gets, put_tables, new_id}

-- The range of a column of type INT.
unfoldable pub fits_int4 : ℤ → Bool
fits_int4 n = leb_ℤ (negsuc 2147483647) n && leb_ℤ n (pos 2147483647)

abbrev pub in_storage_product : RowId → Option Product → Option Product
in_storage_product storage none = none
in_storage_product storage (some p) = if p.storage_id == storage then some p else none

-- SELECT … FROM products WHERE id = $1 AND storage_id = $2
unfoldable pub find_product : RowId → RowId → Inventory → Option Product
unfolding find
find_product storage id t = in_storage_product storage (find product_key id t.products)

abbrev pub in_storage_location : RowId → Option Location → Option Location
in_storage_location storage none = none
in_storage_location storage (some l) = if l.storage_id == storage then some l else none

-- SELECT … FROM locations WHERE id = $1 AND storage_id = $2
unfoldable pub find_location : RowId → RowId → Inventory → Option Location
unfolding find
find_location storage id t = in_storage_location storage (find location_key id t.locations)

abbrev pub joined : Batch → Option Product → Option Batch
joined b none = none
joined b (some p) = some b

abbrev pub in_storage_batch : RowId → Inventory → Option Batch → Option Batch
in_storage_batch storage t none = none
in_storage_batch storage t (some b) = joined b (find_product storage b.product_id t)

-- … FROM inventory_batches b JOIN products p ON p.id = b.product_id
-- WHERE b.id = $1 AND p.storage_id = $2
unfoldable pub find_batch : RowId → RowId → Inventory → Option Batch
unfolding find find_product
find_batch storage id t = in_storage_batch storage t (find batch_key id t.batches)

unfoldable pub require_product_in_storage : RowId → RowId → Tx (Unit {0})
unfolding find_product
require_product_in_storage storage id s =
    refuse_if (not (is_some (find_product storage id s.db.tables))) not_found s

-- `requireSameStorage` at the locations.
unfoldable pub require_same_storage : RowId → RowId → Tx (Unit {0})
unfolding find_location
require_same_storage storage id s =
    refuse_if (not (is_some (find_location storage id s.db.tables))) not_found s

-- Every batch with the id, under the row's own key.
abbrev pub update_batch_row : RowId → (Batch → Batch) → Inventory → Inventory
update_batch_row id f t = record t { batches = modify batch_key id f t.batches }

abbrev forget_batch : RowId → Option RowId → Option RowId
forget_batch id none = none
forget_batch id (some b) = if b == id then none else some b

-- `ON DELETE SET NULL` of inventory_logs.batch_id
abbrev pub unlink : RowId → InventoryLog → InventoryLog
unlink id l = record l { batch_id = forget_batch id l.batch_id }

-- DELETE FROM inventory_batches WHERE id = $1
unfoldable pub delete_batch_row : RowId → Inventory → Inventory
delete_batch_row id t = record t {
  batches = remove batch_key id t.batches;
  logs = map (unlink id) t.logs;
}

unfoldable pub insert_batch_row : Batch → Tx (Unit {0})
insert_batch_row b s = elim (insert batch_key b s.db.tables.batches) [
  | none ↦ err internal
  | some batches ↦
      if fits_int4 (pos b.quantity)
      then put_tables (record s.db.tables { batches = batches }) s
      else err internal
]

unfoldable pub insert_log_row : InventoryLog → Tx (Unit {0})
insert_log_row l s = elim (insert log_key l s.db.tables.logs) [
  | none ↦ err internal
  | some logs ↦
      if fits_int4 l.change_qty
      then put_tables (record s.db.tables { logs = logs }) s
      else err internal
]

-- `writeLog`
unfoldable pub write_log : RowId → Option RowId → ℤ → LogReason → Option RowId → Tx (Unit {0})
unfolding new_id insert_log_row
write_log product batch change_qty reason user = do
  id ← new_id
  now ← gets (λ s. s.clock)
  insert_log_row (record {
    id = id;
    product_id = product;
    batch_id = batch;
    change_qty = change_qty;
    reason = reason;
    created_by = user;
    timestamp = now.instant;
  })
