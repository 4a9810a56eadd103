-- ===== src/Store/Batches/Update.antt =====
-- `UpdateBatch` of internal/store/batches.go, with the count and the move that it consists of.
use inventory.Prelude.{
  Option, none, some, Bool, true, false, not, ◌&&◌, ◌||◌, String, ℤ, pos, ◌-ℤ◌, neg, ltb_ℤ, ◌==◌,
  is_some, if◌then◌else◌,
}
use inventory.Store.Schema.{RowId, audit, move, Batch, Database}
use inventory.Store.Tx.{
  Result, err, not_found, validation, Tx, ◌>>=◌, ◌>>◌, pure, refuse_if, row_or, when, gets,
  put_tables, Env, in_tx,
}
use inventory.Store.Rows.{find_batch, require_same_storage, update_batch_row, write_log}
use inventory.Store.Containers.{
  upsert_batch_container_label, detach_batch_container, set_batch_container_type,
}
use inventory.Store.Batches.{BatchView, bare, load_batch, adjust_batch_tx, is_zero}

-- The adjustment that a count makes; an unchanged count writes nothing. The result is the product
-- and whether anything changed.
unfoldable pub correct_quantity : RowId → Batch → ℤ → Option RowId → Tx (RowId × Bool)
correct_quantity storage b quantity user =
    if is_zero (quantity -ℤ pos b.quantity) then pure (b.product_id, false) else do
      adjust_batch_tx storage b.id (quantity -ℤ pos b.quantity) audit user >>= λ _. pure tt
      pure (b.product_id, true)

-- `setBatchQuantity`
unfoldable pub set_batch_quantity : RowId → RowId → ℤ → Option RowId → Tx (RowId × Bool)
unfolding correct_quantity
set_batch_quantity storage batch quantity user = do
  refuse_if (ltb_ℤ quantity (pos 0)) validation
  t ← gets (λ s. s.db.tables)
  b ← row_or (find_batch storage batch t) not_found
  correct_quantity storage b quantity user

abbrev pub set_location : RowId → Batch → Batch
set_location place b = record b { location_id = place }

unfoldable pub relocate : RowId → RowId → Tx (Unit {0})
relocate batch place s = put_tables (update_batch_row batch (set_location place) s.db.tables) s

-- The UPDATE of a move and the two log rows that it is paired with.
unfoldable pub move_to : Batch → RowId → Option RowId → Tx BatchView
unfolding relocate
move_to b place user = do
  relocate b.id place
  write_log b.product_id (some b.id) (neg b.quantity) move user
  write_log b.product_id (some b.id) (pos b.quantity) move user
  pure (bare (set_location place b))

-- `moveBatch`
unfoldable pub move_batch : RowId → RowId → RowId → Option RowId → Tx BatchView
unfolding move_to load_batch
move_batch storage batch place user = do
  t ← gets (λ s. s.db.tables)
  b ← row_or (find_batch storage batch t) not_found
  require_same_storage storage place
  if b.location_id == place then load_batch storage batch else move_to b place user

-- A field that is `none` is left alone. `container_label` and `container_type` are the pairs of a
-- `Set…` flag and a pointer: `none` for an unset flag.
pub record BatchPatch : Type 0 where
  pub quantity : Option ℤ
  pub location_id : Option RowId
  pub container_label : Option (Option String)
  pub container_type : Option (Option String)

unfoldable pub touches_container : BatchPatch → Bool
touches_container p = is_some p.container_label || is_some p.container_type

abbrev pub zero_quantity : Option ℤ → Bool
zero_quantity none = false
zero_quantity (some q) = is_zero q

-- The refusals before the transaction.
unfoldable pub bad_patch : BatchPatch → Bool
unfolding touches_container
bad_patch p =
    not (is_some p.quantity) && (not (is_some p.location_id) && not (touches_container p))
    || (zero_quantity p.quantity && is_some p.location_id
        || zero_quantity p.quantity && touches_container p)

abbrev pub patch_quantity : RowId → RowId → Option ℤ → Option RowId → Tx (Unit {0})
patch_quantity storage batch none user = pure tt
patch_quantity storage batch (some q) user =
    set_batch_quantity storage batch q user >>= λ _. pure tt

abbrev pub patch_label : RowId → RowId → Option (Option String) → Tx (Unit {0})
patch_label storage batch none = pure tt
patch_label storage batch (some none) = detach_batch_container batch
patch_label storage batch (some (some label)) = upsert_batch_container_label storage batch label

abbrev pub patch_type : RowId → RowId → Option (Option String) → Tx (Unit {0})
patch_type storage batch none = pure tt
patch_type storage batch (some t) = set_batch_container_type storage batch t

-- The container fields, on a batch that is first resolved against the storage.
unfoldable pub patch_container : RowId → RowId → BatchPatch → Tx (Unit {0})
unfolding touches_container
patch_container storage batch p = when (touches_container p) (do
  load_batch storage batch >>= λ _. pure tt
  patch_label storage batch p.container_label
  patch_type storage batch p.container_type)

abbrev pub patch_location : RowId → RowId → Option RowId → Option RowId → Tx (Unit {0})
patch_location storage batch none user = pure tt
patch_location storage batch (some place) user =
    move_batch storage batch place user >>= λ _. pure tt

-- What follows the quantity, unless the batch was emptied.
unfoldable pub patch_rest : RowId → RowId → BatchPatch → Option RowId → Tx (Option BatchView)
unfolding patch_container
patch_rest storage batch p user = do
  patch_container storage batch p
  patch_location storage batch p.location_id user
  b ← load_batch storage batch
  pure (some b)

unfoldable pub update_batch_tx : RowId → RowId → BatchPatch → Option RowId → Tx (Option BatchView)
unfolding patch_rest
update_batch_tx storage batch p user = do
  patch_quantity storage batch p.quantity user
  if zero_quantity p.quantity then pure none else patch_rest storage batch p user

-- `UpdateBatch`
unfoldable pub update_batch :
    Env
    → RowId
    → RowId
    → BatchPatch
    → Option RowId
    → Database
    → Result (Option BatchView) × Database
unfolding update_batch_tx bad_patch
update_batch env storage batch p user db =
    if bad_patch p
    then (err validation, db)
    else in_tx env (update_batch_tx storage batch p user) db
