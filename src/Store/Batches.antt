-- ===== src/Store/Batches.antt =====
-- internal/store/batches.go: every write to a batch's quantity, and the ledger that explains it.
-- A batch that came into a read model carries its container's label and type beside the row.
pub mod Split
pub mod Update
use inventory.Prelude.{
  ℕ, ◌-◌, Option, none, some, List, [], ◌∷◌, Bool, true, false, not, ◌&&◌, ◌||◌, String, ℤ, pos,
  ◌+ℤ◌, ◌-ℤ◌, neg, ltb_ℤ, pos_part, ◌==◌, is_some, if◌then◌else◌,
}
use inventory.Prelude.Table.{find, modify, remove, insert}
use inventory.Expiry.{Day, resolve, date_for}
use inventory.Store.Schema.{
  RowId, LogReason, audit, move, ExpirationSource, derived, Container, Batch, Inventory, Database,
  container_key, batch_key,
}
use inventory.Store.Schema
use inventory.Store.Tx.{
  StoreError, Result, ok, err, not_found, validation, internal, Session, Tx, ◌>>=◌, ◌>>◌, pure,
  fail, refuse_if, row_or, when, gets, put_tables, new_id, Env, in_tx,
}
use inventory.Store.Rows.{
  fits_int4, find_batch, require_product_in_storage, require_same_storage, update_batch_row,
  delete_batch_row, insert_batch_row, write_log,
}
use inventory.Store.Quests.{bump_for_ledger_reason}
use inventory.Store.ShelfLife.{expiry_rules_for, find_by}
use inventory.Store.Containers.{upsert_batch_container_label, set_batch_container_type}

pub record BatchView : Type 0 where
  pub batch : Batch
  pub container_label : Option String
  pub container_type : Option String

pub record NewBatch : Type 0 where
  pub product_id : RowId
  pub location_id : RowId
  pub quantity : ℤ
  pub expiration_date : Option Day
  pub expiration_source : ExpirationSource
  pub reason : LogReason
  pub created_by : Option RowId
  pub container_label : Option String
  pub container_type : Option (Option String)

abbrev pub is_blank_reason : LogReason → Bool
is_blank_reason LogReason.blank = true
is_blank_reason _ = false

-- `if in.ExpirationSource == "" { in.ExpirationSource = ExpirationDerived }`
abbrev source_or_derived : ExpirationSource → ExpirationSource
source_or_derived ExpirationSource.blank = derived
source_or_derived e = e

abbrev view_of : Batch → Option Container → BatchView
view_of b none = record { batch = b; container_label = none; container_type = none }
view_of b (some c) = record {
  batch = b;
  container_label = some c.label;
  container_type = c.container_type;
}

-- The row without a join.
abbrev pub bare : Batch → BatchView
bare b = view_of b none

unfoldable pub load_batch : RowId → RowId → Tx BatchView
load_batch storage batch = do
  t ← gets (λ s. s.db.tables)
  b ← row_or (find_batch storage batch t) not_found
  pure (view_of b (find_by (λ id. find container_key id t.containers) b.container_id))

-- The date that the rules give a batch created now.
unfoldable pub derived_date : RowId → RowId → Tx (Option Day)
derived_date storage product = do
  rules ← expiry_rules_for storage product
  now ← gets (λ s. s.clock)
  pure (date_for now (resolve rules))

-- A date is computed only where none is given and the source is not the user.
unfoldable pub batch_date : RowId → RowId → Option Day → ExpirationSource → Tx (Option Day)
unfolding derived_date
batch_date storage product (some d) e = pure (some d)
batch_date storage product none ExpirationSource.user = pure none
batch_date storage product none _ = derived_date storage product

abbrev pub label_new_batch : RowId → RowId → Option String → Tx (Unit {0})
label_new_batch storage batch none = pure tt
label_new_batch storage batch (some label) = upsert_batch_container_label storage batch label

abbrev pub type_new_batch : RowId → RowId → Option (Option String) → Tx (Unit {0})
type_new_batch storage batch none = pure tt
type_new_batch storage batch (some t) = set_batch_container_type storage batch t

-- The end of createBatch: the joined row where a container was named, else the inserted one.
abbrev pub created_view : RowId → NewBatch → Batch → Tx BatchView
created_view storage new b =
    if is_some new.container_label || is_some new.container_type
    then load_batch storage b.id
    else pure (bare b)

-- From the INSERT on.
unfoldable pub store_batch : RowId → NewBatch → Batch → Tx BatchView
unfolding load_batch
store_batch storage new b = do
  insert_batch_row b
  label_new_batch storage b.id new.container_label
  type_new_batch storage b.id new.container_type
  write_log new.product_id (some b.id) new.quantity new.reason new.created_by
  bump_for_ledger_reason storage new.created_by new.reason b.id
  created_view storage new b

-- `createBatch`
unfoldable pub create_batch_tx : RowId → NewBatch → Tx BatchView
unfolding store_batch batch_date
create_batch_tx storage new = do
  refuse_if (ltb_ℤ new.quantity (pos 1)) validation
  refuse_if (is_blank_reason new.reason) validation
  id ← new_id
  require_product_in_storage storage new.product_id
  require_same_storage storage new.location_id
  date ←
      batch_date storage new.product_id new.expiration_date
        (source_or_derived new.expiration_source)
  now ← gets (λ s. s.clock)
  store_batch storage new (record {
    id = id;
    product_id = new.product_id;
    location_id = new.location_id;
    quantity = pos_part new.quantity;
    expiration_date = date;
    expiration_source = source_or_derived new.expiration_source;
    created_at = now.instant;
    container_id = none;
  })

-- `CreateBatch`
unfoldable pub create_batch : Env → RowId → NewBatch → Database → Result BatchView × Database
unfolding create_batch_tx
create_batch env storage new = in_tx env (create_batch_tx storage new)

-- DELETE of an emptied batch
unfoldable pub delete_batch : RowId → Tx (Unit {0})
delete_batch batch s = put_tables (delete_batch_row batch s.db.tables) s

abbrev pub set_quantity : ℕ → Batch → Batch
set_quantity n b = record b { quantity = n }

-- UPDATE inventory_batches SET quantity = $1 WHERE id = $2
unfoldable pub write_quantity : RowId → ℕ → Tx (Unit {0})
write_quantity batch n s =
    if fits_int4 (pos n)
    then put_tables (update_batch_row batch (set_quantity n) s.db.tables) s
    else err internal

-- The two endings of adjustBatch: the batch is emptied, or only changed.
unfoldable pub empty_batch : RowId → RowId → RowId → ℤ → LogReason → Option RowId → Tx RowId
empty_batch storage batch product delta reason user = do
  delete_batch batch
  write_log product none delta reason user
  bump_for_ledger_reason storage user reason batch
  pure product

unfoldable pub change_batch : RowId → RowId → RowId → ℕ → ℤ → LogReason → Option RowId → Tx RowId
change_batch storage batch product updated delta reason user = do
  write_quantity batch updated
  write_log product (some batch) delta reason user
  bump_for_ledger_reason storage user reason batch
  pure product

unfoldable pub apply_delta : RowId → Batch → ℤ → LogReason → Option RowId → Tx RowId
unfolding empty_batch change_batch
apply_delta storage b delta reason user =
    let updated = pos b.quantity +ℤ delta in
    if ltb_ℤ updated (pos 0)
    then fail validation
    else if pos_part updated == 0
    then empty_batch storage b.id b.product_id delta reason user
    else change_batch storage b.id b.product_id (pos_part updated) delta reason user

-- `adjustBatch`
unfoldable pub adjust_batch_tx : RowId → RowId → ℤ → LogReason → Option RowId → Tx RowId
unfolding apply_delta
adjust_batch_tx storage batch delta reason user = do
  t ← gets (λ s. s.db.tables)
  b ← row_or (find_batch storage batch t) not_found
  apply_delta storage b delta reason user

abbrev pub is_zero : ℤ → Bool
is_zero n = pos_part n == 0 && not (ltb_ℤ n (pos 0))

-- `AdjustBatch`
unfoldable pub adjust_batch :
    Env → RowId → RowId → ℤ → LogReason → Option RowId → Database → Result (Unit {0}) × Database
unfolding adjust_batch_tx
adjust_batch env storage batch delta reason user db =
    if is_zero delta
    then (err validation, db)
    else if is_blank_reason reason
    then (err validation, db)
    else in_tx env (adjust_batch_tx storage batch delta reason user >>= λ _. pure tt) db
