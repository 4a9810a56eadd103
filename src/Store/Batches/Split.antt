-- ===== src/Store/Batches/Split.antt =====
-- `SplitBatch` of internal/store/batches.go.
use inventory.Prelude.{
  ℕ, ◌-◌, Option, none, some, Bool, not, ◌||◌, ℤ, pos, ◌-ℤ◌, neg, ltb_ℤ, pos_part, if◌then◌else◌,
}
use inventory.Store.Schema.{RowId, move, Batch, Database}
use inventory.Store.Tx.{
  Result, err, not_found, validation, Tx, ◌>>=◌, ◌>>◌, pure, refuse_if, row_or, gets, new_id, Env,
  in_tx,
}
use inventory.Store.Rows.{find_batch, require_same_storage, insert_batch_row, write_log}
use inventory.Store.Containers.{
  ContainerDisposition, source, target, both, neither, destroy, blank, valid_container_disposition,
  destroy_container_tx, detach_batch_container,
}
use inventory.Store.Batches.{BatchView, load_batch, write_quantity}

pub record SplitBatchInput : Type 0 where
  pub quantity : ℤ
  pub target_location_id : RowId
  pub container_disposition : ContainerDisposition

-- `if disposition == "" { disposition = DispositionSource }`
abbrev pub disposition_or_source : ContainerDisposition → ContainerDisposition
disposition_or_source blank = source
disposition_or_source d = d

-- What happens on the source's side to the container that it has.
unfoldable pub dispose_source : RowId → RowId → ContainerDisposition → Option RowId → Tx (Unit {0})
dispose_source storage batch d none = pure tt
dispose_source storage batch target (some c) = detach_batch_container batch
dispose_source storage batch neither (some c) = detach_batch_container batch
dispose_source storage batch destroy (some c) = destroy_container_tx storage c
dispose_source storage batch _ (some c) = pure tt

-- The container that the split-off portion carries.
abbrev pub target_container : ContainerDisposition → Option RowId → Option RowId
target_container target c = c
target_container both c = c
target_container _ c = none

-- The split of a batch that has been found and can give up `n` units.
unfoldable pub split_off :
    RowId → Batch → ℕ → RowId → ContainerDisposition → RowId → Option RowId → Tx BatchView
unfolding dispose_source load_batch write_quantity
split_off storage b n place disposition new_batch_id user = do
  write_quantity b.id (b.quantity - n)
  dispose_source storage b.id disposition b.container_id
  now ← gets (λ s. s.clock)
  insert_batch_row (record b {
    id = new_batch_id;
    location_id = place;
    quantity = n;
    created_at = now.instant;
    container_id = target_container disposition b.container_id;
  })
  write_log b.product_id (some b.id) (neg n) move user
  write_log b.product_id (some new_batch_id) (pos n) move user
  load_batch storage new_batch_id

-- in.Quantity < 1 || in.Quantity > source.Quantity-1
abbrev pub not_a_split : ℤ → Batch → Bool
not_a_split n b = ltb_ℤ n (pos 1) || ltb_ℤ (pos b.quantity -ℤ pos 1) n

unfoldable pub split_batch_tx :
    RowId → RowId → SplitBatchInput → ContainerDisposition → RowId → Option RowId → Tx BatchView
unfolding split_off
split_batch_tx storage batch input disposition new_batch_id user = do
  t ← gets (λ s. s.db.tables)
  b ← row_or (find_batch storage batch t) not_found
  refuse_if (not_a_split input.quantity b) validation
  require_same_storage storage input.target_location_id
  split_off storage b (pos_part input.quantity) input.target_location_id disposition new_batch_id
      user

-- The id of the new batch is minted before the transaction begins.
unfoldable pub split_batch :
    Env → RowId → RowId → SplitBatchInput → Option RowId → Database → Result BatchView × Database
unfolding split_batch_tx
split_batch env storage batch input user db =
    let disposition = disposition_or_source input.container_disposition in
    if not (valid_container_disposition disposition)
    then (err validation, db)
    else in_tx env (new_id >>= λ id. split_batch_tx storage batch input disposition id user) db
