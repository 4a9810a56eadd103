-- ===== src/Store/Containers.antt =====
-- internal/store/containers.go: what a batch is physically held in.
use inventory.Prelude.{
  Option, none, some, Bool, true, false, not, ◌&&◌, String, map, ◌==◌, is_some, if◌then◌else◌,
}
use inventory.Prelude.Table.{find, modify, insert}
use inventory.Store.Schema.{RowId, Container, Batch, Database, container_key, batch_key}
use inventory.Store.Tx.{
  err, not_found, validation, internal, Tx, ◌>>=◌, ◌>>◌, pure, fail, row_or, gets, put_tables,
  new_id, Result, Env, in_tx,
}

-- `blank` is the empty string and `other` any string that names no disposition.
pub data ContainerDisposition : Type 0 where
  source target both neither destroy blank other : ContainerDisposition

unfoldable pub valid_container_disposition : ContainerDisposition → Bool
valid_container_disposition blank = false
valid_container_disposition other = false
valid_container_disposition _ = true

abbrev pub set_container : Option RowId → Batch → Batch
set_container c b = record b { container_id = c }

abbrev pub holds : RowId → Option RowId → Bool
holds container none = false
holds container (some c) = c == container

-- UPDATE inventory_batches SET container_id = NULL WHERE container_id = $1
abbrev pub clear_container : RowId → Batch → Batch
clear_container container b = if holds container b.container_id then set_container none b else b

-- A row that the UPDATE of destroyContainer matches.
abbrev pub destroyable : RowId → Option Container → Bool
destroyable storage none = false
destroyable storage (some c) = c.storage_id == storage && not (is_some c.destroyed_at)

-- `destroyContainer`
unfoldable pub destroy_container_tx : RowId → RowId → Tx (Unit {0})
unfolding find
destroy_container_tx storage id s =
    let t = s.db.tables in
    if destroyable storage (find container_key id t.containers)
    then put_tables
        (record t {
          containers =
              modify container_key id (λ c. record c { destroyed_at = some s.clock.instant })
                t.containers;
          batches = map (clear_container id) t.batches;
        })
        s
    else err not_found

-- `DestroyContainer`
unfoldable pub destroy_container : Env → RowId → RowId → Database → Result (Unit {0}) × Database
unfolding destroy_container_tx
destroy_container env storage id = in_tx env (destroy_container_tx storage id)

-- The container that a batch points at now. The batch is not resolved against a storage.
unfoldable pub batch_container_id : RowId → Tx (Option RowId)
unfolding find
batch_container_id batch = do
  t ← gets (λ s. s.db.tables)
  b ← row_or (find batch_key batch t.batches) not_found
  pure b.container_id

-- UPDATE containers SET … WHERE id = $2 AND storage_id = $3
abbrev in_own_storage : RowId → (Container → Container) → Container → Container
in_own_storage storage f c = if c.storage_id == storage then f c else c

unfoldable pub update_container : RowId → RowId → (Container → Container) → Tx (Unit {0})
update_container storage id f s =
    let t = s.db.tables in
    put_tables
      (record t { containers = modify container_key id (in_own_storage storage f) t.containers }) s

unfoldable pub insert_container_row : Container → Tx (Unit {0})
insert_container_row c s = elim (insert container_key c s.db.tables.containers) [
  | none ↦ err internal
  | some containers ↦ put_tables (record s.db.tables { containers = containers }) s
]

unfoldable pub set_batch_container : RowId → Option RowId → Tx (Unit {0})
set_batch_container batch c s =
    let t = s.db.tables in
    put_tables (record t { batches = modify batch_key batch (set_container c) t.batches }) s

unfoldable pub attach_new_container : RowId → RowId → String → Tx (Unit {0})
unfolding insert_container_row set_batch_container
attach_new_container storage batch label = do
  id ← new_id
  now ← gets (λ s. s.clock)
  insert_container_row (record {
    id = id;
    storage_id = storage;
    label = label;
    container_type = none;
    created_at = now.instant;
    destroyed_at = none;
  })
  set_batch_container batch (some id)

unfoldable pub label_container : RowId → RowId → String → Option RowId → Tx (Unit {0})
unfolding attach_new_container update_container
label_container storage batch label none = attach_new_container storage batch label
label_container storage batch label (some c) =
    update_container storage c (λ r. record r { label = label })

unfoldable pub upsert_batch_container_label : RowId → RowId → String → Tx (Unit {0})
unfolding batch_container_id label_container
upsert_batch_container_label storage batch label = do
  current ← batch_container_id batch
  label_container storage batch label current

unfoldable pub detach_batch_container : RowId → Tx (Unit {0})
unfolding set_batch_container
detach_batch_container batch = set_batch_container batch none

unfoldable pub type_container : RowId → Option String → Option RowId → Tx (Unit {0})
unfolding update_container
type_container storage container_type none = fail validation
type_container storage container_type (some c) =
    update_container storage c (λ r. record r { container_type = container_type })

unfoldable pub set_batch_container_type : RowId → RowId → Option String → Tx (Unit {0})
unfolding batch_container_id type_container
set_batch_container_type storage batch container_type = do
  current ← batch_container_id batch
  type_container storage container_type current
