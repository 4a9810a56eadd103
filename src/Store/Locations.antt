-- ===== src/Store/Locations.antt =====
-- internal/store/locations.go: the nodes of a storage's location tree.
pub mod Forest
pub mod Moved
pub mod Created
pub mod Delete
pub mod Shelved
use inventory.Prelude.{
  Option, none, some, List, String, Bool, ◌==◌, member, is_some, not, if◌then◌else◌, map, select,
}
use inventory.Prelude.Table.{find, modify, insert}
use inventory.Store.Schema.{RowId, Instant, Location, Inventory, Database, location_key}
use inventory.Store.Tx.{
  Result, ok, err, not_found, internal, Tx, ◌>>=◌, ◌>>◌, pure, refuse_if, row_or, gets, put_tables,
  new_id, Env, in_tx,
}
use inventory.Store.Rows.{find_location}
use inventory.Store.Tree.{TreeTable, tree_locations, require_in_tree, resolve_parent}

pub record NewLocation : Type 0 where
  pub parent_id : Option RowId
  pub name : String
  pub description : Option String

-- The INSERT; its columns refer to the storage.
unfoldable pub insert_location_row : Location → Tx Location
insert_location_row l s =
    if member l.storage_id s.db.storages
    then (row_or (insert location_key l s.db.tables.locations) internal >>= λ ls.
          put_tables (record s.db.tables { locations = ls }) >> pure l)
        s
    else err internal

unfoldable pub insert_location : RowId → RowId → NewLocation → Tx Location
unfolding insert_location_row
insert_location storage id new = do
  resolve_parent tree_locations storage none new.parent_id
  now ← gets (λ s. s.clock.instant)
  insert_location_row (record {
    id = id;
    storage_id = storage;
    parent_id = new.parent_id;
    name = new.name;
    description = new.description;
    created_at = now;
    updated_at = now;
    last_audited_at = none;
  })

-- `CreateLocation`; the id is minted before the transaction begins.
unfoldable pub create_location : Env → RowId → NewLocation → Database → Result Location × Database
unfolding insert_location
create_location env storage new = in_tx env (new_id >>= λ id. insert_location storage id new)

-- UPDATE locations SET … WHERE id = $6 AND storage_id = $7, at a row that has been found.
unfoldable pub update_location_row : RowId → (Location → Location) → Tx (Unit {0})
update_location_row id f s =
    put_tables (record s.db.tables { locations = modify location_key id f s.db.tables.locations }) s

abbrev pub reparented : Option RowId → Instant → Location → Location
reparented parent now l = record l { parent_id = parent; updated_at = now }

unfoldable pub move_location_tx : RowId → RowId → Option RowId → Tx (Unit {0})
unfolding update_location_row
move_location_tx storage id parent = do
  require_in_tree tree_locations storage id
  resolve_parent tree_locations storage (some id) parent
  now ← gets (λ s. s.clock.instant)
  update_location_row id (reparented parent now)

-- `MoveLocation`
unfoldable pub move_location :
    Env → RowId → RowId → Option RowId → Database → Result (Unit {0}) × Database
unfolding move_location_tx
move_location env storage id parent = in_tx env (move_location_tx storage id parent)

-- A field that is `none` is left alone; under `some` stands the new value of a column that may be NULL.
pub record LocationPatch : Type 0 where
  pub name : Option String
  pub description : Option (Option String)
  pub parent_id : Option (Option RowId)

-- COALESCE, and CASE WHEN … THEN … ELSE … END
abbrev or_kept {ℓ} : {A : Type ℓ} → Option A → A → A
or_kept none old = old
or_kept (some new) old = new

abbrev pub patched : LocationPatch → Instant → Location → Location
patched patch now l = record l {
  name = or_kept patch.name l.name;
  description = or_kept patch.description l.description;
  parent_id = or_kept patch.parent_id l.parent_id;
  updated_at = now;
}

abbrev pub resolve_patch : RowId → RowId → Option (Option RowId) → Tx (Unit {0})
resolve_patch storage id none = pure tt
resolve_patch storage id (some parent) = resolve_parent tree_locations storage (some id) parent

unfoldable pub update_location_tx : RowId → RowId → LocationPatch → Tx Location
unfolding update_location_row
update_location_tx storage id patch = do
  require_in_tree tree_locations storage id
  resolve_patch storage id patch.parent_id
  now ← gets (λ s. s.clock.instant)
  update_location_row id (patched patch now)
  t ← gets (λ s. s.db.tables)
  row_or (find_location storage id t) not_found

-- `UpdateLocation`
unfoldable pub update_location :
    Env → RowId → RowId → LocationPatch → Database → Result Location × Database
unfolding update_location_tx
update_location env storage id patch = in_tx env (update_location_tx storage id patch)

abbrev pub renamed : String → Option String → Instant → Location → Location
renamed name description now l = record l {
  name = name;
  description = description;
  updated_at = now;
}

-- `RenameLocation`, one statement.
unfoldable pub rename_location :
    Env → RowId → RowId → String → Option String → Database → Result (Unit {0}) × Database
unfolding update_location_row
rename_location env storage id name description = in_tx env (do
  t ← gets (λ s. s.db.tables)
  row_or (find_location storage id t) not_found >>= λ _.
      gets (λ s. s.clock.instant) >>= λ now. update_location_row id (renamed name description now))
