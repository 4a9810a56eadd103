-- ===== src/Store/Locations/Delete.antt =====
-- `DeleteLocation` of internal/store/locations.go, with the cascade of the foreign keys and the
-- tombstones of internal/store/tombstones.go.
pub mod Height
pub mod Cleared
pub mod Kept
pub mod Held
use inventory.Prelude.{
  ℕ, zero, suc, Option, none, some, List, [], ◌∷◌, ◌++◌, map, Bool, not, ◌==◌, member, select,
  exists, length, if◌then◌else◌,
}
use inventory.Prelude.Table.{find, insert}
use inventory.Store.Schema.{
  RowId, Location, Job, Batch, Inventory, Database, EntityType, location_entity, Tombstone,
  tombstone_key, location_key,
}
use inventory.Store.Tx.{
  Result, err, conflict, internal, Tx, ◌>>=◌, ◌>>◌, pure, refuse_if, row_or, gets, put_tables,
  put_jobs, put_tombstones, new_id, Env, in_tx,
}
use inventory.Store.ShelfLife.{max_tree_depth}
use inventory.Store.Tree.{
  Node, node_key, nodes, location_node, tree_locations, ancestors, require_in_tree,
}

abbrev pub is_child_of : List RowId → Option RowId → Bool
is_child_of level none = Bool.false
is_child_of level (some p) = member p level

-- The recursive query, one level of the tree at a time, at most `depth` of them.
unfoldable pub subtree : ℕ → List Node → List RowId → List RowId
subtree zero ns level = []
subtree (suc depth) ns level =
    level ++ subtree depth ns (map node_key (select (λ n. is_child_of level n.parent_id) ns))

-- `locationSubtree`, at a root that the table has.
unfoldable pub location_subtree : List Node → RowId → List RowId
unfolding subtree
location_subtree ns id = subtree max_tree_depth ns (id ∷ [])

-- What ON DELETE CASCADE takes along with the row `id`: every row from which the parents lead to it,
-- in as many steps as there are rows.
unfoldable pub falls_with : List Node → RowId → Location → Bool
unfolding ancestors find
falls_with ns id l = member id (ancestors (length ns) ns (find node_key l.id ns))

abbrev still_known : List Location → Option RowId → Option RowId
still_known ls none = none
still_known ls (some id) = if exists (λ (l : Location). l.id == id) ls then some id else none

-- ON DELETE SET NULL of jobs.location_hint_id
abbrev unhinted : List Location → Job → Job
unhinted ls j = record j { location_hint_id = still_known ls j.location_hint_id }

-- ON DELETE RESTRICT of inventory_batches.location_id
abbrev pub lies_in : List Location → Batch → Bool
lies_in ls b = exists (λ (l : Location). l.id == b.location_id) ls

-- DELETE FROM locations WHERE id = $1 AND storage_id = $2, at a row that has been found.
unfoldable pub delete_location_row : RowId → Tx (Unit {0})
unfolding falls_with
delete_location_row id s =
    let ls = s.db.tables.locations in
    let falls = falls_with (map location_node ls) id in
    let kept = select (λ l. not (falls l)) ls in
    if exists (lies_in (select falls ls)) s.db.tables.batches
    then err internal
    else (put_jobs (map (unhinted kept) s.db.jobs)
          >> put_tables (record s.db.tables { locations = kept }))
        s

-- `recordTombstones`
unfoldable pub record_tombstones : RowId → EntityType → List RowId → Tx (Unit {0})
record_tombstones storage kind [] = pure tt
record_tombstones storage kind (entity ∷ rest) = do
  id ← new_id
  now ← gets (λ s. s.clock.instant)
  ts ← gets (λ s. s.db.tombstones)
  ts' ←
      row_or
        (insert tombstone_key
          (record {
            id = id;
            storage_id = storage;
            entity_type = kind;
            entity_id = entity;
            deleted_at = now;
          })
          ts)
        internal
  put_tombstones ts'
  record_tombstones storage kind rest

abbrev pub is_under_one_of : List RowId → Batch → Bool
is_under_one_of subtree b = member b.location_id subtree

unfoldable pub delete_location_tx : RowId → RowId → Tx (Unit {0})
unfolding location_subtree delete_location_row record_tombstones
delete_location_tx storage id = do
  require_in_tree tree_locations storage id
  t ← gets (λ s. s.db.tables)
  refuse_if (exists (is_under_one_of (location_subtree (nodes tree_locations t) id)) t.batches)
      conflict
  delete_location_row id
  record_tombstones storage location_entity (location_subtree (nodes tree_locations t) id)

-- `DeleteLocation`
unfoldable pub delete_location : Env → RowId → RowId → Database → Result (Unit {0}) × Database
unfolding delete_location_tx
delete_location env storage id = in_tx env (delete_location_tx storage id)
