-- ===== src/Tests/Deletion.antt =====
-- Deleting a location of the household with its shelf.
use inventory.Prelude.{◌≡◌, refl, ◌∷◌, [], pos}
use inventory.Store.Schema.{location_entity, Database}
use inventory.Store.Tx.{err, conflict}
use inventory.Store.Tree.Rooted.{itself, above}
use inventory.Store.Tree.{require_in_tree, find_node, ancestors, location_node}
use inventory.Store.Locations.Delete.{
  delete_location, delete_location_row, location_subtree, subtree, falls_with, record_tombstones,
}
use inventory.Tests.{fridge, six_bottles, env, running}
use inventory.Store.Locations.Delete.Held.{delete_location-held}
use inventory.Prelude.Table.{find}
use inventory.Tests.Trees.{home, shelf, rooms-IsForest, rooms-IsShallow}

-- The shelf goes, and leaves a tombstone.
delete_runs :
    (delete_location env 100 12 home).1.tombstones
    ≡ record {
      id = 50;
      storage_id = 100;
      entity_type = location_entity;
      entity_id = 12;
      deleted_at = pos 1704110400;
    }
      ∷ []
unfolding delete_location running require_in_tree find_node location_subtree subtree
    delete_location_row falls_with ancestors record_tombstones
delete_runs = refl

-- The fridge holds bottles.
delete_refuses : (delete_location env 100 10 home).0 ≡ err conflict
unfolding delete_location running require_in_tree find_node location_subtree subtree
    delete_location_row falls_with ancestors record_tombstones
delete_refuses = refl

-- A bottle stands on the shelf in the fridge.
abbrev stocked : Database
stocked = record home {
  tables = record home.tables {
    batches = record six_bottles { id = 21; location_id = 12 } ∷ home.tables.batches;
  };
}

delete_location-held_example : delete_location env 100 10 stocked ≡ (err conflict, stocked)
unfolding find
delete_location-held_example =
    delete_location-held env 100 10 21 stocked {n = location_node fridge} rooms-IsForest
      rooms-IsShallow refl refl refl (above 10 (location_node shelf) refl refl itself) refl
