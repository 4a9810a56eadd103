-- ===== src/Store/Locations/Moved.antt =====
-- MoveLocation, UpdateLocation and the shape of the tree.
use inventory.Prelude.{refl, Option, none, some, inl, inr, Option-cases}
use inventory.Store.Schema.{RowId, Location, Database}
use inventory.Store.Tx.{Session, not_found, Tx, ◌>>=◌, ◌>>◌, pure, row_or, gets, put_tables, Env}
use inventory.Store.Tx.Rules.{Returns, Returns-bind, in_tx-keeps}
use inventory.Store.Rows.{find_location}
use inventory.Store.Tree.{tree_locations, require_in_tree, resolve_parent}
use inventory.Store.Tree.Rooted.{IsForest}
use inventory.Store.Tree.Edits.{IsShallow, require_in_tree-Owned, resolve_parent-IsAllowed}
use inventory.Store.Locations.{
  update_location_row, reparented, move_location, move_location_tx, LocationPatch, patched,
  update_location, update_location_tx,
}
use inventory.Store.Locations.Forest.{tree_of, update_location_row-IsForest, unmoved-IsForest}

-- Reparenting, once both ends are checked.
module _ (storage id : RowId) (s : Session)
    (forest : IsForest (tree_of s.db.tables.locations)) where
  abbrev Keeps : {A : Type 0} → Tx A → Type 0
  Keeps m = Returns (λ _ s'. IsForest (tree_of s'.db.tables.locations)) (m s)

  move_location_tx-IsForest :
      (parent : Option RowId)
      → IsShallow (tree_of s.db.tables.locations)
      → Keeps (move_location_tx storage id parent)
  unfolding move_location_tx ◌>>=◌ put_tables gets
  move_location_tx-IsForest parent shallow =
      Returns-bind _ _ (require_in_tree tree_locations storage id) _ s
        (require_in_tree-Owned tree_locations storage id s)
        (λ _ s' (e, owned). rw e (
          Returns-bind _ _ (resolve_parent tree_locations storage (some id) parent) _ s
            (resolve_parent-IsAllowed tree_locations storage s id parent forest shallow)
            (λ _ s'' (e', allowed). rw e' (
              update_location_row-IsForest (reparented parent s.clock.instant) (λ l. refl)
                (λ l. refl) id storage s forest owned (λ l found. allowed)))))

  answered :
      (f : Location → Location)
      → Keeps (update_location_row id f)
      → Keeps (
          update_location_row id f
          >> (gets (λ s. s.db.tables) >>= λ t. row_or (find_location storage id t) not_found))
  unfolding ◌>>=◌ gets row_or
  answered f h = Returns-bind _ _ (update_location_row id f) _ s h (λ _ s' kept.
      elim (Option-cases (find_location storage id s'.db.tables)) [
        | inl absent ↦ rw absent tt
        | inr found ↦ rw found.1 kept
      ])

  update_location_tx-IsForest :
      (patch : LocationPatch)
      → IsShallow (tree_of s.db.tables.locations)
      → Keeps (update_location_tx storage id patch)
  unfolding update_location_tx ◌>>=◌ gets pure
  update_location_tx-IsForest patch shallow = elim (Option-cases patch.parent_id) [
    | inl unset ↦
        Returns-bind _ _ (require_in_tree tree_locations storage id) _ s
          (require_in_tree-Owned tree_locations storage id s)
          (λ _ s' (e, owned).
            rw (e, unset)
              (answered (patched (record patch { parent_id = none }) s.clock.instant) (
                unmoved-IsForest (patched (record patch { parent_id = none }) s.clock.instant)
                  (λ l. refl) id s forest)))
    | inr set ↦
        Returns-bind _ _ (require_in_tree tree_locations storage id) _ s
          (require_in_tree-Owned tree_locations storage id s)
          (λ _ s' (e, owned).
            rw (e, set.1)
              (Returns-bind _ _ (resolve_parent tree_locations storage (some id) set.0) _ s
                (resolve_parent-IsAllowed tree_locations storage s id set.0 forest shallow)
                (λ _ s'' (e', allowed). rw e' (
                  answered (patched (record patch { parent_id = some set.0 }) s.clock.instant) (
                    update_location_row-IsForest
                      (patched (record patch { parent_id = some set.0 }) s.clock.instant)
                      (λ l. refl) (λ l. refl) id storage s forest owned (λ l found. allowed))))))
  ]

-- From a forest of which no path has more than 64 nodes, MoveLocation leaves a forest, whatever it
-- answers.
move_location-IsForest :
    (env : Env) (storage id : RowId) (parent : Option RowId) (db : Database)
    → IsForest (tree_of db.tables.locations)
    → IsShallow (tree_of db.tables.locations)
    → IsForest (tree_of (move_location env storage id parent db).1.tables.locations)
unfolding move_location
move_location-IsForest env storage id parent db forest shallow =
    in_tx-keeps (λ d. IsForest (tree_of d.tables.locations)) env _ db forest
      (move_location_tx-IsForest storage id _ forest parent shallow)

-- From a forest of which no path has more than 64 nodes, UpdateLocation leaves a forest, whatever it
-- answers.
pub update_location-IsForest :
    (env : Env) (storage id : RowId) (patch : LocationPatch) (db : Database)
    → IsForest (tree_of db.tables.locations)
    → IsShallow (tree_of db.tables.locations)
    → IsForest (tree_of (update_location env storage id patch db).1.tables.locations)
unfolding update_location
update_location-IsForest env storage id patch db forest shallow =
    in_tx-keeps (λ d. IsForest (tree_of d.tables.locations)) env _ db forest
      (update_location_tx-IsForest storage id _ forest patch shallow)
