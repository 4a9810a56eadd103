-- ===== src/Store/Locations/Shelved.antt =====
-- The edits of the location tree and the shelves of the batches.
use inventory.Prelude.{
  ◌≡◌, refl, ◌∙◌, Option, none, some, List, [], ◌∷◌, String, inl, inr, Bool-cases, Option-cases,
  ◌==◌, member, is_some, All,
}
use inventory.Prelude.Table.{find, modify, insert}
use inventory.Prelude.Table.Laws.{find-modify, find-append_some, insert-eq-some}
use inventory.Store.Schema.{RowId, Product, Location, Batch, Inventory, Database, location_key}
use inventory.Store.Tx.{not_found, ◌>>=◌, pure, refuse_if, row_or, put_tables, Env}
use inventory.Store.Tx.Rules.{IsQuiet, new_id-IsQuiet}
use inventory.Store.Tx.Triple.{
  Triple, Triple-bind, Triple-gets, Triple-row_or, Triple-pure, Triple-quiet, Triple-in_tx,
}
use inventory.Store.Rows.{find_location}
use inventory.Store.Tree.{
  TreeTable, tree_locations, nodes, require_in_tree, refuse_cycle, resolve_parent, would_cycle,
  find_node,
}
use inventory.Store.Sound.{Sound, IsPlaced}
use inventory.Store.Locations.{
  NewLocation, insert_location, insert_location_row, create_location, update_location_row,
  reparented, move_location, move_location_tx, LocationPatch, patched, resolve_patch,
  update_location, update_location_tx, renamed, rename_location,
}

-- Every row is still there, in its storage.
abbrev Stand : List Location → List Location → Type 0
Stand ls ls' =
    (k : RowId) (l : Location)
    → find location_key k ls ≡ some l
    → (l' : Location) × (find location_key k ls' ≡ some l') × (l.storage_id ≡ l'.storage_id)

module _ (products : List Product) (ls ls' : List Location) (stand : Stand ls ls') where
  IsPlaced-Stand : (b : Batch) → IsPlaced products ls b → IsPlaced products ls' b
  IsPlaced-Stand b h =
      let (l', found, own) = stand b.location_id h.location h.its_location in
      record {
        product = h.product;
        location = l';
        its_product = h.its_product;
        its_location = found;
        one_storage = h.one_storage ∙ own;
      }

  All-IsPlaced-Stand :
      (bs : List Batch) → All (IsPlaced products ls) bs → All (IsPlaced products ls') bs
  All-IsPlaced-Stand [] h = tt
  All-IsPlaced-Stand (b ∷ bs) h = (IsPlaced-Stand b h.0, All-IsPlaced-Stand bs h.1)

Sound-Stand :
    (t : Inventory) (ls' : List Location)
    → Stand t.locations ls'
    → Sound t
    → Sound (record t { locations = ls' })
Sound-Stand t ls' stand h = record {
  unique = h.unique;
  placed = All-IsPlaced-Stand t.products t.locations ls' stand t.batches h.placed;
  positive = h.positive;
  balance = h.balance;
}

module _ (f : Location → Location) (keeps : (l : Location) → location_key (f l) ≡ location_key l)
    (stays : (l : Location) → l.storage_id ≡ (f l).storage_id) where
  modify-Stand : (id : RowId) (ls : List Location) → Stand ls (modify location_key id f ls)
  modify-Stand id ls k l e = elim (Bool-cases (id == k)) [
    | inl same ↦ (f l, find-modify location_key id k f ls keeps ∙ rw (same, e) refl, stays l)
    | inr other ↦ (l, find-modify location_key id k f ls keeps ∙ rw (other, e) refl, refl)
  ]

  pub update_location_row-Sound : (id : RowId) → Triple Sound (update_location_row id f) Sound
  unfolding update_location_row put_tables
  update_location_row-Sound id = record {
    at = λ s h. Sound-Stand s.db.tables _ (modify-Stand id s.db.tables.locations) h;
  }

insert_location_row-Sound : (l : Location) → Triple Sound (insert_location_row l) Sound
unfolding insert_location_row ◌>>=◌ put_tables pure row_or
insert_location_row-Sound l = record {
  at = λ s h. elim (Bool-cases (member l.storage_id s.db.storages)) [
    | inr unknown ↦ rw unknown tt
    | inl known ↦ elim (Option-cases (insert location_key l s.db.tables.locations)) [
      | inl clash ↦ rw (known, clash) tt
      | inr new ↦
          let rows = (insert-eq-some location_key l s.db.tables.locations new.1).1 in
          rw (known, new.1, rows)
            (Sound-Stand s.db.tables _
              (λ k m e. (m, find-append_some location_key k s.db.tables.locations (l ∷ []) e, refl))
              h)
    ]
  ];
}

require_in_tree-IsQuiet :
    (table : TreeTable) (storage id : RowId) → IsQuiet (require_in_tree table storage id)
unfolding require_in_tree refuse_if
require_in_tree-IsQuiet table storage id = record {
  at = λ s. elim (Bool-cases (is_some (find_node storage id (nodes table s.db.tables)))) [
    | inl known ↦ rw known refl
    | inr unknown ↦ rw unknown tt
  ];
}

refuse_cycle-IsQuiet :
    (table : TreeTable) (moved : Option RowId) (p : RowId) → IsQuiet (refuse_cycle table moved p)
unfolding refuse_cycle refuse_if pure
refuse_cycle-IsQuiet table none p = record { at = λ s. refl }
refuse_cycle-IsQuiet table (some id) p = record {
  at = λ s. elim (Bool-cases (would_cycle (nodes table s.db.tables) id p)) [
    | inl ring ↦ rw ring tt
    | inr apart ↦ rw apart refl
  ];
}

resolve_parent-Sound :
    (table : TreeTable) (storage : RowId) (moved parent : Option RowId)
    → Triple Sound (resolve_parent table storage moved parent) Sound
unfolding resolve_parent
resolve_parent-Sound table storage moved none = Triple-pure tt (λ t h. h)
resolve_parent-Sound table storage moved (some p) =
    Triple-bind (Triple-quiet (require_in_tree-IsQuiet table storage p))
      (λ _. Triple-quiet (refuse_cycle-IsQuiet table moved p))

resolve_patch-Sound :
    (storage id : RowId) (o : Option (Option RowId))
    → Triple Sound (resolve_patch storage id o) Sound
resolve_patch-Sound storage id none = Triple-pure tt (λ t h. h)
resolve_patch-Sound storage id (some parent) =
    resolve_parent-Sound tree_locations storage (some id) parent

answer-IsQuiet : (o : Option Location) → IsQuiet (row_or o not_found)
unfolding row_or
answer-IsQuiet none = record { at = λ s. tt }
answer-IsQuiet (some l) = record { at = λ s. refl }

-- A sound stock stays sound under every CreateLocation, whatever it answers.
pub create_location-Sound :
    (env : Env) (storage : RowId) (new : NewLocation) (db : Database)
    → Sound db.tables
    → Sound (create_location env storage new db).1.tables
unfolding create_location insert_location
create_location-Sound env storage new db h =
    Triple-in_tx env db
      (Triple-bind (Triple-quiet new_id-IsQuiet) (λ id.
        Triple-bind (resolve_parent-Sound tree_locations storage none new.parent_id)
          (λ _. Triple-gets _ (λ now. insert_location_row-Sound _))))
      h

-- A sound stock stays sound under every MoveLocation, whatever it answers.
pub move_location-Sound :
    (env : Env) (storage id : RowId) (parent : Option RowId) (db : Database)
    → Sound db.tables
    → Sound (move_location env storage id parent db).1.tables
unfolding move_location move_location_tx
move_location-Sound env storage id parent db h =
    Triple-in_tx env db
      (Triple-bind (Triple-quiet (require_in_tree-IsQuiet tree_locations storage id)) (λ _.
        Triple-bind (resolve_parent-Sound tree_locations storage (some id) parent) (λ _.
          Triple-gets _
            (λ now. update_location_row-Sound (reparented parent now) (λ l. refl) (λ l. refl) id))))
      h

-- A sound stock stays sound under every UpdateLocation, whatever it answers.
pub update_location-Sound :
    (env : Env) (storage id : RowId) (patch : LocationPatch) (db : Database)
    → Sound db.tables
    → Sound (update_location env storage id patch db).1.tables
unfolding update_location update_location_tx
update_location-Sound env storage id patch db h =
    Triple-in_tx env db
      (Triple-bind (Triple-quiet (require_in_tree-IsQuiet tree_locations storage id)) (λ _.
        Triple-bind (resolve_patch-Sound storage id patch.parent_id) (λ _. Triple-gets _ (λ now.
          Triple-bind (update_location_row-Sound (patched patch now) (λ l. refl) (λ l. refl) id)
            (λ _.
              Triple-gets _ (λ t. Triple-quiet (answer-IsQuiet (find_location storage id t))))))))
      h

-- A sound stock stays sound under every RenameLocation, whatever it answers.
pub rename_location-Sound :
    (env : Env) (storage id : RowId) (name : String) (description : Option String) (db : Database)
    → Sound db.tables
    → Sound (rename_location env storage id name description db).1.tables
unfolding rename_location
rename_location-Sound env storage id name description db h =
    Triple-in_tx env db
      (Triple-gets _ (λ t. Triple-row_or (find_location storage id t) not_found (λ l e.
        Triple-gets _ (λ now.
          update_location_row-Sound (renamed name description now) (λ l. refl) (λ l. refl) id))))
      h
