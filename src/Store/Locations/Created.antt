-- ===== src/Store/Locations/Created.antt =====
-- CreateLocation and the shape of the tree.
use mathlib.Core.Path.{subst}
use mathlib.Core.Option
use inventory.Prelude.{
  ◌≡◌, refl, sym, ap, ◌∙◌, none, some, List, [], ◌∷◌, ◌++◌, inl, inr, Bool-cases, Option-cases,
  ◌==◌, ==_iff, member,
}
use inventory.Prelude.Table.{find, insert}
use inventory.Prelude.Table.Laws.{insert-eq-some, find-append_some, find-append_none}
use inventory.Store.Schema.{RowId, Location, Inventory, Database, location_key}
use inventory.Store.Tx.{Session, ◌>>=◌, pure, row_or, gets, put_tables, new_id, Env}
use inventory.Store.Tx.Rules.{Returns, Returns-bind, Returns-weaken, in_tx-keeps, new_id-IsQuiet}
use inventory.Store.Tree.{location_node, tree_locations, resolve_parent}
use inventory.Store.Tree.Rooted.{IsForest, IsAllowed, put_row, put_row-IsForest}
use inventory.Store.Tree.Edits.{resolve_parent-IsAllowed_new}
use inventory.Store.Locations.{NewLocation, insert_location, insert_location_row, create_location}
use inventory.Store.Locations.Forest.{tree_of, find-node}

-- An INSERT puts a row in an empty place.
appended-row :
    (k : RowId) (ls : List Location) (l : Location)
    → find location_key l.id ls ≡ none
    → tree_of (ls ++ l ∷ []) k ≡ put_row l.id (location_node l) (tree_of ls) k
unfolding find
appended-row k ls l absent = elim (Bool-cases (l.id == k)) [
  | inl same ↦
      let missing : find location_key k ls ≡ none = rw ((==_iff l.id k).0 same) at absent in
      let alone : find location_key k (l ∷ []) ≡ some l = rw same refl in
      rw same (
        find-node k (ls ++ l ∷ [])
        ∙ ap (Option.map location_node)
            (find-append_none location_key k ls (l ∷ []) missing ∙ alone))
  | inr other ↦ rw other (
      find-node k (ls ++ l ∷ [])
      ∙ elim (Option-cases (find location_key k ls)) [
        | inl missing ↦
            let alone : find location_key k (l ∷ []) ≡ none = rw other refl in
            ap (Option.map location_node)
              (find-append_none location_key k ls (l ∷ []) missing ∙ alone ∙ sym missing)
        | inr found ↦
            ap (Option.map location_node)
              (find-append_some location_key k ls (l ∷ []) found.1 ∙ sym found.1)
      ]
      ∙ sym (find-node k ls))
]

insert_location_row-IsForest :
    (l : Location) (s : Session)
    → IsForest (tree_of s.db.tables.locations)
    → (tree_of s.db.tables.locations l.id ≡ none
        → IsAllowed (tree_of s.db.tables.locations) l.storage_id l.id l.parent_id)
    → Returns (λ _ s'. IsForest (tree_of s'.db.tables.locations)) (insert_location_row l s)
unfolding insert_location_row ◌>>=◌ put_tables pure row_or
insert_location_row-IsForest l s forest allowed =
    elim (Bool-cases (member l.storage_id s.db.storages)) [
      | inr unknown ↦ rw unknown tt
      | inl known ↦ elim (Option-cases (insert location_key l s.db.tables.locations)) [
        | inl clash ↦ rw (known, clash) tt
        | inr new ↦
            let (absent, rows) = insert-eq-some location_key l s.db.tables.locations new.1 in
            let vacant : tree_of s.db.tables.locations l.id ≡ none =
              find-node l.id s.db.tables.locations ∙ ap (Option.map location_node) absent in
            rw (known, new.1, rows)
              (subst IsForest (sym (λ i k. appended-row k s.db.tables.locations l absent i)) (
                put_row-IsForest (tree_of s.db.tables.locations) l.id (location_node l) forest
                  (allowed vacant) (λ m e. absurd (cc (vacant)))))
      ]
    ]

insert_location-IsForest :
    (storage id : RowId) (new : NewLocation) (s : Session)
    → IsForest (tree_of s.db.tables.locations)
    → Returns (λ _ s'. IsForest (tree_of s'.db.tables.locations)) (insert_location storage id new s)
unfolding insert_location ◌>>=◌ gets
insert_location-IsForest storage id new s forest =
    Returns-bind _ _ (resolve_parent tree_locations storage none new.parent_id) _ s
      (resolve_parent-IsAllowed_new tree_locations storage s id new.parent_id forest)
      (λ _ s' (e, allowed). rw e (insert_location_row-IsForest _ s forest allowed))

minted :
    (s : Session)
    → IsForest (tree_of s.db.tables.locations)
    → Returns (λ _ s'. IsForest (tree_of s'.db.tables.locations)) (new_id s)
minted s forest =
    Returns-weaken (λ _ s'. s'.db.tables ≡ s.db.tables)
      (λ _ s'. IsForest (tree_of s'.db.tables.locations)) (new_id s) (new_id-IsQuiet.at s)
      (λ _ s' h. subst (λ (t : Inventory). IsForest (tree_of t.locations)) (sym h) forest)

-- CreateLocation keeps the locations a forest, whatever it answers.
pub create_location-IsForest :
    (env : Env) (storage : RowId) (new : NewLocation) (db : Database)
    → IsForest (tree_of db.tables.locations)
    → IsForest (tree_of (create_location env storage new db).1.tables.locations)
unfolding create_location
create_location-IsForest env storage new db forest =
    in_tx-keeps (λ d. IsForest (tree_of d.tables.locations)) env _ db forest
      (Returns-bind (λ _ s. IsForest (tree_of s.db.tables.locations)) _ new_id
        (λ id. insert_location storage id new) _ (minted _ forest)
        (λ id s h. insert_location-IsForest storage id new s h))
