-- ===== src/Store/Locations/Forest.antt =====
-- The locations as a tree, and what an UPDATE of a row does to it.
use mathlib.Core.Path.{subst}
use mathlib.Core.Option
use inventory.Prelude.{
  ◌≡◌, refl, sym, ap, ◌∙◌, Option, none, some, List, [], ◌∷◌, map, inl, inr, Bool-cases,
  Option-cases, ◌==◌, ==_iff, arith,
}
use inventory.Prelude.Table.{find, modify}
use inventory.Prelude.Table.Laws.{find-modify}
use inventory.Store.Schema.{RowId, Location, location_key}
use inventory.Store.Tx.{Session, put_tables}
use inventory.Store.Tx.Rules.{Returns}
use inventory.Store.Tree.{Node, location_node}
use inventory.Store.Tree.Rooted.{Look, look_in, IsForest, IsAllowed, put_row, put_row-IsForest}
use inventory.Store.Tree.Edits.{Owned}
use inventory.Store.Locations.{update_location_row}

-- The tree of the locations, as the parents lead through it.
abbrev pub tree_of : List Location → Look
tree_of ls = look_in (map location_node ls)

pub find-node :
    (k : RowId) (ls : List Location)
    → tree_of ls k ≡ Option.map location_node (find location_key k ls)
unfolding find
find-node k [] = refl
find-node k (l ∷ ls) = ground (arith, find-node k ls)

-- An UPDATE of a row puts a row in its place.
updated-row :
    (id k : RowId) (f : Location → Location) (ls : List Location) (l : Location)
    → ((l : Location) → location_key (f l) ≡ location_key l)
    → find location_key id ls ≡ some l
    → tree_of (modify location_key id f ls) k ≡ put_row id (location_node (f l)) (tree_of ls) k
updated-row id k f ls l keeps found =
    find-node k (modify location_key id f ls)
    ∙ ap (Option.map location_node) (find-modify location_key id k f ls keeps)
    ∙ elim (Bool-cases (id == k)) [
      | inl same ↦
          let here : find location_key k ls ≡ some l = rw ((==_iff id k).0 same) at found in
          rw (same, here) refl
      | inr other ↦ rw other (sym (find-node k ls))
    ]

-- The row behind a node.
location-of :
    (id : RowId) (ls : List Location) (n : Node)
    → tree_of ls id ≡ some n
    → (l : Location) × (find location_key id ls ≡ some l) × (location_node l ≡ n)
location-of id ls n e = elim (Option-cases (find location_key id ls)) [
  | inl absent ↦ absurd (cc (find-node id ls))
  | inr found ↦ (found.0, found.1, cc (find-node id ls))
]

node-of :
    (id : RowId) (ls : List Location) (l : Location)
    → find location_key id ls ≡ some l
    → tree_of ls id ≡ some (location_node l)
node-of id ls l e = find-node id ls ∙ ap (Option.map location_node) e

module _ (f : Location → Location) (keeps : (l : Location) → location_key (f l) ≡ location_key l)
    (stays : (l : Location) → (f l).storage_id ≡ l.storage_id) where
  edited-IsForest :
      (id : RowId) (ls : List Location) (l : Location)
      → find location_key id ls ≡ some l
      → IsForest (tree_of ls)
      → IsAllowed (tree_of ls) l.storage_id id (f l).parent_id
      → IsForest (tree_of (modify location_key id f ls))
  edited-IsForest id ls l found forest allowed =
      subst IsForest (sym (λ i k. updated-row id k f ls l keeps found i)) (
        put_row-IsForest (tree_of ls) id (location_node (f l)) forest (rw (stays l) allowed)
          (λ m e. cc (node-of id ls l found, stays l)))

  pub update_location_row-IsForest :
      (id storage : RowId) (s : Session)
      → IsForest (tree_of s.db.tables.locations)
      → Owned (tree_of s.db.tables.locations) storage id
      → ((l : Location)
          → find location_key id s.db.tables.locations ≡ some l
          → IsAllowed (tree_of s.db.tables.locations) storage id (f l).parent_id)
      → Returns (λ _ s'. IsForest (tree_of s'.db.tables.locations)) (update_location_row id f s)
  unfolding update_location_row put_tables
  update_location_row-IsForest id storage s forest (n, found, own) allowed =
      let (l, at_id, is_n) = location-of id s.db.tables.locations n found in
      edited-IsForest id s.db.tables.locations l at_id forest
        (rw (ap (λ (x : Node). x.storage_id) is_n ∙ own) (allowed l at_id))

-- An UPDATE that leaves the parents alone.
module _ (f : Location → Location)
    (kept : (l : Location) → location_node (f l) ≡ location_node l) where
  kept_nodes :
      (o : Option Location) → Option.map location_node (Option.map f o) ≡ Option.map location_node o
  kept_nodes none = refl
  kept_nodes (some l) = ap some (kept l)

  unmoved-row :
      (id k : RowId) (ls : List Location) → tree_of (modify location_key id f ls) k ≡ tree_of ls k
  unmoved-row id k ls =
      find-node k (modify location_key id f ls)
      ∙ ap (Option.map location_node)
          (find-modify location_key id k f ls (λ l. ap (λ (n : Node). n.id) (kept l)))
      ∙ elim (Bool-cases (id == k)) [
        | inl same ↦ rw same (kept_nodes (find location_key k ls))
        | inr other ↦ rw other refl
      ]
      ∙ sym (find-node k ls)

  pub unmoved-IsForest :
      (id : RowId) (s : Session)
      → IsForest (tree_of s.db.tables.locations)
      → Returns (λ _ s'. IsForest (tree_of s'.db.tables.locations)) (update_location_row id f s)
  unfolding update_location_row put_tables
  unmoved-IsForest id s forest =
      subst IsForest (sym (λ i k. unmoved-row id k s.db.tables.locations i)) forest
