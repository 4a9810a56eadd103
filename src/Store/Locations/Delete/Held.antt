-- ===== src/Store/Locations/Delete/Held.antt =====
-- DeleteLocation of internal/store/locations.go: a location with stock on it or below stays.
use inventory.Prelude.{
  ℕ, zero, suc, ◌<◌, ◌≡◌, refl, sym, ◌∙◌, true, some, List, [], ◌∷◌, ◌++◌, map, inl, inr,
  Bool-cases, ◌==◌, ==_refl, member, select, exists, arith,
}
use inventory.Prelude.Table.{find}
use inventory.Store.Schema.{RowId, Batch, Database, batch_key}
use inventory.Store.ShelfLife.{max_tree_depth}
use inventory.Store.Tx.{Result, Session, Tx, ok, err, conflict, ◌>>=◌, gets, refuse_if, Env}
use inventory.Store.Tree.{
  Node, node_key, location_node, nodes, tree_locations, find_node, require_in_tree,
}
use inventory.Store.Tree.Rooted.{look_in, Rooted, root, under, IsForest, IsAbove, itself, above}
use inventory.Store.Tree.Edits.{IsShallow}
use inventory.Store.Locations.Forest.{tree_of}
use inventory.Store.Locations.Delete.{
  is_child_of, subtree, location_subtree, is_under_one_of, delete_location_tx, delete_location,
}
use inventory.Store.Jobs.Claims.{in_tx-refuses}

module _ (ns : List Node) where
  abbrev children : List RowId → List RowId
  children level = map node_key (select (λ n. is_child_of level n.parent_id) ns)

  -- The ids k levels below those of a level.
  abbrev below : ℕ → List RowId → List RowId
  below zero level = level
  below (suc k) level = below k (children level)

member-append-left :
    (a : RowId) (xs ys : List RowId) → member a xs ≡ true → member a (xs ++ ys) ≡ true
member-append-left a [] ys h = absurd (cc)
member-append-left a (x ∷ xs) ys h = elim (Bool-cases (x == a)) [
  | inl e ↦ rw e refl
  | inr e ↦ rw e (member-append-left a xs ys (rw e at h))
]

member-append-right :
    (a : RowId) (xs ys : List RowId) → member a ys ≡ true → member a (xs ++ ys) ≡ true
member-append-right a [] ys h = h
member-append-right a (x ∷ xs) ys h = elim (Bool-cases (x == a)) [
  | inl e ↦ rw e refl
  | inr e ↦ rw e (member-append-right a xs ys h)
]

child :
    (ns : List Node) (k p : RowId) (n : Node) (level : List RowId)
    → find node_key k ns ≡ some n
    → n.parent_id ≡ some p
    → member p level ≡ true
    → member k (children ns level) ≡ true
unfolding find
child [] k p n level found up h = absurd (cc)
child (m ∷ ns) k p n level found up h = elim (Bool-cases (m.id == k)) [
  | inl here ↦
      let same : m ≡ n = cc (rw here at found) in rw (same, up, h) (rw (sym same, here) refl)
  | inr there ↦
      let rest = child ns k p n level (rw there at found) up h in
      elim (Bool-cases (is_child_of level m.parent_id)) [
        | inl c ↦ rw (c, there) rest
        | inr c ↦ rw c rest
      ]
]

child-below :
    (ns : List Node) (depth : ℕ) (k p : RowId) (n : Node) (level : List RowId)
    → find node_key k ns ≡ some n
    → n.parent_id ≡ some p
    → member p (below ns depth level) ≡ true
    → member k (below ns (suc depth) level) ≡ true
child-below ns zero k p n level found up h = child ns k p n level found up h
child-below ns (suc depth) k p n level found up h =
    child-below ns depth k p n (children ns level) found up h

subtree-below :
    (ns : List Node) (depth most : ℕ) (k : RowId) (level : List RowId)
    → depth < most
    → member k (below ns depth level) ≡ true
    → member k (subtree most ns level) ≡ true
unfolding subtree
subtree-below ns depth zero k level d h = absurd (omega arith)
subtree-below ns zero (suc most) k level d h =
    member-append-left k level (subtree most ns (children ns level)) h
subtree-below ns (suc depth) (suc most) k level d h =
    member-append-right k level (subtree most ns (children ns level))
      (subtree-below ns depth most k (children ns level) (omega arith) h)

-- A node above a place is fewer levels above it than the path of the place has nodes.
reached :
    (ns : List Node) {storage : RowId} (id : RowId) {d : ℕ} (place : RowId)
    → IsAbove (look_in ns) id place
    → Rooted (look_in ns) storage d place
    → (k : ℕ) × (k < d) × (member place (below ns k (id ∷ [])) ≡ true)
reached ns id place itself (root n a s q) = (0, omega arith, rw (==_refl id) refl)
reached ns id place itself (under p d n a s q r) = (0, omega arith, rw (==_refl id) refl)
reached ns id place (above p n a q h) (root m a' s' q') = absurd (cc)
reached ns id place (above p n a q h) (under p' d m a' s' q' r) =
    let same : p' ≡ p = cc in
    let (k, small, there) = reached ns id p h (rw same at r) in
    (suc k, omega arith, child-below ns k place p n (id ∷ []) a q there)

exists-held :
    (sub : List RowId) (i : RowId) (b : Batch) (bs : List Batch)
    → find batch_key i bs ≡ some b
    → member b.location_id sub ≡ true
    → exists (is_under_one_of sub) bs ≡ true
unfolding find
exists-held sub i b [] found h = absurd (cc)
exists-held sub i b (c ∷ bs) found h = elim (Bool-cases (c.id == i)) [
  | inl here ↦ let same : c ≡ b = cc (rw here at found) in rw (same, h) refl
  | inr there ↦
      let rest = exists-held sub i b bs (rw there at found) h in
      elim (Bool-cases (member c.location_id sub)) [ inl m ↦ rw m refl | inr m ↦ rw m rest ]
]

-- The node at which a path upwards begins is in the table.
place_found :
    (ns : List Node) (id place : RowId) (n : Node)
    → look_in ns id ≡ some n
    → IsAbove (look_in ns) id place
    → (m : Node) × (look_in ns place ≡ some m)
place_found ns id place n found itself = (n, found)
place_found ns id place n found (above p m a q h) = (m, a)

-- What follows a step that succeeds.
bind-ok :
    {A B : Type 0} (m : Tx A) (f : A → Tx B) (s : Session) {a : A} {s' : Session}
    → m s ≡ ok (a, s')
    → (m >>= f) s ≡ f a s'
unfolding ◌>>=◌
bind-ok {A} {B} m f s {a} {s'} e = go (m s) e
  where
    go :
        (r : Result (A × Session))
        → r ≡ ok (a, s')
        → ◌≡◌ {A = Result (B × Session)}
            (elim r [ ok (a', s'') ↦ f a' s'' | err x ↦ err x ])
            (f a s')
    go (ok (a', s'')) h =
        let here : a' ≡ a = cc in let there : s'' ≡ s' = cc in rw (here, there) refl
    go (err x) h = absurd (cc)

in_tree :
    (storage id : RowId) (s : Session) {n : Node}
    → tree_of s.db.tables.locations id ≡ some n
    → n.storage_id ≡ storage
    → require_in_tree tree_locations storage id s ≡ ok (tt, s)
unfolding require_in_tree find_node refuse_if
in_tree storage id s {n} found own = rw (found, own, ==_refl storage) refl

refused :
    (storage id : RowId) (s : Session) {n : Node}
    → tree_of s.db.tables.locations id ≡ some n
    → n.storage_id ≡ storage
    → exists
        (is_under_one_of (location_subtree (nodes tree_locations s.db.tables) id))
        s.db.tables.batches
      ≡ true
    → delete_location_tx storage id s ≡ err conflict
unfolding delete_location_tx ◌>>=◌ gets refuse_if
refused storage id s found own full =
    bind-ok (require_in_tree tree_locations storage id) _ s (in_tree storage id s found own)
    ∙ rw full refl

-- From a forest of locations of which no path has more than 64 nodes, DeleteLocation of a location of
-- the storage answers a conflict and changes nothing, where any batch lies on the location or on one
-- below it.
pub delete_location-held :
    (env : Env) (storage id i : RowId) (db : Database) {b : Batch} {n : Node}
    → IsForest (tree_of db.tables.locations)
    → IsShallow (tree_of db.tables.locations)
    → tree_of db.tables.locations id ≡ some n
    → n.storage_id ≡ storage
    → find batch_key i db.tables.batches ≡ some b
    → IsAbove (tree_of db.tables.locations) id b.location_id
    → env.begins ≡ true
    → delete_location env storage id db ≡ (err conflict, db)
unfolding delete_location location_subtree
delete_location-held env storage id i db {b} {n} forest shallow found own held up begins =
    let ns = map location_node db.tables.locations in
    let (m, standing) = place_found ns id b.location_id n found up in
    let (d, path) = forest b.location_id m standing in
    let (k, small, there) = reached ns id b.location_id up path in
    let listed =
      subtree-below ns k max_tree_depth b.location_id (id ∷ [])
        (omega (arith, shallow b.location_id m.storage_id d path)) there in
    in_tx-refuses env (delete_location_tx storage id) db begins (
      refused storage id _ found own
        (exists-held (subtree max_tree_depth ns (id ∷ [])) i b db.tables.batches held listed))
