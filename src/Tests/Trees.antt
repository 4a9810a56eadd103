-- ===== src/Tests/Trees.antt =====
-- A small tree of locations, and a deep one.
use inventory.Prelude.{
  ℕ, zero, suc, ◌≡◌, ◌↔◌, ◌⊎◌, sym, refl, true, false, none, some, List, [], ◌∷◌, inl, inr,
  Bool-cases, ◌==◌, ==_iff, arith, pos,
}
use inventory.Prelude.Table.{find}
use inventory.Store.Schema.{RowId, Location, Database}
use inventory.Store.Tx.{ok, err, conflict}
use inventory.Store.Tree.{
  refuse_cycle, find_node, location_node, Node, nodes, tree_locations, ancestors, would_cycle,
  require_in_tree, resolve_parent,
}
use inventory.Store.Tree.Rooted.{root, under, IsForest, IsAbove}
use inventory.Store.Tree.Cycles.{would_cycle_exactly}
use inventory.Store.Tree.Edits.{IsShallow}
use inventory.Store.Locations.{
  NewLocation, create_location, insert_location_row, move_location, LocationPatch, update_location,
}
use inventory.Store.Locations.Forest.{tree_of}
use inventory.Store.Locations.Moved.{update_location-IsForest}
use inventory.Store.Locations.Created.{create_location-IsForest}
use inventory.Tests.{fridge, cellar, household, env, running}

abbrev pub shelf : Location
shelf = record fridge { id = 12; parent_id = some 10; name = "Shelf" }

abbrev rooms : List Location
rooms = fridge ∷ cellar ∷ shelf ∷ []

abbrev pub home : Database
home = record household { tables = record household.tables { locations = rooms } }

-- Which rows there are, and the one that has a parent.
rows :
    (id : RowId) (n : Node)
    → tree_of rooms id ≡ some n
    → ((n ≡ location_node fridge) × (id ≡ 10))
      ⊎ (((n ≡ location_node cellar) × (id ≡ 11)) ⊎ ((n ≡ location_node shelf) × (id ≡ 12)))
unfolding find
rows id n e = elim (Bool-cases (10 == id)) [
  | inl a ↦ inl (cc (rw a at e), sym ((==_iff 10 id).0 a))
  | inr a ↦ elim (Bool-cases (11 == id)) [
    | inl b ↦ inr (inl (cc (rw (a, b) at e), sym ((==_iff 11 id).0 b)))
    | inr b ↦ elim (Bool-cases (12 == id)) [
      | inl c ↦ inr (inr (cc (rw (a, b, c) at e), sym ((==_iff 12 id).0 c)))
      | inr c ↦ absurd (cc (rw (a, b, c) at e))
    ]
  ]
]

under_fridge :
    (id p : RowId) (n : Node)
    → tree_of rooms id ≡ some n
    → n.parent_id ≡ some p
    → (id ≡ 12) × (p ≡ 10)
under_fridge id p n e q = elim (rows id n e) [
  | inl a ↦ absurd (cc)
  | inr (inl b) ↦ absurd (cc)
  | inr (inr c) ↦ (c.1, cc)
]

pub rooms-IsForest : IsForest (tree_of rooms)
unfolding find
rooms-IsForest id n e = elim (rows id n e) [
  | inl a ↦ rw (a.0, a.1) (1, root (location_node fridge) refl refl refl)
  | inr (inl b) ↦ rw (b.0, b.1) (1, root (location_node cellar) refl refl refl)
  | inr (inr c) ↦
      rw (c.0, c.1)
        (
          2,
          under 10 1 (location_node shelf) refl refl refl
              (root (location_node fridge) refl refl refl),
        )
]

pub rooms-IsShallow : IsShallow (tree_of rooms)
rooms-IsShallow id storage d (root n e s q) = omega arith
rooms-IsShallow id storage d (under p d' n e s q (root m e' s' q')) = omega arith
rooms-IsShallow id storage d (under p d' n e s q (under p' d'' m e' s' q' r)) =
    absurd (omega (arith, (under_fridge id p n e q).1, (under_fridge p p' m e' q').0))

abbrev drawer : NewLocation
drawer = record { parent_id = some 12; name = "Drawer"; description = none }

create_location-IsForest_example :
    IsForest (tree_of (create_location env 100 drawer home).1.tables.locations)
create_location-IsForest_example = create_location-IsForest env 100 drawer home rooms-IsForest

create_location_runs :
    (create_location env 100 drawer home).0
    ≡ ok (record fridge {
      id = 50;
      parent_id = some 12;
      name = "Drawer";
      created_at = pos 1704110400;
      updated_at = pos 1704110400;
    })
unfolding create_location running resolve_parent require_in_tree refuse_cycle find_node
    insert_location_row
create_location_runs = refl

-- The fridge cannot go into its own shelf.
move_location_runs : (move_location env 100 10 (some 12) home).0 ≡ err conflict
unfolding move_location running resolve_parent require_in_tree refuse_cycle find_node would_cycle
    ancestors
move_location_runs = refl

abbrev into_the_fridge : LocationPatch
into_the_fridge = record { name = some "Box"; description = none; parent_id = some (some 10) }

update_location-IsForest_example :
    IsForest (tree_of (update_location env 100 11 into_the_fridge home).1.tables.locations)
update_location-IsForest_example =
    update_location-IsForest env 100 11 into_the_fridge home rooms-IsForest rooms-IsShallow

would_cycle_exactly_example :
    (would_cycle (nodes tree_locations home.tables) 10 12 ≡ true) ↔ IsAbove (tree_of rooms) 10 12
unfolding find
would_cycle_exactly_example =
    would_cycle_exactly (nodes tree_locations home.tables) 100 10 12 2
      (under 10 1 (location_node shelf) refl refl refl (root (location_node fridge) refl refl refl))
      (omega arith)

-- A chain of boxes, each in the one before: node 0 is the root.
abbrev chain : ℕ → List Node
chain zero = record { id = 0; storage_id = 100; parent_id = none } ∷ []
chain (suc n) = record { id = suc n; storage_id = 100; parent_id = some n } ∷ chain n

-- The check reaches the root of 64 nodes, and misses that of 65.
reached : would_cycle (chain 63) 0 63 ≡ true
unfolding would_cycle ancestors find
reached = refl

missed : would_cycle (chain 64) 0 64 ≡ false
unfolding would_cycle ancestors find
missed = refl
