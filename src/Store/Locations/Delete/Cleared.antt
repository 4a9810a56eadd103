-- ===== src/Store/Locations/Delete/Cleared.antt =====
-- What the cascade of a deletion leaves of the locations.
use mathlib.Core.Option
use inventory.Prelude.{
  ℕ, ◌≡◌, refl, sym, ap, ◌∙◌, Bool, true, false, not, none, some, List, [], ◌∷◌, map, inl, inr,
  Bool-cases, ◌==◌, ==_iff, length, select, exists, member,
}
use inventory.Prelude.Table.{find}
use inventory.Store.Schema.{RowId, Location, location_key}
use inventory.Store.Tree.{Node, node_key, location_node, ancestors}
use inventory.Store.Tree.Rooted.{Rooted, root, under, IsForest, above}
use inventory.Store.Tree.Cycles.{walk-IsAbove, IsAbove-walk}
use inventory.Store.Locations.Forest.{tree_of, find-node}
use inventory.Store.Locations.Delete.Height.{height_bound}

-- What is left of the rows when those go whose id meets a test.
module _ (goes : RowId → Bool) where
  abbrev pub kept : List Location → List Location
  kept ls = select (λ l. not (goes l.id)) ls

  kept-gone :
      (k : RowId) (ls : List Location) → goes k ≡ true → find location_key k (kept ls) ≡ none
  unfolding find
  kept-gone k [] h = refl
  kept-gone k (l ∷ ls) h = elim (Bool-cases (goes l.id)) [
    | inl out ↦ rw out (kept-gone k ls h)
    | inr stays ↦ elim (Bool-cases (l.id == k)) [
      | inl same ↦ absurd (cc ((==_iff l.id k).0 same))
      | inr other ↦ rw (stays, other) (kept-gone k ls h)
    ]
  ]

  pub kept-stays :
      (k : RowId) (ls : List Location)
      → goes k ≡ false
      → find location_key k (kept ls) ≡ find location_key k ls
  unfolding find
  kept-stays k [] h = refl
  kept-stays k (l ∷ ls) h = elim (Bool-cases (l.id == k)) [
    | inl same ↦
        let stays : goes l.id ≡ false = rw ((==_iff l.id k).0 same) h in rw (stays, same) refl
    | inr other ↦ elim (Bool-cases (goes l.id)) [
      | inl out ↦ rw (out, other) (kept-stays k ls h)
      | inr stays ↦ rw (stays, other) (kept-stays k ls h)
    ]
  ]

  pub find-fallen :
      (k : RowId) (ls : List Location) {l : Location}
      → find location_key k ls ≡ some l
      → goes k ≡ true
      → exists (λ (x : Location). x.id == k) (select (λ x. goes x.id) ls) ≡ true
  unfolding find
  find-fallen k [] e h = absurd (cc)
  find-fallen k (x ∷ ls) e h = elim (Bool-cases (x.id == k)) [
    | inl same ↦ let out : goes x.id ≡ true = rw ((==_iff x.id k).0 same) h in rw (out, same) refl
    | inr other ↦ elim (Bool-cases (goes x.id)) [
      | inl out ↦ rw (out, other) (find-fallen k ls (rw other at e) h)
      | inr stays ↦ rw stays (find-fallen k ls (rw other at e) h)
    ]
  ]

-- Whether the row under an id falls with the row `id`.
abbrev pub falls_by : List Location → RowId → RowId → Bool
falls_by ls id k =
    let ns = map location_node ls in member id (ancestors (length ns) ns (find node_key k ns))

module _ (ls : List Location) (id : RowId) (forest : IsForest (tree_of ls)) where
  -- What lies under a row that falls, falls.
  falls-under :
      {storage d : ℕ} (k p : RowId) (n : Node)
      → Rooted (tree_of ls) storage d k
      → tree_of ls k ≡ some n
      → n.parent_id ≡ some p
      → falls_by ls id p ≡ true
      → falls_by ls id k ≡ true
  falls-under {storage} {d} k p n r e q h =
      IsAbove-walk (map location_node ls) id (length (map location_node ls)) k r
        (height_bound (map location_node ls) storage d k r)
        (above p n e q (walk-IsAbove (map location_node ls) id (length (map location_node ls)) p h))

  tree-kept :
      (k : RowId) → falls_by ls id k ≡ false → tree_of (kept (falls_by ls id) ls) k ≡ tree_of ls k
  tree-kept k h =
      find-node k (kept (falls_by ls id) ls)
      ∙ ap (Option.map location_node) (kept-stays (falls_by ls id) k ls h)
      ∙ sym (find-node k ls)

  Rooted-kept :
      {storage d : ℕ} (k : RowId)
      → Rooted (tree_of ls) storage d k
      → falls_by ls id k ≡ false
      → Rooted (tree_of (kept (falls_by ls id) ls)) storage d k
  Rooted-kept k (root n e s q) h = root n (tree-kept k h ∙ e) s q
  Rooted-kept k (under p d n e s q r) h = elim (Bool-cases (falls_by ls id p)) [
    | inl out ↦ absurd (cc (falls-under k p n (under p d n e s q r) e q out))
    | inr stays ↦ under p d n (tree-kept k h ∙ e) s q (Rooted-kept p r stays)
  ]

  -- Every path fits the steps of the cascade, so that it leaves a forest.
  kept-IsForest : IsForest (tree_of (kept (falls_by ls id) ls))
  kept-IsForest k n e = elim (Bool-cases (falls_by ls id k)) [
    | inl out ↦ absurd (
        cc (
          find-node k (kept (falls_by ls id) ls)
          ∙ ap (Option.map location_node) (kept-gone (falls_by ls id) k ls out)))
    | inr stays ↦
        let (d, r) = forest k n (sym (tree-kept k stays) ∙ e) in (d, Rooted-kept k r stays)
  ]
