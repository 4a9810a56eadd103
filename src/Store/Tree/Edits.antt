-- ===== src/Store/Tree/Edits.antt =====
-- What the checks of a new parent establish.
use inventory.Prelude.{
  ℕ, ◌≤◌, ◌≡◌, refl, sym, ◌∙◌, true, false, Option, none, some, List, inl, inr, Bool-cases,
  Option-cases, ◌==◌, ==_iff, is_some,
}
use inventory.Prelude.Table.{find}
use inventory.Store.Schema.{RowId}
use inventory.Store.Tx.{Session, pure, refuse_if}
use inventory.Store.Tx.Rules.{Returns, Returns-bind}
use inventory.Store.Tree.{
  Node, TreeTable, node_key, nodes, find_node, require_in_tree, refuse_cycle, resolve_parent,
  would_cycle,
}
use inventory.Store.Tree.Rooted.{
  Look, look_in, Rooted, root, under, IsForest, IsAbove, itself, above, IsAllowed, top, below,
}
use inventory.Store.Tree.Cycles.{would_cycle_exactly}

-- No path to a root has more nodes than the cycle check walks.
abbrev pub IsShallow : Look → Type 0
IsShallow look = (id storage d : ℕ) → Rooted look storage d id → d ≤ 64

-- The node that the storage has under an id.
abbrev pub Owned : Look → RowId → RowId → Type 0
Owned look storage id = (n : Node) × (look id ≡ some n) × (n.storage_id ≡ storage)

no : ¬ (false ≡ true)
no h = cc

find_node-Owned :
    (ns : List Node) (storage id : RowId)
    → is_some (find_node storage id ns) ≡ true
    → Owned (look_in ns) storage id
unfolding find_node
find_node-Owned ns storage id h = elim (Option-cases (find node_key id ns)) [
  | inl absent ↦ absurd (no (rw absent at h))
  | inr found ↦ elim (Bool-cases (found.0.storage_id == storage)) [
    | inl own ↦ (found.0, found.1, (==_iff found.0.storage_id storage).0 own)
    | inr foreign ↦ absurd (no (rw (found.1, foreign) at h))
  ]
]

pub require_in_tree-Owned :
    (table : TreeTable) (storage id : RowId) (s : Session)
    → Returns
        (λ _ s'. (s' ≡ s) × Owned (look_in (nodes table s.db.tables)) storage id)
        (require_in_tree table storage id s)
unfolding require_in_tree refuse_if
require_in_tree-Owned table storage id s =
    elim (Bool-cases (is_some (find_node storage id (nodes table s.db.tables)))) [
      | inl known ↦ rw known (refl, find_node-Owned (nodes table s.db.tables) storage id known)
      | inr unknown ↦ rw unknown tt
    ]

-- Nothing lies under an id that the table does not have.
absent-IsAbove :
    (look : Look) (storage id : RowId) {d : ℕ} (k : RowId)
    → look id ≡ none
    → Rooted look storage d k
    → ¬ (IsAbove look id k)
absent-IsAbove look storage id k absent (root n e s q) itself = absurd (cc)
absent-IsAbove look storage id k absent (under p d n e s q r) itself = absurd (cc)
absent-IsAbove look storage id k absent (root n e s q) (above p m e' q' a) = absurd (cc)
absent-IsAbove look storage id k absent (under p d n e s q r) (above p' m e' q' a) =
    let same : p' ≡ p = cc in absent-IsAbove look storage id p absent r (rw same at a)

module _ (table : TreeTable) (storage : RowId) (s : Session) where
  abbrev tree : Look
  tree = look_in (nodes table s.db.tables)

  pub resolve_parent-IsAllowed :
      (id : RowId) (parent : Option RowId)
      → IsForest tree
      → IsShallow tree
      → Returns
          (λ _ s'. (s' ≡ s) × IsAllowed tree storage id parent)
          (resolve_parent table storage (some id) parent s)
  unfolding resolve_parent pure refuse_cycle refuse_if
  resolve_parent-IsAllowed id none forest shallow = (refl, top)
  resolve_parent-IsAllowed id (some p) forest shallow =
      Returns-bind _ _ (require_in_tree table storage p) (λ _. refuse_cycle table (some id) p) s
        (require_in_tree-Owned table storage p s)
        (λ _ s' (e, (n, found, own)).
          rw e (elim (Bool-cases (would_cycle (nodes table s.db.tables) id p)) [
            | inl ring ↦ rw ring tt
            | inr apart ↦ rw apart (
              refl,
              below n found own (λ a. no (
                  sym apart
                  ∙ (would_cycle_exactly (nodes table s.db.tables) n.storage_id id p
                        (forest p n found).0 (forest p n found).1
                        (shallow p n.storage_id (forest p n found).0 (forest p n found).1)).1
                      a)),
            )
          ]))

  pub resolve_parent-IsAllowed_new :
      (id : RowId) (parent : Option RowId)
      → IsForest tree
      → Returns
          (λ _ s'. (s' ≡ s) × (tree id ≡ none → IsAllowed tree storage id parent))
          (resolve_parent table storage none parent s)
  unfolding resolve_parent pure refuse_cycle
  resolve_parent-IsAllowed_new id none forest = (refl, λ absent. top)
  resolve_parent-IsAllowed_new id (some p) forest =
      Returns-bind _ _ (require_in_tree table storage p) (λ _. refuse_cycle table none p) s
        (require_in_tree-Owned table storage p s)
        (λ _ s' (e, (n, found, own)). rw e (
          refl,
          λ absent.
              below n found own (absent-IsAbove tree n.storage_id id p absent (forest p n found).1),
        ))
