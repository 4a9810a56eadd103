-- ===== src/Store/Tree/Cycles.antt =====
-- The cycle check against the nodes that really lie above a node.
use inventory.Prelude.{
  ℕ, zero, suc, ◌≤◌, ◌⊎◌, ◌≡◌, refl, sym, ap, ◌↔◌, ◌∙◌, Bool, true, false, ◌||◌, none, some, List,
  inl, inr, Bool-cases, Option-cases, ◌==◌, ==_iff, ==_refl, arith, member,
}
use inventory.Prelude.Table.{find}
use inventory.Prelude.Table.Laws.{key-find}
use inventory.Store.Schema.{RowId}
use inventory.Store.ShelfLife.{max_tree_depth}
use inventory.Store.Tree.{Node, node_key, ancestors, would_cycle}
use inventory.Store.Tree.Rooted.{Rooted, root, under, IsAbove, itself, above, look_in}

or_true : (b : Bool) → (b || true) ≡ true
or_true true = refl
or_true false = refl

module _ (ns : List Node) (node : RowId) where
  -- What the walk from `k` meets.
  abbrev meets : ℕ → RowId → Bool
  meets f k = member node (ancestors f ns (find node_key k ns))

  meets-none : (f : ℕ) (k : RowId) → find node_key k ns ≡ none → meets f k ≡ false
  unfolding ancestors
  meets-none zero k e = refl
  meets-none (suc f) k e = rw e refl

  nothing : (b : Bool) (f : ℕ) → (b || member node (ancestors f ns none)) ≡ b
  unfolding ancestors
  nothing true f = refl
  nothing false zero = refl
  nothing false (suc f) = refl

  meets-root :
      (f : ℕ) (k : RowId) (n : Node)
      → find node_key k ns ≡ some n
      → n.parent_id ≡ none
      → meets (suc f) k ≡ (k == node)
  unfolding ancestors
  meets-root f k n e q = rw (e, q) (rw (key-find node_key k ns e) (nothing (k == node) f))

  meets-under :
      (f : ℕ) (k p : RowId) (n : Node)
      → find node_key k ns ≡ some n
      → n.parent_id ≡ some p
      → meets (suc f) k ≡ (k == node || meets f p)
  unfolding ancestors
  meets-under f k p n e q = rw (e, q) (rw (key-find node_key k ns e) refl)

  here : (k : RowId) → (k == node) ≡ true → IsAbove (look_in ns) node k
  here k h = rw⁻¹ ((==_iff k node).0 h) itself

  pub walk-IsAbove : (f : ℕ) (k : RowId) → meets f k ≡ true → IsAbove (look_in ns) node k
  unfolding ancestors
  walk-IsAbove zero k h = absurd (cc)
  walk-IsAbove (suc f) k h = elim (Option-cases (find node_key k ns)) [
    | inl absent ↦ absurd (cc (meets-none (suc f) k absent))
    | inr found ↦ elim (Option-cases found.0.parent_id) [
      | inl top ↦ here k (sym (meets-root f k found.0 found.1 top) ∙ h)
      | inr up ↦ elim (Bool-cases (k == node)) [
        | inl same ↦ here k same
        | inr other ↦
            above up.0 found.0 found.1 up.1
              (walk-IsAbove f up.0 (cc (meets-under f k up.0 found.0 found.1 up.1)))
      ]
    ]
  ]

  IsAbove-root :
      (k : RowId) (n : Node)
      → find node_key k ns ≡ some n
      → n.parent_id ≡ none
      → IsAbove (look_in ns) node k
      → (k == node) ≡ true
  IsAbove-root k n e q itself = ==_refl k
  IsAbove-root k n e q (above p m e' q' a) = absurd (cc)

  IsAbove-under :
      (k p : RowId) (n : Node)
      → find node_key k ns ≡ some n
      → n.parent_id ≡ some p
      → IsAbove (look_in ns) node k
      → ((k == node) ≡ true) ⊎ IsAbove (look_in ns) node p
  IsAbove-under k p n e q itself = inl (==_refl k)
  IsAbove-under k p n e q (above p' m e' q' a) = let same : p' ≡ p = cc in inr (rw same at a)

  pub IsAbove-walk :
      {storage d : ℕ} (f : ℕ) (k : RowId)
      → Rooted (look_in ns) storage d k
      → d ≤ f
      → IsAbove (look_in ns) node k
      → meets f k ≡ true
  IsAbove-walk zero k (root n e s q) h a = absurd (omega arith)
  IsAbove-walk zero k (under p d n e s q r) h a = absurd (omega arith)
  IsAbove-walk (suc f) k (root n e s q) h a = meets-root f k n e q ∙ IsAbove-root k n e q a
  IsAbove-walk (suc f) k (under p d n e s q r) h a = elim (IsAbove-under k p n e q a) [
    | inl same ↦ cc (meets-under f k p n e q)
    | inr up ↦
        meets-under f k p n e q
        ∙ ap (λ b. k == node || b) (IsAbove-walk f p r (omega arith) up)
        ∙ or_true (k == node)
  ]

-- Whatever the cycle check refuses would close a ring: the node is the parent or lies above it.
would_cycle-IsAbove :
    (ns : List Node) (node parent : RowId)
    → would_cycle ns node parent ≡ true
    → IsAbove (look_in ns) node parent
unfolding would_cycle
would_cycle-IsAbove ns node parent h = elim (Bool-cases (node == parent)) [
  | inl same ↦ rw ((==_iff node parent).0 same) itself
  | inr other ↦ walk-IsAbove ns node max_tree_depth parent (cc)
]

-- Where the path from the parent to its root has at most 64 nodes, the cycle check refuses a parent
-- exactly when the node is the parent or lies above it.
pub would_cycle_exactly :
    (ns : List Node) (storage node parent d : ℕ)
    → Rooted (look_in ns) storage d parent
    → d ≤ 64
    → (would_cycle ns node parent ≡ true) ↔ IsAbove (look_in ns) node parent
unfolding would_cycle
would_cycle_exactly ns storage node parent d r h = (
  would_cycle-IsAbove ns node parent,
  λ a.
      let met : member node (ancestors 64 ns (find node_key parent ns)) ≡ true =
        IsAbove-walk ns node 64 parent r h a in
      rw met (or_true (node == parent)),
)
