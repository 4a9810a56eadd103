-- ===== src/Store/Tree/Rooted.antt =====
-- The shape of a tree, and what putting a row does to it.
use inventory.Prelude.{
  ℕ, suc, ◌≡◌, refl, sym, false, Option, none, some, List, inl, inr, Bool-cases, ◌==◌, ==_iff,
  ==_refl, ◌∙◌, if◌then◌else◌,
}
use inventory.Prelude.Table.{find}
use inventory.Store.Schema.{RowId}
use inventory.Store.Tree.{Node, node_key}

-- How a table answers the question for one id.
abbrev pub Look : Type 0
Look = RowId → Option Node

abbrev pub look_in : List Node → Look
look_in ns id = find node_key id ns

-- The node `id` of the storage has a root above it, on a path of `d` nodes that are all the storage's.
pub data Rooted (look : Look) (storage : RowId) : ℕ → RowId → Type 0 where
  root :
      {id : RowId} (n : Node)
      → look id ≡ some n
      → n.storage_id ≡ storage
      → n.parent_id ≡ none
      → Rooted look storage 1 id
  under :
      {id : RowId} (p : RowId) (d : ℕ) (n : Node)
      → look id ≡ some n
      → n.storage_id ≡ storage
      → n.parent_id ≡ some p
      → Rooted look storage d p
      → Rooted look storage (suc d) id

-- Every node has a root above it, in its own storage: there is no ring, and no parent is missing or
-- another storage's.
abbrev pub IsForest : Look → Type 0
IsForest look = (id : RowId) (n : Node) → look id ≡ some n → (d : ℕ) × Rooted look n.storage_id d id

-- `id` is a node of the path from `top` to the root.
pub data IsAbove (look : Look) (id : RowId) : RowId → Type 0 where
  itself : IsAbove look id id
  above :
      {k : RowId} (p : RowId) (n : Node)
      → look k ≡ some n
      → n.parent_id ≡ some p
      → IsAbove look id p
      → IsAbove look id k

-- A row that is put in the place of another, or added.
abbrev pub put_row : RowId → Node → Look → Look
put_row id n look k = if id == k then some n else look k

module _ (look : Look) (storage id : RowId) (n : Node) where
  put-same : put_row id n look id ≡ some n
  put-same = rw (==_refl id) refl

  put-other : (k : RowId) → (id == k) ≡ false → put_row id n look k ≡ look k
  put-other k h = rw h refl

  -- A path that does not meet the row stays.
  Rooted-put :
      {d : ℕ} (k : RowId)
      → Rooted look storage d k
      → ¬ (IsAbove look id k)
      → Rooted (put_row id n look) storage d k
  Rooted-put k (root m e s p) h = elim (Bool-cases (id == k)) [
    | inl same ↦ absurd (h (rw ((==_iff id k).0 same) itself))
    | inr other ↦ root m (rw (put-other k other) e) s p
  ]
  Rooted-put k (under p d m e s q r) h = elim (Bool-cases (id == k)) [
    | inl same ↦ absurd (h (rw ((==_iff id k).0 same) itself))
    | inr other ↦
        under p d m (rw (put-other k other) e) s q (Rooted-put p r (λ a. h (above p m e q a)))
  ]

  -- Where the row, if the storage had it, has a root above it, whatever had one still has one.
  Rooted-below :
      {d : ℕ} (k : RowId)
      → ((m : Node)
          → look id ≡ some m
          → m.storage_id ≡ storage
          → (e : ℕ) × Rooted (put_row id n look) storage e id)
      → Rooted look storage d k
      → (e : ℕ) × Rooted (put_row id n look) storage e k
  Rooted-below k here (root m e s p) = elim (Bool-cases (id == k)) [
    | inl same ↦ let eq : id ≡ k = (==_iff id k).0 same in rw⁻¹ eq (here m (rw eq e) s)
    | inr other ↦ (1, root m (rw (put-other k other) e) s p)
  ]
  Rooted-below k here (under p d m e s q r) = elim (Bool-cases (id == k)) [
    | inl same ↦ let eq : id ≡ k = (==_iff id k).0 same in rw⁻¹ eq (here m (rw eq e) s)
    | inr other ↦
        let (d', r') = Rooted-below p here r in
        (suc d', under p d' m (rw (put-other k other) e) s q r')
  ]

-- A parent that closes no ring: none, or a node of the storage that does not lie under the row.
pub data IsAllowed (look : Look) (storage id : RowId) : Option RowId → Type 0 where
  top : IsAllowed look storage id none
  below :
      {p : RowId} (m : Node)
      → look p ≡ some m
      → m.storage_id ≡ storage
      → ¬ (IsAbove look id p)
      → IsAllowed look storage id (some p)

some-inj : {a b : Node} → some a ≡ some b → a ≡ b
some-inj e = cc

module _ (look : Look) (id : RowId) (n : Node) (forest : IsForest look) where
  new_path :
      (o : Option RowId)
      → IsAllowed look n.storage_id id o
      → n.parent_id ≡ o
      → (e : ℕ) × Rooted (put_row id n look) n.storage_id e id
  new_path none top q = (1, root n (put-same look n.storage_id id n) refl q)
  new_path (some p) (below m e s apart) q =
      let (d, r) = forest p m e in
      (
        suc d,
        under p d n (put-same look n.storage_id id n) refl q
            (Rooted-put look n.storage_id id n p (rw s at r) apart),
      )

  -- A row with an allowed parent, new or in the place of a row of its storage, leaves a forest.
  pub put_row-IsForest :
      IsAllowed look n.storage_id id n.parent_id
      → ((m : Node) → look id ≡ some m → m.storage_id ≡ n.storage_id)
      → IsForest (put_row id n look)
  put_row-IsForest ok same_storage k m e = elim (Bool-cases (id == k)) [
    | inl same ↦
        let eq : id ≡ k = (==_iff id k).0 same in
        let row : n ≡ m = some-inj (sym (put-same look n.storage_id id n) ∙ (rw (sym eq) at e)) in
        rw⁻¹ (eq, row) (new_path n.parent_id ok refl)
    | inr other ↦
        Rooted-below look m.storage_id id n k
          (λ old found own. rw (sym own ∙ same_storage old found) (new_path n.parent_id ok refl))
          (forest k m (rw (put-other look m.storage_id id n k other) at e)).1
  ]
