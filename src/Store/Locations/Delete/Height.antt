-- ===== src/Store/Locations/Delete/Height.antt =====
-- The length of a path to a root and the number of rows.
use inventory.Prelude.{
  ℕ, suc, ◌≤◌, ◌<◌, ◌≡◌, refl, some, List, [], ◌∷◌, inl, inr, Bool-cases, ◌==◌, ==_iff, arith,
  length,
}
use inventory.Prelude.Table.{find, remove}
use inventory.Prelude.Table.Laws.{find-remove}
use inventory.Store.Schema.{RowId}
use inventory.Store.Tree.{Node, node_key}
use inventory.Store.Tree.Rooted.{Look, look_in, Rooted, root, under, IsAbove, itself, above}

module _ (look : Look) (storage : RowId) where
  height_unique : {d e : ℕ} (k : RowId) → Rooted look storage d k → Rooted look storage e k → d ≡ e
  height_unique k (root n a s q) (root m a' s' q') = refl
  height_unique k (root n a s q) (under p e m a' s' q' r) = absurd (cc)
  height_unique k (under p d n a s q r) (root m a' s' q') = absurd (cc)
  height_unique k (under p d n a s q r) (under p' e m a' s' q' r') =
      let same : p' ≡ p = cc in omega (arith, height_unique p r (rw same at r'))

  -- A node lies no higher than those below it.
  height-IsAbove :
      {d e : ℕ} (id k : RowId)
      → Rooted look storage d k
      → Rooted look storage e id
      → IsAbove look id k
      → e ≤ d
  height-IsAbove id k r t itself = omega (arith, height_unique k r t)
  height-IsAbove id k (root n a s q) t (above p m a' q' h) = absurd (cc)
  height-IsAbove id k (under p d n a s q r) t (above p' m a' q' h) =
      let same : p' ≡ p = cc in omega (arith, height-IsAbove id p r t (rw same at h))

module _ (ns : List Node) (storage : RowId) where
  -- A path that does not meet a row stays when the row goes.
  Rooted-remove :
      {d : ℕ} (id k : RowId)
      → Rooted (look_in ns) storage d k
      → ¬ (IsAbove (look_in ns) id k)
      → Rooted (look_in (remove node_key id ns)) storage d k
  Rooted-remove id k (root n a s q) h = elim (Bool-cases (id == k)) [
    | inl same ↦ absurd (h (rw ((==_iff id k).0 same) itself))
    | inr other ↦ root n (rw (find-remove node_key id k ns, other) a) s q
  ]
  Rooted-remove id k (under p d n a s q r) h = elim (Bool-cases (id == k)) [
    | inl same ↦ absurd (h (rw ((==_iff id k).0 same) itself))
    | inr other ↦
        under p d n (rw (find-remove node_key id k ns, other) a) s q
          (Rooted-remove id p r (λ b. h (above p n a q b)))
  ]

length-remove : (k : RowId) (ns : List Node) → length (remove node_key k ns) ≤ length ns
unfolding remove
length-remove k [] = omega arith
length-remove k (n ∷ ns) = ground (arith, length-remove k ns)

length-remove-found :
    (k : RowId) (ns : List Node) {n : Node}
    → find node_key k ns ≡ some n
    → length (remove node_key k ns) < length ns
unfolding find remove
length-remove-found k [] e = absurd (cc)
length-remove-found k (m ∷ ns) e = elim (Bool-cases (m.id == k)) [
  | inl same ↦ rw same (omega (arith, length-remove k ns))
  | inr other ↦ rw other (omega (arith, length-remove-found k ns (rw other at e)))
]

pub height_bound :
    (ns : List Node) (storage d : ℕ) (k : RowId) → Rooted (look_in ns) storage d k → d ≤ length ns
height_bound ns storage one k (root n a s q) = omega (arith, length-remove-found k ns a)
height_bound ns storage (suc d) k (under p _ n a s q r) = omega (
  arith,
  length-remove-found k ns a,
  height_bound (remove node_key k ns) storage d p (
      Rooted-remove ns storage k p r (λ h.
        absurd (omega (arith, height-IsAbove (look_in ns) storage k p r (under p d n a s q r) h)))),
)
