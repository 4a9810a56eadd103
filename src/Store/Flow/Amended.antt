-- ===== src/Store/Flow/Amended.antt =====
-- How much a patch of a batch moves.
use mathlib.Core.Path.{subst}
use inventory.Prelude.{
  ◌≡◌, sym, ◌∙◌, ap, true, ℕ, Option, none, some, String, ℤ, pos, negsuc, neg, ◌+ℤ◌, ◌-ℤ◌, ◌==◌,
  int_laws, arith, inl, inr, Bool-cases,
}
use inventory.Prelude.Table.Laws.{key-find}
use inventory.Store.Schema.{RowId, audit, move, Batch, Inventory, Database, batch_key}
use inventory.Store.Tx.{Result, ok, Env}
use inventory.Store.Tx.Triple.{
  Triple, Triple-bind, Triple-tables, Triple-pure, Triple-if, Triple-refuse_if, Triple-row_or,
  Triple-when, Triple-strengthen, Triple-in_tx_ok,
}
use inventory.Store.Rows.{find_batch}
use inventory.Store.Batches.{BatchView, is_zero}
use inventory.Store.Batches.Update.{
  correct_quantity, set_batch_quantity, move_to, move_batch, BatchPatch, touches_container,
  zero_quantity, bad_patch, patch_quantity, patch_label, patch_type, patch_container,
  patch_location, patch_rest, update_batch_tx, update_batch,
}
use inventory.Store.Sound.{of_product, stock, net, Sound}
use inventory.Store.Sound.Steps.{require_location-keeps}
use inventory.Store.Sound.Create.{load_batch-keeps}
use inventory.Store.Sound.Adjust.{find_batch-row}
use inventory.Store.Sound.Amend.{update_batch-Sound}
use inventory.Store.Flow.{
  Logged, write_log-Logged, relocate-Logged, upsert_batch_container_label-Logged,
  set_batch_container_type-Logged, detach_batch_container-Logged,
}
use inventory.Store.Flow.Stock.{stock_of_net}
use inventory.Store.Flow.Adjusted.{some-eq, adjust_batch_tx-Logged, refused-ok}

-- By how much a patch changes the quantity.
abbrev pub counted : Option ℤ → Batch → ℤ
counted none b = pos 0
counted (some q) b = q -ℤ pos b.quantity

is_zero-eq : (n : ℤ) → is_zero n ≡ true → n ≡ pos 0
is_zero-eq (pos n) h = ground arith
is_zero-eq (negsuc n) h = ground arith

of_product-zero : (p q : RowId) (k : ℤ) → k +ℤ of_product p q (pos 0) ≡ k
of_product-zero p q k = elim (Bool-cases (q == p)) [
  | inl same ↦ rw same (omega int_laws)
  | inr other ↦ rw other (omega int_laws)
]

module _ (p storage batch : RowId) (t : Inventory) {b : Batch} where
  correct_quantity-Logged :
      (quantity : ℤ) (user : Option RowId)
      → find_batch storage batch t ≡ some b
      → Triple
          (λ t'. t' ≡ t)
          (correct_quantity storage b quantity user)
          (Logged p (net p t.logs +ℤ of_product p b.product_id (quantity -ℤ pos b.quantity)))
  unfolding correct_quantity
  correct_quantity-Logged quantity user found =
      Triple-if (is_zero (quantity -ℤ pos b.quantity))
        (λ same. Triple-pure _ (λ t' e.
          rw
            (
              is_zero-eq (quantity -ℤ pos b.quantity) same,
              of_product-zero p b.product_id (net p t.logs),
            )
            (ap (λ u. net p u.logs) e)))
        (λ other.
          Triple-bind
            (Triple-bind
              (adjust_batch_tx-Logged p storage b.id (quantity -ℤ pos b.quantity) audit user t
                {b = b}
                (subst (λ id. find_batch storage id t ≡ some b)
                  (sym
                    (key-find batch_key batch t.batches (find_batch-row storage batch t found).0))
                  found))
              (λ _. Triple-pure _ (λ t h. h)))
            (λ _. Triple-pure _ (λ t h. h)))

  patch_quantity-Logged :
      (quantity : Option ℤ) (user : Option RowId)
      → find_batch storage batch t ≡ some b
      → Triple
          (λ t'. t' ≡ t)
          (patch_quantity storage batch quantity user)
          (Logged p (net p t.logs +ℤ of_product p b.product_id (counted quantity b)))
  unfolding set_batch_quantity
  patch_quantity-Logged none user found =
      Triple-pure _
        (λ t' e. rw (of_product-zero p b.product_id (net p t.logs)) (ap (λ u. net p u.logs) e))
  patch_quantity-Logged (some q) user found =
      Triple-bind
        (Triple-refuse_if _ _ (λ some_left. Triple-tables (λ t' e. Triple-row_or _ _ (λ b' found'.
          let same : b' ≡ b = some-eq (sym found' ∙ ap (find_batch storage batch) e ∙ found) in
          rw same (Triple-strengthen (λ u e'. e' ∙ e) (correct_quantity-Logged q user found))))))
        (λ _. Triple-pure _ (λ t h. h))

module _ (p : RowId) (k : ℤ) where
  there_and_back : (q : RowId) (n : ℕ) → k +ℤ of_product p q (neg n) +ℤ of_product p q (pos n) ≡ k
  there_and_back q n = elim (Bool-cases (q == p)) [
    | inl same ↦ rw same (omega int_laws)
    | inr other ↦ rw other (omega int_laws)
  ]

  move_batch-Logged :
      (storage batch place : RowId) (user : Option RowId)
      → Triple (Logged p k) (move_batch storage batch place user) (Logged p k)
  unfolding move_batch move_to
  move_batch-Logged storage batch place user = Triple-tables (λ t h. Triple-row_or _ _ (λ b found.
      require_location-keeps storage place (λ t' l e there.
        Triple-strengthen (λ u same. subst (Logged p k) (sym (same ∙ e)) h)
          (Triple-if (b.location_id == place) (λ _. load_batch-keeps storage batch)
            (λ _. Triple-bind (relocate-Logged p k b.id place) (λ _.
              Triple-bind (write_log-Logged p k b.product_id (some b.id) (neg b.quantity) move user)
                (λ _.
                  Triple-bind
                    (write_log-Logged p _ b.product_id (some b.id) (pos b.quantity) move user)
                    (λ _.
                      Triple-pure _ (λ u h'. h' ∙ there_and_back b.product_id b.quantity)))))))))

  patch_label-Logged :
      (storage batch : RowId) (label : Option (Option String))
      → Triple (Logged p k) (patch_label storage batch label) (Logged p k)
  patch_label-Logged storage batch none = Triple-pure _ (λ t h. h)
  patch_label-Logged storage batch (some none) = detach_batch_container-Logged p k batch
  patch_label-Logged storage batch (some (some l)) =
      upsert_batch_container_label-Logged p k storage batch l

  patch_type-Logged :
      (storage batch : RowId) (t : Option (Option String))
      → Triple (Logged p k) (patch_type storage batch t) (Logged p k)
  patch_type-Logged storage batch none = Triple-pure _ (λ t h. h)
  patch_type-Logged storage batch (some t) = set_batch_container_type-Logged p k storage batch t

  patch_location-Logged :
      (storage batch : RowId) (place : Option RowId) (user : Option RowId)
      → Triple (Logged p k) (patch_location storage batch place user) (Logged p k)
  patch_location-Logged storage batch none user = Triple-pure _ (λ t h. h)
  patch_location-Logged storage batch (some place) user =
      Triple-bind (move_batch-Logged storage batch place user) (λ _. Triple-pure _ (λ t h. h))

  patch_rest-Logged :
      (storage batch : RowId) (patch : BatchPatch) (user : Option RowId)
      → Triple (Logged p k) (patch_rest storage batch patch user) (Logged p k)
  unfolding patch_rest patch_container
  patch_rest-Logged storage batch patch user =
      Triple-bind
        (Triple-when (touches_container patch) (
          Triple-bind (Triple-bind (load_batch-keeps storage batch) (λ _. Triple-pure _ (λ t h. h)))
            (λ _.
              Triple-bind (patch_label-Logged storage batch patch.container_label)
                (λ _. patch_type-Logged storage batch patch.container_type))))
        (λ _.
          Triple-bind (patch_location-Logged storage batch patch.location_id user)
            (λ _. Triple-bind (load_batch-keeps storage batch) (λ b. Triple-pure _ (λ t h. h))))

-- From a sound stock, a patch of a batch of the storage that succeeds changes the stock of the batch's
-- product by the difference between the new quantity and the old, if it names a quantity, and else
-- changes no stock.
pub stock-update_batch :
    (env : Env) (storage batch : RowId) (patch : BatchPatch) (user : Option RowId) (db : Database)
    (p : RowId) {b : Batch} {out : Option BatchView}
    → Sound db.tables
    → find_batch storage batch db.tables ≡ some b
    → (update_batch env storage batch patch user db).0 ≡ ok out
    → stock p (update_batch env storage batch patch user db).1.tables.batches
      ≡ stock p db.tables.batches +ℤ of_product p b.product_id (counted patch.quantity b)
stock-update_batch env storage batch patch user db p {b} h found done =
    stock_of_net p _ db.tables _ h (update_batch-Sound env storage batch patch user db h) (
      unfold update_batch update_batch_tx in
      (let (done', same) = refused-ok (bad_patch patch) _ _ db done in
        ap (λ (r : Result (Option BatchView) × Database). net p r.1.tables.logs) same
        ∙ Triple-in_tx_ok env db
            (Triple-bind (patch_quantity-Logged p storage batch db.tables patch.quantity user found)
              (λ _.
                Triple-if (zero_quantity patch.quantity) (λ _. Triple-pure _ (λ t h. h))
                  (λ _. patch_rest-Logged p _ storage batch patch user)))
            done'))
