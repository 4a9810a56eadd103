-- ===== src/Store/Flow/Stock.antt =====
-- How much each operation on batches moves: the stock of every product before and after it.
use mathlib.Core.Path.{subst}
use inventory.Prelude.{
  ℕ, ◌≡◌, refl, sym, ◌∙◌, ap, Option, none, some, String, ℤ, pos, neg, ◌+ℤ◌, ◌==◌, int_laws,
  if-keeps, inl, inr, Bool-cases, not,
}
use inventory.Store.Schema.{RowId, move, Batch, Inventory, Database}
use inventory.Store.Tx.{Result, ok, Env}
use inventory.Store.Tx.Rules.{new_id-IsQuiet}
use inventory.Store.Tx.Triple.{
  Triple, Triple-bind, Triple-tables, Triple-pure, Triple-refuse_if, Triple-row_or, Triple-gets,
  Triple-quiet, Triple-weaken, Triple-strengthen, Triple-in_tx, Triple-in_tx_ok,
}
use inventory.Store.Containers.{
  ContainerDisposition, target, neither, destroy, valid_container_disposition,
}
use inventory.Store.Batches.{
  BatchView, NewBatch, label_new_batch, type_new_batch, store_batch, create_batch_tx, create_batch,
}
use inventory.Store.Batches.Split.{
  SplitBatchInput, disposition_or_source, dispose_source, split_off, split_batch_tx, split_batch,
}
use inventory.Store.Sound.{of_product, stock, net, Sound}
use inventory.Store.Sound.Steps.{bump-keeps, require_product-keeps, require_location-keeps}
use inventory.Store.Sound.Create.{
  load_batch-keeps, batch_date-keeps, created_view-keeps, create_batch-Sound,
}
use inventory.Store.Sound.Divide.{split_batch-Sound}
use inventory.Store.Flow.{
  Logged, write_log-Logged, insert_batch_row-Logged, write_quantity-Logged,
  destroy_container_tx-Logged, upsert_batch_container_label-Logged, set_batch_container_type-Logged,
  detach_batch_container-Logged,
}

-- In sound stocks what holds of the ledgers holds of the shelves.
pub stock_of_net :
    (p : RowId) (change : ℤ) (t t' : Inventory)
    → Sound t
    → Sound t'
    → net p t'.logs ≡ net p t.logs +ℤ change
    → stock p t'.batches ≡ stock p t.batches +ℤ change
stock_of_net p change t t' h h' e = sym (h'.balance p) ∙ e ∙ ap (λ n. n +ℤ change) (h.balance p)

module _ (p : RowId) (k : ℤ) where
  label_new_batch-Logged :
      (storage batch : RowId) (label : Option String)
      → Triple (Logged p k) (label_new_batch storage batch label) (Logged p k)
  label_new_batch-Logged storage batch none = Triple-pure _ (λ t h. h)
  label_new_batch-Logged storage batch (some l) =
      upsert_batch_container_label-Logged p k storage batch l

  type_new_batch-Logged :
      (storage batch : RowId) (t : Option (Option String))
      → Triple (Logged p k) (type_new_batch storage batch t) (Logged p k)
  type_new_batch-Logged storage batch none = Triple-pure _ (λ t h. h)
  type_new_batch-Logged storage batch (some t) = set_batch_container_type-Logged p k storage batch t

  store_batch-Logged :
      (storage : RowId) (new : NewBatch) (b : Batch)
      → Triple
          (Logged p k)
          (store_batch storage new b)
          (Logged p (k +ℤ of_product p new.product_id new.quantity))
  unfolding store_batch
  store_batch-Logged storage new b = Triple-bind (insert_batch_row-Logged p k b) (λ _.
      Triple-bind (label_new_batch-Logged storage b.id new.container_label) (λ _.
        Triple-bind (type_new_batch-Logged storage b.id new.container_type) (λ _.
          Triple-bind
            (write_log-Logged p k new.product_id (some b.id) new.quantity new.reason new.created_by)
            (λ _.
              Triple-bind (bump-keeps storage new.created_by new.reason b.id)
                (λ _. created_view-keeps storage new b)))))

  create_batch_tx-Logged :
      (storage : RowId) (new : NewBatch)
      → Triple
          (Logged p k)
          (create_batch_tx storage new)
          (Logged p (k +ℤ of_product p new.product_id new.quantity))
  unfolding create_batch_tx
  create_batch_tx-Logged storage new = Triple-refuse_if _ _ (λ enough.
      Triple-refuse_if _ _ (λ reason. Triple-bind (Triple-quiet new_id-IsQuiet) (λ id.
        require_product-keeps storage new.product_id (λ t _ h _.
          require_location-keeps storage new.location_id (λ t' l e place.
            Triple-bind (batch_date-keeps storage new.product_id _ _) (λ date. Triple-gets _ (λ now.
              Triple-strengthen (λ u same. subst (Logged p k) (sym (same ∙ e)) h)
                (store_batch-Logged storage new _))))))))

  dispose_source-Logged :
      (storage id : RowId) (d : ContainerDisposition) (c : Option RowId)
      → Triple (Logged p k) (dispose_source storage id d c) (Logged p k)
  unfolding dispose_source
  dispose_source-Logged storage id d none = Triple-pure _ (λ t h. h)
  dispose_source-Logged storage id target (some c) = detach_batch_container-Logged p k id
  dispose_source-Logged storage id neither (some c) = detach_batch_container-Logged p k id
  dispose_source-Logged storage id destroy (some c) = destroy_container_tx-Logged p k storage c
  dispose_source-Logged storage id _ (some c) = Triple-pure _ (λ t h. h)

  there_and_back : (q : RowId) (n : ℕ) → k +ℤ of_product p q (neg n) +ℤ of_product p q (pos n) ≡ k
  there_and_back q n = elim (Bool-cases (q == p)) [
    | inl same ↦ rw same (omega int_laws)
    | inr other ↦ rw other (omega int_laws)
  ]

  split_off-Logged :
      (storage : RowId) (b : Batch) (n : ℕ) (place : RowId) (d : ContainerDisposition) (id : RowId)
      (user : Option RowId)
      → Triple (Logged p k) (split_off storage b n place d id user) (Logged p k)
  unfolding split_off
  split_off-Logged storage b n place d id user =
      Triple-bind (write_quantity-Logged p k b.id _) (λ _.
        Triple-bind (dispose_source-Logged storage b.id d b.container_id) (λ _.
          Triple-gets _ (λ now. Triple-bind (insert_batch_row-Logged p k _) (λ _.
            Triple-bind (write_log-Logged p k b.product_id (some b.id) (neg n) move user) (λ _.
              Triple-bind (write_log-Logged p _ b.product_id (some id) (pos n) move user) (λ _.
                Triple-weaken (load_batch-keeps storage id)
                  (λ t h. h ∙ there_and_back b.product_id n)))))))

  split_batch_tx-Logged :
      (storage batch : RowId) (input : SplitBatchInput) (d : ContainerDisposition) (id : RowId)
      (user : Option RowId)
      → Triple (Logged p k) (split_batch_tx storage batch input d id user) (Logged p k)
  unfolding split_batch_tx
  split_batch_tx-Logged storage batch input d id user = Triple-tables (λ t h.
      Triple-row_or _ _ (λ b found. Triple-refuse_if _ _ (λ fits.
        require_location-keeps storage input.target_location_id (λ t' l e place.
          Triple-strengthen (λ u same. subst (Logged p k) (sym (same ∙ e)) h)
            (split_off-Logged storage b _ _ d id user)))))

  split_batch-Logged :
      (env : Env) (storage batch : RowId) (input : SplitBatchInput) (user : Option RowId)
      (db : Database)
      → Logged p k db.tables
      → Logged p k (split_batch env storage batch input user db).1.tables
  unfolding split_batch
  split_batch-Logged env storage batch input user db h =
      if-keeps (λ (r : Result BatchView × Database). Logged p k r.1.tables)
        (not (valid_container_disposition (disposition_or_source input.container_disposition))) _ _
        h
        (Triple-in_tx env db
          (Triple-bind (Triple-quiet new_id-IsQuiet)
            (λ id. split_batch_tx-Logged storage batch input _ id user))
          h)

-- From a sound stock, a batch that is created adds its quantity to its product's stock and to no
-- other's.
pub stock-create_batch :
    (env : Env) (storage : RowId) (new : NewBatch) (db : Database) (p : RowId) {b : BatchView}
    → Sound db.tables
    → (create_batch env storage new db).0 ≡ ok b
    → stock p (create_batch env storage new db).1.tables.batches
      ≡ stock p db.tables.batches +ℤ of_product p new.product_id new.quantity
unfolding create_batch
stock-create_batch env storage new db p h created =
    stock_of_net p _ db.tables _ h (create_batch-Sound env storage new db h) (
      Triple-in_tx_ok env db
        (Triple-strengthen (λ t e. ap (λ u. net p u.logs) e)
          (create_batch_tx-Logged p (net p db.tables.logs) storage new))
        created)

-- From a sound stock, a split changes no product's stock, whether it succeeds or not.
pub stock-split_batch :
    (env : Env) (storage batch : RowId) (input : SplitBatchInput) (user : Option RowId)
    (db : Database) (p : RowId)
    → Sound db.tables
    → stock p (split_batch env storage batch input user db).1.tables.batches
      ≡ stock p db.tables.batches
stock-split_batch env storage batch input user db p h =
    sym ((split_batch-Sound env storage batch input user db h).balance p)
    ∙ split_batch-Logged p (net p db.tables.logs) env storage batch input user db refl
    ∙ h.balance p
