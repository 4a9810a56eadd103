-- ===== src/Store/Flow/Adjusted.antt =====
-- How much an adjustment moves.
use inventory.Prelude.{
  ◌≡◌, refl, sym, ◌∙◌, ap, Bool, true, false, Option, none, some, ℤ, pos, ◌+ℤ◌, ltb_ℤ, pos_part,
  ◌==◌, if◌then◌else◌,
}
use inventory.Store.Schema.{RowId, LogReason, Batch, Inventory, Database}
use inventory.Store.Tx.{StoreError, Result, ok, err, ◌>>◌, pure, Env}
use inventory.Store.Tx.Triple.{
  Triple, Triple-bind, Triple-tables, Triple-fail, Triple-pure, Triple-if, Triple-row_or,
  Triple-strengthen, Triple-in_tx_ok,
}
use inventory.Store.Rows.{find_batch, write_log}
use inventory.Store.Quests.{bump_for_ledger_reason}
use inventory.Store.Batches.{apply_delta, adjust_batch_tx, adjust_batch, is_zero, is_blank_reason}
use inventory.Store.Sound.{of_product, stock, net, Sound}
use inventory.Store.Sound.Steps.{bump-keeps}
use inventory.Store.Sound.Adjust.{adjust_batch-Sound}
use inventory.Store.Flow.{Logged, write_log-Logged, write_quantity-Logged, delete_batch-Logged}
use inventory.Store.Flow.Stock.{stock_of_net}

pub some-eq : {A : Type 0} {a b : A} → some a ≡ some b → a ≡ b
some-eq e = cc

module _ (p : RowId) (k : ℤ) where
  -- The ends of both branches of an adjustment.
  log_and_bump-Logged :
      (storage product : RowId) (batch : Option RowId) (delta : ℤ) (reason : LogReason)
      (user : Option RowId) (at : RowId)
      → Triple
          (Logged p k)
          (write_log product batch delta reason user
            >> (bump_for_ledger_reason storage user reason at >> pure product))
          (Logged p (k +ℤ of_product p product delta))
  log_and_bump-Logged storage product batch delta reason user at =
      Triple-bind (write_log-Logged p k product batch delta reason user)
        (λ _. Triple-bind (bump-keeps storage user reason at) (λ _. Triple-pure _ (λ t h. h)))

  apply_delta-Logged :
      (storage : RowId) (b : Batch) (delta : ℤ) (reason : LogReason) (user : Option RowId)
      → Triple
          (Logged p k)
          (apply_delta storage b delta reason user)
          (Logged p (k +ℤ of_product p b.product_id delta))
  unfolding apply_delta
  apply_delta-Logged storage b delta reason user =
      Triple-if (ltb_ℤ (pos b.quantity +ℤ delta) (pos 0)) (λ _. Triple-fail _)
        (λ _.
          Triple-if (pos_part (pos b.quantity +ℤ delta) == 0)
            (λ _.
              Triple-bind (delete_batch-Logged p k b.id)
                (λ _. log_and_bump-Logged storage b.product_id none delta reason user b.id))
            (λ _.
              Triple-bind (write_quantity-Logged p k b.id _)
                (λ _. log_and_bump-Logged storage b.product_id (some b.id) delta reason user b.id)))

pub adjust_batch_tx-Logged :
    (p storage batch : RowId) (delta : ℤ) (reason : LogReason) (user : Option RowId) (t : Inventory)
    {b : Batch}
    → find_batch storage batch t ≡ some b
    → Triple
        (λ t'. t' ≡ t)
        (adjust_batch_tx storage batch delta reason user)
        (Logged p (net p t.logs +ℤ of_product p b.product_id delta))
unfolding adjust_batch_tx
adjust_batch_tx-Logged p storage batch delta reason user t {b} found = Triple-tables (λ t' e.
    Triple-row_or _ _ (λ b' found'.
      let same : b' ≡ b = some-eq (sym found' ∙ ap (find_batch storage batch) e ∙ found) in
      rw same (
        Triple-strengthen (λ u e'. ap (λ v. net p v.logs) (e' ∙ e))
          (apply_delta-Logged p (net p t.logs) storage b delta reason user))))

pub refused-ok :
    {A : Type 0} (b : Bool) (e : StoreError) (x : Result A × Database) (db : Database) {a : A}
    → (if b then (err e, db) else x).0 ≡ ok a
    → (x.0 ≡ ok a) × ((if b then (err e, db) else x) ≡ x)
refused-ok true e x db h = absurd (cc)
refused-ok false e x db h = (h, refl)

module _ (env : Env) (storage batch : RowId) (user : Option RowId) (db : Database) (p : RowId) where
  -- From a sound stock, an adjustment of a batch of the storage that succeeds changes the stock of the
  -- batch's product by exactly the delta, and of no other product.
  pub stock-adjust_batch :
      (delta : ℤ) (reason : LogReason) {b : Batch}
      → Sound db.tables
      → find_batch storage batch db.tables ≡ some b
      → (adjust_batch env storage batch delta reason user db).0 ≡ ok tt
      → stock p (adjust_batch env storage batch delta reason user db).1.tables.batches
        ≡ stock p db.tables.batches +ℤ of_product p b.product_id delta
  stock-adjust_batch delta reason {b} h found done =
      stock_of_net p _ db.tables _ h (adjust_batch-Sound env storage batch delta reason user db h) (
        unfold adjust_batch in
        (let (done', same) = refused-ok (is_zero delta) _ _ db done in
          let (done'', same') = refused-ok (is_blank_reason reason) _ _ db done' in
          ap (λ (r : Result (Unit {0}) × Database). net p r.1.tables.logs) (same ∙ same')
          ∙ Triple-in_tx_ok env db
              (Triple-bind
                (adjust_batch_tx-Logged p storage batch delta reason user db.tables found)
                (λ _. Triple-pure _ (λ t k. k)))
              done''))
