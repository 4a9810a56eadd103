-- ===== src/Store/Sound/Adjust.antt =====
-- adjustBatch and the invariant of the stock: the refusal, the deletion and the change of a batch.
use mathlib.Core.Path.{subst}
use inventory.Prelude.{
  ℕ, ◌≤◌, ◌≡◌, refl, sym, if-keeps, ap, pos_part, true, false, Option, none, some, ℤ, pos, ◌+ℤ◌,
  ◌-ℤ◌, ltb_ℤ, ◌==◌, arith, int_laws, inl, inr, Bool-cases,
}
use inventory.Prelude.Table.{find}
use inventory.Prelude.Table.Laws.{key-find}
use inventory.Store.Schema.{RowId, LogReason, Product, Batch, Inventory, Database, batch_key}
use inventory.Store.Tx.{Result, ◌>>◌, pure, put_tables, Env}
use inventory.Store.Tx.Triple.{
  Triple, Triple-bind, Triple-tables, Triple-fail, Triple-pure, Triple-if, Triple-row_or,
  Triple-in_tx,
}
use inventory.Store.Rows.{fits_int4, find_product, find_batch, in_storage_batch, joined, write_log}
use inventory.Store.Quests.{bump_for_ledger_reason}
use inventory.Store.Batches.{
  write_quantity, delete_batch, adjust_batch_tx, adjust_batch, is_zero, is_blank_reason,
}
use inventory.Store.Sound.{Sound, SoundUpTo, SoundUpTo-zero, Sound-zero}
use inventory.Store.Sound.Statements.{write_quantity-SoundUpTo, delete_batch-SoundUpTo}
use inventory.Store.Sound.Steps.{write_log-SoundUpTo, bump-keeps}

joined-inv :
    (r : Batch) (o : Option Product) {b : Batch}
    → joined r o ≡ some b
    → (r ≡ b) × ((p : Product) × (o ≡ some p))
joined-inv r none h = absurd (cc)
joined-inv r (some p) h = (cc, (p, refl))

in_storage_batch-inv :
    (storage : RowId) (t : Inventory) (o : Option Batch) {b : Batch}
    → in_storage_batch storage t o ≡ some b
    → (o ≡ some b) × ((p : Product) × (find_product storage b.product_id t ≡ some p))
in_storage_batch-inv storage t none h = absurd (cc)
in_storage_batch-inv storage t (some r) {b} h =
    let (same, (p, e)) = joined-inv r (find_product storage r.product_id t) h in
    (ap some same, (p, rw (← same) e))

-- A batch found through the join is the row with the id, and its product lies in the storage.
pub find_batch-row :
    (storage id : RowId) (t : Inventory) {b : Batch}
    → find_batch storage id t ≡ some b
    → (find batch_key id t.batches ≡ some b)
      × ((p : Product) × (find_product storage b.product_id t ≡ some p))
unfolding find_batch
find_batch-row storage id t h = in_storage_batch-inv storage t (find batch_key id t.batches) h

-- The same row, found again under its own id.
pub find_batch-own_row :
    (storage id : RowId) (t : Inventory) {b : Batch}
    → find_batch storage id t ≡ some b
    → find batch_key b.id t.batches ≡ some b
find_batch-own_row storage id t {b} h =
    let row = (find_batch-row storage id t h).0 in
    subst (λ k. find batch_key k t.batches ≡ some b) (sym (key-find batch_key id t.batches row)) row

pub write_quantity-step :
    (id : RowId) (n : ℕ) (change : ℤ) (b : Batch) (t : Inventory)
    → find batch_key id t.batches ≡ some b
    → 1 ≤ n
    → SoundUpTo b.product_id change t
    → Triple
        (λ t'. t' ≡ t)
        (write_quantity id n)
        (SoundUpTo b.product_id (change +ℤ (pos n -ℤ pos b.quantity)))
unfolding write_quantity put_tables
write_quantity-step id n change b t found positive h = record {
  at = λ s e. elim (Bool-cases (fits_int4 (pos n))) [
    | inr over ↦ rw over tt
    | inl fits ↦ rw fits (rw e (write_quantity-SoundUpTo id n t change found positive h))
  ];
}

delete_batch-step :
    (id : RowId) (change : ℤ) (b : Batch) (t : Inventory)
    → find batch_key id t.batches ≡ some b
    → SoundUpTo b.product_id change t
    → Triple
        (λ t'. t' ≡ t)
        (delete_batch id)
        (SoundUpTo b.product_id (change +ℤ (pos 0 -ℤ pos b.quantity)))
unfolding delete_batch put_tables
delete_batch-step id change b t found h = record {
  at = λ s e. rw e (delete_batch-SoundUpTo id t change found h);
}

-- The log row of a change closes the books.
log_and_bump :
    (storage product : RowId) (batch : Option RowId) (delta : ℤ) (reason : LogReason)
    (user : Option RowId) (target : RowId) (change : ℤ)
    → change ≡ delta
    → Triple
        (SoundUpTo product change)
        (write_log product batch delta reason user
          >> (bump_for_ledger_reason storage user reason target >> pure product))
        Sound
log_and_bump storage product batch delta reason user target change e =
    Triple-bind (write_log-SoundUpTo product batch delta reason user change) (λ _.
      Triple-bind (bump-keeps storage user reason target)
        (λ _. Triple-pure _ (λ t. Sound-zero product (change -ℤ delta) t (rw e (omega int_laws)))))

emptied-change :
    (q : ℕ) (delta : ℤ)
    → ltb_ℤ (pos q +ℤ delta) (pos 0) ≡ false
    → (pos_part (pos q +ℤ delta) == 0) ≡ true
    → pos 0 +ℤ (pos 0 -ℤ pos q) ≡ delta
unfolding ◌+ℤ◌ ◌-ℤ◌
emptied-change q delta h z = ground arith

left-change :
    (q : ℕ) (delta : ℤ)
    → ltb_ℤ (pos q +ℤ delta) (pos 0) ≡ false
    → pos 0 +ℤ (pos (pos_part (pos q +ℤ delta)) -ℤ pos q) ≡ delta
unfolding ◌+ℤ◌ ◌-ℤ◌
left-change q delta h = ground arith

pub adjust_batch_tx-Sound :
    (storage batch : RowId) (delta : ℤ) (reason : LogReason) (user : Option RowId)
    → Triple Sound (adjust_batch_tx storage batch delta reason user) Sound
unfolding adjust_batch_tx
adjust_batch_tx-Sound storage batch delta reason user = Triple-tables (λ t h.
    Triple-row_or _ _ (λ b found.
      let upto = SoundUpTo-zero b.product_id t h in
      let row = find_batch-own_row storage batch t found in
      Triple-if (ltb_ℤ (pos b.quantity +ℤ delta) (pos 0)) (λ _. Triple-fail _)
        (λ enough.
          Triple-if (pos_part (pos b.quantity +ℤ delta) == 0)
            (λ emptied. Triple-bind (delete_batch-step b.id (pos 0) b t row upto) (λ _.
              log_and_bump storage b.product_id none delta reason user b.id _
                (emptied-change b.quantity delta enough emptied)))
            (λ left.
              Triple-bind
                (write_quantity-step b.id (pos_part (pos b.quantity +ℤ delta)) (pos 0) b t row
                  (ground arith) upto)
                (λ _.
                  log_and_bump storage b.product_id (some b.id) delta reason user b.id _
                    (left-change b.quantity delta enough))))))

-- A sound stock stays sound under every adjustment of a batch, whatever it answers.
pub adjust_batch-Sound :
    (env : Env) (storage batch : RowId) (delta : ℤ) (reason : LogReason) (user : Option RowId)
    (db : Database)
    → Sound db.tables
    → Sound (adjust_batch env storage batch delta reason user db).1.tables
unfolding adjust_batch
adjust_batch-Sound env storage batch delta reason user db h =
    if-keeps (λ (r : Result (Unit {0}) × Database). Sound r.1.tables) (is_zero delta) _ _ h
      (if-keeps (λ (r : Result (Unit {0}) × Database). Sound r.1.tables) (is_blank_reason reason) _
        _ h
        (Triple-in_tx env db
          (Triple-bind (adjust_batch_tx-Sound storage batch delta reason user)
            (λ _. Triple-pure _ (λ t k. k)))
          h))
