-- ===== src/Store/Sound/Steps.antt =====
-- What the shared steps of a transaction do to the invariant of the stock.
use inventory.Prelude.{
  ◌≤◌, ◌≡◌, refl, not, Option, none, some, ℤ, pos, ◌+ℤ◌, ◌-ℤ◌, inl, inr, Bool-cases, Option-cases,
  is_some,
}
use inventory.Prelude.Table.{insert}
use inventory.Prelude.Table.Laws.{insert-eq-some}
use inventory.Store.Schema.{
  RowId, LogReason, Product, Location, Batch, InventoryLog, Inventory, batch_key, log_key,
}
use inventory.Store.Tx.{not_found, Session, Tx, ◌>>=◌, refuse_if, put_tables}
use inventory.Store.Tx.Rules.{Returns, Returns-weaken, new_id-IsQuiet}
use inventory.Store.Tx.Triple.{Triple, Triple-bind, Triple-gets, Triple-quiet}
use inventory.Store.Rows.{
  fits_int4, find_product, find_location, require_product_in_storage, require_same_storage,
  insert_batch_row, insert_log_row, write_log,
}
use inventory.Store.Quests.{bump_for_ledger_reason}
use inventory.Store.Quests.Frame.{SameStock, bump_for_ledger_reason-ScoresOnly}
use inventory.Store.Sound.{IsPlaced, SoundUpTo}
use inventory.Store.Sound.Statements.{insert_batch-SoundUpTo, insert_log-SoundUpTo}

pub insert_batch_row-SoundUpTo :
    (b : Batch) (change : ℤ) (s : Session)
    → 1 ≤ b.quantity
    → IsPlaced s.db.tables.products s.db.tables.locations b
    → SoundUpTo b.product_id change s.db.tables
    → Returns
        (λ _ s'. SoundUpTo b.product_id (change +ℤ pos b.quantity) s'.db.tables)
        (insert_batch_row b s)
unfolding insert_batch_row put_tables
insert_batch_row-SoundUpTo b change s positive placed h =
    elim (Option-cases (insert batch_key b s.db.tables.batches)) [
      | inl clash ↦ rw (clash, insert_batch_row) tt
      | inr new ↦ elim (Bool-cases (fits_int4 (pos b.quantity))) [
        | inr over ↦ rw (new.1, insert_batch_row, over) tt
        | inl fits ↦
            rw (new.1, insert_batch_row, fits)
              (let (fresh, rows) = insert-eq-some batch_key b s.db.tables.batches new.1 in
                rw rows (insert_batch-SoundUpTo b s.db.tables change fresh positive placed h))
      ]
    ]

insert_log_row-SoundUpTo :
    (l : InventoryLog) (change : ℤ) (s : Session)
    → SoundUpTo l.product_id change s.db.tables
    → Returns
        (λ _ s'. SoundUpTo l.product_id (change -ℤ l.change_qty) s'.db.tables)
        (insert_log_row l s)
unfolding insert_log_row put_tables
insert_log_row-SoundUpTo l change s h = elim (Option-cases (insert log_key l s.db.tables.logs)) [
  | inl clash ↦ rw (clash, insert_log_row) tt
  | inr new ↦ elim (Bool-cases (fits_int4 l.change_qty)) [
    | inr over ↦ rw (new.1, insert_log_row, over) tt
    | inl fits ↦
        rw (new.1, insert_log_row, fits)
          (let (fresh, rows) = insert-eq-some log_key l s.db.tables.logs new.1 in
            rw rows (insert_log-SoundUpTo l s.db.tables change h))
  ]
]

pub write_log-SoundUpTo :
    (product : RowId) (batch : Option RowId) (qty : ℤ) (reason : LogReason) (user : Option RowId)
    (change : ℤ)
    → Triple
        (SoundUpTo product change)
        (write_log product batch qty reason user)
        (SoundUpTo product (change -ℤ qty))
unfolding write_log
write_log-SoundUpTo product batch qty reason user change =
    Triple-bind (Triple-quiet new_id-IsQuiet)
      (λ id. Triple-gets _ (λ now. record { at = insert_log_row-SoundUpTo _ change }))

-- Scoring touches no stock.
pub bump-keeps :
    {P : Inventory → Type 0} (storage : RowId) (user : Option RowId) (reason : LogReason)
    (batch : RowId)
    → Triple P (bump_for_ledger_reason storage user reason batch) P
bump-keeps {P} storage user reason batch = Triple-quiet (record {
  at = λ s.
      Returns-weaken (λ _ s'. SameStock s s') (λ _ s'. s'.db.tables ≡ s.db.tables) _
        ((bump_for_ledger_reason-ScoresOnly storage user reason batch).at s)
        (λ _ s' same. same.tables);
})

pub require_product-keeps :
    {P : Inventory → Type 0} {B : Type 0} {R : Inventory → Type 0} (storage id : RowId) {k : Tx B}
    → ((t : Inventory) (p : Product)
        → P t
        → find_product storage id t ≡ some p
        → Triple (λ t'. t' ≡ t) k R)
    → Triple P (require_product_in_storage storage id >>= λ _. k) R
unfolding require_product_in_storage ◌>>=◌ refuse_if
require_product-keeps {P} {R} storage id {k} h = record {
  at = λ s p. required s p (find_product storage id s.db.tables) refl;
}
  where
    required :
        (s : Session)
        → P s.db.tables
        → (o : Option Product) → find_product storage id s.db.tables ≡ o
        → Returns (λ _ s'. R s'.db.tables) ((refuse_if (not (is_some o)) not_found >>= λ _. k) s)
    required s p none e = tt
    required s p (some a) e = (h s.db.tables a p e).at s refl

pub require_location-keeps :
    {P : Inventory → Type 0} {B : Type 0} {R : Inventory → Type 0} (storage id : RowId) {k : Tx B}
    → ((t : Inventory) (l : Location)
        → P t
        → find_location storage id t ≡ some l
        → Triple (λ t'. t' ≡ t) k R)
    → Triple P (require_same_storage storage id >>= λ _. k) R
unfolding require_same_storage ◌>>=◌ refuse_if
require_location-keeps {P} {R} storage id {k} h = record {
  at = λ s p. required s p (find_location storage id s.db.tables) refl;
}
  where
    required :
        (s : Session)
        → P s.db.tables
        → (o : Option Location) → find_location storage id s.db.tables ≡ o
        → Returns (λ _ s'. R s'.db.tables) ((refuse_if (not (is_some o)) not_found >>= λ _. k) s)
    required s p none e = tt
    required s p (some a) e = (h s.db.tables a p e).at s refl
