-- ===== src/Store/Flow.antt =====
-- How the ledger of one product moves.
pub mod Stock
pub mod Adjusted
pub mod Amended
use mathlib.Core.Path.{subst}
use inventory.Prelude.{
  ◌≡◌, refl, sym, ◌∙◌, Option, none, some, String, ℤ, pos, ◌+ℤ◌, inl, inr, Bool-cases, Option-cases,
}
use inventory.Prelude.Table.{find, insert}
use inventory.Prelude.Table.Laws.{insert-eq-some}
use inventory.Store.Schema.{
  RowId, LogReason, Container, Batch, InventoryLog, Inventory, container_key, batch_key, log_key,
}
use inventory.Store.Tx.{Session, Tx, ◌>>=◌, put_tables}
use inventory.Store.Tx.Rules.{Returns, new_id-IsQuiet}
use inventory.Store.Tx.Triple.{
  Triple, Triple-bind, Triple-tables, Triple-fail, Triple-pure, Triple-row_or, Triple-gets,
  Triple-quiet,
}
use inventory.Store.Rows.{fits_int4, delete_batch_row, insert_batch_row, insert_log_row, write_log}
use inventory.Store.Containers.{
  destroyable, destroy_container_tx, batch_container_id, update_container, insert_container_row,
  set_batch_container, label_container, upsert_batch_container_label, detach_batch_container,
  type_container, set_batch_container_type,
}
use inventory.Store.Batches.{write_quantity, delete_batch}
use inventory.Store.Batches.Update.{relocate}
use inventory.Store.Sound.{of_product, net, net-append, net-unlink}

-- The ledger of product `p` sums to `k`.
abbrev pub Logged : RowId → ℤ → Inventory → Type 0
Logged p k t = net p t.logs ≡ k

module _ (p : RowId) (k : ℤ) where
  insert_log_row-Logged :
      (l : InventoryLog) (s : Session)
      → Logged p k s.db.tables
      → Returns
          (λ _ s'. Logged p (k +ℤ of_product p l.product_id l.change_qty) s'.db.tables)
          (insert_log_row l s)
  unfolding insert_log_row put_tables
  insert_log_row-Logged l s h = elim (Option-cases (insert log_key l s.db.tables.logs)) [
    | inl clash ↦ rw (clash, insert_log_row) tt
    | inr new ↦ elim (Bool-cases (fits_int4 l.change_qty)) [
      | inr over ↦ rw (new.1, insert_log_row, over) tt
      | inl fits ↦
          rw (new.1, insert_log_row, fits)
            (let (fresh, rows) = insert-eq-some log_key l s.db.tables.logs new.1 in
              rw (rows, net-append p s.db.tables.logs l, h) refl)
    ]
  ]

  pub write_log-Logged :
      (product : RowId) (batch : Option RowId) (qty : ℤ) (reason : LogReason) (user : Option RowId)
      → Triple
          (Logged p k)
          (write_log product batch qty reason user)
          (Logged p (k +ℤ of_product p product qty))
  unfolding write_log
  write_log-Logged product batch qty reason user =
      Triple-bind (Triple-quiet new_id-IsQuiet)
        (λ id. Triple-gets _ (λ now. record { at = insert_log_row-Logged _ }))

  pub insert_batch_row-Logged : (b : Batch) → Triple (Logged p k) (insert_batch_row b) (Logged p k)
  unfolding insert_batch_row put_tables
  insert_batch_row-Logged b = record {
    at = λ s h. elim (Option-cases (insert batch_key b s.db.tables.batches)) [
      | inl clash ↦ rw (clash, insert_batch_row) tt
      | inr new ↦ elim (Bool-cases (fits_int4 (pos b.quantity))) [
        | inr over ↦ rw (new.1, insert_batch_row, over) tt
        | inl fits ↦ rw (new.1, insert_batch_row, fits) h
      ]
    ];
  }

  pub write_quantity-Logged :
      (id : RowId) (n : _) → Triple (Logged p k) (write_quantity id n) (Logged p k)
  unfolding write_quantity put_tables
  write_quantity-Logged id n = record {
    at = λ s h. elim (Bool-cases (fits_int4 (pos n))) [
      | inr over ↦ rw over tt
      | inl fits ↦ rw fits h
    ];
  }

  pub delete_batch-Logged : (id : RowId) → Triple (Logged p k) (delete_batch id) (Logged p k)
  unfolding delete_batch put_tables delete_batch_row
  delete_batch-Logged id = record { at = λ s h. net-unlink p id s.db.tables.logs ∙ h }

  pub relocate-Logged : (id place : RowId) → Triple (Logged p k) (relocate id place) (Logged p k)
  unfolding relocate put_tables
  relocate-Logged id place = record { at = λ s h. h }

  pub destroy_container_tx-Logged :
      (storage id : RowId) → Triple (Logged p k) (destroy_container_tx storage id) (Logged p k)
  unfolding destroy_container_tx put_tables
  destroy_container_tx-Logged storage id = record {
    at = λ s h.
        elim (Bool-cases (destroyable storage (find container_key id s.db.tables.containers))) [
          | inr gone ↦ rw gone tt
          | inl here ↦ rw here h
        ];
  }

  update_container-Logged :
      (storage id : RowId) (f : Container → Container)
      → Triple (Logged p k) (update_container storage id f) (Logged p k)
  unfolding update_container put_tables
  update_container-Logged storage id f = record { at = λ s h. h }

  insert_container_row-Logged :
      (c : Container) → Triple (Logged p k) (insert_container_row c) (Logged p k)
  unfolding insert_container_row put_tables
  insert_container_row-Logged c = record {
    at = λ s h. elim (Option-cases (insert container_key c s.db.tables.containers)) [
      | inl clash ↦ rw (clash, insert_container_row) tt
      | inr new ↦ rw (new.1, insert_container_row) h
    ];
  }

  set_batch_container-Logged :
      (batch : RowId) (c : Option RowId)
      → Triple (Logged p k) (set_batch_container batch c) (Logged p k)
  unfolding set_batch_container put_tables
  set_batch_container-Logged batch c = record { at = λ s h. h }

  batch_container_id-Logged :
      (batch : RowId) → Triple (Logged p k) (batch_container_id batch) (Logged p k)
  unfolding batch_container_id
  batch_container_id-Logged batch =
      Triple-tables
        (λ t h. Triple-row_or _ _ (λ b found. Triple-pure _ (λ t' e. subst (Logged p k) (sym e) h)))

  label_container-Logged :
      (storage batch : RowId) (label : String) (c : Option RowId)
      → Triple (Logged p k) (label_container storage batch label c) (Logged p k)
  unfolding label_container
  label_container-Logged storage batch label none = Triple-bind (Triple-quiet new_id-IsQuiet) (λ id.
      Triple-gets _ (λ now.
        Triple-bind (insert_container_row-Logged _)
          (λ _. set_batch_container-Logged batch (some id))))
  label_container-Logged storage batch label (some c) = update_container-Logged storage c _

  type_container-Logged :
      (storage : RowId) (t : Option String) (c : Option RowId)
      → Triple (Logged p k) (type_container storage t c) (Logged p k)
  unfolding type_container
  type_container-Logged storage t none = Triple-fail _
  type_container-Logged storage t (some c) = update_container-Logged storage c _

  pub upsert_batch_container_label-Logged :
      (storage batch : RowId) (label : String)
      → Triple (Logged p k) (upsert_batch_container_label storage batch label) (Logged p k)
  unfolding upsert_batch_container_label
  upsert_batch_container_label-Logged storage batch label =
      Triple-bind (batch_container_id-Logged batch) (label_container-Logged storage batch label)

  pub set_batch_container_type-Logged :
      (storage batch : RowId) (t : Option String)
      → Triple (Logged p k) (set_batch_container_type storage batch t) (Logged p k)
  unfolding set_batch_container_type
  set_batch_container_type-Logged storage batch t =
      Triple-bind (batch_container_id-Logged batch) (type_container-Logged storage t)

  pub detach_batch_container-Logged :
      (batch : RowId) → Triple (Logged p k) (detach_batch_container batch) (Logged p k)
  unfolding detach_batch_container
  detach_batch_container-Logged batch = set_batch_container-Logged batch none
