-- ===== src/Store/Stocktake/Rows.antt =====
-- What the writes of internal/store/batches.go do to the row under one id.
use mathlib.Core.Path.{subst}
use mathlib.Core.Option
use inventory.Prelude.{
  ℕ, ◌≡◌, refl, sym, ◌∙◌, true, false, Option, none, some, List, [], ◌∷◌, exists, ◌&&◌, ◌<◌, ℤ, pos,
  negsuc, ◌+ℤ◌, ltb_ℤ, pos_part, ◌⊎◌, inl, inr, Bool-cases, Option-cases, ◌==◌, ==_iff, ==_refl,
  if◌then◌else◌, arith,
}
use inventory.Prelude.Table.{find, insert}
use inventory.Prelude.Table.Laws.{
  find-modify, find-remove, find-append_some, find-append_none, insert-eq-some, key-find,
}
use inventory.Store.Schema.{RowId, LogReason, Batch, InventoryLog, Inventory, batch_key, log_key}
use inventory.Store.Tx.{◌>>◌, pure, put_tables}
use inventory.Store.Tx.Rules.{new_id-IsQuiet}
use inventory.Store.Tx.Triple.{
  Triple, Triple-bind, Triple-tables, Triple-gets, Triple-row_or, Triple-refuse_if, Triple-pure,
  Triple-fail, Triple-if, Triple-strengthen, Triple-weaken, Triple-quiet,
}
use inventory.Store.Rows.{
  find_batch, fits_int4, insert_log_row, insert_batch_row, write_log, delete_batch_row,
}
use inventory.Store.Quests.{bump_for_ledger_reason}
use inventory.Store.Batches.{
  apply_delta, write_quantity, delete_batch, adjust_batch_tx, set_quantity, create_batch_tx,
  store_batch,
}
use inventory.Store.Sound.Steps.{bump-keeps, require_product-keeps, require_location-keeps}
use inventory.Store.Sound.Adjust.{find_batch-row}
use inventory.Store.Sound.Create.{batch_date-keeps}
use inventory.Store.Flow.Adjusted.{some-eq}
use inventory.Store.Stocktake.{FoundStock, found_batch}

module _ (k : RowId) where
  -- What stands under the id.
  abbrev pub Holds : Option Batch → Inventory → Type 0
  Holds o t = find batch_key k t.batches ≡ o

  insert_log_row-Holds :
      (o : Option Batch) (l : InventoryLog) → Triple (Holds o) (insert_log_row l) (Holds o)
  unfolding insert_log_row put_tables
  insert_log_row-Holds o l = record {
    at = λ s h. elim (Option-cases (insert log_key l s.db.tables.logs)) [
      | inl clash ↦ rw (clash, insert_log_row) tt
      | inr new ↦ elim (Bool-cases (fits_int4 l.change_qty)) [
        | inr over ↦ rw (new.1, insert_log_row, over) tt
        | inl fits ↦ rw (new.1, insert_log_row, fits) h
      ]
    ];
  }

  write_log-Holds :
      (o : Option Batch) (product : RowId) (batch : Option RowId) (qty : ℤ) (reason : LogReason)
      (user : Option RowId)
      → Triple (Holds o) (write_log product batch qty reason user) (Holds o)
  unfolding write_log
  write_log-Holds o product batch qty reason user =
      Triple-bind (Triple-quiet new_id-IsQuiet)
        (λ id. Triple-gets _ (λ now. insert_log_row-Holds o _))

  log_and_bump-Holds :
      (o : Option Batch) (storage product : RowId) (batch : Option RowId) (delta : ℤ)
      (reason : LogReason) (user : Option RowId) (at : RowId)
      → Triple
          (Holds o)
          (write_log product batch delta reason user
            >> (bump_for_ledger_reason storage user reason at >> pure product))
          (Holds o)
  log_and_bump-Holds o storage product batch delta reason user at =
      Triple-bind (write_log-Holds o product batch delta reason user)
        (λ _. Triple-bind (bump-keeps storage user reason at) (λ _. Triple-pure _ (λ t h. h)))

  write_quantity-Holds :
      (o : Option Batch) (id : RowId) (n : ℕ)
      → Triple
          (Holds o)
          (write_quantity id n)
          (Holds (if id == k then Option.map (set_quantity n) o else o))
  unfolding write_quantity put_tables
  write_quantity-Holds o id n = record {
    at = λ s h. elim (Bool-cases (fits_int4 (pos n))) [
      | inr over ↦ rw over tt
      | inl fits ↦
          rw fits (
            find-modify batch_key id k (set_quantity n) s.db.tables.batches (λ r. refl) ∙ rw h refl)
    ];
  }

  delete_batch-Holds :
      (o : Option Batch) (id : RowId)
      → Triple (Holds o) (delete_batch id) (Holds (if id == k then none else o))
  unfolding delete_batch put_tables delete_batch_row
  delete_batch-Holds o id = record {
    at = λ s h. find-remove batch_key id k s.db.tables.batches ∙ rw h refl;
  }

  -- An INSERT leaves the rows that are there.
  insert_batch_row-Holds :
      (b r : Batch) → Triple (Holds (some b)) (insert_batch_row r) (Holds (some b))
  unfolding insert_batch_row put_tables
  insert_batch_row-Holds b r = record {
    at = λ s h. elim (Option-cases (insert batch_key r s.db.tables.batches)) [
      | inl clash ↦ rw (clash, insert_batch_row) tt
      | inr new ↦ elim (Bool-cases (fits_int4 (pos r.quantity))) [
        | inr over ↦ rw (new.1, insert_batch_row, over) tt
        | inl fits ↦
            rw (new.1, insert_batch_row, fits)
              (rw (insert-eq-some batch_key r s.db.tables.batches new.1).1
                (find-append_some batch_key k s.db.tables.batches (r ∷ []) h))
      ]
    ];
  }

  -- A batch that is added for found stock.
  pub create_batch_tx-Holds :
      (b : Batch) (storage place : RowId) (by : Option RowId) (f : FoundStock)
      → Triple (Holds (some b)) (create_batch_tx storage (found_batch place by f)) (Holds (some b))
  unfolding create_batch_tx store_batch
  create_batch_tx-Holds b storage place by f = Triple-refuse_if _ _ (λ enough.
      Triple-refuse_if _ _ (λ reason. Triple-bind (Triple-quiet new_id-IsQuiet) (λ id.
        require_product-keeps storage f.product_id (λ t p h found.
          require_location-keeps storage place (λ t' l e there.
            Triple-strengthen (λ u e'. subst (Holds (some b)) (sym (e' ∙ e)) h)
              (Triple-bind (batch_date-keeps storage f.product_id _ _) (λ date.
                Triple-gets _ (λ now. Triple-bind (insert_batch_row-Holds b _) (λ _.
                  Triple-bind (Triple-pure _ (λ u g. g)) (λ _.
                    Triple-bind (Triple-pure _ (λ u g. g)) (λ _.
                      Triple-bind (write_log-Holds (some b) f.product_id _ f.quantity _ by) (λ _.
                        Triple-bind (bump-keeps storage by _ _)
                          (λ _. Triple-pure _ (λ u g. g))))))))))))))

  -- A row that the confirm created for found stock.
  abbrev pub FoundRow : RowId → List FoundStock → Batch → Type 0
  FoundRow place fs b =
      (b.location_id ≡ place)
      × (exists
            (λ (f : FoundStock). f.product_id == b.product_id && pos_part f.quantity == b.quantity)
            fs
          ≡ true)

  -- No row, unless found stock was created under the id.
  abbrev pub Gone : RowId → List FoundStock → Inventory → Type 0
  Gone place fs t = Holds none t ⊎ ((b : Batch) × FoundRow place fs b × Holds (some b) t)

  insert_batch_row-none :
      (r : Batch)
      → Triple (Holds none) (insert_batch_row r) (Holds (if r.id == k then some r else none))
  unfolding insert_batch_row put_tables
  insert_batch_row-none r = record {
    at = λ s h. elim (Option-cases (insert batch_key r s.db.tables.batches)) [
      | inl clash ↦ rw (clash, insert_batch_row) tt
      | inr new ↦ elim (Bool-cases (fits_int4 (pos r.quantity))) [
        | inr over ↦ rw (new.1, insert_batch_row, over) tt
        | inl fits ↦
            rw (new.1, insert_batch_row, fits)
              (rw (insert-eq-some batch_key r s.db.tables.batches new.1).1 (
                find-append_none batch_key k s.db.tables.batches (r ∷ []) h
                ∙ (unfold find in refl)))
      ]
    ];
  }

  created :
      (r : Batch) (place : RowId) (fs : List FoundStock) (t : Inventory)
      → FoundRow place fs r
      → Holds (if r.id == k then some r else none) t
      → Gone place fs t
  created r place fs t row h = elim (Bool-cases (r.id == k)) [
    | inl own ↦ inr (r, row, rw own at h)
    | inr other ↦ inl (rw other at h)
  ]

  -- Found stock is created where no row has the id.
  pub create_batch_tx-none :
      (storage place : RowId) (by : Option RowId) (f : FoundStock)
      → Triple (Holds none) (create_batch_tx storage (found_batch place by f)) (Gone place (f ∷ []))
  unfolding create_batch_tx store_batch
  create_batch_tx-none storage place by f = Triple-refuse_if _ _ (λ enough.
      Triple-refuse_if _ _ (λ reason. Triple-bind (Triple-quiet new_id-IsQuiet) (λ id.
        require_product-keeps storage f.product_id (λ t p h found.
          require_location-keeps storage place (λ t' l e there.
            Triple-strengthen (λ u e'. subst (Holds none) (sym (e' ∙ e)) h)
              (Triple-bind (batch_date-keeps storage f.product_id _ _) (λ date.
                Triple-gets _ (λ now. Triple-bind (insert_batch_row-none _) (λ _.
                  Triple-bind (Triple-pure _ (λ u g. g)) (λ _.
                    Triple-bind (Triple-pure _ (λ u g. g)) (λ _.
                      Triple-bind (write_log-Holds _ f.product_id _ f.quantity _ by) (λ _.
                        Triple-bind (bump-keeps storage by _ _) (λ _. Triple-pure _ (λ u g.
                          created _ place (f ∷ []) u
                            (refl, rw (==_refl f.product_id, ==_refl (pos_part f.quantity)) refl)
                            g))))))))))))))

  pub own_key :
      (storage id : RowId) (t : Inventory) {b : Batch}
      → find_batch storage id t ≡ some b
      → b.id ≡ id
  own_key storage id t found = key-find batch_key id t.batches (find_batch-row storage id t found).0

  -- An adjustment of another batch.
  pub adjust_batch_tx-other :
      (o : Option Batch) (storage id : RowId) (delta : ℤ) (reason : LogReason) (user : Option RowId)
      → (id == k) ≡ false
      → Triple (Holds o) (adjust_batch_tx storage id delta reason user) (Holds o)
  unfolding adjust_batch_tx apply_delta
  adjust_batch_tx-other o storage id delta reason user other = Triple-tables (λ t h.
      Triple-row_or _ _ (λ b found.
        let apart : (b.id == k) ≡ false = rw (own_key storage id t found) other in
        Triple-strengthen (λ u e. subst (Holds o) (sym e) h)
          (Triple-if (ltb_ℤ (pos b.quantity +ℤ delta) (pos 0)) (λ _. Triple-fail _)
            (λ _.
              Triple-if (pos_part (pos b.quantity +ℤ delta) == 0)
                (λ _.
                  Triple-bind (Triple-weaken (delete_batch-Holds o b.id) (λ u g. rw apart at g))
                    (λ _. log_and_bump-Holds o storage _ none delta reason user b.id))
                (λ _.
                  Triple-bind (Triple-weaken (write_quantity-Holds o b.id _) (λ u g. rw apart at g))
                    (λ _. log_and_bump-Holds o storage _ (some b.id) delta reason user b.id))))))

  -- What a count of `q` units leaves of the row: the row with that quantity, or none if it is empty.
  abbrev pub Counted : ℤ → Batch → Inventory → Type 0
  Counted q b t =
      (n : ℕ) × (q ≡ pos n)
      × (((n ≡ 0) × Holds none t) ⊎ ((0 < n) × Holds (some (set_quantity n b)) t))

  pub whole : (z : ℤ) → ltb_ℤ z (pos 0) ≡ false → z ≡ pos (pos_part z)
  whole (pos n) h = refl
  whole (negsuc n) h = absurd (ground arith)

  above_zero : (n : ℕ) → (n == 0) ≡ false → 0 < n
  above_zero n h = ground arith

  pub adjust_batch_tx-own :
      (b : Batch) (storage : RowId) (delta : ℤ) (reason : LogReason) (user : Option RowId)
      → Triple
          (Holds (some b))
          (adjust_batch_tx storage k delta reason user)
          (Counted (pos b.quantity +ℤ delta) b)
  unfolding adjust_batch_tx apply_delta
  adjust_batch_tx-own b storage delta reason user = Triple-tables (λ t h.
      Triple-row_or _ _ (λ r found.
        let same : r ≡ b = some-eq (sym (find_batch-row storage k t found).0 ∙ h) in
        let here : (r.id == k) ≡ true = rw (own_key storage k t found) (==_refl k) in
        Triple-strengthen (λ u e. subst (Holds (some b)) (sym e) h)
          (Triple-if (ltb_ℤ (pos r.quantity +ℤ delta) (pos 0)) (λ _. Triple-fail _)
            (λ enough.
              let left = whole (pos b.quantity +ℤ delta) (rw same at enough) in
              Triple-if (pos_part (pos r.quantity +ℤ delta) == 0)
                (λ gone. Triple-bind (delete_batch-Holds (some b) r.id) (λ _.
                  Triple-weaken (log_and_bump-Holds _ storage _ none delta reason user r.id)
                    (λ u g. (_, left, inl ((==_iff _ 0).0 (rw same at gone), rw here at g)))))
                (λ some_left. Triple-bind (write_quantity-Holds (some b) r.id _) (λ _.
                  Triple-weaken (log_and_bump-Holds _ storage _ (some r.id) delta reason user r.id)
                    (λ u g. (
                      _,
                      left,
                      inr (above_zero _ (rw same at some_left), rw (here, same) at g),
                    ))))))))
