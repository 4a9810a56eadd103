-- ===== src/Store/Sound/Contained.antt =====
-- The container operations and the invariant of the stock, up to a change that is still to be logged.
use inventory.Prelude.{Option, none, some, ℤ, String, inl, inr, Bool-cases, Option-cases}
use inventory.Prelude.Table.{find, insert}
use inventory.Store.Schema.{RowId, Container, container_key}
use inventory.Store.Tx.{put_tables}
use inventory.Store.Tx.Rules.{new_id-IsQuiet}
use inventory.Store.Tx.Triple.{
  Triple, Triple-bind, Triple-tables, Triple-fail, Triple-pure, Triple-row_or, Triple-gets,
  Triple-quiet,
}
use inventory.Store.Containers.{
  destroyable, destroy_container_tx, batch_container_id, update_container, insert_container_row,
  set_batch_container, label_container, upsert_batch_container_label, detach_batch_container,
  type_container, set_batch_container_type,
}
use inventory.Store.Sound.{SoundUpTo}
use inventory.Store.Sound.Statements.{set_container-SoundUpTo, clear_container-SoundUpTo}

module _ (q : RowId) (change : ℤ) where
  pub destroy_container_tx-keeps :
      (storage id : RowId)
      → Triple (SoundUpTo q change) (destroy_container_tx storage id) (SoundUpTo q change)
  unfolding destroy_container_tx put_tables
  destroy_container_tx-keeps storage id = record {
    at = λ s h.
        elim (Bool-cases (destroyable storage (find container_key id s.db.tables.containers))) [
          | inr gone ↦ rw gone tt
          | inl here ↦ rw here (
              let c = clear_container-SoundUpTo id s.db.tables q change h in
              record {
                unique = c.unique;
                placed = c.placed;
                positive = c.positive;
                balance = c.balance;
              })
        ];
  }

  update_container-keeps :
      (storage id : RowId) (f : Container → Container)
      → Triple (SoundUpTo q change) (update_container storage id f) (SoundUpTo q change)
  unfolding update_container put_tables
  update_container-keeps storage id f = record {
    at = λ s h. record {
      unique = h.unique;
      placed = h.placed;
      positive = h.positive;
      balance = h.balance;
    };
  }

  insert_container_row-keeps :
      (c : Container) → Triple (SoundUpTo q change) (insert_container_row c) (SoundUpTo q change)
  unfolding insert_container_row put_tables
  insert_container_row-keeps c = record {
    at = λ s h. elim (Option-cases (insert container_key c s.db.tables.containers)) [
      | inl clash ↦ rw (clash, insert_container_row) tt
      | inr new ↦
          rw (new.1, insert_container_row)
            (record {
              unique = h.unique;
              placed = h.placed;
              positive = h.positive;
              balance = h.balance;
            })
    ];
  }

  set_batch_container-keeps :
      (batch : RowId) (c : Option RowId)
      → Triple (SoundUpTo q change) (set_batch_container batch c) (SoundUpTo q change)
  unfolding set_batch_container put_tables
  set_batch_container-keeps batch c = record {
    at = λ s h. set_container-SoundUpTo batch c s.db.tables q change h;
  }

  label_container-keeps :
      (storage batch : RowId) (label : String) (c : Option RowId)
      → Triple (SoundUpTo q change) (label_container storage batch label c) (SoundUpTo q change)
  unfolding label_container
  label_container-keeps storage batch label none = Triple-bind (Triple-quiet new_id-IsQuiet) (λ id.
      Triple-gets _ (λ now.
        Triple-bind (insert_container_row-keeps _)
          (λ _. set_batch_container-keeps batch (some id))))
  label_container-keeps storage batch label (some c) = update_container-keeps storage c _

  type_container-keeps :
      (storage : RowId) (t : Option String) (c : Option RowId)
      → Triple (SoundUpTo q change) (type_container storage t c) (SoundUpTo q change)
  unfolding type_container
  type_container-keeps storage t none = Triple-fail _
  type_container-keeps storage t (some c) = update_container-keeps storage c _

  -- Reading the current container changes nothing.
  batch_container_id-keeps :
      (batch : RowId) → Triple (SoundUpTo q change) (batch_container_id batch) (SoundUpTo q change)
  unfolding batch_container_id
  batch_container_id-keeps batch =
      Triple-tables (λ t h. Triple-row_or _ _ (λ b found. Triple-pure _ (λ t' e. rw e h)))

  pub upsert_batch_container_label-keeps :
      (storage batch : RowId) (label : String)
      → Triple
          (SoundUpTo q change)
          (upsert_batch_container_label storage batch label)
          (SoundUpTo q change)
  unfolding upsert_batch_container_label
  upsert_batch_container_label-keeps storage batch label =
      Triple-bind (batch_container_id-keeps batch) (label_container-keeps storage batch label)

  pub set_batch_container_type-keeps :
      (storage batch : RowId) (t : Option String)
      → Triple (SoundUpTo q change) (set_batch_container_type storage batch t) (SoundUpTo q change)
  unfolding set_batch_container_type
  set_batch_container_type-keeps storage batch t =
      Triple-bind (batch_container_id-keeps batch) (type_container-keeps storage t)

  pub detach_batch_container-keeps :
      (batch : RowId)
      → Triple (SoundUpTo q change) (detach_batch_container batch) (SoundUpTo q change)
  unfolding detach_batch_container
  detach_batch_container-keeps batch = set_batch_container-keeps batch none
