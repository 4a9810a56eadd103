-- ===== src/Store/Sound/Amend.antt =====
-- UpdateBatch and the invariant of the stock: the count, the move and the container.
use mathlib.Core.Path.{subst}
use inventory.Prelude.{
  ℕ, ◌≡◌, refl, sym, ◌∙◌, Option, none, some, String, ℤ, pos, neg, ◌-ℤ◌, ◌==◌, int_laws, if-keeps,
}
use inventory.Prelude.Table.{find}
use inventory.Store.Schema.{
  RowId, LogReason, move, Batch, Inventory, Database, product_key, batch_key,
}
use inventory.Store.Tx.{Result, Tx, put_tables, Env}
use inventory.Store.Tx.Triple.{
  Triple, Triple-bind, Triple-tables, Triple-pure, Triple-if, Triple-refuse_if, Triple-row_or,
  Triple-when, Triple-weaken, Triple-strengthen, Triple-in_tx,
}
use inventory.Store.Batches.{BatchView, is_zero}
use inventory.Store.Batches.Update.{
  correct_quantity, set_batch_quantity, set_location, relocate, move_to, move_batch, BatchPatch,
  touches_container, zero_quantity, bad_patch, patch_quantity, patch_label, patch_type,
  patch_container, patch_location, patch_rest, update_batch_tx, update_batch,
}
use inventory.Store.Sound.{IsPlaced, Sound, SoundUpTo, SoundUpTo-zero, Sound-zero}
use inventory.Store.Sound.Statements.{relocate-SoundUpTo}
use inventory.Store.Sound.Steps.{write_log-SoundUpTo, require_location-keeps}
use inventory.Store.Sound.Contained.{
  upsert_batch_container_label-keeps, set_batch_container_type-keeps, detach_batch_container-keeps,
}
use inventory.Store.Sound.Adjust.{find_batch-row, find_batch-own_row, adjust_batch_tx-Sound}
use inventory.Store.Sound.Create.{find_product-row, find_location-row, load_batch-keeps}

correct_quantity-Sound :
    (storage : RowId) (b : Batch) (quantity : ℤ) (user : Option RowId)
    → Triple Sound (correct_quantity storage b quantity user) Sound
unfolding correct_quantity
correct_quantity-Sound storage b quantity user =
    Triple-if (is_zero (quantity -ℤ pos b.quantity)) (λ _. Triple-pure _ (λ t h. h))
      (λ _.
        Triple-bind
          (Triple-bind
            (adjust_batch_tx-Sound storage b.id (quantity -ℤ pos b.quantity) LogReason.audit user)
            (λ _. Triple-pure _ (λ t h. h)))
          (λ _. Triple-pure _ (λ t h. h)))

pub set_batch_quantity-Sound :
    (storage batch : RowId) (quantity : ℤ) (user : Option RowId)
    → Triple Sound (set_batch_quantity storage batch quantity user) Sound
unfolding set_batch_quantity
set_batch_quantity-Sound storage batch quantity user = Triple-refuse_if _ _ (λ counted.
    Triple-tables (λ t h. Triple-row_or _ _ (λ b found.
      Triple-strengthen (λ t' e. subst Sound (sym e) h)
        (correct_quantity-Sound storage b quantity user))))

there_and_back : (n : ℕ) → pos 0 -ℤ neg n -ℤ pos n ≡ pos 0
there_and_back n = omega int_laws

move_to-Sound :
    (b : Batch) (place : RowId) (user : Option RowId) (t : Inventory)
    → find batch_key b.id t.batches ≡ some b
    → IsPlaced t.products t.locations (set_location place b)
    → Sound t
    → Triple (λ t'. t' ≡ t) (move_to b place user) Sound
unfolding move_to relocate put_tables
move_to-Sound b place user t row placed h = Triple-bind moved (λ _.
    Triple-bind (write_log-SoundUpTo b.product_id (some b.id) (neg b.quantity) move user (pos 0))
      (λ _.
        Triple-bind
          (write_log-SoundUpTo b.product_id (some b.id) (pos b.quantity) move user
            (pos 0 -ℤ neg b.quantity))
          (λ _.
            Triple-pure _ (λ t' k. Sound-zero b.product_id _ t' (there_and_back b.quantity) k))))
  where
    moved : Triple (λ t'. t' ≡ t) (relocate b.id place) (SoundUpTo b.product_id (pos 0))
    moved = record {
      at = λ s e. rw e (
          relocate-SoundUpTo b.id place t b.product_id (pos 0) row placed
            (SoundUpTo-zero b.product_id t h));
    }

move_batch-Sound :
    (storage batch place : RowId) (user : Option RowId)
    → Triple Sound (move_batch storage batch place user) Sound
unfolding move_batch
move_batch-Sound storage batch place user = Triple-tables (λ t h. Triple-row_or _ _ (λ b found.
    require_location-keeps storage place (λ t' l e there.
      let sound : Sound t' = subst Sound (sym e) h in
      let row = find_batch-own_row storage batch t found in
      let (_, (p, its)) = find_batch-row storage batch t found in
      let (product, home) = find_product-row storage b.product_id t its in
      let (shelf, same) = find_location-row storage place t' there in
      Triple-if (b.location_id == place)
        (λ _. Triple-strengthen (λ u k. subst Sound (sym k) sound) (load_batch-keeps storage batch))
        (λ _.
          move_to-Sound b place user t'
            (subst (λ u. find batch_key b.id u.batches ≡ some b) (sym e) row)
            (record {
              product = p;
              location = l;
              its_product =
                  subst (λ u. find product_key b.product_id u.products ≡ some p) (sym e) product;
              its_location = shelf;
              one_storage = home ∙ sym same;
            })
            sound))))

-- A container step, between two sound states.
pub unmoved :
    {A : Type 0} {m : Tx A}
    → ((q : RowId) → Triple (SoundUpTo q (pos 0)) m (SoundUpTo q (pos 0)))
    → Triple Sound m Sound
unmoved h =
    Triple-weaken (Triple-strengthen (λ t k. SoundUpTo-zero 0 t k) (h 0))
      (λ t k. Sound-zero 0 (pos 0) t refl k)

patch_label-Sound :
    (storage batch : RowId) (label : Option (Option String))
    → Triple Sound (patch_label storage batch label) Sound
patch_label-Sound storage batch none = Triple-pure _ (λ t h. h)
patch_label-Sound storage batch (some none) =
    unmoved (λ q. detach_batch_container-keeps q (pos 0) batch)
patch_label-Sound storage batch (some (some label)) =
    unmoved (λ q. upsert_batch_container_label-keeps q (pos 0) storage batch label)

patch_type-Sound :
    (storage batch : RowId) (t : Option (Option String))
    → Triple Sound (patch_type storage batch t) Sound
patch_type-Sound storage batch none = Triple-pure _ (λ t h. h)
patch_type-Sound storage batch (some t) =
    unmoved (λ q. set_batch_container_type-keeps q (pos 0) storage batch t)

patch_container-Sound :
    (storage batch : RowId) (p : BatchPatch) → Triple Sound (patch_container storage batch p) Sound
unfolding patch_container
patch_container-Sound storage batch p = Triple-when (touches_container p) (
    Triple-bind (Triple-bind (load_batch-keeps storage batch) (λ _. Triple-pure _ (λ t h. h))) (λ _.
      Triple-bind (patch_label-Sound storage batch p.container_label)
        (λ _. patch_type-Sound storage batch p.container_type)))

patch_location-Sound :
    (storage batch : RowId) (place : Option RowId) (user : Option RowId)
    → Triple Sound (patch_location storage batch place user) Sound
patch_location-Sound storage batch none user = Triple-pure _ (λ t h. h)
patch_location-Sound storage batch (some place) user =
    Triple-bind (move_batch-Sound storage batch place user) (λ _. Triple-pure _ (λ t h. h))

patch_quantity-Sound :
    (storage batch : RowId) (quantity : Option ℤ) (user : Option RowId)
    → Triple Sound (patch_quantity storage batch quantity user) Sound
patch_quantity-Sound storage batch none user = Triple-pure _ (λ t h. h)
patch_quantity-Sound storage batch (some q) user =
    Triple-bind (set_batch_quantity-Sound storage batch q user) (λ _. Triple-pure _ (λ t h. h))

patch_rest-Sound :
    (storage batch : RowId) (p : BatchPatch) (user : Option RowId)
    → Triple Sound (patch_rest storage batch p user) Sound
unfolding patch_rest
patch_rest-Sound storage batch p user = Triple-bind (patch_container-Sound storage batch p) (λ _.
    Triple-bind (patch_location-Sound storage batch p.location_id user)
      (λ _. Triple-bind (load_batch-keeps storage batch) (λ b. Triple-pure _ (λ t h. h))))

update_batch_tx-Sound :
    (storage batch : RowId) (p : BatchPatch) (user : Option RowId)
    → Triple Sound (update_batch_tx storage batch p user) Sound
unfolding update_batch_tx
update_batch_tx-Sound storage batch p user =
    Triple-bind (patch_quantity-Sound storage batch p.quantity user) (λ _.
      Triple-if (zero_quantity p.quantity) (λ _. Triple-pure _ (λ t h. h))
        (λ _. patch_rest-Sound storage batch p user))

-- A sound stock stays sound under every patch of a batch, whatever it answers.
pub update_batch-Sound :
    (env : Env) (storage batch : RowId) (p : BatchPatch) (user : Option RowId) (db : Database)
    → Sound db.tables
    → Sound (update_batch env storage batch p user db).1.tables
unfolding update_batch
update_batch-Sound env storage batch p user db h =
    if-keeps (λ (r : Result (Option BatchView) × Database). Sound r.1.tables) (bad_patch p) _ _ h
      (Triple-in_tx env db (update_batch_tx-Sound storage batch p user) h)
