-- ===== src/Store/Sound/Divide.antt =====
-- SplitBatch and the invariant of the stock: the debit, the new batch and the two ledger rows.
use mathlib.Core.Path.{subst}
use inventory.Prelude.{
  ℕ, ◌≤◌, ◌-◌, ◌≡◌, refl, sym, ◌∙◌, pos_part, false, not, Option, none, some, ℤ, pos, negsuc, neg,
  ◌+ℤ◌, ◌-ℤ◌, arith, int_laws, inl, inr, Bool-cases, if-keeps,
}
use inventory.Prelude.Table.{find}
use inventory.Store.Schema.{
  RowId, Instant, Batch, Inventory, Database, product_key, location_key, batch_key, move,
  container_key,
}
use inventory.Store.Tx.{Result, put_tables, Env}
use inventory.Store.Tx.Rules.{new_id-IsQuiet}
use inventory.Store.Tx.Triple.{
  Triple, Triple-bind, Triple-tables, Triple-pure, Triple-refuse_if, Triple-row_or, Triple-gets,
  Triple-quiet, Triple-weaken, Triple-strengthen, Triple-and, Triple-in_tx,
}
use inventory.Store.Rows.{fits_int4, insert_batch_row}
use inventory.Store.Containers.{
  ContainerDisposition, target, neither, destroy, valid_container_disposition, destroyable,
  destroy_container_tx, set_batch_container, detach_batch_container,
}
use inventory.Store.Batches.{BatchView, write_quantity}
use inventory.Store.Batches.Split.{
  SplitBatchInput, disposition_or_source, dispose_source, target_container, split_off, not_a_split,
  split_batch_tx, split_batch,
}
use inventory.Store.Sound.{IsPlaced, Sound, SoundUpTo, SoundUpTo-zero, Sound-zero}
use inventory.Store.Sound.Steps.{
  insert_batch_row-SoundUpTo, write_log-SoundUpTo, require_location-keeps,
}
use inventory.Store.Sound.Contained.{destroy_container_tx-keeps, detach_batch_container-keeps}
use inventory.Store.Sound.Adjust.{find_batch-row, find_batch-own_row, write_quantity-step}
use inventory.Store.Sound.Create.{find_product-row, find_location-row, load_batch-keeps}

-- What the source's side of a split does to the shelf that awaits the new batch.
module _ (b : Batch) where
  abbrev Awaits : Inventory → Type 0
  Awaits t = IsPlaced t.products t.locations b

  write_quantity-Awaits : (id : RowId) (n : ℕ) → Triple Awaits (write_quantity id n) Awaits
  unfolding write_quantity put_tables
  write_quantity-Awaits id n = record {
    at = λ s h. elim (Bool-cases (fits_int4 (pos n))) [
      | inl fits ↦ rw fits h
      | inr over ↦ rw over tt
    ];
  }

  destroy_container_tx-Awaits :
      (storage id : RowId) → Triple Awaits (destroy_container_tx storage id) Awaits
  unfolding destroy_container_tx put_tables
  destroy_container_tx-Awaits storage id = record {
    at = λ s h.
        elim (Bool-cases (destroyable storage (find container_key id s.db.tables.containers))) [
          | inl here ↦ rw here h
          | inr gone ↦ rw gone tt
        ];
  }

  detach_batch_container-Awaits : (id : RowId) → Triple Awaits (detach_batch_container id) Awaits
  unfolding detach_batch_container set_batch_container put_tables
  detach_batch_container-Awaits id = record { at = λ s h. h }

  dispose_source-Awaits :
      (storage id : RowId) (d : ContainerDisposition) (c : Option RowId)
      → Triple Awaits (dispose_source storage id d c) Awaits
  unfolding dispose_source
  dispose_source-Awaits storage id d none = Triple-pure _ (λ t h. h)
  dispose_source-Awaits storage id target (some c) = detach_batch_container-Awaits id
  dispose_source-Awaits storage id neither (some c) = detach_batch_container-Awaits id
  dispose_source-Awaits storage id destroy (some c) = destroy_container_tx-Awaits storage c
  dispose_source-Awaits storage id _ (some c) = Triple-pure _ (λ t h. h)

dispose_source-SoundUpTo :
    (q : RowId) (change : ℤ) (storage id : RowId) (d : ContainerDisposition) (c : Option RowId)
    → Triple (SoundUpTo q change) (dispose_source storage id d c) (SoundUpTo q change)
unfolding dispose_source
dispose_source-SoundUpTo q change storage id d none = Triple-pure _ (λ t h. h)
dispose_source-SoundUpTo q change storage id target (some c) =
    detach_batch_container-keeps q change id
dispose_source-SoundUpTo q change storage id neither (some c) =
    detach_batch_container-keeps q change id
dispose_source-SoundUpTo q change storage id destroy (some c) =
    destroy_container_tx-keeps q change storage c
dispose_source-SoundUpTo q change storage id _ (some c) = Triple-pure _ (λ t h. h)

cancels : (q n : ℕ) → n ≤ q → pos 0 +ℤ (pos (q - n) -ℤ pos q) +ℤ pos n -ℤ neg n -ℤ pos n ≡ pos 0
cancels q n h = omega int_laws

split_off-Sound :
    (storage : RowId) (b : Batch) (n : ℕ) (place : RowId) (d : ContainerDisposition) (id : RowId)
    (user : Option RowId) (t : Inventory)
    → find batch_key b.id t.batches ≡ some b
    → 1 ≤ n
    → 1 ≤ b.quantity - n
    → ((c : Batch)
        → c.product_id ≡ b.product_id
        → c.location_id ≡ place
        → IsPlaced t.products t.locations c)
    → Sound t
    → Triple (λ t'. t' ≡ t) (split_off storage b n place d id user) Sound
unfolding split_off
split_off-Sound storage b n place d id user t row some_leave some_stay shelf h =
    Triple-bind
      (Triple-and (write_quantity-step b.id (b.quantity - n) (pos 0) b t row some_stay upto) (
        Triple-strengthen (λ t' e. subst (λ u. Awaits portion u) (sym e) (shelf portion refl refl))
          (write_quantity-Awaits portion b.id (b.quantity - n))))
      (λ _.
        Triple-bind
          (Triple-and
            (Triple-strengthen (λ t' k. k.0)
              (dispose_source-SoundUpTo b.product_id given storage b.id d b.container_id))
            (Triple-strengthen (λ t' k. k.1)
              (dispose_source-Awaits portion storage b.id d b.container_id)))
          (λ _. Triple-gets _ (λ now. Triple-bind (inserted now.instant) (λ _.
            Triple-bind
              (write_log-SoundUpTo b.product_id (some b.id) (neg n) move user (given +ℤ pos n))
              (λ _.
                Triple-bind
                  (write_log-SoundUpTo b.product_id (some id) (pos n) move user
                    (given +ℤ pos n -ℤ neg n))
                  (λ _.
                    Triple-weaken (load_batch-keeps storage id) (λ t'.
                      Sound-zero b.product_id _ t' (cancels b.quantity n (omega arith)))))))))
  where
    portion : Batch
    portion = record b { location_id = place; quantity = n }

    given : ℤ
    given = pos 0 +ℤ (pos (b.quantity - n) -ℤ pos b.quantity)

    inserted :
        (now : Instant)
        → Triple
            (λ u. SoundUpTo b.product_id given u × Awaits portion u)
            (insert_batch_row (record portion {
              id = id;
              created_at = now;
              container_id = target_container d b.container_id;
            }))
            (SoundUpTo b.product_id (given +ℤ pos n))
    inserted now = record {
      at = λ s k.
          insert_batch_row-SoundUpTo _ given s some_leave
            (record {
              product = (k.1).product;
              location = (k.1).location;
              its_product = (k.1).its_product;
              its_location = (k.1).its_location;
              one_storage = (k.1).one_storage;
            })
            (k.0);
    }

    upto : SoundUpTo b.product_id (pos 0) t
    upto = SoundUpTo-zero b.product_id t h

-- The request's number of units, once the guard has passed it.
quantity_of_split :
    (n : ℤ) (b : Batch) → not_a_split n b ≡ false → (1 ≤ pos_part n) × (1 ≤ b.quantity - pos_part n)
unfolding ◌-ℤ◌
quantity_of_split (pos n) b h = ground arith
quantity_of_split (negsuc n) b h = ground arith

split_batch_tx-Sound :
    (storage batch : RowId) (input : SplitBatchInput) (d : ContainerDisposition) (id : RowId)
    (user : Option RowId)
    → Triple Sound (split_batch_tx storage batch input d id user) Sound
unfolding split_batch_tx
split_batch_tx-Sound storage batch input d id user = Triple-tables (λ t h.
    Triple-row_or _ _ (λ b found. Triple-refuse_if _ _ (λ fits.
      require_location-keeps storage input.target_location_id (λ t' l e place.
        let (some_leave, some_stay) = quantity_of_split input.quantity b fits in
        let row = find_batch-own_row storage batch t found in
        let (_, (p, its)) = find_batch-row storage batch t found in
        let (product, home) = find_product-row storage b.product_id t its in
        let (shelf, there) = find_location-row storage input.target_location_id t' place in
        split_off-Sound storage b (pos_part input.quantity) input.target_location_id d id user t'
          (subst (λ u. find batch_key b.id u.batches ≡ some b) (sym e) row) some_leave some_stay
          (λ c same here. record {
            product = p;
            location = l;
            its_product =
                subst (λ k. find product_key k t'.products ≡ some p) (sym same)
                  (subst (λ u. find product_key b.product_id u.products ≡ some p) (sym e) product);
            its_location = subst (λ k. find location_key k t'.locations ≡ some l) (sym here) shelf;
            one_storage = home ∙ sym there;
          })
          (subst Sound (sym e) h)))))

-- A sound stock stays sound under every split of a batch, whatever it answers.
pub split_batch-Sound :
    (env : Env) (storage batch : RowId) (input : SplitBatchInput) (user : Option RowId)
    (db : Database)
    → Sound db.tables
    → Sound (split_batch env storage batch input user db).1.tables
unfolding split_batch
split_batch-Sound env storage batch input user db h =
    if-keeps (λ (r : Result BatchView × Database). Sound r.1.tables)
      (not (valid_container_disposition (disposition_or_source input.container_disposition))) _ _ h
      (Triple-in_tx env db
        (Triple-bind (Triple-quiet new_id-IsQuiet)
          (λ id. split_batch_tx-Sound storage batch input _ id user))
        h)
