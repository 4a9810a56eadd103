-- ===== src/Store/Sound/Create.antt =====
-- createBatch and the invariant of the stock: the product and the shelf are checked to be the storage's,
-- and the ledger row is written last.
use mathlib.Core.Path.{subst}
use inventory.Prelude.{
  ◌≤◌, ◌≡◌, refl, sym, ap, ◌∙◌, pos_part, false, Option, none, some, ℤ, pos, negsuc, ◌+ℤ◌, ◌-ℤ◌,
  ltb_ℤ, ◌==◌, arith, int_laws, inl, inr, Bool-cases, is_some, ◌||◌, ==_iff, String,
}
use inventory.Prelude.Table.{find}
use inventory.Store.Schema.{
  RowId, ExpirationSource, Product, Location, Batch, Inventory, Database, product_key, location_key,
}
use inventory.Store.Tx.{pure, Env}
use inventory.Store.Tx.Rules.{new_id-IsQuiet}
use inventory.Store.Tx.Triple.{
  Triple, Triple-bind, Triple-tables, Triple-pure, Triple-if, Triple-refuse_if, Triple-row_or,
  Triple-gets, Triple-quiet, Triple-weaken, Triple-strengthen, Triple-in_tx,
}
use inventory.Store.Rows.{
  in_storage_product, in_storage_location, find_product, find_location, insert_batch_row,
}
use inventory.Store.ShelfLife.{expiry_rules_for}
use inventory.Store.Batches.{
  NewBatch, bare, load_batch, batch_date, label_new_batch, type_new_batch, created_view,
  store_batch, create_batch_tx, create_batch,
}
use inventory.Store.Sound.{IsPlaced, Sound, SoundUpTo, SoundUpTo-zero, Sound-zero}
use inventory.Store.Sound.Steps.{
  insert_batch_row-SoundUpTo, write_log-SoundUpTo, bump-keeps, require_product-keeps,
  require_location-keeps,
}
use inventory.Store.Sound.Contained.{
  upsert_batch_container_label-keeps, set_batch_container_type-keeps,
}

some-eq : {A : Type 0} {a b : A} → some a ≡ some b → a ≡ b
some-eq e = cc

product-inv :
    (storage : RowId) (o : Option Product) {p : Product}
    → in_storage_product storage o ≡ some p
    → (o ≡ some p) × (p.storage_id ≡ storage)
product-inv storage none h = absurd (cc)
product-inv storage (some r) {p} h = elim (Bool-cases (r.storage_id == storage)) [
  | inl same ↦
      let e : some r ≡ some p = rw same at h in
      (e, ap (λ x. x.storage_id) (sym (some-eq e)) ∙ (==_iff r.storage_id storage).0 same)
  | inr other ↦ absurd (let e : none ≡ some p = rw other at h in cc)
]

location-inv :
    (storage : RowId) (o : Option Location) {l : Location}
    → in_storage_location storage o ≡ some l
    → (o ≡ some l) × (l.storage_id ≡ storage)
location-inv storage none h = absurd (cc)
location-inv storage (some r) {l} h = elim (Bool-cases (r.storage_id == storage)) [
  | inl same ↦
      let e : some r ≡ some l = rw same at h in
      (e, ap (λ x. x.storage_id) (sym (some-eq e)) ∙ (==_iff r.storage_id storage).0 same)
  | inr other ↦ absurd (let e : none ≡ some l = rw other at h in cc)
]

pub find_product-row :
    (storage id : RowId) (t : Inventory) {p : Product}
    → find_product storage id t ≡ some p
    → (find product_key id t.products ≡ some p) × (p.storage_id ≡ storage)
unfolding find_product
find_product-row storage id t h = product-inv storage (find product_key id t.products) h

pub find_location-row :
    (storage id : RowId) (t : Inventory) {l : Location}
    → find_location storage id t ≡ some l
    → (find location_key id t.locations ≡ some l) × (l.storage_id ≡ storage)
unfolding find_location
find_location-row storage id t h = location-inv storage (find location_key id t.locations) h

-- Reads keep everything.
pub load_batch-keeps :
    {P : Inventory → Type 0} (storage batch : RowId) → Triple P (load_batch storage batch) P
unfolding load_batch
load_batch-keeps {P} storage batch =
    Triple-tables (λ t h. Triple-row_or _ _ (λ b found. Triple-pure _ (λ t' e. subst P (sym e) h)))

pub batch_date-keeps :
    {P : Inventory → Type 0} (storage product : RowId) (d : Option _) (e : ExpirationSource)
    → Triple P (batch_date storage product d e) P
unfolding batch_date expiry_rules_for
batch_date-keeps storage product (some d) e = Triple-pure _ (λ t h. h)
batch_date-keeps storage product none ExpirationSource.user = Triple-pure _ (λ t h. h)
batch_date-keeps {P} storage product none _ =
    Triple-bind
      (Triple-tables
        (λ t h. Triple-row_or _ _ (λ p found. Triple-pure _ (λ t' e. subst P (sym e) h))))
      (λ rules. Triple-gets _ (λ now. Triple-pure _ (λ t h. h)))

label_new_batch-keeps :
    (q : RowId) (change : ℤ) (storage batch : RowId) (label : Option String)
    → Triple (SoundUpTo q change) (label_new_batch storage batch label) (SoundUpTo q change)
label_new_batch-keeps q change storage batch none = Triple-pure _ (λ t h. h)
label_new_batch-keeps q change storage batch (some l) =
    upsert_batch_container_label-keeps q change storage batch l

type_new_batch-keeps :
    (q : RowId) (change : ℤ) (storage batch : RowId) (t : Option (Option String))
    → Triple (SoundUpTo q change) (type_new_batch storage batch t) (SoundUpTo q change)
type_new_batch-keeps q change storage batch none = Triple-pure _ (λ t h. h)
type_new_batch-keeps q change storage batch (some t) =
    set_batch_container_type-keeps q change storage batch t

pub created_view-keeps :
    {P : Inventory → Type 0} (storage : RowId) (new : NewBatch) (b : Batch)
    → Triple P (created_view storage new b) P
created_view-keeps storage new b =
    Triple-if (is_some new.container_label || is_some new.container_type) {k = pure (bare b)}
      (λ _. load_batch-keeps storage b.id) (λ _. Triple-pure (bare b) (λ t h. h))

store_batch-Sound :
    (storage : RowId) (new : NewBatch) (b : Batch) (t : Inventory)
    → b.product_id ≡ new.product_id
    → pos b.quantity ≡ new.quantity
    → 1 ≤ b.quantity
    → IsPlaced t.products t.locations b
    → Sound t
    → Triple (λ t'. t' ≡ t) (store_batch storage new b) Sound
unfolding store_batch
store_batch-Sound storage new b t product quantity positive placed h = Triple-bind inserted (λ _.
    Triple-bind (label_new_batch-keeps b.product_id change storage b.id new.container_label) (λ _.
      Triple-bind (type_new_batch-keeps b.product_id change storage b.id new.container_type) (λ _.
        Triple-bind
          (Triple-strengthen (λ t k. subst (λ p. SoundUpTo p change t) product k)
            (write_log-SoundUpTo new.product_id (some b.id) new.quantity new.reason new.created_by
              change))
          (λ _. Triple-bind (bump-keeps storage new.created_by new.reason b.id) (λ _.
            Triple-weaken (created_view-keeps storage new b)
              (λ t' k. Sound-zero new.product_id (change -ℤ new.quantity) t' closed k))))))
  where
    change : ℤ
    change = pos 0 +ℤ pos b.quantity

    closed : change -ℤ new.quantity ≡ pos 0
    closed = rw (← quantity) (omega int_laws)

    inserted : Triple (λ t'. t' ≡ t) (insert_batch_row b) (SoundUpTo b.product_id change)
    inserted = record {
      at = λ s e.
          insert_batch_row-SoundUpTo b (pos 0) s positive
            (subst (λ t'. IsPlaced t'.products t'.locations b) (sym e) placed)
            (subst (SoundUpTo b.product_id (pos 0)) (sym e) (SoundUpTo-zero b.product_id t h));
    }

quantity_of_request : (n : ℤ) → ltb_ℤ n (pos 1) ≡ false → (pos (pos_part n) ≡ n) × (1 ≤ pos_part n)
quantity_of_request (pos n) h = (refl, ground arith)
quantity_of_request (negsuc n) h = absurd (ground arith)

pub create_batch_tx-Sound :
    (storage : RowId) (new : NewBatch) → Triple Sound (create_batch_tx storage new) Sound
unfolding create_batch_tx
create_batch_tx-Sound storage new = Triple-refuse_if _ _ (λ enough. Triple-refuse_if _ _ (λ reason.
    Triple-bind (Triple-quiet new_id-IsQuiet) (λ id.
      require_product-keeps storage new.product_id (λ t p h found.
        require_location-keeps storage new.location_id (λ t' l e place.
          Triple-bind (batch_date-keeps storage new.product_id _ _) (λ date. Triple-gets _ (λ now.
            let (whole, positive) = quantity_of_request new.quantity enough in
            let (row, home) = find_product-row storage new.product_id t found in
            let (shelf, there) = find_location-row storage new.location_id t' place in
            store_batch-Sound storage new _ t' refl whole positive
              (record {
                product = p;
                location = l;
                its_product =
                    subst (λ u. find product_key new.product_id u.products ≡ some p) (sym e) row;
                its_location = shelf;
                one_storage = home ∙ sym there;
              })
              (subst Sound (sym e) h))))))))

-- A sound stock stays sound under every creation of a batch, whatever it answers.
pub create_batch-Sound :
    (env : Env) (storage : RowId) (new : NewBatch) (db : Database)
    → Sound db.tables
    → Sound (create_batch env storage new db).1.tables
unfolding create_batch
create_batch-Sound env storage new db h = Triple-in_tx env db (create_batch_tx-Sound storage new) h
