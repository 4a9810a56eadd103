-- ===== src/Store/Sound/Redated.antt =====
-- The writes of internal/store/expiry.go and the invariant of the stock: a new date moves nothing.
use mathlib.Core.Path.{subst}
use inventory.Prelude.{◌≤◌, ◌≡◌, refl, sym, Bool, none, List, [], ◌∷◌, All, if-keeps, ◌==◌, arith}
use inventory.Prelude.Table.{find, modify, Unique, total, update_where}
use inventory.Expiry.{Day, Resolution, resolve}
use inventory.Prelude.{Option}
use inventory.Store.Schema.{RowId, Product, Location, Batch, Inventory, Database, batch_key}
use inventory.Store.Tx.{put_tables, Env}
use inventory.Store.Tx.Triple.{
  Triple, Triple-bind, Triple-tables, Triple-row_or, Triple-pure, Triple-strengthen, Triple-in_tx,
}
use inventory.Store.ShelfLife.{expiry_rules_for}
use inventory.Store.Dates.{
  DerivedBatch, is_redated, redated, date_of_row, apply_derived_expiry, recompute_derived_expiry_tx,
  recompute_derived_expiry, reset_batch_expiration_to_derived,
}
use inventory.Store.Sound.{stock, IsPlaced, Sound}
use inventory.Store.Sound.Create.{load_batch-keeps}

module _ (test : Batch → Bool) (date : Option Day) where
  abbrev rows : List Batch → List Batch
  rows = update_where test (redated date)

  find-rows :
      (k : RowId) (bs : List Batch) → find batch_key k bs ≡ none → find batch_key k (rows bs) ≡ none
  unfolding find update_where
  find-rows k [] h = refl
  find-rows k (b ∷ bs) h = ground (arith, find-rows k bs)

  Unique-rows : (bs : List Batch) → Unique batch_key bs → Unique batch_key (rows bs)
  unfolding update_where
  Unique-rows [] u = tt
  Unique-rows (b ∷ bs) u = (
    if-keeps (λ r. find batch_key (batch_key r) (rows bs) ≡ none) (test b) _ _
        (find-rows b.id bs u.0) (find-rows b.id bs u.0),
    Unique-rows bs u.1,
  )

  module _ (products : List Product) (locations : List Location) where
    All-rows :
        (bs : List Batch)
        → All (IsPlaced products locations) bs
        → All (IsPlaced products locations) (rows bs)
    unfolding update_where
    All-rows [] h = tt
    All-rows (b ∷ bs) h = (
      if-keeps (IsPlaced products locations) (test b) _ _
          (record {
            product = h.0.product;
            location = h.0.location;
            its_product = h.0.its_product;
            its_location = h.0.its_location;
            one_storage = h.0.one_storage;
          })
          h.0,
      All-rows bs h.1,
    )

  positive-rows :
      (bs : List Batch) → All (λ b. 1 ≤ b.quantity) bs → All (λ b. 1 ≤ b.quantity) (rows bs)
  unfolding update_where
  positive-rows [] h = tt
  positive-rows (b ∷ bs) h =
      (if-keeps (λ (r : Batch). 1 ≤ r.quantity) (test b) _ _ h.0 h.0, positive-rows bs h.1)

  stock-rows : (p : RowId) (bs : List Batch) → stock p (rows bs) ≡ stock p bs
  unfolding stock total update_where
  stock-rows p [] = refl
  stock-rows p (b ∷ bs) = ground (arith, stock-rows p bs)

  Sound-rows : (t : Inventory) → Sound t → Sound (record t { batches = rows t.batches })
  Sound-rows t h = record {
    unique = Unique-rows t.batches h.unique;
    placed = All-rows t.products t.locations t.batches h.placed;
    positive = positive-rows t.batches h.positive;
    balance = λ p. rw (stock-rows p t.batches) (h.balance p);
  }

modify-rows :
    (k : RowId) (f : Batch → Batch) (bs : List Batch)
    → modify batch_key k f bs ≡ update_where (λ b. b.id == k) f bs
unfolding modify update_where
modify-rows k f [] = refl
modify-rows k f (b ∷ bs) = rw (modify-rows k f bs) refl

expiry_rules_for-keeps :
    {P : Inventory → Type 0} (storage product : RowId)
    → Triple P (expiry_rules_for storage product) P
unfolding expiry_rules_for
expiry_rules_for-keeps {P} storage product =
    Triple-tables (λ t h. Triple-row_or _ _ (λ p found. Triple-pure _ (λ t' e. subst P (sym e) h)))

redate-Sound :
    (test : Batch → Bool) (date : Option Day) (t : Inventory)
    → Sound t
    → Triple
        (λ t'. t' ≡ t)
        (put_tables (record t { batches = update_where test (redated date) t.batches }))
        Sound
unfolding put_tables
redate-Sound test date t h = record { at = λ s e. Sound-rows test date t h }

redate_row-Sound :
    (id : RowId) (date : Option Day) (t : Inventory)
    → Sound t
    → Triple
        (λ t'. t' ≡ t)
        (put_tables (record t { batches = modify batch_key id (redated date) t.batches }))
        Sound
redate_row-Sound id date t h =
    rw (modify-rows id (redated date) t.batches) (redate-Sound (λ r. r.id == id) date t h)

apply_derived_expiry-Sound :
    (ds : List DerivedBatch) (r : Resolution) → Triple Sound (apply_derived_expiry ds r) Sound
unfolding apply_derived_expiry
apply_derived_expiry-Sound [] r = Triple-pure 0 (λ t h. h)
apply_derived_expiry-Sound (d ∷ ds) r = Triple-tables (λ t h.
    Triple-bind (redate-Sound (is_redated d.id) (date_of_row r d.created_at) t h)
      (λ _. Triple-bind (apply_derived_expiry-Sound ds r) (λ n. Triple-pure _ (λ u k. k))))

-- A sound stock stays sound under every RecomputeDerivedExpiry, whatever it answers.
pub recompute_derived_expiry-Sound :
    (env : Env) (storage product : RowId) (db : Database)
    → Sound db.tables
    → Sound (recompute_derived_expiry env storage product db).1.tables
unfolding recompute_derived_expiry recompute_derived_expiry_tx
recompute_derived_expiry-Sound env storage product db h =
    Triple-in_tx env db
      (Triple-bind (expiry_rules_for-keeps storage product) (λ rules.
        Triple-tables (λ t k.
          Triple-strengthen (λ u e. subst Sound (sym e) k) (apply_derived_expiry-Sound _ _))))
      h

-- A sound stock stays sound under every ResetBatchExpirationToDerived, whatever it answers.
pub reset_batch_expiration_to_derived-Sound :
    (env : Env) (storage batch : RowId) (db : Database)
    → Sound db.tables
    → Sound (reset_batch_expiration_to_derived env storage batch db).1.tables
unfolding reset_batch_expiration_to_derived
reset_batch_expiration_to_derived-Sound env storage batch db h =
    Triple-in_tx env db
      (Triple-tables (λ t k. Triple-row_or _ _ (λ (b : Batch) found.
        Triple-bind (expiry_rules_for-keeps storage b.product_id) (λ rules.
          Triple-bind (redate_row-Sound batch (date_of_row (resolve rules) b.created_at) t k)
            (λ _. load_batch-keeps storage b.id)))))
      h
