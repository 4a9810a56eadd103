-- ===== src/Store/Dates/Cascade.antt =====
-- The cascade of RecomputeDerivedExpiry, row by row, against one pass over the table.
use inventory.Prelude.{
  ◌≡◌, refl, sym, ap, ◌∙◌, Option, some, List, [], ◌∷◌, map, Bool, true, false, ◌&&◌, ◌||◌, inl,
  inr, Bool-cases, ◌==◌, ==_iff, arith, member, select, All, if◌then◌else◌, ltb,
}
use inventory.Prelude.Table.{find}
use inventory.Expiry.{Resolution}
use inventory.Store.Schema.{RowId, Batch, batch_key}
use inventory.Store.Dates.{
  DerivedBatch, derived_batch, insert_by_id, by_id, follows_rules, load_derived_batches, is_redated,
  redated, date_of_row, is_derived,
}

-- The date of a row whose date follows the rules, and no other.
abbrev pub rederived : Resolution → RowId → Batch → Batch
rederived r product b =
    if follows_rules product b then redated (date_of_row r b.created_at) b else b

-- The instant that was read is the row's.
abbrev Agrees : Batch → DerivedBatch → Type 0
Agrees b d = d.id ≡ b.id → d.created_at ≡ b.created_at

-- Every row with the id of `b` is `b`.
abbrev pub IsOnly : Batch → List Batch → Type 0
IsOnly b bs = All (λ x. x.id ≡ b.id → x ≡ b) bs

-- What the loop does to one row.
module _ (r : Resolution) where
  abbrev pub step : DerivedBatch → Batch → Batch
  step d b = if is_redated d.id b then redated (date_of_row r d.created_at) b else b

  unfoldable pub settle : List DerivedBatch → Batch → Batch
  settle [] b = b
  settle (d ∷ ds) b = settle ds (step d b)

  pub settle-id : (ds : List DerivedBatch) (b : Batch) → (settle ds b).id ≡ b.id
  unfolding settle
  settle-id [] b = refl
  settle-id (d ∷ ds) b = settle-id ds (step d b) ∙ ground arith

  -- A row that a person dated stays.
  pub settle-user :
      (ds : List DerivedBatch) (b : Batch)
      → is_derived b.expiration_source ≡ false
      → settle ds b ≡ b
  unfolding settle
  settle-user [] b h = refl
  settle-user (d ∷ ds) b h = let same : step d b ≡ b = ground arith in rw same (settle-user ds b h)

  abbrev dated : Batch → Batch
  dated b = redated (date_of_row r b.created_at) b

  step-dated : (d : DerivedBatch) (b : Batch) → Agrees b d → step d (dated b) ≡ dated b
  step-dated d b h = elim (Bool-cases (b.id == d.id)) [
    | inl same ↦ rw (same, h (sym ((==_iff b.id d.id).0 same))) refl
    | inr other ↦ rw other refl
  ]

  step-here :
      (d : DerivedBatch) (b : Batch)
      → Agrees b d
      → is_derived b.expiration_source ≡ true
      → (b.id == d.id) ≡ true
      → step d b ≡ dated b
  step-here d b h k same = rw (same, k, h (sym ((==_iff b.id d.id).0 same))) refl

  step-other : (d : DerivedBatch) (b : Batch) → (b.id == d.id) ≡ false → step d b ≡ b
  step-other d b other = rw other refl

  settle-dated :
      (ds : List DerivedBatch) (b : Batch) → All (Agrees b) ds → settle ds (dated b) ≡ dated b
  unfolding settle
  settle-dated [] b h = refl
  settle-dated (d ∷ ds) b h = rw (step-dated d b h.0) (settle-dated ds b h.1)

  settle-derived :
      (ds : List DerivedBatch) (b : Batch)
      → All (Agrees b) ds
      → is_derived b.expiration_source ≡ true
      → settle ds b ≡ (if member b.id (map (λ (d : DerivedBatch). d.id) ds) then dated b else b)
  unfolding settle
  settle-derived [] b h k = refl
  settle-derived (d ∷ ds) b h k = elim (Bool-cases (b.id == d.id)) [
    | inl same ↦
        let flipped : (d.id == b.id) ≡ true = ground arith in
        rw (step-here d b h.0 k same, flipped) (settle-dated ds b h.1)
    | inr other ↦
        let flipped : (d.id == b.id) ≡ false = ground arith in
        rw (step-other d b other, flipped) (settle-derived ds b h.1 k)
  ]

-- What the SELECT reads.
module _ (product : RowId) where
  abbrev ids : List DerivedBatch → List RowId
  ids ds = map (λ (d : DerivedBatch). d.id) ds

  member-insert_by_id :
      (k : RowId) (d : DerivedBatch) (ds : List DerivedBatch)
      → member k (ids (insert_by_id d ds)) ≡ (d.id == k || member k (ids ds))
  unfolding insert_by_id
  member-insert_by_id k d [] = refl
  member-insert_by_id k d (e ∷ es) = elim (Bool-cases (ltb e.id d.id)) [
    | inl later ↦ rw later (
        ap (λ b. e.id == k || b) (member-insert_by_id k d es)
        ∙ swap (e.id == k) (d.id == k) (member k (ids es)))
    | inr here ↦ rw here refl
  ]
    where
      swap : (a b c : Bool) → (a || (b || c)) ≡ (b || (a || c))
      swap true true c = refl
      swap true false c = refl
      swap false true c = refl
      swap false false c = refl

  member-by_id :
      (k : RowId) (ds : List DerivedBatch) → member k (ids (by_id ds)) ≡ member k (ids ds)
  unfolding by_id
  member-by_id k [] = refl
  member-by_id k (d ∷ ds) =
      member-insert_by_id k d (by_id ds) ∙ ap (λ b. d.id == k || b) (member-by_id k ds)

  module _ (P : DerivedBatch → Type 0) where
    All-insert_by_id :
        (d : DerivedBatch) (ds : List DerivedBatch) → P d → All P ds → All P (insert_by_id d ds)
    unfolding insert_by_id
    All-insert_by_id d [] p h = (p, tt)
    All-insert_by_id d (e ∷ es) p h = elim (Bool-cases (ltb e.id d.id)) [
      | inl later ↦ rw later (h.0, All-insert_by_id d es p h.1)
      | inr here ↦ rw here (p, h)
    ]

    All-by_id : (ds : List DerivedBatch) → All P ds → All P (by_id ds)
    unfolding by_id
    All-by_id [] h = tt
    All-by_id (d ∷ ds) h = All-insert_by_id d (by_id ds) h.0 (All-by_id ds h.1)

  read-Agrees :
      (b : Batch) (bs : List Batch)
      → IsOnly b bs
      → All (Agrees b) (map derived_batch (select (follows_rules product) bs))
  read-Agrees b [] h = tt
  read-Agrees b (x ∷ bs) h = elim (Bool-cases (follows_rules product x)) [
    | inl taken ↦ rw taken (λ e. ap (λ (y : Batch). y.created_at) (h.0 e), read-Agrees b bs h.1)
    | inr left ↦ rw left (read-Agrees b bs h.1)
  ]

  load-Agrees :
      (b : Batch) (bs : List Batch) → IsOnly b bs → All (Agrees b) (load_derived_batches product bs)
  unfolding load_derived_batches
  load-Agrees b bs h = All-by_id (Agrees b) _ (read-Agrees b bs h)

  not_read :
      (b : Batch) (bs : List Batch)
      → IsOnly b bs
      → follows_rules product b ≡ false
      → member b.id (ids (map derived_batch (select (follows_rules product) bs))) ≡ false
  not_read b [] h k = refl
  not_read b (x ∷ bs) h k = elim (Bool-cases (follows_rules product x)) [
    | inr left ↦ rw left (not_read b bs h.1 k)
    | inl taken ↦ elim (Bool-cases (x.id == b.id)) [
      | inl same ↦ absurd (cc (h.0 ((==_iff x.id b.id).0 same)))
      | inr other ↦ rw (taken, other) (not_read b bs h.1 k)
    ]
  ]

  is_read :
      (b : Batch) (bs : List Batch)
      → find batch_key b.id bs ≡ some b
      → follows_rules product b ≡ true
      → member b.id (ids (map derived_batch (select (follows_rules product) bs))) ≡ true
  unfolding find
  is_read b [] e k = absurd (cc)
  is_read b (x ∷ bs) e k = elim (Bool-cases (x.id == b.id)) [
    | inl same ↦
        let this : ◌≡◌ {A = Option Batch} (some x) (some b) = rw same at e in
        let taken : follows_rules product x ≡ true = cc in rw (taken, same) refl
    | inr other ↦ elim (Bool-cases (follows_rules product x)) [
      | inl taken ↦ rw (taken, other) (is_read b bs (rw other at e) k)
      | inr left ↦ rw left (is_read b bs (rw other at e) k)
    ]
  ]

module _ (r : Resolution) (product : RowId) where
  untouched :
      (b : Batch)
      → is_derived b.expiration_source ≡ false
      → (c : Bool)
      → (if c && is_derived b.expiration_source then redated (date_of_row r b.created_at) b else b)
        ≡ b
  untouched b h true = rw h refl
  untouched b h false = refl

  loaded :
      (b : Batch) (bs : List Batch)
      → member b.id (map (λ (d : DerivedBatch). d.id) (load_derived_batches product bs))
        ≡ member b.id (
            map
              (λ (d : DerivedBatch). d.id)
              (map derived_batch (select (follows_rules product) bs)))
  unfolding load_derived_batches
  loaded b bs = member-by_id product b.id _

  pub settle-loaded :
      (b : Batch) (bs : List Batch)
      → find batch_key b.id bs ≡ some b
      → IsOnly b bs
      → settle r (load_derived_batches product bs) b ≡ rederived r product b
  settle-loaded b bs found only = elim (Bool-cases (is_derived b.expiration_source)) [
    | inr by_user ↦
        settle-user r (load_derived_batches product bs) b by_user
        ∙ sym (untouched b by_user (b.product_id == product))
    | inl free ↦
        settle-derived r (load_derived_batches product bs) b (load-Agrees product b bs only) free
        ∙ elim (Bool-cases (follows_rules product b)) [
          | inl taken ↦ rw (loaded b bs ∙ is_read product b bs found taken, taken) refl
          | inr left ↦ rw (loaded b bs ∙ not_read product b bs only left, left) refl
        ]
  ]
