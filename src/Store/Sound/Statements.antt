-- ===== src/Store/Sound/Statements.antt =====
-- What each single statement on the stock does to its invariant.
use inventory.Prelude.{
  ℕ, ◌+◌, ◌≤◌, ◌≡◌, refl, ap, pos_part, neg_part, List, [], ◌∷◌, ◌++◌, map, Option, none, some, ℤ,
  pos, ◌+ℤ◌, ◌-ℤ◌, ◌==◌, arith, int_laws, All-append, Bool-cases, inl, inr,
}
use inventory.Prelude.Table.{find, modify, remove, Unique, total, total-append}
use inventory.Prelude.Table.Laws.{
  Unique-modify, Unique-remove, Unique-append, All-modify, All-modify_one, All-remove, total-modify,
  total-remove, total-modify_same, total-map_same, Unique-map, All-map,
}
use inventory.Store.Schema.{RowId, Product, Location, Batch, InventoryLog, Inventory, batch_key}
use inventory.Store.Rows.{update_batch_row, delete_batch_row}
use inventory.Store.Containers.{set_container, clear_container}
use inventory.Store.Batches.{set_quantity}
use inventory.Store.Batches.Update.{set_location}
use inventory.Store.Sound.{
  of_product, quantity_of, stock, IsPlaced, SoundUpTo, net-append, net-unlink,
}

-- One row's quantity changes: the stock of its product, and of no other, changes by as much.
stock-modify :
    (p id : RowId) (n : ℕ) (bs : List Batch) {b : Batch}
    → Unique batch_key bs
    → find batch_key id bs ≡ some b
    → stock p (modify batch_key id (set_quantity n) bs)
      ≡ stock p bs +ℤ of_product p b.product_id (pos n -ℤ pos b.quantity)
unfolding stock
stock-modify p id n bs {b} u h =
    let e = total-modify batch_key (quantity_of p) id (set_quantity n) bs {r = b} u h in
    elim (Bool-cases (b.product_id == p)) [
      | inl same ↦ rw same (
          let e' : total (quantity_of p) (modify batch_key id (set_quantity n) bs) + b.quantity
              ≡ total (quantity_of p) bs + n =
            rw same at e in
          omega int_laws)
      | inr other ↦ rw other (
          let e' : total (quantity_of p) (modify batch_key id (set_quantity n) bs) + 0
              ≡ total (quantity_of p) bs + 0 =
            rw other at e in
          omega int_laws)
    ]

stock-remove :
    (p id : RowId) (bs : List Batch) {b : Batch}
    → Unique batch_key bs
    → find batch_key id bs ≡ some b
    → stock p (remove batch_key id bs)
      ≡ stock p bs +ℤ of_product p b.product_id (pos 0 -ℤ pos b.quantity)
unfolding stock
stock-remove p id bs {b} u h =
    let e = total-remove batch_key (quantity_of p) id bs {r = b} u h in
    elim (Bool-cases (b.product_id == p)) [
      | inl same ↦ rw same (
          let e' : total (quantity_of p) (remove batch_key id bs) + b.quantity
              ≡ total (quantity_of p) bs =
            rw same at e in
          omega int_laws)
      | inr other ↦ rw other (
          let e' : total (quantity_of p) (remove batch_key id bs) + 0 ≡ total (quantity_of p) bs =
            rw other at e in
          omega int_laws)
    ]

stock-append :
    (p : RowId) (bs : List Batch) (b : Batch)
    → stock p (bs ++ b ∷ []) ≡ stock p bs +ℤ of_product p b.product_id (pos b.quantity)
unfolding stock total
stock-append p bs b =
    let e = total-append (quantity_of p) bs (b ∷ []) in
    elim (Bool-cases (b.product_id == p)) [
      | inl same ↦ rw same (
          let e' : total (quantity_of p) (bs ++ b ∷ [])
              ≡ total (quantity_of p) bs + (b.quantity + 0) =
            rw same at e in
          omega int_laws)
      | inr other ↦ rw other (
          let e' : total (quantity_of p) (bs ++ b ∷ []) ≡ total (quantity_of p) bs + (0 + 0) =
            rw other at e in
          omega int_laws)
    ]

-- Two changes of one product add up.
of_product-add :
    (p q : RowId) (a b : ℤ) → of_product p q (a +ℤ b) ≡ of_product p q a +ℤ of_product p q b
of_product-add p q a b = elim (Bool-cases (q == p)) [
  | inl same ↦ rw same
  | inr other ↦ rw other (omega int_laws)
]

of_product-sub :
    (p q : RowId) (a b : ℤ) → of_product p q (a -ℤ b) +ℤ of_product p q b ≡ of_product p q a
of_product-sub p q a b = elim (Bool-cases (q == p)) [
  | inl same ↦ rw same (omega int_laws)
  | inr other ↦ rw other (omega int_laws)
]

pub write_quantity-SoundUpTo :
    (id : RowId) (n : ℕ) (t : Inventory) (change : ℤ) {b : Batch}
    → find batch_key id t.batches ≡ some b
    → 1 ≤ n
    → SoundUpTo b.product_id change t
    → SoundUpTo b.product_id
        (change +ℤ (pos n -ℤ pos b.quantity))
        (update_batch_row id (set_quantity n) t)
write_quantity-SoundUpTo id n t change {b} h positive s = record {
  unique = Unique-modify batch_key id (set_quantity n) t.batches (λ r. refl) s.unique;
  placed =
      All-modify batch_key (IsPlaced t.products t.locations) id (set_quantity n) t.batches
        (λ r _ p. record {
          product = p.product;
          location = p.location;
          its_product = p.its_product;
          its_location = p.its_location;
          one_storage = p.one_storage;
        })
        s.placed;
  positive =
      All-modify batch_key (λ r. 1 ≤ r.quantity) id (set_quantity n) t.batches (λ _ _ _. positive)
        s.positive;
  balance = λ p.
      rw (stock-modify p id n t.batches s.unique h, of_product-add, ← s.balance p) (omega int_laws);
}

pub delete_batch-SoundUpTo :
    (id : RowId) (t : Inventory) (change : ℤ) {b : Batch}
    → find batch_key id t.batches ≡ some b
    → SoundUpTo b.product_id change t
    → SoundUpTo b.product_id (change +ℤ (pos 0 -ℤ pos b.quantity)) (delete_batch_row id t)
unfolding delete_batch_row
delete_batch-SoundUpTo id t change {b} h s = record {
  unique = Unique-remove batch_key id t.batches s.unique;
  placed = All-remove batch_key (IsPlaced t.products t.locations) id t.batches s.placed;
  positive = All-remove batch_key (λ r. 1 ≤ r.quantity) id t.batches s.positive;
  balance = λ p.
      rw
        (
          net-unlink p id t.logs,
          stock-remove p id t.batches s.unique h,
          of_product-add,
          ← s.balance p,
        )
        (omega int_laws);
}

pub insert_batch-SoundUpTo :
    (b : Batch) (t : Inventory) (change : ℤ)
    → find batch_key b.id t.batches ≡ none
    → 1 ≤ b.quantity
    → IsPlaced t.products t.locations b
    → SoundUpTo b.product_id change t
    → SoundUpTo b.product_id (change +ℤ pos b.quantity) (record t { batches = t.batches ++ b ∷ [] })
insert_batch-SoundUpTo b t change fresh positive placed s = record {
  unique = Unique-append batch_key b t.batches fresh s.unique;
  placed = All-append (IsPlaced t.products t.locations) t.batches (b ∷ []) s.placed (placed, tt);
  positive = All-append (λ r. 1 ≤ r.quantity) t.batches (b ∷ []) s.positive (positive, tt);
  balance = λ p. rw (stock-append p t.batches b, of_product-add, ← s.balance p) (omega int_laws);
}

pub insert_log-SoundUpTo :
    (l : InventoryLog) (t : Inventory) (change : ℤ)
    → SoundUpTo l.product_id change t
    → SoundUpTo l.product_id (change -ℤ l.change_qty) (record t { logs = t.logs ++ l ∷ [] })
insert_log-SoundUpTo l t change s = record {
  unique = s.unique;
  placed = s.placed;
  positive = s.positive;
  balance = λ p.
      rw (net-append p t.logs l, ← s.balance p)
        (let e = of_product-sub p l.product_id change l.change_qty in
          omega (int_laws, ap pos_part e, ap neg_part e));
}

-- A batch goes to another shelf of its product's storage.
pub relocate-SoundUpTo :
    (id place : RowId) (t : Inventory) (q : RowId) (change : ℤ) {b : Batch}
    → find batch_key id t.batches ≡ some b
    → IsPlaced t.products t.locations (set_location place b)
    → SoundUpTo q change t
    → SoundUpTo q change (update_batch_row id (set_location place) t)
relocate-SoundUpTo id place t q change {b} h placed s = record {
  unique = Unique-modify batch_key id (set_location place) t.batches (λ r. refl) s.unique;
  placed =
      All-modify_one batch_key (IsPlaced t.products t.locations) id (set_location place) t.batches
        s.unique h (λ _. placed) s.placed;
  positive =
      All-modify batch_key (λ r. 1 ≤ r.quantity) id (set_location place) t.batches (λ _ _ p. p)
        s.positive;
  balance = λ p. rw (s.balance p) (
      unfold stock in
      (rw (
        total-modify_same batch_key (quantity_of p) id (set_location place) t.batches
          (λ r. refl))));
}

-- What a container is or is called concerns no stock.
pub set_container-SoundUpTo :
    (id : RowId) (c : Option RowId) (t : Inventory) (q : RowId) (change : ℤ)
    → SoundUpTo q change t
    → SoundUpTo q change (update_batch_row id (set_container c) t)
set_container-SoundUpTo id c t q change s = record {
  unique = Unique-modify batch_key id (set_container c) t.batches (λ r. refl) s.unique;
  placed =
      All-modify batch_key (IsPlaced t.products t.locations) id (set_container c) t.batches
        (λ r _ p. record {
          product = p.product;
          location = p.location;
          its_product = p.its_product;
          its_location = p.its_location;
          one_storage = p.one_storage;
        })
        s.placed;
  positive =
      All-modify batch_key (λ r. 1 ≤ r.quantity) id (set_container c) t.batches (λ _ _ p. p)
        s.positive;
  balance = λ p. rw (s.balance p) (
      unfold stock in
      (rw
        (total-modify_same batch_key (quantity_of p) id (set_container c) t.batches (λ r. refl))));
}

clear-key : (c : RowId) (r : Batch) → batch_key (clear_container c r) ≡ batch_key r
clear-key c r = ground arith

clear-quantity_of :
    (p c : RowId) (r : Batch) → quantity_of p (clear_container c r) ≡ quantity_of p r
clear-quantity_of p c r = ground arith

clear-IsPlaced :
    (ps : List Product) (ls : List Location) (c : RowId) (r : Batch)
    → IsPlaced ps ls r
    → IsPlaced ps ls (clear_container c r)
clear-IsPlaced ps ls c r p = record {
  product = p.product;
  location = p.location;
  its_product = ground (arith, p.its_product);
  its_location = ground (arith, p.its_location);
  one_storage = p.one_storage;
}

pub clear_container-SoundUpTo :
    (c : RowId) (t : Inventory) (q : RowId) (change : ℤ)
    → SoundUpTo q change t
    → SoundUpTo q change (record t { batches = map (clear_container c) t.batches })
clear_container-SoundUpTo c t q change s = record {
  unique = Unique-map batch_key (clear_container c) t.batches (clear-key c) s.unique;
  placed =
      All-map (IsPlaced t.products t.locations) (clear_container c) t.batches
        (clear-IsPlaced t.products t.locations c) s.placed;
  positive =
      All-map (λ r. 1 ≤ r.quantity) (clear_container c) t.batches (λ r p. ground arith) s.positive;
  balance = λ p. rw (s.balance p) (
      unfold stock in
      (rw (total-map_same (quantity_of p) (clear_container c) t.batches (clear-quantity_of p c))));
}
