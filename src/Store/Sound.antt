-- ===== src/Store/Sound.antt =====
-- The invariant of the stock, and what each single statement does to it.
pub mod Statements
pub mod Steps
pub mod Adjust
pub mod Contained
pub mod Create
pub mod Divide
pub mod Amend
pub mod Confirmed
pub mod Redated
pub mod History
use inventory.Prelude.{
  ℕ, ◌+◌, ◌≤◌, ◌≡◌, refl, List, [], ◌∷◌, ◌++◌, map, some, ℤ, pos, ◌+ℤ◌, ◌==◌, if◌then◌else◌, arith,
  int_laws, All, +ℤ_parts, eq_of_parts,
}
use inventory.Prelude.Table.{find, Unique, total}
use inventory.Store.Schema.{
  RowId, Product, Location, Batch, InventoryLog, Inventory, product_key, location_key, batch_key,
}
use inventory.Store.Rows.{unlink}

-- The part of a sum that concerns product `p`.
abbrev pub of_product : RowId → RowId → ℤ → ℤ
of_product p q n = if q == p then n else pos 0

abbrev pub quantity_of : RowId → Batch → ℕ
quantity_of p b = if b.product_id == p then b.quantity else 0

-- The units of a product on all shelves.
unfoldable pub stock : RowId → List Batch → ℤ
unfolding total
stock p bs = pos (total (quantity_of p) bs)

-- What the ledger says that the stock of a product is.
unfoldable pub net : RowId → List InventoryLog → ℤ
net p [] = pos 0
net p (l ∷ ls) = of_product p l.product_id l.change_qty +ℤ net p ls

-- The batch's product and its location exist, in one storage.
pub record IsPlaced (products : List Product) (locations : List Location) (b : Batch) : Type 0 where
  pub product : Product
  pub location : Location
  pub its_product : find product_key b.product_id products ≡ some product
  pub its_location : find location_key b.location_id locations ≡ some location
  pub one_storage : product.storage_id ≡ location.storage_id

-- The stock is in order, but for `change` units of product `q` that the ledger does not show yet.
pub record SoundUpTo (q : RowId) (change : ℤ) (t : Inventory) : Type 0 where
  pub unique : Unique batch_key t.batches
  pub placed : All (IsPlaced t.products t.locations) t.batches
  pub positive : All (λ b. 1 ≤ b.quantity) t.batches
  pub balance : (p : RowId) → net p t.logs +ℤ of_product p q change ≡ stock p t.batches

-- Batch ids are unique, every batch lies on a shelf of its product's storage and holds something,
-- and of every product the ledger sums to the stock.
pub record Sound (t : Inventory) : Type 0 where
  pub unique : Unique batch_key t.batches
  pub placed : All (IsPlaced t.products t.locations) t.batches
  pub positive : All (λ b. 1 ≤ b.quantity) t.batches
  pub balance : (p : RowId) → net p t.logs ≡ stock p t.batches

of_product-zero : (p q : RowId) (n : ℤ) → n +ℤ of_product p q (pos 0) ≡ n
of_product-zero p q n = ground (arith, +ℤ_parts n (pos 0), eq_of_parts (n +ℤ pos 0) n)

pub SoundUpTo-zero : (q : RowId) (t : Inventory) → Sound t → SoundUpTo q (pos 0) t
SoundUpTo-zero q t h = record {
  unique = h.unique;
  placed = h.placed;
  positive = h.positive;
  balance = λ p. rw (of_product-zero p q (net p t.logs)) (h.balance p);
}

pub Sound-zero :
    (q : RowId) (change : ℤ) (t : Inventory) → change ≡ pos 0 → SoundUpTo q change t → Sound t
Sound-zero q change t e h = record {
  unique = h.unique;
  placed = h.placed;
  positive = h.positive;
  balance = λ p. rw of_product-zero at (
      let b : net p t.logs +ℤ of_product p q (pos 0) ≡ stock p t.batches = rw e at (h.balance p) in
      b);
}

pub net-append :
    (p : RowId) (ls : List InventoryLog) (l : InventoryLog)
    → net p (ls ++ l ∷ []) ≡ net p ls +ℤ of_product p l.product_id l.change_qty
unfolding net
net-append p [] l = omega int_laws
net-append p (k ∷ ls) l = rw (net-append p ls l) (omega int_laws)

pub net-unlink : (p id : RowId) (ls : List InventoryLog) → net p (map (unlink id) ls) ≡ net p ls
unfolding net
net-unlink p id [] = refl
net-unlink p id (l ∷ ls) = rw (net-unlink p id ls)
