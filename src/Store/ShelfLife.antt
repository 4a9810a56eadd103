-- ===== src/Store/ShelfLife.antt =====
-- internal/store/expiry.go: the rules that apply to one product.
use inventory.Prelude.{ℕ, zero, suc, Option, none, some, List, [], ◌∷◌, ℤ, ◌==◌, if◌then◌else◌}
use inventory.Prelude.Table.{find}
use inventory.Expiry.{Rules}
use inventory.Store.Schema.{
  RowId, Product, CatalogProduct, Category, Inventory, catalog_key, category_key,
}
use inventory.Store.Tx.{not_found, Tx, ◌>>=◌, row_or, gets, pure}
use inventory.Store.Rows.{find_product}

abbrev pub max_tree_depth : ℕ
max_tree_depth = 64

abbrev pub find_by {ℓ} : {A : Type ℓ} → (RowId → Option A) → Option RowId → Option A
find_by look none = none
find_by look (some id) = look id

-- The recursive query: one row to a level, at most `depth` of them.
unfoldable pub ancestry : ℕ → List Category → Option Category → List (Option ℤ)
ancestry zero cs c = []
ancestry (suc depth) cs none = []
ancestry (suc depth) cs (some c) =
    c.default_shelf_life_days
    ∷ ancestry depth cs (find_by (λ id. find category_key id cs) c.parent_id)

abbrev pub own_category : RowId → Option Category → Option Category
own_category storage none = none
own_category storage (some c) = if c.storage_id == storage then some c else none

abbrev shelf_life_of : Option CatalogProduct → Option ℤ
shelf_life_of none = none
shelf_life_of (some c) = c.default_shelf_life_days

unfoldable pub rules_of : RowId → Inventory → Product → Rules
unfolding ancestry find
rules_of storage t p = record {
  product_days = p.default_shelf_life_days;
  catalog_days = shelf_life_of (find_by (λ id. find catalog_key id t.catalog) p.catalog_id);
  category_days =
      ancestry max_tree_depth t.categories
        (own_category storage (find_by (λ id. find category_key id t.categories) p.category_id));
  item_type = p.item_type;
}

unfoldable pub expiry_rules_for : RowId → RowId → Tx Rules
unfolding rules_of
expiry_rules_for storage product = do
  t ← gets (λ s. s.db.tables)
  p ← row_or (find_product storage product t) not_found
  pure (rules_of storage t p)
