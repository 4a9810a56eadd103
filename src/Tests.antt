-- ===== src/Tests.antt =====
-- Concrete inputs: a small household, and the theorems and the code at it.
mod Stock
mod Scoring
mod Jobs
mod Trees
mod Dates
mod Deletion
mod Confirms
mod Images
mod Limits
use inventory.Prelude.{Option, none, some, List, [], ◌∷◌, pos}
use inventory.Prelude.{true}
use inventory.Expiry.{Time, perishable}
use inventory.Store.Schema.{
  purchase, derived, Product, Location, Container, Batch, InventoryLog, Inventory, Database,
}
use inventory.Store.Tx.{committed, Env, in_tx, new_id}
use inventory.Prelude.{◌+ℤ◌, ◌-ℤ◌}
use inventory.Prelude.Table.{find, insert, modify, remove}
use inventory.Expiry.{resolve, date_for}
use inventory.Store.Rows.{
  find_batch, fits_int4, require_product_in_storage, require_same_storage, insert_batch_row,
  delete_batch_row, write_log,
}
use inventory.Store.Quests.{bump_for_ledger_reason}
use inventory.Store.ShelfLife.{expiry_rules_for}
use inventory.Store.Containers.{valid_container_disposition, upsert_batch_container_label}
use inventory.Store.Batches.{delete_batch, write_quantity, adjust_batch_tx}
use inventory.Store.Batches.Update.{set_batch_quantity, move_batch}

abbrev pub milk : Product
milk = record {
  id = 1;
  storage_id = 100;
  name = "Milk";
  category_id = none;
  catalog_id = none;
  item_type = perishable;
  default_shelf_life_days = none;
  min_stock = pos 0;
  image_url = none;
  icon_name = none;
}

abbrev pub fridge : Location
fridge = record {
  id = 10;
  storage_id = 100;
  parent_id = none;
  name = "Fridge";
  description = none;
  created_at = pos 0;
  updated_at = pos 0;
  last_audited_at = none;
}

abbrev pub cellar : Location
cellar = record fridge { id = 11; name = "Cellar" }

abbrev pub crate : Container
crate = record {
  id = 30;
  storage_id = 100;
  label = "crate";
  container_type = none;
  created_at = pos 0;
  destroyed_at = none;
}

abbrev pub six_bottles : Batch
six_bottles = record {
  id = 20;
  product_id = 1;
  location_id = 10;
  quantity = 6;
  expiration_date = some (pos 20);
  expiration_source = derived;
  created_at = pos 86400;
  container_id = some 30;
}

abbrev bought_six : InventoryLog
bought_six = record {
  id = 40;
  product_id = 1;
  batch_id = some 20;
  change_qty = pos 6;
  reason = purchase;
  created_by = none;
  timestamp = pos 86400;
}

abbrev pub shelves : Inventory
shelves = record {
  products = milk ∷ [];
  catalog = [];
  categories = [];
  locations = fridge ∷ cellar ∷ [];
  containers = crate ∷ [];
  batches = six_bottles ∷ [];
  logs = bought_six ∷ [];
}

abbrev pub household : Database
household = record {
  storages = 100 ∷ [];
  tables = shelves;
  game = record { progress = []; quests = []; contributors = [] };
  jobs = [];
  tombstones = [];
}

-- Noon of the first day of 2024, UTC.
abbrev pub noon : Time
noon = record { instant = pos 1704110400; offset = pos 0 }

abbrev pub env : Env
env = record { ids = 50 ∷ 51 ∷ 52 ∷ 53 ∷ []; clock = noon; begins = true; commits = committed }

-- Naming this on an `unfolding` line lets a transaction run.
unfoldable pub running : Unit {0}
unfolding in_tx new_id ◌+ℤ◌ ◌-ℤ◌ find insert modify remove resolve date_for find_batch fits_int4
    require_product_in_storage require_same_storage insert_batch_row delete_batch_row write_log
    bump_for_ledger_reason expiry_rules_for valid_container_disposition upsert_batch_container_label
    delete_batch write_quantity adjust_batch_tx set_batch_quantity move_batch
running = tt
