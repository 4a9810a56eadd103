-- ===== src/Store/Sound/History.antt =====
-- Any sequence of calls that touch the stock.
use inventory.Prelude.{Option, List, [], ◌∷◌, String, ℤ}
use inventory.Store.Schema.{RowId, LogReason, Database}
use inventory.Store.Tx.{Env}
use inventory.Store.Containers.{destroy_container}
use inventory.Store.Batches.{NewBatch, create_batch, adjust_batch}
use inventory.Store.Batches.Split.{SplitBatchInput, split_batch}
use inventory.Store.Batches.Update.{BatchPatch, update_batch}
use inventory.Store.Locations.{
  NewLocation, LocationPatch, create_location, move_location, update_location, rename_location,
}
use inventory.Store.Locations.Delete.{delete_location}
use inventory.Store.Dates.{recompute_derived_expiry, reset_batch_expiration_to_derived}
use inventory.Store.Stocktake.{StocktakeCount, FoundStock, confirm_stocktake}
use inventory.Store.Consumption.{ConsumeDecision, confirm_consumption}
use inventory.Store.Sound.{Sound}
use inventory.Store.Sound.Adjust.{adjust_batch-Sound}
use inventory.Store.Sound.Create.{create_batch-Sound}
use inventory.Store.Sound.Divide.{split_batch-Sound}
use inventory.Store.Sound.Amend.{update_batch-Sound}
use inventory.Store.Sound.Confirmed.{
  destroy_container-Sound, confirm_stocktake-Sound, confirm_consumption-Sound,
}
use inventory.Store.Sound.Redated.{
  recompute_derived_expiry-Sound, reset_batch_expiration_to_derived-Sound,
}
use inventory.Store.Locations.Shelved.{
  create_location-Sound, move_location-Sound, update_location-Sound, rename_location-Sound,
}
use inventory.Store.Locations.Delete.Kept.{delete_location-Sound}

-- A call, with its storage first.
pub data StockCall : Type 0 where
  create : RowId → NewBatch → StockCall
  adjust : RowId → RowId → ℤ → LogReason → Option RowId → StockCall
  split : RowId → RowId → SplitBatchInput → Option RowId → StockCall
  patch : RowId → RowId → BatchPatch → Option RowId → StockCall
  add_location : RowId → NewLocation → StockCall
  reparent : RowId → RowId → Option RowId → StockCall
  patch_location : RowId → RowId → LocationPatch → StockCall
  rename : RowId → RowId → String → Option String → StockCall
  delete : RowId → RowId → StockCall
  recompute : RowId → RowId → StockCall
  reset : RowId → RowId → StockCall
  destroy : RowId → RowId → StockCall
  walk : RowId → RowId → Option RowId → List StocktakeCount → List FoundStock → StockCall
  consume : RowId → RowId → Option RowId → List ConsumeDecision → StockCall

module _ (decode : Option String → Option (List String)) where
  -- The database after a call.
  unfoldable pub after_stock_call : Env → StockCall → Database → Database
  after_stock_call env (create storage new) db = (create_batch env storage new db).1
  after_stock_call env (adjust storage id delta reason user) db =
      (adjust_batch env storage id delta reason user db).1
  after_stock_call env (split storage id input user) db =
      (split_batch env storage id input user db).1
  after_stock_call env (patch storage id p user) db = (update_batch env storage id p user db).1
  after_stock_call env (add_location storage new) db = (create_location env storage new db).1
  after_stock_call env (reparent storage id parent) db = (move_location env storage id parent db).1
  after_stock_call env (patch_location storage id p) db = (update_location env storage id p db).1
  after_stock_call env (rename storage id name description) db =
      (rename_location env storage id name description db).1
  after_stock_call env (delete storage id) db = (delete_location env storage id db).1
  after_stock_call env (recompute storage product) db =
      (recompute_derived_expiry env storage product db).1
  after_stock_call env (reset storage id) db =
      (reset_batch_expiration_to_derived env storage id db).1
  after_stock_call env (destroy storage id) db = (destroy_container env storage id db).1
  after_stock_call env (walk storage place user counts found) db =
      (confirm_stocktake env storage place user counts found db).1
  after_stock_call env (consume storage job user decisions) db =
      (confirm_consumption decode env storage job user decisions db).1

  after_stock_call-Sound :
      (env : Env) (c : StockCall) (db : Database)
      → Sound db.tables
      → Sound (after_stock_call env c db).tables
  unfolding after_stock_call
  after_stock_call-Sound env (create storage new) db h = create_batch-Sound env storage new db h
  after_stock_call-Sound env (adjust storage id delta reason user) db h =
      adjust_batch-Sound env storage id delta reason user db h
  after_stock_call-Sound env (split storage id input user) db h =
      split_batch-Sound env storage id input user db h
  after_stock_call-Sound env (patch storage id p user) db h =
      update_batch-Sound env storage id p user db h
  after_stock_call-Sound env (add_location storage new) db h =
      create_location-Sound env storage new db h
  after_stock_call-Sound env (reparent storage id parent) db h =
      move_location-Sound env storage id parent db h
  after_stock_call-Sound env (patch_location storage id p) db h =
      update_location-Sound env storage id p db h
  after_stock_call-Sound env (rename storage id name description) db h =
      rename_location-Sound env storage id name description db h
  after_stock_call-Sound env (delete storage id) db h = delete_location-Sound env storage id db h
  after_stock_call-Sound env (recompute storage product) db h =
      recompute_derived_expiry-Sound env storage product db h
  after_stock_call-Sound env (reset storage id) db h =
      reset_batch_expiration_to_derived-Sound env storage id db h
  after_stock_call-Sound env (destroy storage id) db h = destroy_container-Sound env storage id db h
  after_stock_call-Sound env (walk storage place user counts found) db h =
      confirm_stocktake-Sound env storage place user counts found db h
  after_stock_call-Sound env (consume storage job user decisions) db h =
      confirm_consumption-Sound decode env storage job user decisions db h

  -- The calls in the order in which they commit.
  unfoldable pub stock_history : List (Env × StockCall) → Database → Database
  unfolding after_stock_call
  stock_history [] db = db
  stock_history ((env, c) ∷ rest) db = stock_history rest (after_stock_call env c db)

  -- From a sound stock, any sequence of calls on batches, containers, locations, dates, stocktakes and
  -- consumption proposals leaves a sound stock: batch ids stay unique, every batch lies on a shelf of its product's
  -- storage and holds something, and of every product the ledger sums to the stock.
  pub stock_history-Sound :
      (calls : List (Env × StockCall)) (db : Database)
      → Sound db.tables
      → Sound (stock_history calls db).tables
  unfolding stock_history
  stock_history-Sound [] db h = h
  stock_history-Sound ((env, c) ∷ rest) db h =
      stock_history-Sound rest (after_stock_call env c db) (after_stock_call-Sound env c db h)
