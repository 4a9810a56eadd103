-- ===== src/Tests/Confirms.antt =====
-- The confirms of a stocktake and of a consumption proposal at the household.
use inventory.Prelude.{
  ◌≡◌, refl, ◌↔◌, ◌==◌, ==_iff, Bool, true, Option, none, some, List, [], ◌∷◌, String, pos, ◌+ℤ◌,
  ◌-ℤ◌,
}
use inventory.Prelude.Table.{find, modify, remove}
use inventory.Store.Schema.{RowId, Job, done, consumption_photo, Database}
use inventory.Store.Tx.{Env, ok, err, validation}
use inventory.Store.Batches.{create_batch_tx}
use inventory.Store.Jobs.Inbox.{find_job, consume_job}
use inventory.Store.RowSets.{has, distinct, check_ids, match_ids, match_batch_ids, match_row_ids}
use inventory.Store.RowSets.Exact.{Once, match_ids_exactly}
use inventory.Store.Stocktake.{
  StocktakeCount, FoundStock, lock_location_batches, apply_counts, add_found, confirm_stocktake,
}
use inventory.Store.Stocktake.Exact.{Walked, confirm_stocktake_exactly}
use inventory.Store.Consumption.{
  ConsumeDecision, apply_decrements, apply_decisions, confirm_consumption,
}
use inventory.Store.Consumption.Taken.{named, stock-confirm_consumption}
use inventory.Store.Jobs.Life.{IsQueue}
use inventory.Store.Jobs.Inbox.{delete_job}
use inventory.Store.Jobs.History.{JobCall, delete, after_call, history, IsNotReused}
use inventory.Store.Jobs.Once.{IsRefused}
use inventory.Store.Consumption.Once.{confirm_consumption-once}
use inventory.Store.Locations.{update_location_row}
use inventory.Store.Sound.{stock, Sound}
use inventory.Store.Sound.History.{walk, consume, stock_history, stock_history-Sound}
use inventory.Tests.{six_bottles, household, env, running}
use inventory.Tests.Stock.{household-Sound}

-- A proposal with one row.
abbrev proposal : Job
proposal = record {
  id = 60;
  storage_id = 100;
  kind = consumption_photo;
  status = done;
  payload = some "rows";
  error = none;
  created_by = none;
  image_filename = none;
  location_hint_id = none;
  created_at = pos 0;
  updated_at = pos 0;
  lease_owner = none;
  lease_expires_at = none;
}

abbrev decode : Option String → Option (List String)
decode none = none
decode (some text) = some ("r1" ∷ [])

abbrev kitchen : Database
kitchen = record household { jobs = proposal ∷ [] }

abbrev two_drunk : List ConsumeDecision
two_drunk =
    record {
      row_id = "r1";
      accept = true;
      product_id = some 1;
      decrements = record { batch_id = 20; quantity = pos 2 } ∷ [];
    }
    ∷ []

drinks : (confirm_consumption decode env 100 60 (some 7) two_drunk kitchen).0 ≡ ok (20 ∷ [])
unfolding running confirm_consumption find_job consume_job match_row_ids match_ids check_ids has
    distinct apply_decisions apply_decrements
drinks = refl

abbrev same : RowId → RowId → Bool
same a b = a == b

match_ids_exactly_example : (match_ids same (20 ∷ 21 ∷ []) (21 ∷ 20 ∷ []) ≡ ok tt) ↔ (
    Once same ==_iff (21 ∷ 20 ∷ [])
    × ((k : RowId) → has same k (21 ∷ 20 ∷ []) ≡ has same k (20 ∷ 21 ∷ [])))
match_ids_exactly_example = match_ids_exactly same ==_iff (20 ∷ 21 ∷ []) (21 ∷ 20 ∷ [])

both_counted : match_ids same (20 ∷ 21 ∷ []) (21 ∷ 20 ∷ []) ≡ ok tt
unfolding match_ids check_ids has distinct
both_counted = refl

one_forgotten : match_ids same (20 ∷ 21 ∷ []) (21 ∷ []) ≡ err validation
unfolding match_ids check_ids has distinct
one_forgotten = refl

stock-confirm_consumption_example :
    stock 1 (confirm_consumption decode env 100 60 (some 7) two_drunk kitchen).1.tables.batches
    ≡ stock 1 kitchen.tables.batches +ℤ (pos 0 -ℤ named 1 two_drunk)
stock-confirm_consumption_example =
    stock-confirm_consumption decode env 100 60 (some 7) two_drunk kitchen 1 household-Sound drinks

-- The proposal is deleted after it was applied.
abbrev deletion : List (Env × JobCall)
deletion = (env, delete 100 60) ∷ []

drunk-IsQueue : IsQueue (confirm_consumption decode env 100 60 (some 7) two_drunk kitchen).1.jobs
unfolding running confirm_consumption find_job consume_job match_row_ids match_ids check_ids has
    distinct apply_decisions apply_decrements find modify
drunk-IsQueue = ((refl, tt), ((tt, tt), tt))

deletion-IsNotReused :
    IsNotReused 60 deletion (confirm_consumption decode env 100 60 (some 7) two_drunk kitchen).1
unfolding running confirm_consumption find_job consume_job match_row_ids match_ids check_ids has
    distinct apply_decisions apply_decrements after_call delete_job find remove modify
deletion-IsNotReused = ((λ h. refl), tt)

confirm_consumption-once_example :
    let after = (confirm_consumption decode env 100 60 (some 7) two_drunk kitchen).1 in
    IsRefused
      (confirm_consumption decode env 100 60 none [] (history deletion after))
      (history deletion after)
confirm_consumption-once_example =
    confirm_consumption-once decode env env 100 100 60 (some 7) none two_drunk [] deletion kitchen
      (history deletion (confirm_consumption decode env 100 60 (some 7) two_drunk kitchen).1) drinks
      drunk-IsQueue deletion-IsNotReused refl refl

abbrev five_left : List StocktakeCount
five_left = record { batch_id = 20; quantity = pos 5 } ∷ []

abbrev a_bottle : List FoundStock
a_bottle =
    record { product_id = 1; quantity = pos 1; expiration_date = none; stated_expiration = true }
    ∷ []

walked :
    (confirm_stocktake env 100 10 (some 7) five_left a_bottle household).0
    ≡ ok (record { audited_at = pos 1704110400; corrected = 1; created_batch_ids = 51 ∷ [] })
unfolding running confirm_stocktake lock_location_batches apply_counts add_found match_batch_ids
    match_ids check_ids has distinct update_location_row create_batch_tx
walked = refl

confirm_stocktake_exactly_example :
    Walked 100 10 five_left a_bottle household.tables six_bottles
      (confirm_stocktake env 100 10 (some 7) five_left a_bottle household).1.tables
unfolding find
confirm_stocktake_exactly_example =
    confirm_stocktake_exactly env 100 10 (some 7) five_left a_bottle household six_bottles
      household-Sound refl walked

stock_history-Sound_example :
    Sound
      (stock_history decode
        ((env, walk 100 10 (some 7) five_left a_bottle)
          ∷ (env, consume 100 60 (some 7) two_drunk)
          ∷ [])
        kitchen).tables
stock_history-Sound_example =
    stock_history-Sound decode
      ((env, walk 100 10 (some 7) five_left a_bottle)
        ∷ (env, consume 100 60 (some 7) two_drunk)
        ∷ [])
      kitchen household-Sound
