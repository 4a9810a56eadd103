-- ===== src/Store/Sound/Confirmed.antt =====
-- The confirms of a stocktake and of a consumption proposal and the invariant of the stock.
use mathlib.Core.Path.{subst}
use inventory.Prelude.{pos, refl, sym, Option, none, some, List, [], ◌∷◌, String}
use inventory.Store.Schema.{RowId, consumption, Job, Inventory, Database}
use inventory.Store.Tx.{StoreError, put_jobs, row_or, Env}
use inventory.Store.Tx.Rules.{IsQuiet}
use inventory.Store.Tx.Triple.{
  Triple, Triple-bind, Triple-gets, Triple-row_or, Triple-refuse_if, Triple-from_result,
  Triple-pure, Triple-fail, Triple-if, Triple-quiet, Triple-in_tx, Triple-strengthen,
}
use inventory.Store.Jobs.Inbox.{consume_job}
use inventory.Store.Locations.Shelved.{update_location_row-Sound}
use inventory.Store.Sound.{Sound}
use inventory.Store.Sound.Steps.{require_product-keeps, require_location-keeps}
use inventory.Store.Sound.Adjust.{adjust_batch_tx-Sound}
use inventory.Store.Sound.Create.{create_batch_tx-Sound}
use inventory.Store.Containers.{destroy_container}
use inventory.Store.Sound.Contained.{destroy_container_tx-keeps}
use inventory.Store.Sound.Amend.{unmoved, set_batch_quantity-Sound}
use inventory.Store.Consumption.{
  ConsumeBatchDecrement, ConsumeDecision, apply_decrements, apply_accepted, apply_decisions,
  confirm_consumption_tx, confirm_consumption,
}
use inventory.Store.Stocktake.{
  StocktakeCount, FoundStock, lock_location_batches, apply_counts, add_found, found_batch, audited,
  confirm_stocktake_tx, confirm_stocktake,
}

row-IsQuiet : {A : Type 0} (o : Option A) (e : StoreError) → IsQuiet (row_or o e)
unfolding row_or
row-IsQuiet none e = record { at = λ s. tt }
row-IsQuiet (some a) e = record { at = λ s. refl }

put_jobs-IsQuiet : (js : List Job) → IsQuiet (put_jobs js)
unfolding put_jobs
put_jobs-IsQuiet js = record { at = λ s. refl }

-- Consuming a job leaves the stock.
pub consume_job-keeps :
    {P : Inventory → Type 0} (storage id : RowId) → Triple P (consume_job storage id) P
unfolding consume_job
consume_job-keeps storage id = Triple-gets _ (λ js. Triple-row_or _ _ (λ j found.
    Triple-refuse_if _ _ (λ ready. Triple-gets _ (λ now. Triple-quiet (put_jobs-IsQuiet _)))))

apply_decrements-Sound :
    (storage product : RowId) (user : Option RowId) (ds : List ConsumeBatchDecrement)
    → Triple Sound (apply_decrements storage product user ds) Sound
unfolding apply_decrements
apply_decrements-Sound storage product user [] = Triple-pure [] (λ t h. h)
apply_decrements-Sound storage product user (d ∷ ds) =
    Triple-bind (adjust_batch_tx-Sound storage d.batch_id _ consumption user) (λ owner.
      Triple-refuse_if _ _ (λ own.
        Triple-bind (apply_decrements-Sound storage product user ds)
          (λ ids. Triple-pure _ (λ t h. h))))

apply_accepted-Sound :
    (storage : RowId) (user product : Option RowId) (ds : List ConsumeBatchDecrement)
    → Triple Sound (apply_accepted storage user product ds) Sound
apply_accepted-Sound storage user none ds = Triple-fail _
apply_accepted-Sound storage user (some p) ds = require_product-keeps storage p (λ t row h found.
    Triple-refuse_if _ _ (λ some_left.
      Triple-strengthen (λ u e. subst Sound (sym e) h) (apply_decrements-Sound storage p user ds)))

apply_decisions-Sound :
    (storage : RowId) (user : Option RowId) (ds : List ConsumeDecision)
    → Triple Sound (apply_decisions storage user ds) Sound
unfolding apply_decisions
apply_decisions-Sound storage user [] = Triple-pure [] (λ t h. h)
apply_decisions-Sound storage user (d ∷ ds) =
    Triple-bind
      (Triple-if d.accept (λ _. apply_accepted-Sound storage user d.product_id d.decrements)
        (λ _. Triple-pure _ (λ t h. h)))
      (λ ids.
        Triple-bind (apply_decisions-Sound storage user ds) (λ more. Triple-pure _ (λ t h. h)))

-- A sound stock stays sound under every confirm of a consumption proposal, whatever it answers and
-- whatever the decoder reads.
pub confirm_consumption-Sound :
    (decode : Option String → Option (List String)) (env : Env) (storage job : RowId)
    (user : Option RowId) (decisions : List ConsumeDecision) (db : Database)
    → Sound db.tables
    → Sound (confirm_consumption decode env storage job user decisions db).1.tables
unfolding confirm_consumption confirm_consumption_tx
confirm_consumption-Sound decode env storage job user decisions db h =
    Triple-in_tx env db
      (Triple-gets _ (λ js. Triple-row_or _ _ (λ j found. Triple-refuse_if _ _ (λ ready.
        Triple-from_result _ (λ _ rows.
          Triple-bind (apply_decisions-Sound storage user decisions) (λ ids.
            Triple-bind (consume_job-keeps storage job) (λ _. Triple-pure _ (λ t k. k))))))))
      h

apply_counts-Sound :
    (storage : RowId) (by : Option RowId) (cs : List StocktakeCount)
    → Triple Sound (apply_counts storage by cs) Sound
unfolding apply_counts
apply_counts-Sound storage by [] = Triple-pure 0 (λ t h. h)
apply_counts-Sound storage by (c ∷ cs) =
    Triple-bind (set_batch_quantity-Sound storage c.batch_id c.quantity by)
      (λ r. Triple-bind (apply_counts-Sound storage by cs) (λ n. Triple-pure _ (λ t h. h)))

add_found-Sound :
    (storage place : RowId) (by : Option RowId) (fs : List FoundStock)
    → Triple Sound (add_found storage place by fs) Sound
unfolding add_found
add_found-Sound storage place by [] = Triple-pure [] (λ t h. h)
add_found-Sound storage place by (f ∷ fs) =
    Triple-bind (create_batch_tx-Sound storage (found_batch place by f))
      (λ v. Triple-bind (add_found-Sound storage place by fs) (λ ids. Triple-pure _ (λ t h. h)))

-- A sound stock stays sound under every confirm of a stocktake, whatever it answers.
pub confirm_stocktake-Sound :
    (env : Env) (storage place : RowId) (by : Option RowId) (counts : List StocktakeCount)
    (found : List FoundStock) (db : Database)
    → Sound db.tables
    → Sound (confirm_stocktake env storage place by counts found db).1.tables
unfolding confirm_stocktake confirm_stocktake_tx lock_location_batches
confirm_stocktake-Sound env storage place by counts found db h =
    Triple-in_tx env db
      (require_location-keeps storage place (λ t l k there.
        Triple-strengthen (λ u e. subst Sound (sym e) k)
          (Triple-gets _ (λ held. Triple-from_result _ (λ _ exact.
            Triple-bind (apply_counts-Sound storage by counts) (λ n.
              Triple-bind (add_found-Sound storage place by found) (λ ids. Triple-gets _ (λ now.
                Triple-bind (update_location_row-Sound (audited now) (λ r. refl) (λ r. refl) place)
                  (λ _. Triple-pure _ (λ u k'. k'))))))))))
      h

-- A sound stock stays sound under every DestroyContainer, whatever it answers.
pub destroy_container-Sound :
    (env : Env) (storage id : RowId) (db : Database)
    → Sound db.tables
    → Sound (destroy_container env storage id db).1.tables
unfolding destroy_container
destroy_container-Sound env storage id db h =
    Triple-in_tx env db (unmoved (λ q. destroy_container_tx-keeps q (pos 0) storage id)) h
