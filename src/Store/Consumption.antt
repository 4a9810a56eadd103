-- ===== src/Store/Consumption.antt =====
-- internal/store/consumption.go: a reviewed proposal takes units out of batches. `decode` stands for
-- the JSON decoder: from a job's payload, the row ids of the proposal.
pub mod Once
pub mod Taken
use inventory.Prelude.{
  Option, none, some, List, [], ◌∷◌, ◌++◌, map, Bool, true, false, not, String, ℤ, pos, ◌-ℤ◌, ◌==◌,
  if◌then◌else◌,
}
use inventory.Store.Schema.{RowId, consumption, Database}
use inventory.Store.Tx.{
  Result, not_found, conflict, validation, Tx, ◌>>=◌, ◌>>◌, pure, fail, refuse_if, row_or,
  from_result, gets, Env, in_tx,
}
use inventory.Store.Rows.{require_product_in_storage}
use inventory.Store.RowSets.{match_row_ids}
use inventory.Store.Batches.{adjust_batch_tx}
use inventory.Store.Jobs.{is_done}
use inventory.Store.Jobs.Inbox.{find_job, consume_job}

pub record ConsumeBatchDecrement : Type 0 where
  pub batch_id : RowId
  pub quantity : ℤ

pub record ConsumeDecision : Type 0 where
  pub row_id : String
  pub accept : Bool
  pub product_id : Option RowId
  pub decrements : List ConsumeBatchDecrement

abbrev no_decrements : List ConsumeBatchDecrement → Bool
no_decrements [] = true
no_decrements (_ ∷ _) = false

-- The loop over the decrements of a row; the answer is the batches that it touched.
unfoldable pub apply_decrements :
    RowId → RowId → Option RowId → List ConsumeBatchDecrement → Tx (List RowId)
apply_decrements storage product user [] = pure []
apply_decrements storage product user (d ∷ ds) = do
  owner ← adjust_batch_tx storage d.batch_id (pos 0 -ℤ d.quantity) consumption user
  refuse_if (not (owner == product)) validation
  ids ← apply_decrements storage product user ds
  pure (d.batch_id ∷ ids)

-- An accepted row.
abbrev pub apply_accepted :
    RowId → Option RowId → Option RowId → List ConsumeBatchDecrement → Tx (List RowId)
apply_accepted storage user none ds = fail validation
apply_accepted storage user (some product) ds = do
  require_product_in_storage storage product
  refuse_if (no_decrements ds) validation
  apply_decrements storage product user ds

abbrev apply_decision : RowId → Option RowId → ConsumeDecision → Tx (List RowId)
apply_decision storage user d =
    if d.accept then apply_accepted storage user d.product_id d.decrements else pure []

-- The loop over the decisions.
unfoldable pub apply_decisions : RowId → Option RowId → List ConsumeDecision → Tx (List RowId)
apply_decisions storage user [] = pure []
apply_decisions storage user (d ∷ ds) = do
  ids ← apply_decision storage user d
  more ← apply_decisions storage user ds
  pure (ids ++ more)

abbrev decided_row : ConsumeDecision → String
decided_row d = d.row_id

unfoldable pub confirm_consumption_tx :
    (Option String → Option (List String))
    → RowId
    → RowId
    → Option RowId
    → List ConsumeDecision
    → Tx (List RowId)
unfolding apply_decisions apply_decrements match_row_ids find_job consume_job
confirm_consumption_tx decode storage job user decisions = do
  js ← gets (λ s. s.db.jobs)
  j ← row_or (find_job storage job js) not_found
  refuse_if (not (is_done j.status)) conflict
  from_result (match_row_ids decode j.payload (map decided_row decisions))
  ids ← apply_decisions storage user decisions
  consume_job storage job
  pure ids

-- `ConfirmConsumption`; the answer is the field of its result.
unfoldable pub confirm_consumption :
    (Option String → Option (List String))
    → Env
    → RowId
    → RowId
    → Option RowId
    → List ConsumeDecision
    → Database
    → Result (List RowId) × Database
unfolding confirm_consumption_tx
confirm_consumption decode env storage job user decisions =
    in_tx env (confirm_consumption_tx decode storage job user decisions)
