-- ===== src/Store/Consumption/Once.antt =====
-- internal/store/consumption.go: a proposal is applied once.
use inventory.Prelude.{◌≡◌, refl, sym, true, Option, List, String, inl, inr}
use inventory.Prelude.Table.{find}
use inventory.Store.Schema.{RowId, Database, job_key}
use inventory.Store.Tx.{
  StoreError, ok, err, not_found, conflict, Session, ◌>>=◌, pure, gets, row_or, refuse_if, Env,
  in_tx,
}
use inventory.Store.Tx.Rules.{Returns, Returns-any, Returns-bind, in_tx-succeeds}
use inventory.Store.Jobs.Life.{IsQueue}
use inventory.Store.Jobs.History.{JobCall, history, IsSpent, IsNotReused, history-IsSpent}
use inventory.Store.Jobs.Once.{IsRefusal, IsRefused, spent_in, applied-IsSpent}
use inventory.Store.Jobs.Claims.{IsApplied, consume_job-IsApplied, in_tx-refuses}
use inventory.Store.Consumption.{ConsumeDecision, confirm_consumption_tx, confirm_consumption}

module _ (decode : Option String → Option (List String)) (storage job : RowId) (user : Option RowId)
    (decisions : List ConsumeDecision) where
  confirm-IsApplied :
      (s : Session)
      → Returns
          (λ _ s'. IsApplied storage job s'.db)
          (confirm_consumption_tx decode storage job user decisions s)
  unfolding confirm_consumption_tx pure
  confirm-IsApplied s =
      Returns-bind (λ _ _. Unit {0}) _ _ _ s (Returns-any _)
        (λ js s1 _.
          Returns-bind (λ _ _. Unit {0}) _ _ _ s1 (Returns-any _)
            (λ j s2 _.
              Returns-bind (λ _ _. Unit {0}) _ _ _ s2 (Returns-any _)
                (λ _ s3 _.
                  Returns-bind (λ _ _. Unit {0}) _ _ _ s3 (Returns-any _)
                    (λ _ s4 _.
                      Returns-bind (λ _ _. Unit {0}) _ _ _ s4 (Returns-any _)
                        (λ ids s5 _.
                          Returns-bind (λ _ s'. IsApplied storage job s'.db) _ _ _ s5
                            (consume_job-IsApplied storage job s5) (λ _ s6 applied. applied))))))

  confirm-refuses :
      (s : Session)
      → IsSpent (find job_key job s.db.jobs)
      → (e : StoreError) × IsRefusal e
        × (confirm_consumption_tx decode storage job user decisions s ≡ err e)
  unfolding confirm_consumption_tx ◌>>=◌ gets row_or refuse_if
  confirm-refuses s h = elim (spent_in storage job s.db.jobs h) [
    | inl gone ↦ (not_found, inl refl, rw gone refl)
    | inr (j, e, c) ↦ (conflict, inr refl, rw (e, c) refl)
  ]

-- Where a confirm of a consumption proposal succeeded and left the queue in order, then after any calls
-- on the queue, of which none gives the job's id to a new row, and whatever became of the other tables,
-- a confirm of it that can begin, with whatever decisions, answers not_found or a conflict and changes
-- nothing.
pub confirm_consumption-once :
    (decode : Option String → Option (List String)) (env later : Env) (storage storage' job : RowId)
    (user user' : Option RowId) (decisions decisions' : List ConsumeDecision)
    (calls : List (Env × JobCall)) (db db' : Database) {ids : List RowId}
    → (confirm_consumption decode env storage job user decisions db).0 ≡ ok ids
    → IsQueue (confirm_consumption decode env storage job user decisions db).1.jobs
    → IsNotReused job calls (confirm_consumption decode env storage job user decisions db).1
    → db'.jobs
      ≡ (history calls (confirm_consumption decode env storage job user decisions db).1).jobs
    → later.begins ≡ true
    → IsRefused (confirm_consumption decode later storage' job user' decisions' db') db'
unfolding confirm_consumption
confirm_consumption-once decode env later storage storage' job user user' decisions decisions' calls
      db db' h q new same b =
    let after = (in_tx env (confirm_consumption_tx decode storage job user decisions) db).1 in
    let applied =
      in_tx-succeeds (IsApplied storage job) env
        (confirm_consumption_tx decode storage job user decisions) db
        (confirm-IsApplied decode storage job user decisions _) h in
    let spent = history-IsSpent calls after job q new (applied-IsSpent storage job after applied) in
    let (e, kind, says) =
      confirm-refuses decode storage' job user' decisions'
        (record { db = db'; ids = later.ids; clock = later.clock }) (rw (sym same) at spent) in
    (
      e,
      kind,
      in_tx-refuses later (confirm_consumption_tx decode storage' job user' decisions') db' b says,
    )
