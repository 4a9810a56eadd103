-- ===== src/Store/Jobs/Inbox.antt =====
-- internal/store/jobs.go: what the review inbox reads and does: list, discard, requeue, consume, and
-- the photos that outlive the review.
use inventory.Prelude.{
  ℕ, Option, none, some, List, [], ◌∷◌, Bool, true, false, not, ◌&&◌, ◌||◌, String, leb_ℤ, ◌==◌,
  ltb, is_some, select, take, if◌then◌else◌, map,
}
use inventory.Prelude.Table.{find, modify, remove}
use inventory.Store.Schema.{
  RowId, Instant, JobStatus, pending, done, failed, consumed, Job, Database, job_key,
}
use inventory.Store.Tx.{
  Result, err, not_found, conflict, validation, Tx, ◌>>=◌, ◌>>◌, pure, refuse_if, row_or, gets,
  put_jobs, Env, in_tx,
}
use inventory.Store.Jobs.{JobLease, claim, is_done, is_failed, is_consumed}

abbrev pub in_storage_job : RowId → Option Job → Option Job
in_storage_job storage none = none
in_storage_job storage (some j) = if j.storage_id == storage then some j else none

-- … FROM jobs WHERE id = $1 AND storage_id = $2
unfoldable pub find_job : RowId → RowId → List Job → Option Job
unfolding find
find_job storage id js = in_storage_job storage (find job_key id js)

-- `Job`
unfoldable pub job : Env → RowId → RowId → Database → Result Job × Database
unfolding find_job
job env storage id =
    in_tx env (gets (λ s. s.db.jobs) >>= λ js. row_or (find_job storage id js) not_found)

-- ORDER BY id DESC
unfoldable pub insert_newest : Job → List Job → List Job
insert_newest j [] = j ∷ []
insert_newest j (k ∷ ks) =
    let rest = insert_newest j ks in if ltb j.id k.id then k ∷ rest else j ∷ k ∷ ks

unfoldable pub newest_first : List Job → List Job
unfolding insert_newest
newest_first [] = []
newest_first (j ∷ js) = insert_newest j (newest_first js)

abbrev same_status : JobStatus → JobStatus → Bool
same_status pending pending = true
same_status done done = true
same_status failed failed = true
same_status consumed consumed = true
same_status _ _ = false

abbrev among : List JobStatus → JobStatus → Bool
among [] s = false
among (t ∷ ts) s = same_status t s || among ts s

-- $3 IS NULL OR id < $3
abbrev past_cursor : Option RowId → Job → Bool
past_cursor none j = true
past_cursor (some c) j = ltb j.id c

abbrev is_listed : RowId → List JobStatus → Option RowId → Job → Bool
is_listed storage statuses after j =
    j.storage_id == storage && (among statuses j.status && past_cursor after j)

unfoldable pub page : RowId → List JobStatus → Option RowId → ℕ → List Job → List Job
unfolding newest_first
page storage statuses after limit js =
    take limit (newest_first (select (is_listed storage statuses after) js))

abbrev no_statuses : List JobStatus → Bool
no_statuses [] = true
no_statuses (_ ∷ _) = false

unfoldable pub list_jobs :
    Env → RowId → List JobStatus → Option RowId → ℕ → Database → Result (List Job) × Database
unfolding page
list_jobs env storage statuses after limit db =
    if no_statuses statuses
    then (err validation, db)
    else in_tx env (gets (λ s. page storage statuses after limit s.db.jobs)) db

-- `DeleteJob`; the answer is the photo's file name.
unfoldable pub delete_job : Env → RowId → RowId → Database → Result (Option String) × Database
unfolding find_job
delete_job env storage id = in_tx env (do
  js ← gets (λ s. s.db.jobs)
  j ← row_or (find_job storage id js) not_found
  put_jobs (remove job_key id js)
  pure j.image_filename)

pub record DiscardedJob : Type 0 where
  pub id : RowId
  pub image_filename : Option String

abbrev discarded : Job → DiscardedJob
discarded j = record { id = j.id; image_filename = j.image_filename }

abbrev pub is_discarded : RowId → Instant → Job → Bool
is_discarded storage up_to j =
    j.storage_id == storage && (not (is_consumed j.status) && leb_ℤ j.created_at up_to)

-- `DiscardJobs`; a status that is not consumed is pending, done or failed.
unfoldable pub discard_jobs :
    Env → RowId → Instant → Database → Result (List DiscardedJob) × Database
discard_jobs env storage up_to = in_tx env (do
  js ← gets (λ s. s.db.jobs)
  put_jobs (select (λ j. not (is_discarded storage up_to j)) js)
  pure (map discarded (select (is_discarded storage up_to) js)))

abbrev pub requeued : JobLease → Instant → Job → Job
requeued lease now j = record j {
  status = pending;
  payload = none;
  error = none;
  updated_at = now;
  lease_owner = (claim lease now).lease_owner;
  lease_expires_at = (claim lease now).lease_expires_at;
}

unfoldable pub requeue_job :
    Env → RowId → RowId → JobLease → Database → Result (Unit {0}) × Database
unfolding find_job
requeue_job env storage id lease = in_tx env (do
  js ← gets (λ s. s.db.jobs)
  j ← row_or (find_job storage id js) not_found
  refuse_if (not (is_done j.status) && not (is_failed j.status)) conflict
  refuse_if (not (is_some j.image_filename)) conflict
  now ← gets (λ s. s.clock.instant)
  put_jobs (modify job_key id (requeued lease now) js))

abbrev pub consumed_at : Instant → Job → Job
consumed_at now j = record j { status = consumed; updated_at = now }

-- `ConsumeJob`, inside the transaction of the writes that the proposal causes.
unfoldable pub consume_job : RowId → RowId → Tx (Unit {0})
unfolding find_job
consume_job storage id = do
  js ← gets (λ s. s.db.jobs)
  j ← row_or (find_job storage id js) not_found
  refuse_if (not (is_done j.status)) conflict
  now ← gets (λ s. s.clock.instant)
  put_jobs (modify job_key id (consumed_at now) js)

abbrev pub no_image : Job → Job
no_image j = record j { image_filename = none }

-- `ClearJobImage`
unfoldable pub clear_job_image : Env → RowId → Database → Result (Unit {0}) × Database
clear_job_image env id =
    in_tx env (gets (λ s. s.db.jobs) >>= λ js. put_jobs (modify job_key id no_image js))
