-- ===== src/Store/Jobs.antt =====
-- internal/store/jobs.go: the background jobs, from their claim by a process to their outcome. A
-- statement outside a transaction commits by itself.
pub mod Inbox
pub mod Life
pub mod Calls
pub mod Reviews
pub mod History
pub mod Once
pub mod Claims
use inventory.Prelude.{
  ℕ, Option, none, some, List, [], ◌∷◌, Bool, true, false, not, ◌&&◌, ◌||◌, String, ℤ, ◌+ℤ◌, ltb_ℤ,
  leb_ℤ, ◌==◌, ltb, is_some, member, select, exists, if◌then◌else◌, map,
}
use inventory.Prelude.Table.{find, modify, remove, insert, update_where, count_where}
use inventory.Store.Schema.{
  RowId, Instant, JobStatus, pending, done, failed, consumed, JobKind, Job, Database, job_key,
}
use inventory.Store.Tx.{
  Result, ok, err, not_found, conflict, validation, internal, Session, Tx, ◌>>=◌, ◌>>◌, pure, fail,
  refuse_if, row_or, gets, put_jobs, new_id, Env, in_tx,
}
use inventory.Store.Rows.{require_same_storage}

-- `owner` is `none` for the zero UUID; `ttl` is in seconds.
pub record JobLease : Type 0 where
  pub owner : Option RowId
  pub ttl : ℤ

-- The two columns that a claim writes, at the database's clock.
pub record Claim : Type 0 where
  pub lease_owner : Option RowId
  pub lease_expires_at : Option Instant

unfoldable pub claim : JobLease → Instant → Claim
claim l now = elim l.owner [
  | none ↦ record { lease_owner = none; lease_expires_at = none }
  | some o ↦ record { lease_owner = some o; lease_expires_at = some (now +ℤ l.ttl) }
]

pub record NewJob : Type 0 where
  pub storage_id : RowId
  pub kind : JobKind
  pub created_by : Option RowId
  pub image_filename : Option String
  pub location_hint_id : Option RowId
  pub lease : JobLease

abbrev pub is_pending : JobStatus → Bool
is_pending pending = true
is_pending _ = false

abbrev pub is_done : JobStatus → Bool
is_done done = true
is_done _ = false

abbrev pub is_failed : JobStatus → Bool
is_failed failed = true
is_failed _ = false

abbrev pub is_consumed : JobStatus → Bool
is_consumed consumed = true
is_consumed _ = false

-- The location hint is checked against the storage.
abbrev pub check_hint : RowId → Option RowId → Tx (Unit {0})
check_hint storage none = pure tt
check_hint storage (some place) = require_same_storage storage place

-- The INSERT; a missing storage breaks the foreign key.
unfoldable pub insert_job_row : Job → Tx Job
insert_job_row j s =
    if member j.storage_id s.db.storages
    then (row_or (insert job_key j s.db.jobs) internal >>= λ js. put_jobs js >> pure j) s
    else err not_found

unfoldable pub create_job_tx : RowId → NewJob → Tx Job
unfolding insert_job_row
create_job_tx id new = do
  check_hint new.storage_id new.location_hint_id
  now ← gets (λ s. s.clock.instant)
  insert_job_row (record {
    id = id;
    storage_id = new.storage_id;
    kind = new.kind;
    status = pending;
    payload = none;
    error = none;
    created_by = new.created_by;
    image_filename = new.image_filename;
    location_hint_id = new.location_hint_id;
    created_at = now;
    updated_at = now;
    lease_owner = (claim new.lease now).lease_owner;
    lease_expires_at = (claim new.lease now).lease_expires_at;
  })

-- `CreateJob`; the id is minted before the transaction begins.
unfoldable pub create_job : Env → NewJob → Database → Result Job × Database
unfolding create_job_tx
create_job env new = in_tx env (new_id >>= λ id. create_job_tx id new)

-- A row that a worker may finish.
abbrev pub finishes : RowId → Job → Bool
finishes id j = j.id == id && is_pending j.status

abbrev pub finished : JobStatus → Option String → Option String → Instant → Job → Job
finished status payload message now j = record j {
  status = status;
  payload = payload;
  error = message;
  updated_at = now;
  lease_owner = none;
  lease_expires_at = none;
}

-- An UPDATE that has to reach a row.
unfoldable pub update_some : (Job → Bool) → (Job → Job) → Tx (Unit {0})
update_some test f s =
    if exists test s.db.jobs then put_jobs (update_where test f s.db.jobs) s else err not_found

-- An UPDATE that answers how many rows it reached.
unfoldable pub update_counted : (Job → Bool) → (Job → Job) → Tx ℕ
update_counted test f s =
    (put_jobs (update_where test f s.db.jobs) >> pure (count_where test s.db.jobs)) s

unfoldable pub finish_job :
    Env
    → RowId
    → JobStatus
    → Option String
    → Option String
    → Database
    → Result (Unit {0}) × Database
unfolding update_some
finish_job env id status payload message = in_tx env (
    gets (λ s. s.clock.instant) >>= λ now.
    update_some (finishes id) (finished status payload message now))

-- `CompleteJob`; a nil payload is NULL.
unfoldable pub complete_job : Env → RowId → Option String → Database → Result (Unit {0}) × Database
unfolding finish_job
complete_job env id payload = finish_job env id done payload none

unfoldable pub fail_job : Env → RowId → String → Database → Result (Unit {0}) × Database
unfolding finish_job
fail_job env id message = finish_job env id failed none (some message)

abbrev interrupted_job_error : String
interrupted_job_error = "Processing was interrupted by a server restart. Upload the photo again."

-- lease_owner IS DISTINCT FROM owner
abbrev pub owned_by : RowId → Option RowId → Bool
owned_by owner none = false
owned_by owner (some o) = o == owner

abbrev lapsed : Instant → Option Instant → Bool
lapsed now none = true
lapsed now (some t) = ltb_ℤ t now

abbrev pub is_orphan : RowId → Instant → Job → Bool
is_orphan owner now j =
    is_pending j.status && (not (owned_by owner j.lease_owner) && lapsed now j.lease_expires_at)

abbrev pub orphaned : Instant → Job → Job
orphaned now j = record j {
  status = failed;
  error = some interrupted_job_error;
  updated_at = now;
  lease_owner = none;
  lease_expires_at = none;
}

-- `FailOrphanedJobs`
unfoldable pub fail_orphaned_jobs : Env → RowId → Database → Result ℕ × Database
unfolding update_counted
fail_orphaned_jobs env owner =
    in_tx env
      (gets (λ s. s.clock.instant) >>= λ now. update_counted (is_orphan owner now) (orphaned now))

-- A row whose claim its owner renews or drops.
abbrev pub held_by : RowId → Job → Bool
held_by owner j = is_pending j.status && owned_by owner j.lease_owner

abbrev pub renewed : Instant → Job → Job
renewed expiry j = record j { lease_expires_at = some expiry }

unfoldable pub renew_owned : RowId → ℤ → Tx ℕ
unfolding update_counted
renew_owned owner ttl =
    gets (λ s. s.clock.instant) >>= λ now. update_counted (held_by owner) (renewed (now +ℤ ttl))

unfoldable pub renew_job_leases : Env → JobLease → Database → Result ℕ × Database
unfolding renew_owned
renew_job_leases env lease db = elim lease.owner [
  | none ↦ (err validation, db)
  | some owner ↦ in_tx env (renew_owned owner lease.ttl) db
]

abbrev pub released : Job → Job
released j = record j { lease_owner = none; lease_expires_at = none }

unfoldable pub release_job_leases : Env → RowId → Database → Result ℕ × Database
unfolding update_counted
release_job_leases env owner = in_tx env (update_counted (held_by owner) released)
