-- ===== src/Store/Jobs/History.antt =====
-- Any sequence of calls on the queue of jobs.
use inventory.Prelude.{
  ◌≡◌, refl, Option, none, some, Option-cases, inl, inr, List, [], ◌∷◌, String, ap, ◌∙◌,
}
use inventory.Prelude.Table.{find}
use inventory.Store.Schema.{RowId, Instant, JobStatus, consumed, Job, Database, job_key}
use inventory.Store.Tx.{Env, in_tx}
use inventory.Store.Jobs.{
  JobLease, NewJob, create_job, complete_job, fail_job, fail_orphaned_jobs, renew_job_leases,
  release_job_leases,
}
use inventory.Store.Jobs.Inbox.{delete_job, discard_jobs, requeue_job, consume_job, clear_job_image}
use inventory.Store.Jobs.Life.{
  Edge, stays, completes, fails, requeues_done, requeues_failed, consumes, IsQueue, Lives,
  Transition, absent, created, gone, moved,
}
use inventory.Store.Jobs.Calls.{in_tx-Lives}
use inventory.Store.Jobs.Calls.{
  complete_job-Lives, fail_job-Lives, fail_orphaned_jobs-Lives, renew_job_leases-Lives,
  release_job_leases-Lives,
}
use inventory.Store.Jobs.Reviews.{
  create_job-Lives, delete_job-Lives, discard_jobs-Lives, requeue_job-Lives, consume_job-Lives,
  clear_job_image-Lives,
}

pub data JobCall : Type 0 where
  create : NewJob → JobCall
  complete : RowId → String → JobCall
  fail : RowId → String → JobCall
  sweep : RowId → JobCall
  renew : JobLease → JobCall
  release : RowId → JobCall
  delete : RowId → RowId → JobCall
  discard : RowId → Instant → JobCall
  requeue : RowId → RowId → JobLease → JobCall
  consume : RowId → RowId → JobCall
  clear_image : RowId → JobCall

-- The database after a call; `consume` stands for the smallest transaction that calls ConsumeJob, and
-- `complete` has a payload, which the runner sees to.
unfoldable pub after_call : Env → JobCall → Database → Database
after_call env (create new) db = (create_job env new db).1
after_call env (complete id payload) db = (complete_job env id (some payload) db).1
after_call env (fail id message) db = (fail_job env id message db).1
after_call env (sweep owner) db = (fail_orphaned_jobs env owner db).1
after_call env (renew lease) db = (renew_job_leases env lease db).1
after_call env (release owner) db = (release_job_leases env owner db).1
after_call env (delete storage id) db = (delete_job env storage id db).1
after_call env (discard storage up_to) db = (discard_jobs env storage up_to db).1
after_call env (requeue storage id lease) db = (requeue_job env storage id lease db).1
after_call env (consume storage id) db = (in_tx env (consume_job storage id) db).1
after_call env (clear_image id) db = (clear_job_image env id db).1

after_call-Lives :
    (env : Env) (c : JobCall) (db : Database) → Lives db.jobs (after_call env c db).jobs
unfolding after_call
after_call-Lives env (create new) db = create_job-Lives env new db
after_call-Lives env (complete id payload) db = complete_job-Lives env id payload db
after_call-Lives env (fail id message) db = fail_job-Lives env id message db
after_call-Lives env (sweep owner) db = fail_orphaned_jobs-Lives env owner db
after_call-Lives env (renew lease) db = renew_job_leases-Lives env lease db
after_call-Lives env (release owner) db = release_job_leases-Lives env owner db
after_call-Lives env (delete storage id) db = delete_job-Lives env storage id db
after_call-Lives env (discard storage up_to) db = discard_jobs-Lives env storage up_to db
after_call-Lives env (requeue storage id lease) db = requeue_job-Lives env storage id lease db
after_call-Lives env (consume storage id) db = in_tx-Lives env db (consume_job-Lives storage id)
after_call-Lives env (clear_image id) db = clear_job_image-Lives env id db

-- From a queue in order, a call moves the row under each id along the state machine: it leaves the
-- row in its status, completes or fails a pending one, requeues a done or failed one, consumes a done
-- one, deletes one, or creates a pending one.
pub after_call-Transition :
    (env : Env) (c : JobCall) (db : Database) (id : RowId)
    → IsQueue db.jobs
    → Transition (find job_key id db.jobs) (find job_key id (after_call env c db).jobs)
after_call-Transition env c db id q = (after_call-Lives env c db q).0 id

-- The calls of several processes, in the order in which they commit.
unfoldable pub history : List (Env × JobCall) → Database → Database
unfolding after_call
history [] db = db
history ((env, c) ∷ rest) db = history rest (after_call env c db)

-- From a queue in order, any sequence of calls keeps it in order: ids stay unique, a pending row has neither a
-- proposal nor a message, a done or consumed row has a proposal, a failed row a message, and only a
-- pending row has an owner, with an expiry.
pub history-IsQueue :
    (calls : List (Env × JobCall)) (db : Database)
    → IsQueue db.jobs
    → IsQueue (history calls db).jobs
unfolding history
history-IsQueue [] db q = q
history-IsQueue ((env, c) ∷ rest) db q =
    history-IsQueue rest (after_call env c db) (after_call-Lives env c db q).1

-- A consumed row, or none.
abbrev pub IsSpent : Option Job → Type 0
IsSpent none = Unit
IsSpent (some j) = j.status ≡ consumed

Edge-consumed : {s t : JobStatus} → Edge s t → s ≡ consumed → t ≡ consumed
Edge-consumed (stays s) h = h
Edge-consumed completes h = absurd (cc)
Edge-consumed fails h = absurd (cc)
Edge-consumed requeues_done h = absurd (cc)
Edge-consumed requeues_failed h = absurd (cc)
Edge-consumed consumes h = refl

some-job : (j k : Job) → some j ≡ some k → j ≡ k
some-job j k h = cc

Transition-consumed :
    {o o' : Option Job} (j : Job) → Transition o o' → o ≡ some j → j.status ≡ consumed → IsSpent o'
Transition-consumed j absent e h = tt
Transition-consumed j (created k p) e h = absurd (cc)
Transition-consumed j (gone k) e h = tt
Transition-consumed j (moved k k' edge) e h =
    Edge-consumed edge (ap (λ (x : Job). x.status) (some-job k j e) ∙ h)

-- No call gives the id to a new row: uuid.NewV7 does not answer an id twice.
abbrev pub IsNotReused : RowId → List (Env × JobCall) → Database → Type 0
IsNotReused id [] db = Unit
IsNotReused id ((env, c) ∷ rest) db =
    (find job_key id db.jobs ≡ none → find job_key id (after_call env c db).jobs ≡ none)
    × IsNotReused id rest (after_call env c db)

after_call-IsSpent :
    (env : Env) (c : JobCall) (db : Database) (id : RowId)
    → IsQueue db.jobs
    → (find job_key id db.jobs ≡ none → find job_key id (after_call env c db).jobs ≡ none)
    → IsSpent (find job_key id db.jobs)
    → IsSpent (find job_key id (after_call env c db).jobs)
after_call-IsSpent env c db id q new spent = elim (Option-cases (find job_key id db.jobs)) [
  | inl gone_ ↦ rw (new gone_) tt
  | inr (j, e) ↦ Transition-consumed j (after_call-Transition env c db id q) e (rw e at spent)
]

-- What was consumed stays consumed, or is deleted.
pub history-IsSpent :
    (calls : List (Env × JobCall)) (db : Database) (id : RowId)
    → IsQueue db.jobs
    → IsNotReused id calls db
    → IsSpent (find job_key id db.jobs)
    → IsSpent (find job_key id (history calls db).jobs)
unfolding history
history-IsSpent [] db id q new spent = spent
history-IsSpent ((env, c) ∷ rest) db id q (now, later) spent =
    history-IsSpent rest (after_call env c db) id (after_call-Lives env c db q).1 later
      (after_call-IsSpent env c db id q now spent)
