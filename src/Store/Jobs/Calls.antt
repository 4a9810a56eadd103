-- ===== src/Store/Jobs/Calls.antt =====
-- The workers' calls, the state machine of jobs and the order of the queue.
use inventory.Prelude.{
  ◌≡◌, refl, Bool, true, Option, none, some, String, ℤ, ◌+ℤ◌, inl, inr, Bool-cases, Option-cases,
  exists, arith,
}
use inventory.Store.Schema.{
  RowId, Instant, JobStatus, pending, done, failed, consumed, Job, Database, job_key,
}
use inventory.Store.Tx.{Session, Tx, ◌>>=◌, pure, gets, put_jobs, Env, in_tx}
use inventory.Store.Tx.Rules.{Returns, in_tx-keeps}
use inventory.Store.Jobs.{
  JobLease, is_pending, finishes, finished, update_some, update_counted, finish_job, complete_job,
  fail_job, is_orphan, orphaned, fail_orphaned_jobs, owned_by, held_by, renewed, renew_owned,
  renew_job_leases, released, release_job_leases,
}
use inventory.Store.Jobs.Life.{
  Outcome, Leased, IsJob, Edge, stays, completes, fails, Lives, Lives-refl, Lives-update_where,
}

-- What a step does to the queue.
pub record TxLives {A : Type 0} (m : Tx A) : Type 0 where
  pub at : (s : Session) → Returns (λ _ s'. Lives s.db.jobs s'.db.jobs) (m s)

pub in_tx-Lives :
    {A : Type 0} {m : Tx A} (env : Env) (db : Database)
    → TxLives m
    → Lives db.jobs (in_tx env m db).1.jobs
in_tx-Lives {m} env db h =
    in_tx-keeps (λ d. Lives db.jobs d.jobs) env m db (Lives-refl db.jobs)
      (h.at (record { db = db; ids = env.ids; clock = env.clock }))

module _ (test : Job → Bool) (f : Job → Job) (keeps : (j : Job) → job_key (f j) ≡ job_key j)
    (edge : (j : Job) → test j ≡ true → Edge j.status (f j).status)
    (ok : (j : Job) → test j ≡ true → IsJob j → IsJob (f j)) where
  update_some-Lives : TxLives (update_some test f)
  unfolding update_some put_jobs
  update_some-Lives = record {
    at = λ s. elim (Bool-cases (exists test s.db.jobs)) [
      | inl some_row ↦ rw some_row (Lives-update_where test f keeps edge ok s.db.jobs)
      | inr no_row ↦ rw no_row tt
    ];
  }

  update_counted-Lives : TxLives (update_counted test f)
  unfolding update_counted put_jobs ◌>>=◌ pure
  update_counted-Lives = record { at = λ s. Lives-update_where test f keeps edge ok s.db.jobs }

to_status : (s t : JobStatus) → is_pending s ≡ true → Edge pending t → Edge s t
to_status pending t h e = e
to_status done t h e = absurd (cc)
to_status failed t h e = absurd (cc)
to_status consumed t h e = absurd (cc)

is_pending-eq : (s : JobStatus) → is_pending s ≡ true → s ≡ pending
is_pending-eq s h = ground arith

finishes-pending : (id : RowId) (j : Job) → finishes id j ≡ true → is_pending j.status ≡ true
finishes-pending id j h = ground arith

orphan-pending :
    (owner : RowId) (now : Instant) (j : Job)
    → is_orphan owner now j ≡ true
    → is_pending j.status ≡ true
orphan-pending owner now j h = ground arith

held-pending : (owner : RowId) (j : Job) → held_by owner j ≡ true → is_pending j.status ≡ true
held-pending owner j h = ground arith

pub complete_job-Lives :
    (env : Env) (id : RowId) (payload : String) (db : Database)
    → Lives db.jobs (complete_job env id (some payload) db).1.jobs
unfolding complete_job finish_job ◌>>=◌ gets
complete_job-Lives env id payload db = in_tx-Lives env db (record {
  at = λ s.
      (update_some-Lives (finishes id) (finished done (some payload) none s.clock.instant)
          (λ j. refl) (λ j t. to_status j.status done (finishes-pending id j t) completes)
          (λ j t h. (tt, tt))).at
        s;
})

pub fail_job-Lives :
    (env : Env) (id : RowId) (message : String) (db : Database)
    → Lives db.jobs (fail_job env id message db).1.jobs
unfolding fail_job finish_job ◌>>=◌ gets
fail_job-Lives env id message db = in_tx-Lives env db (record {
  at = λ s.
      (update_some-Lives (finishes id) (finished failed none (some message) s.clock.instant)
          (λ j. refl) (λ j t. to_status j.status failed (finishes-pending id j t) fails)
          (λ j t h. (tt, tt))).at
        s;
})

-- A pending row holds no proposal, so that a swept one is a failed one.
swept :
    (s : JobStatus) (payload : Option String) (error : Option String) (message : String)
    → is_pending s ≡ true
    → Outcome s payload error
    → Outcome failed payload (some message)
swept pending none none m h o = tt
swept pending none (some e) m h o = tt
swept pending (some p) none m h o = o
swept pending (some p) (some e) m h o = o
swept done p e m h o = absurd (cc)
swept failed p e m h o = absurd (cc)
swept consumed p e m h o = absurd (cc)

pub fail_orphaned_jobs-Lives :
    (env : Env) (owner : RowId) (db : Database)
    → Lives db.jobs (fail_orphaned_jobs env owner db).1.jobs
unfolding fail_orphaned_jobs ◌>>=◌ gets
fail_orphaned_jobs-Lives env owner db = in_tx-Lives env db (record {
  at = λ s.
      (update_counted-Lives (is_orphan owner s.clock.instant) (orphaned s.clock.instant) (λ j. refl)
          (λ j t. to_status j.status failed (orphan-pending owner s.clock.instant j t) fails)
          (λ j t h. (
            swept j.status j.payload j.error _ (orphan-pending owner s.clock.instant j t) h.0,
            tt,
          ))).at
        s;
})

still-Leased :
    (owner : RowId) (expiry : Instant) (s : JobStatus) (o : Option RowId)
    → is_pending s ≡ true
    → owned_by owner o ≡ true
    → Leased s o (some expiry)
still-Leased owner expiry pending none h k = absurd (cc)
still-Leased owner expiry pending (some o) h k = tt
still-Leased owner expiry done o h k = absurd (cc)
still-Leased owner expiry failed o h k = absurd (cc)
still-Leased owner expiry consumed o h k = absurd (cc)

held-owned :
    (owner : RowId) (j : Job) → held_by owner j ≡ true → owned_by owner j.lease_owner ≡ true
held-owned owner j h = ground arith

renew_owned-Lives : (owner : RowId) (ttl : ℤ) → TxLives (renew_owned owner ttl)
unfolding renew_owned ◌>>=◌ gets
renew_owned-Lives owner ttl = record {
  at = λ s.
      (update_counted-Lives (held_by owner) (renewed (s.clock.instant +ℤ ttl)) (λ j. refl)
          (λ j t. stays j.status)
          (λ j t h. (
            h.0,
            still-Leased owner _ j.status j.lease_owner (held-pending owner j t)
                (held-owned owner j t),
          ))).at
        s;
}

pub renew_job_leases-Lives :
    (env : Env) (lease : JobLease) (db : Database)
    → Lives db.jobs (renew_job_leases env lease db).1.jobs
unfolding renew_job_leases
renew_job_leases-Lives env lease db = elim (Option-cases lease.owner) [
  | inl nobody ↦ rw (nobody, renew_job_leases) (Lives-refl db.jobs)
  | inr owner ↦
      rw (owner.1, renew_job_leases) (in_tx-Lives env db (renew_owned-Lives owner.0 lease.ttl))
]

unleased : (s : JobStatus) → Leased s none none
unleased pending = tt
unleased done = tt
unleased failed = tt
unleased consumed = tt

pub release_job_leases-Lives :
    (env : Env) (owner : RowId) (db : Database)
    → Lives db.jobs (release_job_leases env owner db).1.jobs
unfolding release_job_leases
release_job_leases-Lives env owner db = in_tx-Lives env db (
    update_counted-Lives (held_by owner) released (λ j. refl) (λ j t. stays j.status)
      (λ j t h. (h.0, unleased j.status)))
