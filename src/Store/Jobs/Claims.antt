-- ===== src/Store/Jobs/Claims.antt =====
-- internal/store/jobs.go: what a claim protects a job from, and what a review is spent on.
use inventory.Prelude.{
  ◌≡◌, refl, true, false, not, Option, none, some, ◌⊎◌, inl, inr, Bool-cases, arith, ◌==◌, ==_refl,
  ◌≤ℤ◌,
}
use inventory.Prelude.Table.{find}
use inventory.Prelude.Table.Laws.{find-modify}
use inventory.Store.Schema.{RowId, Instant, consumed, Job, Database, job_key}
use inventory.Store.Tx.{
  Session, err, Env, in_tx, end_tx, StoreError, Tx, ◌>>=◌, gets, put_jobs, pure, refuse_if, row_or,
}
use inventory.Store.Tx.Rules.{Returns, in_tx-keeps}
use inventory.Store.Jobs.{fail_orphaned_jobs, is_orphan, orphaned, is_done}
use inventory.Store.Jobs.Inbox.{consumed_at, find_job, consume_job}
use inventory.Store.Jobs.Life.{find-update_where}

-- A job that the caller holds, or that somebody's claim covers at the instant.
abbrev IsClaimed : RowId → Instant → Job → Type 0
IsClaimed owner now j =
    (j.lease_owner ≡ some owner) ⊎ ((t : Instant) × (j.lease_expires_at ≡ some t) × (now ≤ℤ t))

claimed-not-orphan :
    (owner : RowId) (now : Instant) (j : Job)
    → IsClaimed owner now j
    → is_orphan owner now j ≡ false
claimed-not-orphan owner now j (inl mine) = ground (arith, ==_refl owner)
claimed-not-orphan owner now j (inr (t, e, later)) = ground arith

-- The sweep of FailOrphanedJobs leaves a job as it is that the calling process holds itself, or whose
-- claim has not run out at the transaction's instant, whatever its status.
pub fail_orphaned_jobs-claimed :
    (env : Env) (owner : RowId) (db : Database) (j : Job)
    → find job_key j.id db.jobs ≡ some j
    → IsClaimed owner env.clock.instant j
    → find job_key j.id (fail_orphaned_jobs env owner db).1.jobs ≡ some j
unfolding fail_orphaned_jobs ◌>>=◌ gets put_jobs pure
fail_orphaned_jobs-claimed env owner db j found h =
    in_tx-keeps (λ d. find job_key j.id d.jobs ≡ some j) env _ db found
      (rw (
        find-update_where (is_orphan owner env.clock.instant) (orphaned env.clock.instant)
            (λ k. refl) j.id db.jobs,
        found,
        claimed-not-orphan owner env.clock.instant j h,
      ))

-- The row that consuming wrote.
abbrev pub IsApplied : RowId → RowId → Database → Type 0
IsApplied storage id db = (j : Job) × (find_job storage id db.jobs ≡ some j) × (j.status ≡ consumed)

pub consume_job-IsApplied :
    (storage id : RowId) (s : Session)
    → Returns (λ _ s'. IsApplied storage id s'.db) (consume_job storage id s)
unfolding consume_job find_job ◌>>=◌ gets put_jobs refuse_if row_or
consume_job-IsApplied storage id s = look (find job_key id s.db.jobs) refl
  where
    look :
        (o : Option Job)
        → find job_key id s.db.jobs ≡ o
        → Returns (λ _ s'. IsApplied storage id s'.db) (consume_job storage id s)
    look none e = rw e tt
    look (some j) e = elim (Bool-cases (j.storage_id == storage)) [
      | inr foreign ↦ rw (e, foreign) tt
      | inl own ↦ elim (Bool-cases (not (is_done j.status))) [
        | inl undone ↦ rw (e, own, undone) tt
        | inr ready ↦
            rw (e, own, ready)
              (
                consumed_at s.clock.instant j,
                rw
                    (
                      find-modify job_key id id (consumed_at s.clock.instant) s.db.jobs (λ k. refl),
                      ==_refl id,
                      e,
                      own,
                    )
                    refl,
                refl,
              )
      ]
    ]

pub in_tx-refuses :
    {A : Type 0} (env : Env) (fn : Tx A) (db : Database) {e : StoreError}
    → env.begins ≡ true
    → fn (record { db = db; ids = env.ids; clock = env.clock }) ≡ err e
    → in_tx env fn db ≡ (err e, db)
unfolding in_tx end_tx
in_tx-refuses env fn db b h = rw (b, h)
