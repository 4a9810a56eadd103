-- ===== src/Store/Jobs/Reviews.antt =====
-- The calls of the API and of the inbox, the state machine of jobs and the order of the queue.
use mathlib.Core.Path.{subst}
use inventory.Prelude.{
  ◌≡◌, refl, false, not, ◌&&◌, Option, none, some, List, [], ◌∷◌, String, inl, inr, Bool-cases,
  Option-cases, is_some, member, ◌==◌,
}
use inventory.Prelude.Table.{find, insert}
use inventory.Store.Schema.{
  RowId, Instant, JobStatus, pending, done, failed, consumed, Job, Database, job_key,
}
use inventory.Store.Tx.{
  not_found, Session, Tx, ◌>>=◌, pure, refuse_if, row_or, gets, put_jobs, new_id, take_id, Env,
}
use inventory.Store.Tx.Rules.{Returns, Returns-bind, Returns-weaken}
use inventory.Store.Rows.{find_location, require_same_storage}
use inventory.Store.Jobs.{
  JobLease, claim, NewJob, is_done, is_failed, check_hint, insert_job_row, create_job_tx,
  create_job,
}
use inventory.Store.Jobs.Inbox.{
  find_job, in_storage_job, delete_job, is_discarded, discard_jobs, requeued, requeue_job,
  consumed_at, consume_job, no_image, clear_job_image,
}
use inventory.Store.Jobs.Life.{
  Outcome, Leased, IsJob, Edge, stays, requeues_done, requeues_failed, consumes, Lives, Lives-refl,
  Lives-remove, Lives-insert, Lives-modify, Lives-select,
}
use inventory.Prelude.Table.Laws.{modify-none}
use inventory.Store.Jobs.Calls.{TxLives, in_tx-Lives}

-- A step that leaves the queue alone.
record SameJobs {A : Type 0} (m : Tx A) : Type 0 where
  at : (s : Session) → Returns (λ _ s'. s'.db.jobs ≡ s.db.jobs) (m s)

TxLives-after :
    {A B : Type 0} {m : Tx A} {f : A → Tx B}
    → SameJobs m
    → ((a : A) → TxLives (f a))
    → TxLives (m >>= f)
TxLives-after {m} {f} hm hf = record {
  at = λ s.
      Returns-bind (λ _ s'. s'.db.jobs ≡ s.db.jobs) (λ _ t. Lives s.db.jobs t.db.jobs) m f s
        (hm.at s)
        (λ a s' e.
          Returns-weaken (λ _ t. Lives s'.db.jobs t.db.jobs) (λ _ t. Lives s.db.jobs t.db.jobs)
            (f a s') ((hf a).at s') (λ _ t h. subst (λ js. Lives js t.db.jobs) e h));
}

new_id-SameJobs : SameJobs new_id
unfolding new_id
new_id-SameJobs = record { at = λ s. taken s.ids s }
  where
    taken :
        (ids : List RowId) (s : Session) → Returns (λ _ s'. s'.db.jobs ≡ s.db.jobs) (take_id ids s)
    taken [] s = tt
    taken (i ∷ ids) s = refl

gets-SameJobs : {A : Type 0} (g : Session → A) → SameJobs (gets g)
unfolding gets
gets-SameJobs g = record { at = λ s. refl }

check_hint-SameJobs : (storage : RowId) (place : Option RowId) → SameJobs (check_hint storage place)
unfolding pure require_same_storage refuse_if
check_hint-SameJobs storage none = record { at = λ s. refl }
check_hint-SameJobs storage (some place) = record {
  at = λ s. elim (Bool-cases (is_some (find_location storage place s.db.tables))) [
    | inl here ↦ rw here refl
    | inr gone ↦ rw gone tt
  ];
}

claim-Leased :
    (l : JobLease) (now : Instant)
    → Leased pending (claim l now).lease_owner (claim l now).lease_expires_at
unfolding claim
claim-Leased l now = elim (Option-cases l.owner) [
  | inl nobody ↦ rw (nobody, claim) tt
  | inr owner ↦ rw (owner.1, claim) tt
]

insert_job_row-Lives : (j : Job) → j.status ≡ pending → IsJob j → TxLives (insert_job_row j)
unfolding insert_job_row ◌>>=◌ put_jobs pure row_or
insert_job_row-Lives j h valid = record {
  at = λ s. elim (Bool-cases (member j.storage_id s.db.storages)) [
    | inr unknown ↦ rw unknown tt
    | inl known ↦ elim (Option-cases (insert job_key j s.db.jobs)) [
      | inl clash ↦ rw (known, clash) tt
      | inr new ↦ rw (known, new.1) (Lives-insert j s.db.jobs h valid new.1)
    ]
  ];
}

pub create_job-Lives :
    (env : Env) (new : NewJob) (db : Database) → Lives db.jobs (create_job env new db).1.jobs
unfolding create_job create_job_tx
create_job-Lives env new db = in_tx-Lives env db (
    TxLives-after new_id-SameJobs (λ id.
      TxLives-after (check_hint-SameJobs new.storage_id new.location_hint_id) (λ _.
        TxLives-after (gets-SameJobs _)
          (λ now. insert_job_row-Lives _ refl (tt, claim-Leased new.lease now)))))

-- A read of one row, and what follows it.
module _ {A : Type 0} (storage id : RowId) (s : Session) (f : Job → Tx A) where
  found-Lives :
      ((j : Job)
        → find job_key id s.db.jobs ≡ some j
        → Returns (λ _ s'. Lives s.db.jobs s'.db.jobs) (f j s))
      → Returns
          (λ _ s'. Lives s.db.jobs s'.db.jobs)
          ((row_or (find_job storage id s.db.jobs) not_found >>= f) s)
  unfolding find_job ◌>>=◌ row_or
  found-Lives h = look (find job_key id s.db.jobs) refl
    where
      look :
          (o : Option Job)
          → find job_key id s.db.jobs ≡ o
          → Returns
              (λ _ s'. Lives s.db.jobs s'.db.jobs)
              ((row_or (in_storage_job storage o) not_found >>= f) s)
      look none e = tt
      look (some j) e = elim (Bool-cases (j.storage_id == storage)) [
        | inl own ↦ rw own (h j e)
        | inr foreign ↦ rw foreign tt
      ]

pub delete_job-Lives :
    (env : Env) (storage id : RowId) (db : Database)
    → Lives db.jobs (delete_job env storage id db).1.jobs
unfolding delete_job ◌>>=◌ gets put_jobs pure
delete_job-Lives env storage id db =
    in_tx-Lives env db
      (record { at = λ s. found-Lives storage id s _ (λ j e. Lives-remove id s.db.jobs) })

pub discard_jobs-Lives :
    (env : Env) (storage : RowId) (up_to : Instant) (db : Database)
    → Lives db.jobs (discard_jobs env storage up_to db).1.jobs
unfolding discard_jobs ◌>>=◌ gets put_jobs pure
discard_jobs-Lives env storage up_to db =
    in_tx-Lives env db
      (record { at = λ s. Lives-select (λ j. not (is_discarded storage up_to j)) s.db.jobs })

-- The refusal of a status, and of a row with no photo.
from_finished : (s : JobStatus) → (not (is_done s) && not (is_failed s)) ≡ false → Edge s pending
from_finished done h = requeues_done
from_finished failed h = requeues_failed
from_finished pending h = absurd (cc)
from_finished consumed h = absurd (cc)

pub requeue_job-Lives :
    (env : Env) (storage id : RowId) (lease : JobLease) (db : Database)
    → Lives db.jobs (requeue_job env storage id lease db).1.jobs
unfolding requeue_job ◌>>=◌ gets put_jobs pure refuse_if
requeue_job-Lives env storage id lease db = in_tx-Lives env db (record {
  at = λ s. found-Lives storage id s _ (λ j e.
      elim (Bool-cases (not (is_done j.status) && not (is_failed j.status))) [
        | inl busy ↦ rw busy tt
        | inr ended ↦ elim (Bool-cases (is_some j.image_filename)) [
          | inr no_photo ↦ rw (ended, no_photo) tt
          | inl photo ↦
              rw (ended, photo)
                (Lives-modify id (requeued lease s.clock.instant) s.db.jobs j (λ k. refl) e
                  (from_finished j.status ended) (λ h. (tt, claim-Leased lease s.clock.instant)))
        ]
      ]);
})

from_done : (s : JobStatus) → not (is_done s) ≡ false → Edge s consumed
from_done done h = consumes
from_done failed h = absurd (cc)
from_done pending h = absurd (cc)
from_done consumed h = absurd (cc)

-- A proposal that is applied stays with its row.
consumed_row :
    (s : JobStatus) (payload : Option String) (error : Option String) (o : Option RowId)
    (t : Option Instant)
    → not (is_done s) ≡ false
    → Outcome s payload error × Leased s o t
    → Outcome consumed payload error × Leased consumed o t
consumed_row done none none o t h k = absurd k.0
consumed_row done none (some e) o t h k = absurd k.0
consumed_row done (some p) (some e) o t h k = absurd k.0
consumed_row done (some p) none none none h k = (tt, tt)
consumed_row done (some p) none (some o) none h k = absurd k.1
consumed_row done (some p) none none (some t) h k = absurd k.1
consumed_row done (some p) none (some o) (some t) h k = absurd k.1
consumed_row failed p e o t h k = absurd (cc)
consumed_row pending p e o t h k = absurd (cc)
consumed_row consumed p e o t h k = absurd (cc)

pub consume_job-Lives : (storage id : RowId) → TxLives (consume_job storage id)
unfolding consume_job ◌>>=◌ gets put_jobs pure refuse_if
consume_job-Lives storage id = record {
  at = λ s. found-Lives storage id s _ (λ j e. elim (Bool-cases (not (is_done j.status))) [
    | inl undone ↦ rw undone tt
    | inr ready ↦ rw ready (
        Lives-modify id (consumed_at s.clock.instant) s.db.jobs j (λ k. refl) e
          (from_done j.status ready)
          (consumed_row j.status j.payload j.error j.lease_owner j.lease_expires_at ready))
  ]);
}

pub clear_job_image-Lives :
    (env : Env) (id : RowId) (db : Database) → Lives db.jobs (clear_job_image env id db).1.jobs
unfolding clear_job_image ◌>>=◌ gets put_jobs
clear_job_image-Lives env id db = in_tx-Lives env db (record {
  at = λ s. elim (Option-cases (find job_key id s.db.jobs)) [
    | inl missing ↦ rw (modify-none job_key id no_image s.db.jobs missing) (Lives-refl s.db.jobs)
    | inr found ↦
        Lives-modify id no_image s.db.jobs found.0 (λ k. refl) found.1 (stays found.0.status)
          (λ h. h)
  ];
})
