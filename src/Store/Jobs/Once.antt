-- ===== src/Store/Jobs/Once.antt =====
-- internal/store/jobs.go: one review is applied once.
use inventory.Prelude.{
  ◌≡◌, refl, Option, none, some, List, ◌⊎◌, inl, inr, Bool-cases, ◌==◌, ap, ◌∙◌,
}
use inventory.Prelude.Table.{find}
use inventory.Store.Schema.{RowId, consumed, Job, Database, job_key}
use inventory.Store.Tx.{Result, StoreError, err, not_found, conflict}
use inventory.Store.Jobs.Inbox.{find_job}
use inventory.Store.Jobs.Claims.{IsApplied}
use inventory.Store.Jobs.History.{IsSpent}

-- The row is gone or spent.
abbrev pub IsRefusal : StoreError → Type 0
IsRefusal e = (e ≡ not_found) ⊎ (e ≡ conflict)

-- The call answers one of the two errors, and changes nothing.
abbrev pub IsRefused : {A : Type 0} → Result A × Database → Database → Type 0
IsRefused r db = (e : StoreError) × IsRefusal e × (r ≡ (err e, db))

-- Within a storage, a spent row is one that was consumed, or none.
pub spent_in :
    (storage : RowId) (id : RowId) (js : List Job)
    → IsSpent (find job_key id js)
    → (find_job storage id js ≡ none)
      ⊎ ((j : Job) × (find_job storage id js ≡ some j) × (j.status ≡ consumed))
unfolding find_job
spent_in storage id js h = look (find job_key id js) refl h
  where
    look :
        (o : Option Job)
        → find job_key id js ≡ o
        → IsSpent o
        → (find_job storage id js ≡ none)
          ⊎ ((j : Job) × (find_job storage id js ≡ some j) × (j.status ≡ consumed))
    look none e s = inl (rw e refl)
    look (some j) e s = elim (Bool-cases (j.storage_id == storage)) [
      | inl own ↦ inr (j, rw (e, own) refl, s)
      | inr foreign ↦ inl (rw (e, foreign) refl)
    ]

pub applied-IsSpent :
    (storage id : RowId) (db : Database)
    → IsApplied storage id db
    → IsSpent (find job_key id db.jobs)
unfolding find_job
applied-IsSpent storage id db (j, found, done_) = look (find job_key id db.jobs) refl
  where
    some-job : (k : Job) → some k ≡ some j → k ≡ j
    some-job k h = cc

    look : (o : Option Job) → find job_key id db.jobs ≡ o → IsSpent o
    look none e = tt
    look (some k) e = elim (Bool-cases (k.storage_id == storage)) [
      | inl own ↦ ap (λ (x : Job). x.status) (some-job k (rw (e, own) at found)) ∙ done_
      | inr foreign ↦ absurd (let none_ = rw (e, foreign) at found in cc)
    ]
