-- ===== src/Tests/Jobs.antt =====
-- A queue of jobs, and the theorems at it.
use inventory.Prelude.{arith, ◌≡◌, refl, none, some, List, [], ◌∷◌, pos, inr}
use inventory.Prelude.Table.{find, update_where, count_where}
use inventory.Store.Schema.{pending, done, consumed, product_photo, Job, Database, job_key}
use inventory.Store.Tx.{ok, err, conflict, ◌>>◌, Env, in_tx}
use inventory.Store.Jobs.{JobLease, NewJob, fail_orphaned_jobs, update_counted}
use inventory.Store.Jobs.Inbox.{find_job, consume_job}
use inventory.Store.Jobs.Life.{IsQueue, Transition}
use inventory.Store.Jobs.Claims.{fail_orphaned_jobs-claimed}
use inventory.Store.Jobs.History.{
  JobCall, create, complete, sweep, delete, consume, after_call, history, history-IsQueue,
  after_call-Transition,
}
use inventory.Tests.{household, env, running}

-- Claimed by process 200 until an hour after noon.
abbrev working : Job
working = record {
  id = 60;
  storage_id = 100;
  kind = product_photo;
  status = pending;
  payload = none;
  error = none;
  created_by = some 7;
  image_filename = some "shelf.jpg";
  location_hint_id = none;
  created_at = pos 1704100000;
  updated_at = pos 1704100000;
  lease_owner = some 200;
  lease_expires_at = some (pos 1704114000);
}

-- Claimed until an hour before noon.
abbrev abandoned : Job
abandoned = record working { id = 61; lease_expires_at = some (pos 1704106800) }

abbrev reviewed : Job
reviewed = record working {
  id = 62;
  status = done;
  payload = some "{\"rows\":[]}";
  lease_owner = none;
  lease_expires_at = none;
}

abbrev applied : Job
applied = record reviewed { id = 63; status = consumed }

abbrev busy : Database
busy = record household { jobs = working ∷ abandoned ∷ reviewed ∷ applied ∷ [] }

abbrev lease : JobLease
lease = record { owner = some 201; ttl = pos 60 }

abbrev upload : NewJob
upload = record {
  storage_id = 100;
  kind = product_photo;
  created_by = some 7;
  image_filename = some "box.jpg";
  location_hint_id = some 10;
  lease = lease;
}

busy-IsQueue : IsQueue busy.jobs
unfolding find
busy-IsQueue =
    ((refl, (refl, (refl, (refl, tt)))), ((tt, tt), ((tt, tt), ((tt, tt), ((tt, tt), tt)))))

sweep_runs : (fail_orphaned_jobs env 201 busy).0 ≡ ok 1
unfolding running fail_orphaned_jobs update_where count_where update_counted
sweep_runs = refl

fail_orphaned_jobs-claimed_example :
    find job_key 60 (fail_orphaned_jobs env 201 busy).1.jobs ≡ some working
unfolding find
fail_orphaned_jobs-claimed_example =
    fail_orphaned_jobs-claimed env 201 busy working refl (inr (pos 1704114000, refl, omega arith))

-- The spent job is deleted, and a sweep goes over the others.
abbrev cleaning : List (Env × JobCall)
cleaning = (env, delete 100 62) ∷ (env, sweep 201) ∷ []

-- The first of the two steps writes, the second one fails.
twice_runs : (in_tx env (consume_job 100 62 >> consume_job 100 62) busy).0 ≡ err conflict
unfolding running consume_job find_job
twice_runs = refl

abbrev calls : List (Env × JobCall)
calls =
    (env, create upload) ∷ (env, complete 60 "{}") ∷ (env, sweep 201) ∷ (env, consume 100 62) ∷ []

history-IsQueue_example : IsQueue (history calls busy).jobs
history-IsQueue_example = history-IsQueue calls busy busy-IsQueue

after_call-Transition_example :
    Transition
      (find job_key 60 busy.jobs)
      (find job_key 60 (after_call env (complete 60 "{}") busy).jobs)
after_call-Transition_example = after_call-Transition env (complete 60 "{}") busy 60 busy-IsQueue
