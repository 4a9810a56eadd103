-- ===== src/Store/Tx.antt =====
-- internal/store/tx.go and errors.go: a transaction reads and writes the database, and an error
-- undoes all of its writes.
pub mod Rules
pub mod Triple
pub mod Answers
use inventory.Prelude.{ℕ, List, [], ◌∷◌, Bool, true, false, Option, none, some, if◌then◌else◌, ℤ}
use inventory.Expiry.{Time}
use inventory.Store.Schema.{RowId, Instant, Database, Inventory, Game, Job, Tombstone}

-- The three domain errors; `internal` is any other.
pub data StoreError : Type 0 where
  not_found conflict validation internal : StoreError

pub data Result {ℓ} (A : Type ℓ) : Type ℓ where
  ok : A → Result A
  err : StoreError → Result A

-- What a transaction sees: the tables, the ids that uuid.NewV7 will return (when they run out it
-- fails) and the clock, one instant for the whole transaction, in the server's zone.
pub record Session : Type 0 where
  pub db : Database
  pub ids : List RowId
  pub clock : Time

abbrev pub Tx : Type 0 → Type 0
Tx A = Session → Result (A × Session)

infixl 5 ◌>>=◌ ◌>>◌
unfoldable pub ◌>>=◌ : {A B : Type 0} → Tx A → (A → Tx B) → Tx B
◌>>=◌ m f s = elim (m s) [ ok (a, s') ↦ f a s' | err e ↦ err e ]

abbrev pub ◌>>◌ : {B : Type 0} → Tx (Unit {0}) → Tx B → Tx B
m >> k = m >>= λ _. k

unfoldable pub pure : {A : Type 0} → A → Tx A
pure a s = ok (a, s)

unfoldable pub fail : {A : Type 0} → StoreError → Tx A
fail e s = err e

-- `if bad { return e }`
unfoldable pub refuse_if : Bool → StoreError → Tx (Unit {0})
refuse_if true e s = err e
refuse_if false e s = ok (tt, s)

-- `pgx.ErrNoRows` is turned into `e`.
unfoldable pub row_or : {A : Type 0} → Option A → StoreError → Tx A
row_or none e s = err e
row_or (some a) e s = ok (a, s)

-- A check that reads nothing.
unfoldable pub from_result : {A : Type 0} → Result A → Tx A
from_result (ok a) s = ok (a, s)
from_result (err e) s = err e

-- Run a step only under a condition.
unfoldable pub when : Bool → Tx (Unit {0}) → Tx (Unit {0})
when true m s = m s
when false m s = ok (tt, s)

unfoldable pub gets : {A : Type 0} → (Session → A) → Tx A
gets f s = ok (f s, s)

unfoldable pub put_tables : Inventory → Tx (Unit {0})
put_tables i s = ok (tt, record s { db = record s.db { tables = i } })

unfoldable pub put_game : Game → Tx (Unit {0})
put_game g s = ok (tt, record s { db = record s.db { game = g } })

unfoldable pub put_jobs : List Job → Tx (Unit {0})
put_jobs js s = ok (tt, record s { db = record s.db { jobs = js } })

unfoldable pub put_tombstones : List Tombstone → Tx (Unit {0})
put_tombstones ts s = ok (tt, record s { db = record s.db { tombstones = ts } })

unfoldable pub take_id : List RowId → Tx RowId
take_id [] s = err internal
take_id (i ∷ rest) s = ok (i, record s { ids = rest })

unfoldable pub new_id : Tx RowId
unfolding take_id
new_id s = take_id s.ids s

-- How a COMMIT ends. A commit that reports an error may have been refused, or applied and its answer
-- lost.
pub data Commit : Type 0 where
  committed commit_refused answer_lost : Commit

-- What a call meets: the coming ids, the clock, whether BEGIN succeeds, and how COMMIT ends.
pub record Env : Type 0 where
  pub ids : List RowId
  pub clock : Time
  pub begins : Bool
  pub commits : Commit

-- The result of `fn` decides between commit and rollback; after a rollback PostgreSQL keeps no write.
unfoldable pub end_tx :
    {A : Type 0} → Commit → Database → Result (A × Session) → Result A × Database
end_tx commits db (err e) = (err e, db)
end_tx committed db (ok (a, s)) = (ok a, s.db)
end_tx commit_refused db (ok (a, s)) = (err internal, db)
end_tx answer_lost db (ok (a, s)) = (err internal, s.db)

unfoldable pub in_tx : {A : Type 0} → Env → Tx A → Database → Result A × Database
unfolding end_tx ◌>>=◌ pure fail refuse_if row_or from_result when gets put_tables put_game put_jobs
    put_tombstones
in_tx env fn db =
    if env.begins
    then end_tx env.commits db (fn (record { db = db; ids = env.ids; clock = env.clock }))
    else (err internal, db)
