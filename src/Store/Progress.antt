-- ===== src/Store/Progress.antt =====
-- internal/store/gamification.go: the cached score of a user in a storage.
use inventory.Prelude.{
  ℕ, ◌-◌, ◌%◌, Option, none, some, List, [], ◌∷◌, ◌++◌, Bool, ◌&&◌, ℤ, pos, negsuc, ◌+ℤ◌, ◌-ℤ◌,
  ◌==◌, is_some, if◌then◌else◌,
}
use inventory.Expiry.{Day, Time, utc_day}
use inventory.Gamification.Level.{level}
use inventory.Store.Schema.{
  RowId, Instant, LogReason, purchase, consumption, vision_ingestion, UserProgress,
}
use inventory.Store.Tx.{err, internal, Tx, put_game}
use inventory.Store.Rows.{fits_int4}

-- The remainder of a division that rounds down.
unfoldable pub floor_mod : ℤ → ℕ → ℕ
floor_mod (pos n) k = n % k
floor_mod (negsuc n) k = k - 1 - n % k

-- `mondayOf`; day 0 is a Thursday, the third day after a Monday.
unfoldable pub monday_of : Time → Day
unfolding floor_mod
monday_of t = let day = utc_day t in day -ℤ pos (floor_mod (day +ℤ pos 3) 7)

abbrev is_progress_of : RowId → RowId → UserProgress → Bool
is_progress_of storage user p = p.storage_id == storage && p.user_id == user

unfoldable pub find_progress : RowId → RowId → List UserProgress → Option UserProgress
find_progress storage user [] = none
find_progress storage user (p ∷ ps) =
    if is_progress_of storage user p then some p else find_progress storage user ps

-- INSERT … ON CONFLICT (storage_id, user_id) DO NOTHING, with the columns' defaults.
unfoldable pub ensure_progress : RowId → RowId → Instant → List UserProgress → List UserProgress
unfolding find_progress
ensure_progress storage user now ps =
    if is_some (find_progress storage user ps)
    then ps
    else ps
      ++ (record {
        storage_id = storage;
        user_id = user;
        xp = pos 0;
        level = 1;
        last_active_week = none;
        recomputed_at = now;
      })
        ∷ []

-- UPDATE user_progress SET … WHERE storage_id = $4 AND user_id = $5
unfoldable pub set_progress :
    RowId → RowId → ℤ → Day → Instant → List UserProgress → List UserProgress
set_progress storage user xp week now [] = []
set_progress storage user xp week now (p ∷ ps) =
    (if is_progress_of storage user p
      then record p { xp = xp; level = level xp; last_active_week = some week; recomputed_at = now }
      else p)
    ∷ set_progress storage user xp week now ps

-- The UPDATE, once the row has been read.
unfoldable pub write_progress : RowId → RowId → ℤ → List UserProgress → UserProgress → Tx (Unit {0})
unfolding set_progress
write_progress storage user xp_delta rows p s =
    let new_xp = p.xp +ℤ xp_delta in
    if fits_int4 new_xp
    then put_game
        (record s.db.game {
          progress = set_progress storage user new_xp (monday_of s.clock) s.clock.instant rows;
        })
        s
    else err internal

unfoldable pub bump_progress : RowId → RowId → ℤ → Tx (Unit {0})
unfolding ensure_progress find_progress write_progress
bump_progress storage user xp_delta s =
    let rows = ensure_progress storage user s.clock.instant s.db.game.progress in
    elim (find_progress storage user rows) [
      | none ↦ err internal
      | some p ↦ write_progress storage user xp_delta rows p s
    ]

-- `XPForLedgerReason`; `none` is a reason that does not score.
unfoldable pub xp_for_ledger_reason : LogReason → Option ℤ
xp_for_ledger_reason purchase = some (pos 3)
xp_for_ledger_reason consumption = some (pos 3)
xp_for_ledger_reason vision_ingestion = some (pos 3)
xp_for_ledger_reason _ = none
