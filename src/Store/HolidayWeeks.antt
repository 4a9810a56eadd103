-- ===== src/Store/HolidayWeeks.antt =====
-- SetHolidayWeeks of internal/store/gamification.go. A week is the number of its Monday, which mondayOf
-- gives, and the rows are the weeks of one user in holiday_weeks.
pub mod Sets
pub mod Budget
use inventory.Prelude.{
  ℕ, List, [], ◌∷◌, Bool, not, ◌&&◌, ◌||◌, ◌==◌, ltb, leb, if◌then◌else◌, select, exists, member,
}
use inventory.Gamification.Holiday.{holiday_budget_weeks, max_weeks_in_window}
use inventory.Store.Tx.{Result, ok, err, validation, conflict}

-- A map from weeks to true is the list of its keys.
abbrev pub add_week : ℕ → List ℕ → List ℕ
add_week w ws = if member w ws then ws else w ∷ ws

abbrev pub add_weeks : List ℕ → List ℕ → List ℕ
add_weeks [] ws = ws
add_weeks (w ∷ more) ws = add_week w (add_weeks more ws)

-- `newlyExceedsBudget`
unfoldable pub newly_exceeds_budget : List ℕ → List ℕ → Bool
newly_exceeds_budget existing final =
    exists (λ w. not (member w existing)) final
    && ltb holiday_budget_weeks (max_weeks_in_window final)

-- What the write would leave in place.
abbrev pub final_weeks : ℕ → List ℕ → List ℕ → List ℕ
final_weeks current requested existing = add_weeks requested (select (λ w. leb w current) existing)

-- The loop over the map's keys inserts these.
abbrev pub is_inserted : ℕ → List ℕ → ℕ → Bool
is_inserted current existing w = ltb current w || w == current && not (member w existing)

-- The DELETE and the INSERTs; an INSERT of a week that is there does nothing.
abbrev pub write_weeks : ℕ → List ℕ → List ℕ → List ℕ
write_weeks current final existing =
    add_weeks (select (is_inserted current existing) final)
      (select (λ w. not (ltb current w)) existing)

-- `setHolidayWeeksTx`: the rows that it leaves, or the error with which the transaction rolls back.
unfoldable pub set_holiday_weeks : ℕ → List ℕ → List ℕ → Result (List ℕ)
unfolding newly_exceeds_budget
set_holiday_weeks current weeks existing =
    let requested = add_weeks weeks [] in
    let final = final_weeks current requested existing in
    if exists (λ w. ltb w current && not (member w existing)) requested
    then err validation
    else if newly_exceeds_budget existing final
    then err conflict
    else ok (write_weeks current final existing)
