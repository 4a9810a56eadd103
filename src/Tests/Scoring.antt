-- ===== src/Tests/Scoring.antt =====
-- Shelf lives, urgencies and levels at concrete inputs.
use inventory.Prelude.{◌≡◌, ◌↔◌, ◌≤◌, none, some, [], ◌∷◌, pos, ◌+ℤ◌, ◌≤ℤ◌, arith}
use inventory.Expiry.{
  Time, Rules, Resolution, category, perishable, resolve, expired, critical, soon, ok, calendar_day,
  classify,
}
use inventory.Expiry.Chain.{Holds, resolve_exactly}
use inventory.Expiry.Bands.{Before, classify_bands}
use inventory.Gamification.Level.{level, xp_threshold_for_level}
use inventory.Prelude.{refl, member, ℕ, List, Bool, true, false, ltb}
use inventory.Store.Schema.{stale_location, imageless, first_mile, expiring_soon, uncategorized}
use inventory.Gamification.Selection.{Candidate, select_quests}
use inventory.Gamification.Selection.Best.{IsSelection, select_quests-IsSelection}
use inventory.Gamification.Holiday.{max_weeks_in_window}
use inventory.Gamification.Holiday.Counts.{weeks_from}
use inventory.Gamification.Holiday.Spans.{max_weeks_in_window_exactly}
use inventory.Store.Tx.{ok as written, err, validation, conflict}
use inventory.Store.HolidayWeeks.{set_holiday_weeks}
use inventory.Store.HolidayWeeks.Sets.{Once}
use inventory.Store.HolidayWeeks.Budget.{is_left, set_holiday_weeks-budget}
use inventory.Tests.{noon}

-- The nearest category has no value, its parent has one.
abbrev by_parent : Rules
by_parent = record {
  product_days = none;
  catalog_days = none;
  category_days = none ∷ some (pos 30) ∷ some (pos 90) ∷ [];
  item_type = perishable;
}

abbrev a_month : Resolution
a_month = record { days = some (pos 30); source = category }

resolve_exactly_example : (resolve by_parent ≡ a_month) ↔ Holds by_parent a_month
resolve_exactly_example = resolve_exactly by_parent a_month

-- Two days after noon, late in the evening of a zone two hours east.
abbrev in_two_days : Time
in_two_days = record { instant = pos 1704310200; offset = pos 7200 }

classify_bands_example :
    let day = calendar_day in_two_days in
    let start = calendar_day noon in
    let urgency = classify (some in_two_days) noon in
    ((urgency ≡ expired) ↔ Before day start)
    × ((urgency ≡ critical) ↔ ((start ≤ℤ day) × Before day (start +ℤ pos 3)))
    × ((urgency ≡ soon) ↔ ((start +ℤ pos 3 ≤ℤ day) × Before day (start +ℤ pos 14)))
    × ((urgency ≡ ok) ↔ (start +ℤ pos 14 ≤ℤ day))
classify_bands_example = classify_bands in_two_days noon

-- At the thresholds of the levels 3 and 1001, and at an xp that float64 rounds up to a threshold.
levels :
    (level (pos 199) ≡ 2)
    × (level (pos 200) ≡ 3)
    × (level (pos 49999999) ≡ 1000)
    × (level (pos 50000000) ≡ 1001)
    × (level (pos 499999999999999999) ≡ 100000001)
unfolding level
levels = (refl, refl, refl, refl, refl)

-- The square of 2 ^ 32 wraps around to zero, so that the level at that threshold is the first.
wrapped : level (xp_threshold_for_level (pos 4294967297)) ≡ 1
unfolding level xp_threshold_for_level
wrapped = refl

abbrev quest : Candidate ℕ ℕ
quest = record { generator = stale_location; fires = true; need = 4; target_count = 1; params = 0 }

abbrev candidates : List (Candidate ℕ ℕ)
candidates =
    quest
    ∷ record quest { generator = imageless; need = 9; fires = false }
    ∷ record quest { generator = uncategorized; need = 7 }
    ∷ record quest { generator = expiring_soon; need = 2 }
    ∷ record quest { generator = first_mile; need = 4 }
    ∷ []

abbrev greater : ℕ → ℕ → Bool
greater a b = ltb b a

greater_asym : (a b : ℕ) → greater a b ≡ true → greater b a ≡ false
greater_asym a b h = ground arith

greater_linked : (a b c : ℕ) → greater b a ≡ false → greater c b ≡ false → greater c a ≡ false
greater_linked a b c h k = ground arith

-- The tie between the two needs of 4 keeps the order of the input.
selected :
    select_quests greater candidates
    ≡ record quest { generator = uncategorized; need = 7 }
      ∷ quest
      ∷ record quest { generator = first_mile }
      ∷ []
unfolding select_quests
selected = refl

select_quests-IsSelection_example :
    IsSelection greater candidates (select_quests greater candidates)
select_quests-IsSelection_example =
    select_quests-IsSelection greater greater_asym greater_linked candidates

-- Four weeks of holiday.
abbrev holidays : List ℕ
holidays = 100 ∷ 40 ∷ 92 ∷ 150 ∷ []

three_within_a_year : max_weeks_in_window (40 ∷ 100 ∷ 91 ∷ 92 ∷ 150 ∷ []) ≡ 3
unfolding max_weeks_in_window
three_within_a_year = refl

max_weeks_in_window_exactly_example :
    ((s : ℕ) → weeks_from s holidays ≤ max_weeks_in_window holidays)
    × ((s : ℕ) × (max_weeks_in_window holidays ≡ weeks_from s holidays))
max_weeks_in_window_exactly_example = max_weeks_in_window_exactly holidays

-- In week 100, week 102 is given up and week 104 is taken; week 90 stays.
set_holiday_weeks_runs : set_holiday_weeks 100 (104 ∷ []) (90 ∷ 102 ∷ []) ≡ written (104 ∷ 90 ∷ [])
unfolding set_holiday_weeks max_weeks_in_window
set_holiday_weeks_runs = refl

backdated_is_refused : set_holiday_weeks 100 (99 ∷ []) (90 ∷ []) ≡ err validation
unfolding set_holiday_weeks
backdated_is_refused = refl

ninth_is_refused :
    set_holiday_weeks 100 (101 ∷ 102 ∷ 103 ∷ 104 ∷ 105 ∷ 106 ∷ 107 ∷ 108 ∷ []) (90 ∷ [])
    ≡ err conflict
unfolding set_holiday_weeks max_weeks_in_window
ninth_is_refused = refl

set_holiday_weeks-budget_example :
    Once (104 ∷ 90 ∷ [])
    × ((s : ℕ) → weeks_from s (104 ∷ 90 ∷ []) ≤ 8)
    × ((w : ℕ) → member w (104 ∷ 90 ∷ []) ≡ is_left 100 (104 ∷ []) (90 ∷ 102 ∷ []) w)
unfolding max_weeks_in_window
set_holiday_weeks-budget_example =
    set_holiday_weeks-budget 100 (104 ∷ []) (90 ∷ 102 ∷ []) (refl, (refl, tt)) (omega arith)
      set_holiday_weeks_runs
