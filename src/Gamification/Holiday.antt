-- ===== src/Gamification/Holiday.antt =====
-- internal/gamification/holiday.go: the budget of holiday weeks. A week is the number of its Monday.
pub mod Counts
pub mod Spans
use inventory.Prelude.{ℕ, ◌-◌, List, [], ◌∷◌, ◌++◌, Bool, ltb, leb, if◌then◌else◌, length}

abbrev pub holiday_budget_weeks : ℕ
holiday_budget_weeks = 8

abbrev pub holiday_window_weeks : ℕ
holiday_window_weeks = 52

-- `weeksBetween`, of two Mondays of which the first is not the later one.
abbrev pub weeks_between : ℕ → ℕ → ℕ
weeks_between a b = b - a

-- sort.Slice; weeks that are equal are the same.
abbrev pub insert_week : ℕ → List ℕ → List ℕ
insert_week x [] = x ∷ []
insert_week x (w ∷ ws) = let rest = insert_week x ws in if leb x w then x ∷ w ∷ ws else w ∷ rest

abbrev pub sort_weeks : List ℕ → List ℕ
sort_weeks [] = []
sort_weeks (w ∷ ws) = insert_week w (sort_weeks ws)

-- The inner loop, on sorted[left:right+1]: `left` moves on.
abbrev pub drop_old : ℕ → List ℕ → List ℕ
drop_old right [] = []
drop_old right (w ∷ ws) =
    let rest = drop_old right ws in
    if leb holiday_window_weeks (weeks_between w right) then rest else w ∷ ws

-- The loop over `right`: what is left of sorted[left:right], and maxCount.
unfoldable pub scan_weeks : List ℕ → ℕ → List ℕ → ℕ
scan_weeks span most [] = most
scan_weeks span most (right ∷ later) =
    let now = drop_old right (span ++ right ∷ []) in
    scan_weeks now (if ltb most (length now) then length now else most) later

-- `MaxWeeksInWindow`
unfoldable pub max_weeks_in_window : List ℕ → ℕ
unfolding scan_weeks
max_weeks_in_window [] = 0
max_weeks_in_window (w ∷ ws) = scan_weeks [] 0 (sort_weeks (w ∷ ws))
