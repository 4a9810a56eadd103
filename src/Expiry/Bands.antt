-- ===== src/Expiry/Bands.antt =====
-- The urgency bands of internal/expiry/expiry.go.
use inventory.Prelude.{◌≡◌, ◌↔◌, some, pos, ◌+ℤ◌, ◌≤ℤ◌, arith, +ℤ_parts}
use inventory.Expiry.{Time, Day, expired, critical, soon, ok, calendar_day, classify_days, classify}

-- a < b
abbrev pub Before : Day → Day → Type 0
Before a b = a +ℤ pos 1 ≤ℤ b

classify_days_bands :
    (day start : Day)
    → ((classify_days day start ≡ expired) ↔ Before day start)
      × ((classify_days day start ≡ critical) ↔ ((start ≤ℤ day) × Before day (start +ℤ pos 3)))
      × ((classify_days day start ≡ soon)
          ↔ ((start +ℤ pos 3 ≤ℤ day) × Before day (start +ℤ pos 14)))
      × ((classify_days day start ≡ ok) ↔ (start +ℤ pos 14 ≤ℤ day))
unfolding classify_days
classify_days_bands day start =
    ground (arith, +ℤ_parts start (pos 3), +ℤ_parts start (pos 14), +ℤ_parts day (pos 1))

-- A dated batch is expired exactly when its calendar day lies before today, critical exactly on
-- today and the two days after it, soon exactly from three up to thirteen days out, and ok exactly
-- from fourteen days out.
pub classify_bands :
    (date today : Time)
    → let day = calendar_day date in
      let start = calendar_day today in
      let urgency = classify (some date) today in
      ((urgency ≡ expired) ↔ Before day start)
      × ((urgency ≡ critical) ↔ ((start ≤ℤ day) × Before day (start +ℤ pos 3)))
      × ((urgency ≡ soon) ↔ ((start +ℤ pos 3 ≤ℤ day) × Before day (start +ℤ pos 14)))
      × ((urgency ≡ ok) ↔ (start +ℤ pos 14 ≤ℤ day))
unfolding classify
classify_bands date today = classify_days_bands (calendar_day date) (calendar_day today)
