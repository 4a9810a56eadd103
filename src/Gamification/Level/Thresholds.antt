-- ===== src/Gamification/Level/Thresholds.antt =====
-- internal/gamification/level.go: the thresholds against the exact curve.
use inventory.Prelude.{ℕ, zero, suc, ◌+◌, ◌*◌, ◌/◌, leb, if◌then◌else◌}

-- The floor of the exact square root.
unfoldable pub exact_root : ℕ → ℕ
exact_root zero = 0
exact_root (suc n) = let r = exact_root n in if leb ((r + 1) * (r + 1)) (suc n) then r + 1 else r

-- The level curve over the numbers: one more than the floor of the root of a fiftieth.
unfoldable pub exact_level : ℕ → ℕ
exact_level xp = exact_root (xp / 50) + 1
