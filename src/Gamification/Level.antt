-- ===== src/Gamification/Level.antt =====
-- internal/gamification/level.go: the level curve in float64, and its thresholds in int.
pub mod Thresholds
use inventory.Prelude.{
  ℕ, zero, suc, ◌+◌, ◌-◌, ◌*◌, ◌/◌, ◌%◌, ◌^◌, ◌==◌, ltb, leb, if◌then◌else◌, ℤ, pos, negsuc,
}

-- A positive float64 is the fraction that it stands for.
pub record Float64 : Type 0 where
  pub num : ℕ
  pub den : ℕ

-- The number of bits, with fuel.
abbrev pub count_bits : ℕ → ℕ → ℕ
count_bits zero n = 0
count_bits (suc fuel) n = let rest = count_bits fuel (n / 2) in if n == 0 then 0 else suc rest

-- No number below has 256 bits.
abbrev pub bits : ℕ → ℕ
bits n = count_bits 256 n

-- Round half to even.
abbrev pub to_even : ℕ → ℕ → ℕ → ℕ
to_even q twice one =
    if ltb twice one then q else if ltb one twice then q + 1 else if q % 2 == 0 then q else q + 1

-- The float64 that is nearest to a / b: a mantissa of 53 bits.
abbrev pub nearest : ℕ → ℕ → Float64
nearest a b =
    let up = 52 + bits b - bits a in
    let down = bits a - (52 + bits b) in
    let more = if ltb (a * 2 ^ up) (2 ^ 52 * (b * 2 ^ down)) then 1 else 0 in
    let x = a * 2 ^ (up + more) in
    let y = b * 2 ^ down in
    record { num = to_even (x / y) (2 * (x % y)) y * 2 ^ down; den = 2 ^ (up + more) }

-- The integer square root, two bits at a time, with fuel.
abbrev pub root : ℕ → ℕ → ℕ
root zero n = 0
root (suc fuel) n = let r = 2 * root fuel (n / 4) in if leb ((r + 1) * (r + 1)) n then r + 1 else r

-- math.Floor of math.Sqrt, the nearest float64 to the root, of a number between 2 ^ -6 and 2 ^ 58.
abbrev pub floor_sqrt : Float64 → ℕ
floor_sqrt x =
    let half = (105 + bits x.den - bits x.num) / 2 in
    let k = if ltb (x.num * 4 ^ half / x.den) (2 ^ 104) then half + 1 else half in
    let s = root 64 (x.num * 4 ^ k / x.den) in
    to_even s (4 * (x.num * 4 ^ k)) ((2 * s + 1) * (2 * s + 1) * x.den) / 2 ^ k

-- int(math.Floor(math.Sqrt(float64(xp)/50))) + 1
abbrev pub level_of : ℕ → ℕ
level_of zero = 1
level_of (suc n) = let x = nearest (suc n) 1 in floor_sqrt (nearest x.num (x.den * 50)) + 1

-- `Level`; a negative xp counts as 0.
unfoldable pub level : ℤ → ℕ
level (pos xp) = level_of xp
level (negsuc _) = level_of 0

-- An int has 64 bits.
abbrev pub int64 : ℕ → ℤ
int64 n = let w = n % 2 ^ 64 in if ltb w (2 ^ 63) then pos w else negsuc (2 ^ 64 - 1 - w)

-- 50 * step * step; a product wraps around.
unfoldable pub xp_threshold_for_level : ℤ → ℤ
xp_threshold_for_level (pos n) =
    let n' = if ltb n 1 then 1 else n in let step = n' - 1 in int64 (50 * step * step)
xp_threshold_for_level (negsuc _) = int64 (50 * 0 * 0)
