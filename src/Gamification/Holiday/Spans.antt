-- ===== src/Gamification/Holiday/Spans.antt =====
-- internal/gamification/holiday.go: the two pointers find the fullest span of 52 weeks.
use mathlib.Core.List.{append_assoc, append-nil}
use inventory.Prelude.{
  ℕ, suc, ◌≤◌, ◌≡◌, refl, ap, if-keeps, ◌∙◌, List, [], ◌∷◌, ◌++◌, Bool, leb, length, select, All,
  All-append, Bool-cases, inl, inr, arith,
}
use inventory.Gamification.Holiday.{insert_week, sort_weeks, scan_weeks, max_weeks_in_window}
use inventory.Gamification.Holiday.Counts.{
  is_within, weeks_from, near, Ascending, All-map, drop_old-select, larger, upper-snoc, lower-snoc,
  Ascending-snoc,
}

-- The loop counts the fullest span of all that it sees.
scan_weeks-fullest :
    (seen : List ℕ) (r0 most : ℕ) (later : List ℕ)
    → Ascending seen
    → All (λ w. w ≤ r0) seen
    → All (λ w. r0 ≤ w) later
    → Ascending later
    → ((s : ℕ) → weeks_from s seen ≤ most)
    → (s : ℕ) × (most ≤ weeks_from s seen)
    → ((s : ℕ) → weeks_from s (seen ++ later) ≤ scan_weeks (select (near r0) seen) most later)
      × ((s : ℕ) × (scan_weeks (select (near r0) seen) most later ≤ weeks_from s (seen ++ later)))
unfolding scan_weeks
scan_weeks-fullest seen r0 most [] asc below above asc' upper lower =
    rw (append-nil seen) (upper, lower)
scan_weeks-fullest seen r0 most (r ∷ later) asc below (above, _) (first, asc') upper (s, lower) =
    let below_r = All-map (λ w. w ≤ r0) (λ w. w ≤ r) seen (λ w b. omega arith) below in
    let rest =
      scan_weeks-fullest (seen ++ r ∷ []) r
        (larger most (length (select (near r) (seen ++ r ∷ [])))) later
        (Ascending-snoc seen r asc below_r)
        (All-append (λ w. w ≤ r) seen (r ∷ []) below_r (omega arith, tt)) first asc'
        (λ s'. upper-snoc s' r most seen below_r (upper s'))
        (lower-snoc s r most seen below_r lower) in
    rw (drop_old-select r0 r seen above asc below_r) (rw (append_assoc seen (r ∷ []) later) at rest)

All-insert_week : (P : ℕ → Type 0) (x : ℕ) (ws : List ℕ) → P x → All P ws → All P (insert_week x ws)
All-insert_week P x [] p h = (p, tt)
All-insert_week P x (w ∷ ws) p (h, hs) =
    if-keeps (All P) (leb x w) _ _ (p, (h, hs)) (h, All-insert_week P x ws p hs)

insert_week-Ascending : (x : ℕ) (ws : List ℕ) → Ascending ws → Ascending (insert_week x ws)
insert_week-Ascending x [] asc = (tt, tt)
insert_week-Ascending x (w ∷ ws) (first, asc) = elim (Bool-cases (leb x w)) [
  | inl here ↦ rw here (
    (ground arith, All-map (λ v. w ≤ v) (λ v. x ≤ v) ws (λ v b. ground arith) first),
    (first, asc),
  )
  | inr there ↦
      rw there
        (All-insert_week (λ v. w ≤ v) x ws (ground arith) first, insert_week-Ascending x ws asc)
]

sort_weeks-Ascending : (ws : List ℕ) → Ascending (sort_weeks ws)
sort_weeks-Ascending [] = tt
sort_weeks-Ascending (w ∷ ws) = insert_week-Ascending w (sort_weeks ws) (sort_weeks-Ascending ws)

length-insert_week :
    (f : ℕ → Bool) (x : ℕ) (ws : List ℕ)
    → length (select f (insert_week x ws)) ≡ length (select f (x ∷ ws))
length-insert_week f x [] = refl
length-insert_week f x (w ∷ ws) = elim (Bool-cases (leb x w)) [
  | inl here ↦ rw here refl
  | inr there ↦ elim (Bool-cases (f w)) [
    | inl yes_ ↦ elim (Bool-cases (f x)) [
      | inl y ↦ rw (there, yes_, y) (ap suc (length-insert_week f x ws ∙ rw y refl))
      | inr n ↦ rw (there, yes_, n) (ap suc (length-insert_week f x ws ∙ rw n refl))
    ]
    | inr no_ ↦ rw (there, no_) (length-insert_week f x ws)
  ]
]

weeks_from-sort_weeks : (s : ℕ) (ws : List ℕ) → weeks_from s (sort_weeks ws) ≡ weeks_from s ws
weeks_from-sort_weeks s [] = refl
weeks_from-sort_weeks s (w ∷ ws) =
    length-insert_week (is_within s) w (sort_weeks ws) ∙ elim (Bool-cases (is_within s w)) [
      | inl y ↦ rw y (ap suc (weeks_from-sort_weeks s ws))
      | inr n ↦ rw n (weeks_from-sort_weeks s ws)
    ]

from_zero : (ws : List ℕ) → All (λ w. 0 ≤ w) ws
from_zero [] = tt
from_zero (w ∷ ws) = (omega arith, from_zero ws)

-- MaxWeeksInWindow is the number of weeks in the fullest span of 52: no span has more, and one has as
-- many.
pub max_weeks_in_window_exactly :
    (weeks : List ℕ)
    → ((s : ℕ) → weeks_from s weeks ≤ max_weeks_in_window weeks)
      × ((s : ℕ) × (max_weeks_in_window weeks ≡ weeks_from s weeks))
unfolding max_weeks_in_window
max_weeks_in_window_exactly [] = ((λ s. omega arith), (0, refl))
max_weeks_in_window_exactly (w ∷ ws) =
    let (upper, (s, lower)) =
      scan_weeks-fullest [] 0 0 (sort_weeks (w ∷ ws)) tt tt (from_zero (sort_weeks (w ∷ ws)))
        (sort_weeks-Ascending (w ∷ ws)) (λ s. omega arith) (0, omega arith) in
    (
      (λ s'. omega (arith, upper s', weeks_from-sort_weeks s' (w ∷ ws))),
      (s, omega (arith, lower, upper s, weeks_from-sort_weeks s (w ∷ ws))),
    )
