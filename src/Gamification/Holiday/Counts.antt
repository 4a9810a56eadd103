-- ===== src/Gamification/Holiday/Counts.antt =====
-- internal/gamification/holiday.go: the weeks that lie near one, and how one more week counts.
use inventory.Prelude.{
  ℕ, ◌+◌, ◌-◌, ◌≤◌, ◌≡◌, refl, ap, List, [], ◌∷◌, ◌++◌, Bool, true, false, ◌&&◌, ltb, leb,
  if◌then◌else◌, length, select, All, All-append, Bool-cases, inl, inr, arith,
}
use inventory.Gamification.Holiday.{holiday_window_weeks, weeks_between, drop_old}

-- The weeks of a list in the 52 from s on.
abbrev pub is_within : ℕ → ℕ → Bool
is_within s w = leb s w && ltb w (s + 52)

abbrev pub weeks_from : ℕ → List ℕ → ℕ
weeks_from s weeks = length (select (is_within s) weeks)

-- Less than 52 weeks before r.
abbrev pub near : ℕ → ℕ → Bool
near r w = ltb r (w + 52)

abbrev pub Ascending : List ℕ → Type 0
Ascending [] = Unit
Ascending (w ∷ ws) = All (λ v. w ≤ v) ws × Ascending ws

select_every : (keep : ℕ → Bool) (xs : List ℕ) → All (λ x. keep x ≡ true) xs → select keep xs ≡ xs
select_every keep [] h = refl
select_every keep (x ∷ xs) (h, hs) = rw (h, select_every keep xs hs) refl

pub All-map : (P Q : ℕ → Type 0) (xs : List ℕ) → ((x : ℕ) → P x → Q x) → All P xs → All Q xs
All-map P Q [] f h = tt
All-map P Q (x ∷ xs) f (h, hs) = (f x h, All-map P Q xs f hs)

stays : (r w : ℕ) → near r w ≡ true → leb holiday_window_weeks (weeks_between w r) ≡ false
stays r w h = ground arith

leaves : (r w : ℕ) → near r w ≡ false → leb holiday_window_weeks (weeks_between w r) ≡ true
leaves r w h = ground arith

near-le : (r0 r w v : ℕ) → r0 ≤ r → w ≤ v → near r w ≡ true → near r0 v ≡ true
near-le r0 r w v le first h = ground arith

near_self : (r : ℕ) → near r r ≡ true
near_self r = ground arith

-- The pointer on the left moves past exactly the weeks that are too old.
pub drop_old-select :
    (r0 r : ℕ) (ws : List ℕ)
    → r0 ≤ r
    → Ascending ws
    → All (λ w. w ≤ r) ws
    → drop_old r (select (near r0) ws ++ r ∷ []) ≡ select (near r) (ws ++ r ∷ [])
drop_old-select r0 r [] le asc below = rw (stays r r (near_self r), near_self r) refl
drop_old-select r0 r (w ∷ ws) le (first, asc) (b, below) = elim (Bool-cases (near r w)) [
  | inl close ↦
      let all_r =
        All-append (λ v. near r v ≡ true) ws (r ∷ [])
          (All-map (λ v. w ≤ v) (λ v. near r v ≡ true) ws
            (λ v le_v. near-le r r w v (omega arith) le_v close) first)
          (near_self r, tt) in
      let all_r0 =
        All-map (λ v. w ≤ v) (λ v. near r0 v ≡ true) ws (λ v le_v. near-le r0 r w v le le_v close)
          first in
      rw
        (
          near-le r0 r w w le (omega arith) close,
          close,
          stays r w close,
          select_every (near r0) ws all_r0,
          select_every (near r) (ws ++ r ∷ []) all_r,
        )
        refl
  | inr away ↦ elim (Bool-cases (near r0 w)) [
    | inl was ↦ rw (was, away, leaves r w away) (drop_old-select r0 r ws le asc below)
    | inr was_not ↦ rw (was_not, away) (drop_old-select r0 r ws le asc below)
  ]
]

-- Weeks that are counted by one test and each by another are no more.
select-le :
    (f g : ℕ → Bool) (ws : List ℕ)
    → All (λ w. f w ≡ true → g w ≡ true) ws
    → length (select f ws) ≤ length (select g ws)
select-le f g [] h = omega arith
select-le f g (w ∷ ws) (h, hs) = elim (Bool-cases (f w)) [
  | inl yes_ ↦ rw (yes_, h yes_) (omega (arith, select-le f g ws hs))
  | inr no_ ↦ elim (Bool-cases (g w)) [
    | inl more ↦ rw (no_, more) (omega (arith, select-le f g ws hs))
    | inr less ↦ rw (no_, less) (select-le f g ws hs)
  ]
]

length-select_snoc :
    (f : ℕ → Bool) (ws : List ℕ) (r : ℕ)
    → length (select f (ws ++ r ∷ [])) ≡ length (select f ws) + (if f r then 1 else 0)
length-select_snoc f [] r = elim (Bool-cases (f r)) [ inl y ↦ rw y refl | inr n ↦ rw n refl ]
length-select_snoc f (w ∷ ws) r = elim (Bool-cases (f w)) [
  | inl y ↦ rw y (omega (arith, length-select_snoc f ws r))
  | inr n ↦ rw n (length-select_snoc f ws r)
]

within_near : (s r w : ℕ) → is_within s r ≡ true → is_within s w ≡ true → near r w ≡ true
within_near s r w h k = ground arith

near_within : (r w : ℕ) → w ≤ r → near r w ≡ true → is_within (r - 51) w ≡ true
near_within r w b h = ground arith

abbrev pub larger : ℕ → ℕ → ℕ
larger a b = if ltb a b then b else a

larger-left : (x a b : ℕ) → x ≤ a → x ≤ larger a b
larger-left x a b h = ground arith

larger-right : (x a b : ℕ) → x ≤ b → x ≤ larger a b
larger-right x a b h = ground arith

-- One more week: no span counts more than the larger of the count so far and that of the weeks near it.
pub upper-snoc :
    (s r most : ℕ) (seen : List ℕ)
    → All (λ w. w ≤ r) seen
    → weeks_from s seen ≤ most
    → weeks_from s (seen ++ r ∷ []) ≤ larger most (length (select (near r) (seen ++ r ∷ [])))
upper-snoc s r most seen below h = elim (Bool-cases (is_within s r)) [
  | inl within ↦
      let each =
        All-append (λ w. is_within s w ≡ true → near r w ≡ true) seen (r ∷ [])
          (All-map (λ w. w ≤ r) (λ w. is_within s w ≡ true → near r w ≡ true) seen
            (λ w _ k. within_near s r w within k) below)
          ((λ _. near_self r), tt) in
      larger-right _ most _ (select-le (is_within s) (near r) (seen ++ r ∷ []) each)
  | inr outside ↦ larger-left _ most _ (
      let count = length-select_snoc (is_within s) seen r in
      let none_more = ap (λ b. length (select (is_within s) seen) + (if b then 1 else 0)) outside in
      omega (arith))
]

-- And some span counts as many.
pub lower-snoc :
    (s r most : ℕ) (seen : List ℕ)
    → All (λ w. w ≤ r) seen
    → most ≤ weeks_from s seen
    → (s' : ℕ) × (larger most (length (select (near r) (seen ++ r ∷ [])))
        ≤ weeks_from s' (seen ++ r ∷ []))
lower-snoc s r most seen below h =
    elim (Bool-cases (ltb most (length (select (near r) (seen ++ r ∷ []))))) [
      | inl more ↦
          let each =
            All-append (λ w. near r w ≡ true → is_within (r - 51) w ≡ true) seen (r ∷ [])
              (All-map (λ w. w ≤ r) (λ w. near r w ≡ true → is_within (r - 51) w ≡ true) seen
                (λ w b k. near_within r w b k) below)
              ((λ k. near_within r r (omega arith) k), tt) in
          (r - 51, rw more (select-le (near r) (is_within (r - 51)) (seen ++ r ∷ []) each))
      | inr not_more ↦
          let count = length-select_snoc (is_within s) seen r in (s, rw not_more (omega arith))
    ]

pub Ascending-snoc :
    (ws : List ℕ) (r : ℕ) → Ascending ws → All (λ w. w ≤ r) ws → Ascending (ws ++ r ∷ [])
Ascending-snoc [] r asc below = (tt, tt)
Ascending-snoc (w ∷ ws) r (first, asc) (b, below) =
    (All-append (λ v. w ≤ v) ws (r ∷ []) first (b, tt), Ascending-snoc ws r asc below)
