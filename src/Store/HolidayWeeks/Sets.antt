-- ===== src/Store/HolidayWeeks/Sets.antt =====
-- Lists of weeks as sets: a part has no more weeks in a span than the whole.
use inventory.Prelude.{
  ℕ, ◌+◌, ◌≤◌, ◌≡◌, refl, sym, ap, ◌∙◌, List, [], ◌∷◌, Bool, true, false, ◌&&◌, ◌||◌, ◌==◌, ==_refl,
  if◌then◌else◌, length, select, exists, member, Bool-cases, ==_iff, inl, inr, arith,
}
use inventory.Store.HolidayWeeks.{add_week, add_weeks}

-- No week twice.
abbrev pub Once : List ℕ → Type 0
Once [] = Unit
Once (w ∷ ws) = (member w ws ≡ false) × Once ws

abbrev pub IsPart : List ℕ → List ℕ → Type 0
IsPart xs ys = (w : ℕ) → member w xs ≡ true → member w ys ≡ true

abbrev remove : ℕ → List ℕ → List ℕ
remove x [] = []
remove x (y ∷ ys) = let rest = remove x ys in if y == x then ys else y ∷ rest

length-remove :
    (f : ℕ → Bool) (x : ℕ) (ys : List ℕ)
    → member x ys ≡ true
    → length (select f ys) ≡ length (select f (remove x ys)) + (if f x then 1 else 0)
length-remove f x [] h = absurd (ground arith)
length-remove f x (y ∷ ys) h = elim (Bool-cases (y == x)) [
  | inl same ↦ elim (Bool-cases (f x)) [
    | inl yes_ ↦ rw (same, (==_iff y x).0 same, yes_) (omega arith)
    | inr no_ ↦ rw (same, (==_iff y x).0 same, no_) (omega arith)
  ]
  | inr other ↦
      let later = length-remove f x ys (rw other at h) in
      elim (Bool-cases (f y)) [
        | inl yes_ ↦ rw (other, yes_) (omega (arith, later))
        | inr no_ ↦ rw (other, no_) later
      ]
]

member-remove :
    (x w : ℕ) (ys : List ℕ) → (w == x) ≡ false → member w ys ≡ true → member w (remove x ys) ≡ true
member-remove x w [] e h = h
member-remove x w (y ∷ ys) e h = elim (Bool-cases (y == x)) [
  | inl same ↦ rw same (ground arith)
  | inr other ↦ rw other (elim (Bool-cases (y == w)) [
    | inl is ↦ rw is refl
    | inr is_not ↦ rw is_not (member-remove x w ys e (rw is_not at h))
  ])
]

-- A set counts no more than one that it is part of.
pub select-part :
    (f : ℕ → Bool) (xs ys : List ℕ)
    → Once xs
    → IsPart xs ys
    → length (select f xs) ≤ length (select f ys)
select-part f [] ys once part = omega arith
select-part f (x ∷ xs) ys (new, once) part =
    let here = length-remove f x ys (part x (rw (==_refl x) refl)) in
    let rest =
      select-part f xs (remove x ys) once
        (λ w h. member-remove x w ys (apart w h) (part w (also w h))) in
    elim (Bool-cases (f x)) [
      | inl yes_ ↦ rw yes_ (
          omega (
            arith,
            rest,
            here,
            ap (λ b. length (select f (remove x ys)) + (if b then 1 else 0)) yes_,
          ))
      | inr no_ ↦ rw no_ (
          omega (
            arith,
            rest,
            here,
            ap (λ b. length (select f (remove x ys)) + (if b then 1 else 0)) no_,
          ))
    ]
  where
    apart : (w : ℕ) → member w xs ≡ true → (w == x) ≡ false
    apart w h = elim (Bool-cases (w == x)) [
      | inl same ↦ let both = ap (λ v. member v xs) ((==_iff w x).0 same) in absurd (cc)
      | inr other ↦ other
    ]

    also : (w : ℕ) → member w xs ≡ true → member w (x ∷ xs) ≡ true
    also w h = ground (arith, h)

member-add_week : (v w : ℕ) (ws : List ℕ) → member v (add_week w ws) ≡ (w == v || member v ws)
member-add_week v w ws = elim (Bool-cases (member w ws)) [
  | inr new ↦ rw new refl
  | inl old ↦ elim (Bool-cases (w == v)) [
    | inr other ↦ rw (old, other) refl
    | inl same ↦ let there = ap (λ u. member u ws) ((==_iff w v).0 same) in rw (old, same) (cc)
  ]
]

pub member-add_weeks :
    (v : ℕ) (more ws : List ℕ) → member v (add_weeks more ws) ≡ (member v more || member v ws)
member-add_weeks v [] ws = refl
member-add_weeks v (w ∷ more) ws =
    rw (member-add_week v w (add_weeks more ws), member-add_weeks v more ws)
      (or_assoc (w == v) (member v more) (member v ws))
  where
    or_assoc : (a b c : Bool) → (a || (b || c)) ≡ ((a || b) || c)
    or_assoc a b c = ground arith

pub member-select :
    (f : ℕ → Bool) (v : ℕ) (ws : List ℕ) → member v (select f ws) ≡ (f v && member v ws)
member-select f v [] = ground arith
member-select f v (w ∷ ws) = elim (Bool-cases (w == v)) [
  | inl same ↦ elim (Bool-cases (f v)) [
    | inl yes_ ↦ rw (same, (==_iff w v).0 same, yes_, ==_refl v) refl
    | inr no_ ↦ rw (same, (==_iff w v).0 same, no_) (member-select f v ws ∙ rw no_ refl)
  ]
  | inr other ↦ elim (Bool-cases (f w)) [
    | inl yes_ ↦ rw (yes_, other) (member-select f v ws)
    | inr no_ ↦ rw (no_, other) (member-select f v ws)
  ]
]

pub Once-add_weeks : (more ws : List ℕ) → Once ws → Once (add_weeks more ws)
Once-add_weeks [] ws once = once
Once-add_weeks (w ∷ more) ws once = elim (Bool-cases (member w (add_weeks more ws))) [
  | inl old ↦ rw old (Once-add_weeks more ws once)
  | inr new ↦ rw new (new, Once-add_weeks more ws once)
]

pub Once-select : (f : ℕ → Bool) (ws : List ℕ) → Once ws → Once (select f ws)
Once-select f [] once = tt
Once-select f (w ∷ ws) (new, once) = elim (Bool-cases (f w)) [
  | inl yes_ ↦ rw yes_ (rw (member-select f w ws, yes_) new, Once-select f ws once)
  | inr no_ ↦ rw no_ (Once-select f ws once)
]

pub exists-false :
    (f : ℕ → Bool) (w : ℕ) (ws : List ℕ) → exists f ws ≡ false → member w ws ≡ true → f w ≡ false
exists-false f w [] h m = absurd (ground arith)
exists-false f w (x ∷ ws) h m = elim (Bool-cases (x == w)) [
  | inl same ↦ ap f (sym ((==_iff x w).0 same)) ∙ no_left (f x) (exists f ws) h
  | inr other ↦ exists-false f w ws (no_right (f x) (exists f ws) h) (rw other at m)
]
  where
    no_left : (a b : Bool) → (a || b) ≡ false → a ≡ false
    no_left a b h = ground arith

    no_right : (a b : Bool) → (a || b) ≡ false → b ≡ false
    no_right a b h = ground arith
