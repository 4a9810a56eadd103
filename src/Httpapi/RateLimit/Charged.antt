-- ===== src/Httpapi/RateLimit/Charged.antt =====
-- internal/httpapi/ratelimit.go: what a charge makes of the window of one key.
use text.Mathlib.Text.{◌==◌}
use text.Mathlib.TextEquality.{eq_iff}
use inventory.Prelude.{
  ℕ, suc, ◌+◌, ◌-◌, ◌≡◌, refl, ap, ◌∙◌, ◌≤◌, ◌<◌, ◌⊎◌, String, List, [], ◌∷◌, true, false, not,
  if◌then◌else◌, Option, none, some, Bool-cases, inl, inr, arith,
}
use inventory.Httpapi.RateLimit.{
  RateWindow, RateLimiter, is_elapsed, block_one, blocked, put, charged, charge_all, after_sweep,
  sweep_elapsed, record_failure, allow,
}

-- What recordLocked does to the window of one key.
abbrev meant : ℕ → ℕ → String → List String → Option RateWindow → Option RateWindow
meant window now k [] o = o
meant window now k (key ∷ keys) o =
    meant window now k keys (if key == k then some (charged window now o) else o)

put-charged :
    (window now : ℕ) (k key : String) (f : String → Option RateWindow)
    → put key (some (charged window now (f key))) f k
      ≡ (if key == k then some (charged window now (f k)) else f k)
put-charged window now k key f = elim (Bool-cases (key == k)) [
  | inl same ↦ rw (same, (eq_iff key k).0 same) refl
  | inr other ↦ rw other refl
]

charge_all-at :
    (window now : ℕ) (k : String) (keys : List String) (f : String → Option RateWindow)
    → charge_all window now keys f k ≡ meant window now k keys (f k)
unfolding charge_all
charge_all-at window now k [] f = refl
charge_all-at window now k (key ∷ keys) f =
    charge_all-at window now k keys (put key (some (charged window now (f key))) f)
    ∙ ap (meant window now k keys) (put-charged window now k key f)

record-at :
    (l : RateLimiter) (now : ℕ) (k : String) (keys : List String)
    → (record_failure l now keys).windows k
      ≡ meant l.window now k keys (after_sweep l.window now (l.windows k))
unfolding record_failure sweep_elapsed
record-at l now k keys = charge_all-at l.window now k keys (sweep_elapsed l now).windows

-- A window from s on, with a count of c at least.
abbrev pub Live : ℕ → ℕ → Option RateWindow → Type 0
Live s c none = ⊥
Live s c (some w) = (w.start ≡ s) × (c ≤ w.count)

module _ (window now s : ℕ) (before : s ≤ now) (within : now < s + window) where
  still_on : (w : RateWindow) → w.start ≡ s → is_elapsed window now w ≡ false
  still_on w e = ground arith

  after_sweep-Live :
      (c : ℕ) (o : Option RateWindow) → Live s c o → Live s c (after_sweep window now o)
  after_sweep-Live c none h = h
  after_sweep-Live c (some w) (e, n) = rw (still_on w e) (e, n)

  charged-Live :
      (c : ℕ) (o : Option RateWindow) → Live s c o → Live s (suc c) (some (charged window now o))
  charged-Live c none h = absurd h
  charged-Live c (some w) (e, n) = rw (still_on w e) (e, omega arith)

  Live-less : (c : ℕ) (o : Option RateWindow) → Live s (suc c) o → Live s c o
  Live-less c none h = h
  Live-less c (some w) (e, n) = (e, omega arith)

  meant-Live :
      (c : ℕ) (k : String) (keys : List String) (o : Option RateWindow)
      → Live s c o
      → Live s c (meant window now k keys o)
  meant-Live c k [] o h = h
  meant-Live c k (key ∷ keys) o h = elim (Bool-cases (key == k)) [
    | inl same ↦
        rw same
          (meant-Live c k keys _ (Live-less c (some (charged window now o)) (charged-Live c o h)))
    | inr other ↦ rw other (meant-Live c k keys o h)
  ]

-- A failure that is recorded keeps the window and loses no charge.
pub record-Live :
    (l : RateLimiter) (now s c : ℕ) (k : String) (keys : List String)
    → s ≤ now
    → now < s + l.window
    → Live s c (l.windows k)
    → Live s c ((record_failure l now keys).windows k)
record-Live l now s c k keys before within h = rw (record-at l now k keys) (
    meant-Live l.window now s before within c k keys _
      (after_sweep-Live l.window now s before within c (l.windows k) h))

pub allow-Live :
    (l : RateLimiter) (now s c : ℕ) (k key : String)
    → s ≤ now
    → now < s + l.window
    → (key == k) ≡ true
    → Live s c (l.windows k)
    → Live s (suc c) ((allow l now key).1.windows k)
unfolding allow
allow-Live l now s c k key before within same h =
    rw (record-at l now k (key ∷ []), same)
      (charged-Live l.window now s before within c _
        (after_sweep-Live l.window now s before within c (l.windows k) h))

-- An attempt is granted only below the limit.
block-Live :
    (l : RateLimiter) (now s c : ℕ) (o : Option RateWindow)
    → s ≤ now
    → now < s + l.window
    → Live s c o
    → not (block_one l now o (0, false)).1 ≡ true
    → c < l.limit
block-Live l now s c none before within h g = absurd h
block-Live l now s c (some w) before within (e, n) g = ground arith

pub allow-granted :
    (l : RateLimiter) (now s c : ℕ) (k key : String)
    → s ≤ now
    → now < s + l.window
    → (key == k) ≡ true
    → Live s c (l.windows k)
    → (allow l now key).0.1 ≡ true
    → c < l.limit
unfolding allow blocked
allow-granted l now s c k key before within same h g =
    block-Live l now s c (l.windows k) before within h (rw ((eq_iff key k).0 same) at g)

-- The window, if there is one, has run out.
abbrev pub Over : ℕ → ℕ → Option RateWindow → Type 0
Over window now none = Unit
Over window now (some w) = window ≤ now - w.start

after_sweep-Over :
    (window from now : ℕ) (o : Option RateWindow)
    → from ≤ now
    → Over window from o
    → after_sweep window now o ≡ none
after_sweep-Over window from now none later h = refl
after_sweep-Over window from now (some w) later h = rw (is_over) refl
  where
    is_over : is_elapsed window now w ≡ true
    is_over = ground arith

meant-none :
    (window now : ℕ) (k : String) (keys : List String)
    → 0 < window
    → (meant window now k keys none ≡ none) ⊎ Live now 1 (meant window now k keys none)
meant-none window now k [] p = inl refl
meant-none window now k (key ∷ keys) p = elim (Bool-cases (key == k)) [
  | inl same ↦
      rw same
        (inr (meant-Live window now now (omega arith) (omega arith) 1 k keys _ (refl, omega arith)))
  | inr other ↦ rw other (meant-none window now k keys p)
]

pub record-Over :
    (l : RateLimiter) (from now : ℕ) (k : String) (keys : List String)
    → from ≤ now
    → 0 < l.window
    → Over l.window from (l.windows k)
    → Over l.window now ((record_failure l now keys).windows k)
      ⊎ Live now 1 ((record_failure l now keys).windows k)
record-Over l from now k keys later p h =
    rw (record-at l now k keys, after_sweep-Over l.window from now (l.windows k) later h)
      (elim (meant-none l.window now k keys p) [ inl e ↦ inl (rw e tt) | inr live ↦ inr live ])

pub allow-Over :
    (l : RateLimiter) (from now : ℕ) (k key : String)
    → from ≤ now
    → (key == k) ≡ true
    → Over l.window from (l.windows k)
    → Live now 1 ((allow l now key).1.windows k)
unfolding allow
allow-Over l from now k key later same h =
    rw
      (record-at l now k (key ∷ []), after_sweep-Over l.window from now (l.windows k) later h, same)
      (refl, omega arith)

pub Live-Over :
    (window now s c : ℕ) (o : Option RateWindow) → s + window ≤ now → Live s c o → Over window now o
Live-Over window now s c none past h = absurd h
Live-Over window now s c (some w) past (e, n) = omega arith
