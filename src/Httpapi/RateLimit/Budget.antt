-- ===== src/Httpapi/RateLimit/Budget.antt =====
-- internal/httpapi/ratelimit.go: how many attempts a key is granted.
use text.Mathlib.Text.{◌==◌}
use inventory.Prelude.{
  ℕ, suc, ◌+◌, ◌-◌, ◌*◌, ◌≡◌, refl, ◌≤◌, ◌<◌, String, List, [], ◌∷◌, Bool, true, false, ◌&&◌, leb,
  if◌then◌else◌, Bool-cases, Option-cases, inl, inr, arith,
}
use inventory.Httpapi.RateLimit.{RateLimiter, record_failure, allow}
use inventory.Httpapi.RateLimit.Waits.{Began}
use inventory.Httpapi.RateLimit.Charged.{
  Live, Over, record-Live, allow-Live, allow-granted, record-Over, allow-Over, Live-Over,
}

-- The calls that charge a key: a failure that is recorded, and an attempt that is counted.
pub data Call : Type 0 where
  failed : List String → Call
  attempted : String → Call

-- The attempts of a key that allow grants, in calls at their instants.
unfoldable pub granted : String → RateLimiter → List (ℕ × Call) → ℕ
unfolding allow
granted k l [] = 0
granted k l ((now, failed keys) ∷ calls) = granted k (record_failure l now keys) calls
granted k l ((now, attempted key) ∷ calls) =
    let rest = granted k (allow l now key).1 calls in
    if key == k && (allow l now key).0.1 then suc rest else rest

-- Instants in order, from `from` on and before `until`.
abbrev InOrder : ℕ → ℕ → List (ℕ × Call) → Type 0
InOrder from until [] = Unit
InOrder from until ((now, call) ∷ calls) = (from ≤ now) × (now < until) × InOrder now until calls

count_le :
    (b g : Bool) (rest limit c extra : ℕ)
    → (b ≡ true → rest ≤ limit - suc c + extra)
    → (b ≡ false → rest ≤ limit - c + extra)
    → (b ≡ true → g ≡ true → c < limit)
    → (if b && g then suc rest else rest) ≤ limit - c + extra
count_le true true rest limit c extra hit miss below = omega (arith, hit refl, below refl refl)
count_le true false rest limit c extra hit miss below = omega (arith, hit refl)
count_le false g rest limit c extra hit miss below = miss refl

-- While its window lasts, a key is granted what the limit leaves.
granted-Live :
    (k : String) (s c from until : ℕ) (l : RateLimiter) (calls : List (ℕ × Call))
    → s ≤ from
    → until ≤ s + l.window
    → InOrder from until calls
    → Live s c (l.windows k)
    → granted k l calls ≤ l.limit - c + 0
unfolding granted record_failure
granted-Live k s c from until l [] before fits order h = omega arith
granted-Live k s c from until l ((now, failed keys) ∷ calls) before fits (from_, to, order) h =
    granted-Live k s c now until (record_failure l now keys) calls (omega arith) fits order
      (record-Live l now s c k keys (omega arith) (omega arith) h)
granted-Live k s c from until l ((now, attempted key) ∷ calls) before fits (from_, to, order) h =
    count_le (key == k) (allow l now key).0.1 (granted k (allow l now key).1 calls) l.limit c 0
      (λ same.
        granted-Live k s (suc c) now until (allow l now key).1 calls (omega arith) fits order
          (allow-Live l now s c k key (omega arith) (omega arith) same h))
      (λ other.
        granted-Live k s c now until (allow l now key).1 calls (omega arith) fits order
          (record-Live l now s c k (key ∷ []) (omega arith) (omega arith) h))
      (λ same g. allow-granted l now s c k key (omega arith) (omega arith) same h g)

-- From a window that has run out, a key is granted the limit within the length of a window.
granted-Over :
    (k : String) (from until : ℕ) (l : RateLimiter) (calls : List (ℕ × Call))
    → 0 < l.limit
    → until ≤ from + l.window
    → InOrder from until calls
    → Over l.window from (l.windows k)
    → granted k l calls ≤ l.limit - 0 + 0
unfolding granted record_failure
granted-Over k from until l [] p fits order h = omega arith
granted-Over k from until l ((now, failed keys) ∷ calls) p fits (from_, to, order) h =
    elim (record-Over l from now k keys from_ (omega arith) h) [
      | inl over ↦
          granted-Over k now until (record_failure l now keys) calls p (omega arith) order over
      | inr live ↦
          let most =
            granted-Live k now 1 now until (record_failure l now keys) calls (omega arith)
              (omega arith) order live in
          omega arith
    ]
granted-Over k from until l ((now, attempted key) ∷ calls) p fits (from_, to, order) h =
    count_le (key == k) (allow l now key).0.1 (granted k (allow l now key).1 calls) l.limit 0 0
      (λ same.
        granted-Live k now 1 now until (allow l now key).1 calls (omega arith) (omega arith) order
          (allow-Over l from now k key from_ same h))
      (λ other. elim (record-Over l from now k (key ∷ []) from_ (omega arith) h) [
        | inl over ↦ granted-Over k now until (allow l now key).1 calls p (omega arith) order over
        | inr live ↦
            let most =
              granted-Live k now 1 now until (allow l now key).1 calls (omega arith) (omega arith)
                order live in
            omega arith
      ])
      (λ same g. p)

-- Once the window has run out at the next call, its count is of no account.
granted-past :
    (k : String) (s c now until : ℕ) (l : RateLimiter) (call : Call) (calls : List (ℕ × Call))
    → 0 < l.limit
    → until ≤ now + l.window
    → now < until
    → InOrder now until calls
    → Live s c (l.windows k)
    → leb (s + l.window) now ≡ true
    → granted k l ((now, call) ∷ calls) ≤ l.limit - c + l.limit
granted-past k s c now until l call calls p fits to order h past =
    let over = Live-Over l.window now s c (l.windows k) (ground arith) h in
    let most =
      granted-Over k now until l ((now, call) ∷ calls) p fits (omega arith, to, order) over in
    omega arith

-- The limit leaves what it leaves in the window that lasts, and the next one has the limit anew.
granted-Began :
    (k : String) (s c from until : ℕ) (l : RateLimiter) (calls : List (ℕ × Call))
    → 0 < l.limit
    → s ≤ from
    → until ≤ from + l.window
    → InOrder from until calls
    → Live s c (l.windows k)
    → granted k l calls ≤ l.limit - c + l.limit
unfolding granted record_failure
granted-Began k s c from until l [] p before fits order h = omega arith
granted-Began k s c from until l ((now, failed keys) ∷ calls) p before fits (from_, to, order) h =
    elim (Bool-cases (leb (s + l.window) now)) [
      | inl past ↦
          granted-past k s c now until l (failed keys) calls p (omega arith) to order h past
      | inr within ↦
          granted-Began k s c now until (record_failure l now keys) calls p (omega arith)
            (omega arith) order (record-Live l now s c k keys (omega arith) (ground arith) h)
    ]
granted-Began k s c from until l ((now, attempted key) ∷ calls) p before fits (from_, to, order) h =
    elim (Bool-cases (leb (s + l.window) now)) [
      | inl past ↦
          granted-past k s c now until l (attempted key) calls p (omega arith) to order h past
      | inr within ↦
          let on : now < s + l.window = ground arith in
          count_le (key == k) (allow l now key).0.1 (granted k (allow l now key).1 calls) l.limit c
            l.limit
            (λ same.
              granted-Began k s (suc c) now until (allow l now key).1 calls p (omega arith)
                (omega arith) order (allow-Live l now s c k key (omega arith) on same h))
            (λ other.
              granted-Began k s c now until (allow l now key).1 calls p (omega arith) (omega arith)
                order (record-Live l now s c k (key ∷ []) (omega arith) on h))
            (λ same g. allow-granted l now s c k key (omega arith) on same h g)
    ]

-- Of the attempts with a key in a span as long as the window, allow grants at most twice the limit,
-- whatever calls of record and allow the span holds, where the limit is not zero and the window of the
-- key does not begin after the span does.
pub granted-twice :
    (k : String) (from : ℕ) (l : RateLimiter) (calls : List (ℕ × Call))
    → 0 < l.limit
    → InOrder from (from + l.window) calls
    → Began from (l.windows k)
    → granted k l calls ≤ 2 * l.limit
granted-twice k from l calls p order began = elim (Option-cases (l.windows k)) [
  | inl fresh ↦
      let most =
        granted-Over k from (from + l.window) l calls p (omega arith) order (rw fresh tt) in
      omega arith
  | inr (w, e) ↦
      let most =
        granted-Began k w.start 0 from (from + l.window) l calls p (rw e at began) (omega arith)
          order (rw e (refl, omega arith)) in
      omega arith
]
