-- ===== src/Httpapi/RateLimit/Waits.antt =====
-- internal/httpapi/ratelimit.go: the wait that a refusal names is exact.
use inventory.Prelude.{
  ℕ, ◌+◌, ◌≡◌, ◌≤◌, String, List, [], ◌∷◌, Bool, false, ltb, Option, none, some, All, arith,
}
use inventory.Httpapi.RateLimit.{RateWindow, RateLimiter, block_one, block_all, blocked}

-- The window does not begin ahead of the instant.
abbrev pub Began : ℕ → Option RateWindow → Type 0
Began now none = Unit
Began now (some w) = w.start ≤ now

block_one-later :
    (l : RateLimiter) (now e : ℕ) (o : Option RateWindow) (d d' : ℕ) (f f' : Bool)
    → Began now o
    → f' ≡ ltb e d
    → (block_one l (now + e) o (d', f')).1 ≡ ltb e (block_one l now o (d, f)).0
block_one-later l now e none d d' f f' began h = h
block_one-later l now e (some w) d d' f f' began h = ground arith

block_all-later :
    (l : RateLimiter) (now e : ℕ) (keys : List String) (acc later : ℕ × Bool)
    → All (λ key. Began now (l.windows key)) keys
    → later.1 ≡ ltb e acc.0
    → (block_all l (now + e) keys later).1 ≡ ltb e (block_all l now keys acc).0
unfolding block_all
block_all-later l now e [] acc later began h = h
block_all-later l now e (key ∷ keys) acc later (began, others) h =
    block_all-later l now e keys _ _ others
      (block_one-later l now e (l.windows key) acc.0 later.0 acc.1 later.1 began h)

-- Where no window of the keys begins in the future, and nothing is charged or reset meanwhile, the keys
-- are blocked exactly for as long as the wait that a check names: before it they are, from then on they
-- are not.
pub blocked-wait :
    (l : RateLimiter) (now e : ℕ) (keys : List String)
    → All (λ key. Began now (l.windows key)) keys
    → (blocked l (now + e) keys).1 ≡ ltb e (blocked l now keys).0
unfolding blocked
blocked-wait l now e keys began =
    block_all-later l now e keys (0, false) (0, false) began (ground arith)
