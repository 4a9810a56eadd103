-- ===== src/Httpapi/RateLimit.antt =====
-- internal/httpapi/ratelimit.go: the fixed-window counters of the credential endpoints.
pub mod Waits
pub mod Charged
pub mod Budget
use text.Mathlib.Text.{◌==◌}
use Prim.Native.String.{[] as empty, ◌++◌}
use inventory.Prelude.{
  ℕ, ◌+◌, ◌-◌, String, List, [], ◌∷◌, Bool, true, false, not, ◌||◌, ltb, leb, if◌then◌else◌, Option,
  none, some,
}

-- An instant and a duration are numbers of nanoseconds. time.Now reads a monotonic clock, and under the
-- mutex, so no window starts ahead of it and now.Sub(start) is the difference.
pub record RateWindow : Type 0 where
  pub count : ℕ
  pub start : ℕ

-- The mutex makes each method one step.
pub record RateLimiter : Type 0 where
  pub limit : ℕ
  pub window : ℕ
  pub windows : String → Option RateWindow

abbrev credential_failures_per_window : ℕ
credential_failures_per_window = 10

-- Fifteen minutes.
abbrev credential_window : ℕ
credential_window = 900000000000

abbrev key_of : String → String → List String
key_of kind name = if name == empty then [] else (kind ++ name) ∷ []

-- `credentialKeys`
unfoldable pub credential_keys : String → String → List String
credential_keys ip username =
    if ip == empty then key_of "user:" username else ("ip:" ++ ip) ∷ key_of "user:" username

unfoldable pub new_rate_limiter : ℕ → ℕ → RateLimiter
new_rate_limiter limit window = record { limit = limit; window = window; windows = λ key. none }

-- now.Sub(w.start) >= l.window
abbrev pub is_elapsed : ℕ → ℕ → RateWindow → Bool
is_elapsed window now w = leb window (now - w.start)

-- One round of blockedLocked; `acc` is retryAfter and found.
abbrev pub block_one : RateLimiter → ℕ → Option RateWindow → ℕ × Bool → ℕ × Bool
block_one l now none acc = acc
block_one l now (some w) acc =
    let left = l.window - (now - w.start) in
    if is_elapsed l.window now w || ltb w.count l.limit
    then acc
    else (if ltb acc.0 left then left else acc.0, true)

unfoldable pub block_all : RateLimiter → ℕ → List String → ℕ × Bool → ℕ × Bool
block_all l now [] acc = acc
block_all l now (key ∷ keys) acc = block_all l now keys (block_one l now (l.windows key) acc)

-- `blockedLocked`, and `blocked`.
unfoldable pub blocked : RateLimiter → ℕ → List String → ℕ × Bool
unfolding block_all
blocked l now keys = block_all l now keys (0, false)

-- Assignment to the map, and delete.
abbrev pub put :
    String → Option RateWindow → (String → Option RateWindow) → String → Option RateWindow
put key w windows other = if key == other then w else windows other

-- What recordLocked makes of the window of a key.
abbrev pub charged : ℕ → ℕ → Option RateWindow → RateWindow
charged window now none = record { count = 1; start = now }
charged window now (some w) =
    if is_elapsed window now w
    then record { count = 1; start = now }
    else record w { count = w.count + 1 }

unfoldable pub charge_all :
    ℕ → ℕ → List String → (String → Option RateWindow) → String → Option RateWindow
charge_all window now [] windows = windows
charge_all window now (key ∷ keys) windows =
    charge_all window now keys (put key (some (charged window now (windows key))) windows)

-- What sweep leaves of a window.
abbrev pub after_sweep : ℕ → ℕ → Option RateWindow → Option RateWindow
after_sweep window now none = none
after_sweep window now (some w) = if is_elapsed window now w then none else some w

-- `sweep`
unfoldable pub sweep_elapsed : RateLimiter → ℕ → RateLimiter
sweep_elapsed l now = record l { windows = λ key. after_sweep l.window now (l.windows key) }

-- `recordLocked`, and `record`.
unfoldable pub record_failure : RateLimiter → ℕ → List String → RateLimiter
unfolding sweep_elapsed charge_all
record_failure l now keys = record l {
  windows = charge_all l.window now keys (sweep_elapsed l now).windows;
}

abbrev delete_all : List String → (String → Option RateWindow) → String → Option RateWindow
delete_all [] windows = windows
delete_all (key ∷ keys) windows = delete_all keys (put key none windows)

-- `reset`
unfoldable pub reset_keys : RateLimiter → List String → RateLimiter
reset_keys l keys = record l { windows = delete_all keys l.windows }

-- `allow`: the wait, whether the attempt is within the limit, and the limiter afterwards.
unfoldable pub allow : RateLimiter → ℕ → String → (ℕ × Bool) × RateLimiter
unfolding blocked record_failure
allow l now key =
    let (retry_after, is_blocked) = blocked l now (key ∷ []) in
    ((retry_after, not is_blocked), record_failure l now (key ∷ []))
