-- ===== src/Tests/Limits.antt =====
-- Runs of the rate limiter: two attempts in a window of ten.
use inventory.Prelude.{
  ℕ, ◌+◌, ◌*◌, ◌≡◌, refl, ◌≤◌, List, [], ◌∷◌, true, false, ltb, none, some, arith,
}
use inventory.Httpapi.RateLimit.{
  RateLimiter, credential_keys, new_rate_limiter, put, blocked, record_failure, allow, reset_keys,
}
use inventory.Httpapi.RateLimit.Waits.{blocked-wait}
use inventory.Httpapi.RateLimit.Budget.{Call, failed, attempted, granted, granted-twice}

-- Two attempts of Ana, at 0 and at 4.
abbrev limiter : RateLimiter
limiter = record {
  limit = 2;
  window = 10;
  windows = put "user:ana" (some (record { count = 2; start = 0 })) (λ key. none);
}

abbrev calls : List (ℕ × Call)
calls =
    (9, attempted "user:ana")
    ∷ (10, attempted "user:ana")
    ∷ (11, failed ("ip:10.0.0.7" ∷ []))
    ∷ (12, attempted "user:ana")
    ∷ (13, attempted "user:ana")
    ∷ []

keys_of_an_attempt : credential_keys "10.0.0.7" "ana" ≡ "ip:10.0.0.7" ∷ "user:ana" ∷ []
unfolding credential_keys
keys_of_an_attempt = refl

keys_without_a_name : credential_keys "10.0.0.7" "" ≡ "ip:10.0.0.7" ∷ []
unfolding credential_keys
keys_without_a_name = refl

-- The refusal at 9 is not charged to a window that has run out at 10, and 13 is one too many.
two_are_granted : granted "user:ana" limiter calls ≡ 2
unfolding granted allow
two_are_granted = refl

waits_for_the_window : blocked limiter 7 ("ip:10.0.0.7" ∷ "user:ana" ∷ []) ≡ (3, true)
unfolding blocked
waits_for_the_window = refl

free_after_success : blocked (reset_keys limiter ("user:ana" ∷ [])) 7 ("user:ana" ∷ []) ≡ (0, false)
unfolding blocked reset_keys
free_after_success = refl

third_is_refused :
    blocked
      (record_failure
        (record_failure (new_rate_limiter 2 10) 1 ("user:ana" ∷ []))
        2
        ("user:ana" ∷ []))
      3
      ("user:ana" ∷ [])
    ≡ (8, true)
unfolding blocked record_failure new_rate_limiter
third_is_refused = refl

blocked-wait_example :
    (blocked limiter (7 + 3) ("user:ana" ∷ [])).1 ≡ ltb 3 (blocked limiter 7 ("user:ana" ∷ [])).0
blocked-wait_example = blocked-wait limiter 7 3 ("user:ana" ∷ []) (omega arith, tt)

granted-twice_example : granted "user:ana" limiter calls ≤ 2 * 2
granted-twice_example =
    granted-twice "user:ana" 9 limiter calls (omega arith)
      (
        omega arith,
        omega arith,
        (
          omega arith,
          omega arith,
          (omega arith, omega arith, (omega arith, omega arith, (omega arith, omega arith, tt))),
        ),
      )
      (omega arith)
