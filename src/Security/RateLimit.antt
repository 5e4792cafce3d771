-- ===== src/Security/RateLimit.antt =====
-- internal/webui/security/ratelimit.go: the limiter of login attempts. A time is a number of
-- nanoseconds and the buckets are a function of the key; a negative limit acts as 0.
pub mod Window
pub mod Bounds
pub mod Cleanup
use goal_starter.Prelude.{
  ℕ, ◌+◌, Bool, true, false, Option, none, some, Text, leb, ◌==ᵗ◌, if◌then◌else◌,
}
use goal_starter.Domain.Instance.{Time}

pub record RateBucket : Type 0 where
  pub window_start : Time
  pub count : ℕ

pub record RateLimiter : Type 0 where
  pub limit : ℕ
  pub window : ℕ
  pub buckets : Text → Option RateBucket

unfoldable pub new_rate_limiter : ℕ → ℕ → RateLimiter
new_rate_limiter limit window = record { limit = limit; window = window; buckets = λ key. none }

-- now.Sub(b.windowStart) >= window
abbrev pub is_over : Time → ℕ → RateBucket → Bool
is_over now window b = leb (b.window_start + window) now

-- rl.buckets[key] = b
unfoldable pub set_bucket : Text → RateBucket → RateLimiter → RateLimiter
set_bucket key b rl = record rl { buckets = λ k. if key ==ᵗ k then some b else rl.buckets k }

-- The bucket of the key, unless its window is over.
unfoldable pub current : Time → Text → RateLimiter → Option RateBucket
current now key rl = elim (rl.buckets key) [
  | none ↦ none
  | some b ↦ if is_over now rl.window b then none else some b
]

unfoldable pub decide : Time → Text → Option RateBucket → RateLimiter → Bool × RateLimiter
decide now key none rl = (true, set_bucket key (record { window_start = now; count = 1 }) rl)
decide now key (some b) rl =
    if leb rl.limit b.count
    then (false, rl)
    else (true, set_bucket key (record b { count = b.count + 1 }) rl)

unfoldable pub allow : Time → Text → RateLimiter → Bool × RateLimiter
allow now key rl = decide now key (current now key rl) rl

unfoldable pub cleanup : Time → RateLimiter → RateLimiter
cleanup now rl = record rl { buckets = λ key. current now key rl }
