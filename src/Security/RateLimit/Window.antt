-- ===== src/Security/RateLimit/Window.antt =====
-- How many requests of one key are let through.
use goal_starter.Prelude.{
  ℕ, ◌+◌, ◌-◌, ◌≤◌, ◌<◌, ◌≡◌, refl, ap, ◌∙◌, Bool, true, false, Bool-cases, inl, inr, none, some,
  List, [], ◌∷◌, arith, Text, All, ◌==ᵗ◌, text_eq_iff, leb, if◌then◌else◌,
}
use goal_starter.Domain.Instance.{Time}
use goal_starter.Security.RateLimit.{
  RateBucket, RateLimiter, set_bucket, current, decide, allow, cleanup,
}

-- What befalls a limiter: a request of a key, or a turn of the clean-up.
pub data Event : Type 0 where
  request : Time → Text → Event
  clean : Time → Event

abbrev pub time_of : Event → Time
time_of (request now key) = now
time_of (clean now) = now

abbrev pub step : Event → RateLimiter → Bool × RateLimiter
step (request now key) rl = allow now key rl
step (clean now) rl = (false, cleanup now rl)

-- The event is a request of the key.
abbrev pub concerns : Text → Event → Bool
concerns k (request now key) = key ==ᵗ k
concerns k (clean now) = false

abbrev pub one_if : Bool → ℕ
one_if true = 1
one_if false = 0

-- How many requests of the key are allowed.
unfoldable pub allowed : Text → List Event → RateLimiter → ℕ
allowed k [] rl = 0
allowed k (e ∷ es) rl =
    (if concerns k e then one_if (step e rl).0 else 0) + allowed k es (step e rl).1

-- The events are of times before `t`.
abbrev pub Before : Time → List Event → Type 0
Before t es = All (λ (e : Event). time_of e < t) es

-- The larger of 1 and the limit: the first request of a window is always allowed.
abbrev pub quota : RateLimiter → ℕ
quota rl = if leb 1 rl.limit then rl.limit else 1

pub step-limits :
    (e : Event) (rl : RateLimiter)
    → ((step e rl).1.limit ≡ rl.limit) × ((step e rl).1.window ≡ rl.window)
unfolding allow decide set_bucket cleanup
step-limits (clean now) rl = (refl, refl)
step-limits (request now key) rl = ground arith

-- A request of another key leaves the bucket as it is.
pub other_request :
    (now : Time) (key k : Text) (rl : RateLimiter)
    → (key ==ᵗ k) ≡ false
    → (allow now key rl).1.buckets k ≡ rl.buckets k
unfolding allow decide set_bucket
other_request now key k rl n = ground arith

pub same_request :
    (now : Time) (key k : Text) (rl : RateLimiter)
    → (key ==ᵗ k) ≡ true
    → allow now key rl ≡ allow now k rl
same_request now key k rl e = ap (λ (t : Text). allow now t rl) ((text_eq_iff key k).0 e)

set_bucket-same :
    (k : Text) (b : RateBucket) (rl : RateLimiter) → (set_bucket k b rl).buckets k ≡ some b
unfolding set_bucket
set_bucket-same k b rl = rw ((text_eq_iff k k).1 refl)

-- A request of the key within the window of its bucket.
pub inside :
    (now : Time) (k : Text) (rl : RateLimiter) (b : RateBucket)
    → rl.buckets k ≡ some b
    → now < b.window_start + rl.window
    → (c : RateBucket) × ((allow now k rl).1.buckets k ≡ some c)
      × (c.window_start ≡ b.window_start)
      × (one_if (allow now k rl).0 + (rl.limit - c.count) ≤ rl.limit - b.count)
unfolding allow decide current
inside now k rl b r lt = elim (Bool-cases (leb rl.limit b.count)) [
  | inl full ↦ (b, ground arith, refl, ground arith)
  | inr free ↦ (
    record b { count = b.count + 1 },
    ground (arith, set_bucket-same k (record b { count = b.count + 1 }) rl),
    refl,
    ground arith,
  )
]

-- A request of the key with no bucket, or with one whose window is over.
pub outside :
    (now : Time) (k : Text) (rl : RateLimiter)
    → current now k rl ≡ none
    → ((allow now k rl).0 ≡ true)
      × ((allow now k rl).1.buckets k ≡ some (record { window_start = now; count = 1 }))
unfolding allow decide
outside now k rl e = rw e (refl, set_bucket-same k (record { window_start = now; count = 1 }) rl)

pub still_there :
    (now : Time) (k : Text) (rl : RateLimiter) (b : RateBucket)
    → rl.buckets k ≡ some b
    → now < b.window_start + rl.window
    → (cleanup now rl).buckets k ≡ some b
unfolding cleanup current
still_there now k rl b r lt = ground arith

-- What an event lets through of the key.
abbrev pub let_through : Text → Event → RateLimiter → ℕ
let_through k e rl = if concerns k e then one_if (step e rl).0 else 0

step_inside :
    (k : Text) (e : Event) (rl : RateLimiter) (b : RateBucket)
    → rl.buckets k ≡ some b
    → time_of e < b.window_start + rl.window
    → (c : RateBucket) × ((step e rl).1.buckets k ≡ some c)
      × (c.window_start ≡ b.window_start)
      × (let_through k e rl + (rl.limit - c.count) ≤ rl.limit - b.count)
step_inside k (clean now) rl b r lt = (b, still_there now k rl b r lt, refl, omega arith)
step_inside k (request now key) rl b r lt = elim (Bool-cases (key ==ᵗ k)) [
  | inl p ↦ rw (same_request now key k rl p, p) (inside now k rl b r lt)
  | inr p ↦ rw p (b, other_request now key k rl p ∙ r, refl, omega arith)
]

pub within :
    (k : Text) (es : List Event) (rl : RateLimiter) (b : RateBucket)
    → rl.buckets k ≡ some b
    → Before (b.window_start + rl.window) es
    → allowed k es rl ≤ rl.limit - b.count
unfolding allowed
within k [] rl b r h = omega arith
within k (e ∷ es) rl b r h =
    let (c, r', start, le) = step_inside k e rl b r h.0 in
    let (same_limit, same_window) = step-limits e rl in
    let rest = within k es (step e rl).1 c r' (rw (start, same_window) h.1) in
    omega (arith, rest, le, same_limit)
