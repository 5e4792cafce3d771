-- ===== src/Security/RateLimit/Bounds.antt =====
-- What the limiter lets through of one key in a stretch of time.
use goal_starter.Prelude.{
  ◌*◌, All-imp, ℕ, ◌+◌, ◌-◌, ◌≤◌, ◌<◌, ◌≡◌, ap, ◌∙◌, Bool-cases, inl, inr, Option, none, some,
  Option-cases, List, [], ◌∷◌, arith, Text, All, ◌==ᵗ◌, leb, if◌then◌else◌,
}
use goal_starter.Domain.Instance.{Time}
use goal_starter.Security.RateLimit.{RateBucket, RateLimiter, is_over, current, allow, cleanup}
use goal_starter.Security.RateLimit.Window.{
  Event, request, clean, time_of, step, one_if, allowed, Before, quota, step-limits, other_request,
  same_request, outside, inside, within,
}

-- The potential of a key: what its bucket leaves of the limit, and one more window.
potential : RateLimiter → Option RateBucket → ℕ
potential rl none = quota rl
potential rl (some b) = (rl.limit - b.count) + quota rl

quota-step : (e : Event) (rl : RateLimiter) → quota (step e rl).1 ≡ quota rl
quota-step e rl = ap (λ (n : ℕ). if leb 1 n then n else 1) (step-limits e rl).0

-- The request opens a window that outlasts the events, and the limit holds in it.
opened :
    (now t : Time) (k : Text) (es : List Event) (rl : RateLimiter)
    → current now k rl ≡ none
    → t ≤ now
    → Before (t + rl.window) es
    → one_if (allow now k rl).0 + allowed k es (allow now k rl).1 ≤ quota rl
opened now t k es rl e le h =
    let (yes_allowed, r) = outside now k rl e in
    let (same_limit, same_window) = step-limits (request now k) rl in
    let rest =
      within k es (allow now k rl).1 (record { window_start = now; count = 1 }) r
        (All-imp (λ (x : Event). time_of x < t + rl.window)
          (λ (x : Event). time_of x < now + (allow now k rl).1.window) es
          (λ x lt. omega (arith, lt, same_window, le)) h) in
    ground (arith, rest, same_limit, yes_allowed)

-- A request of the key within the window of its bucket, by what the limiter sees.
inside_current :
    (now : Time) (k : Text) (rl : RateLimiter) (b : RateBucket)
    → current now k rl ≡ some b
    → (c : RateBucket) × ((allow now k rl).1.buckets k ≡ some c)
      × (one_if (allow now k rl).0 + (rl.limit - c.count) ≤ rl.limit - b.count)
      × (rl.buckets k ≡ some b)
unfolding current
inside_current now k rl b e = elim (Option-cases (rl.buckets k)) [
  | inl r ↦ absurd (ground arith)
  | inr (d, r) ↦ elim (Bool-cases (is_over now rl.window d)) [
    | inl over ↦ absurd (ground arith)
    | inr running ↦
        let same : d ≡ b = ground arith in
        let (c, r', start, le) = inside now k rl b (r ∙ ap some same) (ground arith) in
        (c, r', le, r ∙ ap some same)
  ]
]

potential-none : (rl : RateLimiter) (o : Option RateBucket) → quota rl ≤ potential rl o
unfolding potential
potential-none rl none = omega arith
potential-none rl (some b) = omega arith

potential-current :
    (now : Time) (k : Text) (rl : RateLimiter)
    → potential rl (current now k rl) ≤ potential rl (rl.buckets k)
unfolding current potential
potential-current now k rl = ground arith

potential-same :
    (rl rl' : RateLimiter) (o : Option RateBucket)
    → rl'.limit ≡ rl.limit
    → potential rl' o ≡ potential rl o
unfolding potential
potential-same rl rl' none e = rw e
potential-same rl rl' (some b) e = rw e

potential-le : (rl : RateLimiter) (o : Option RateBucket) → potential rl o ≤ 2 * quota rl
unfolding potential
potential-le rl none = omega arith
potential-le rl (some b) = ground arith

bounded :
    (k : Text) (t : Time) (es : List Event) (rl : RateLimiter)
    → All (λ (e : Event). t ≤ time_of e) es
    → Before (t + rl.window) es
    → allowed k es rl ≤ potential rl (rl.buckets k)
unfolding allowed potential cleanup
bounded k t [] rl late h = omega arith
bounded k t (clean now ∷ es) rl late h =
    omega (arith, bounded k t es (cleanup now rl) late.1 h.1, potential-current now k rl)
bounded k t (request now key ∷ es) rl late h =
    let rl' = (allow now key rl).1 in
    let (same_limit, same_window) = step-limits (request now key) rl in
    let rest = bounded k t es rl' late.1 (rw same_window h.1) in
    elim (Bool-cases (key ==ᵗ k)) [
      | inr p ↦ rw p (
          omega (
            arith,
            rest,
            ap (potential rl') (other_request now key k rl p),
            potential-same rl rl' (rl.buckets k) same_limit,
          ))
      | inl p ↦ elim (Option-cases (current now k rl)) [
        | inl none_current ↦
            rw (same_request now key k rl p, p)
              (omega (
                arith,
                opened now t k es rl none_current late.0 h.1,
                potential-none rl (rl.buckets k),
              ))
        | inr (b, e) ↦
            let (c, r', le, r) = inside_current now k rl b e in
            let rest' : allowed k es (allow now k rl).1 ≤ potential rl (some c) = omega (
              arith,
              bounded k t es (allow now k rl).1 late.1 (rw (step-limits (request now k) rl).1 h.1),
              ap (potential (allow now k rl).1) r',
              potential-same rl (allow now k rl).1 (some c) (step-limits (request now k) rl).0,
            ) in
            rw (same_request now key k rl p, p) (omega (arith, rest', le, ap (potential rl) r))
      ]
    ]

-- In any stretch of time that is no longer than the window, whatever the limiter has seen before and
-- whatever other keys and clean-ups come between, at most twice the limit of requests of one key are
-- let through (twice one, for a limit of 0).
pub allowed-le-twice :
    (k : Text) (t : Time) (es : List Event) (rl : RateLimiter)
    → All (λ (e : Event). t ≤ time_of e) es
    → Before (t + rl.window) es
    → allowed k es rl ≤ 2 * quota rl
unfolding potential
allowed-le-twice k t es rl late h =
    omega (arith, bounded k t es rl late h, potential-le rl (rl.buckets k))
