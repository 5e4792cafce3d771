-- ===== src/Security/RateLimit/Cleanup.antt =====
-- The background clean-up of the limiter, and the answers that follow it.
use goal_starter.Prelude.{
  ◌≤◌, ◌≡◌, refl, ◌∙◌, sym, Bool, Option, none, some, List, [], ◌∷◌, arith, Text, All,
}
use goal_starter.Domain.Instance.{Time}
use goal_starter.Security.RateLimit.{
  RateBucket, RateLimiter, set_bucket, current, decide, allow, cleanup,
}

-- The answers to a sequence of requests.
pub answers : List (Time × Text) → RateLimiter → List Bool
answers [] rl = []
answers ((now, key) ∷ rs) rl = (allow now key rl).0 ∷ answers rs (allow now key rl).1

-- Two limiters that answer alike from time `t` on: under each key they see the same bucket.
record Alike (t : Time) (a b : RateLimiter) : Type 0 where
  limit : a.limit ≡ b.limit
  window : a.window ≡ b.window
  sees : (now : Time) (key : Text) → t ≤ now → current now key a ≡ current now key b

decide-answer :
    (now : Time) (key : Text) (o : Option RateBucket) (a b : RateLimiter)
    → a.limit ≡ b.limit
    → (decide now key o a).0 ≡ (decide now key o b).0
unfolding decide
decide-answer now key none a b e = refl
decide-answer now key (some c) a b e = rw e (ground arith)

-- What the limiter sees of a key after an answer to a request.
decide-current :
    (now later : Time) (key k : Text) (o : Option RateBucket) (a b : RateLimiter)
    → a.limit ≡ b.limit
    → a.window ≡ b.window
    → current later k a ≡ current later k b
    → current later k (decide now key o a).1 ≡ current later k (decide now key o b).1
unfolding decide set_bucket current
decide-current now later key k none a b e w s = ground (arith, e, w, s)
decide-current now later key k (some c) a b e w s = ground (arith, e, w, s)

decide-limits :
    (now : Time) (key : Text) (o : Option RateBucket) (rl : RateLimiter)
    → ((decide now key o rl).1.limit ≡ rl.limit) × ((decide now key o rl).1.window ≡ rl.window)
unfolding decide set_bucket
decide-limits now key none rl = (refl, refl)
decide-limits now key (some c) rl = ground arith

decide-Alike :
    (t now : Time) (key : Text) (o : Option RateBucket) (a b : RateLimiter)
    → Alike t a b
    → Alike t (decide now key o a).1 (decide now key o b).1
decide-Alike t now key o a b s =
    let (la, wa) = decide-limits now key o a in
    let (lb, wb) = decide-limits now key o b in
    record {
      limit = la ∙ s.limit ∙ sym lb;
      window = wa ∙ s.window ∙ sym wb;
      sees =
          λ later k le. decide-current now later key k o a b s.limit s.window (s.sees later k le);
    }

allow-eq_decide :
    (t now : Time) (key : Text) (a b : RateLimiter)
    → t ≤ now
    → Alike t a b
    → allow now key a ≡ decide now key (current now key b) a
unfolding allow
allow-eq_decide t now key a b le s = rw (s.sees now key le) refl

ap2_cons : {x y : Bool} {xs ys : List Bool} → x ≡ y → xs ≡ ys → x ∷ xs ≡ y ∷ ys
ap2_cons p q = cc

answers-Alike :
    (t : Time) (rs : List (Time × Text)) (a b : RateLimiter)
    → All (λ (r : Time × Text). t ≤ r.0) rs
    → Alike t a b
    → answers rs a ≡ answers rs b
unfolding answers allow
answers-Alike t [] a b h s = refl
answers-Alike t ((now, key) ∷ rs) a b h s =
    let o = current now key b in
    rw (allow-eq_decide t now key a b h.0 s) (
      ap2_cons (decide-answer now key o a b s.limit) (
        answers-Alike t rs (decide now key o a).1 (decide now key o b).1 h.1
          (decide-Alike t now key o a b s)))

current-cleanup :
    (t now : Time) (key : Text) (rl : RateLimiter)
    → t ≤ now
    → current now key (cleanup t rl) ≡ current now key rl
unfolding current cleanup
current-cleanup t now key rl le = ground arith

-- A clean-up changes no answer: any requests from its time on are answered as they would have been
-- without it.
pub answers-cleanup :
    (t : Time) (rs : List (Time × Text)) (rl : RateLimiter)
    → All (λ (r : Time × Text). t ≤ r.0) rs
    → answers rs (cleanup t rl) ≡ answers rs rl
unfolding cleanup
answers-cleanup t rs rl h =
    answers-Alike t rs (cleanup t rl) rl h
      (record { limit = refl; window = refl; sees = λ now key le. current-cleanup t now key rl le })
