-- ===== src/Security/Tests.antt =====
-- Runs of the limiter, the sessions and the tokens at concrete inputs.
use goal_starter.Prelude.{◌≡◌, ◌≤◌, ◌*◌, arith, none, some, List, [], ◌∷◌, lit}
use goal_starter.Security.RateLimit.{
  RateLimiter, new_rate_limiter, set_bucket, current, decide, allow, cleanup,
}
use goal_starter.Security.RateLimit.Window.{Event, request, clean, allowed, quota}
use goal_starter.Security.RateLimit.Bounds.{allowed-le-twice}
use goal_starter.Security.RateLimit.Cleanup.{answers, answers-cleanup}
use goal_starter.Security.Sessions.{
  Sessions, refused, not_found, create_session, validate_session, destroy_session,
}
use goal_starter.Security.Sessions.Ended.{
  SessionEvent, created, validated, cleaned, after_all, destroy-refused,
}
use goal_starter.Security.Sessions.Csrf.{CsrfRequest}

abbrev limiter : RateLimiter
limiter = (allow 1 (lit "k") (new_rate_limiter 2 10)).1

abbrev attempts : List Event
attempts =
    request 2 (lit "k")
    ∷ request 3 (lit "other")
    ∷ request 5 (lit "k")
    ∷ clean 8
    ∷ request 11 (lit "k")
    ∷ []

allowed-le-twice_example : allowed (lit "k") attempts limiter ≤ 2 * quota limiter
unfolding allow decide current set_bucket new_rate_limiter
allowed-le-twice_example =
    allowed-le-twice (lit "k") 2 attempts limiter
      (omega arith, (omega arith, (omega arith, (omega arith, (omega arith, tt)))))
      (omega arith, (omega arith, (omega arith, (omega arith, (omega arith, tt)))))

answers-cleanup_example :
    answers ((20, lit "k") ∷ (21, lit "k") ∷ []) (cleanup 20 limiter)
    ≡ answers ((20, lit "k") ∷ (21, lit "k") ∷ []) limiter
answers-cleanup_example =
    answers-cleanup 20 ((20, lit "k") ∷ (21, lit "k") ∷ []) limiter (omega arith, (omega arith, tt))

abbrev no_sessions : Sessions
no_sessions token = none

abbrev sessions : Sessions
sessions = (create_session (lit "u") (some (lit "t")) (lit "c") 1 no_sessions).1

abbrev later : List SessionEvent
later = created (lit "u") (some (lit "s")) (lit "c") 5 ∷ validated (lit "t") 6 6 6 ∷ cleaned 7 ∷ []

destroy-refused_example :
    (validate_session (lit "t") 8 8 8 (after_all later (destroy_session (lit "t") sessions).1)).0
    ≡ refused not_found
destroy-refused_example =
    destroy-refused (lit "t") later 8 8 8 sessions ((λ e. ground arith), ((λ e. e), ((λ e. e), tt)))

abbrev post : CsrfRequest
post = record { header = lit "c"; cookie = some (lit "c") }
