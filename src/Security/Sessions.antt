-- ===== src/Security/Sessions.antt =====
-- internal/webui/security/session.go: the sessions of the web interface, and csrf.go: the tokens that
-- its requests carry. A random token is an argument, with none for the failure of its source; each
-- reading of the clock is an argument. Cookies and headers are what the request holds.
pub mod Ended
pub mod Csrf
use goal_starter.Prelude.{
  ℕ, ◌+◌, ◌*◌, Bool, true, false, not, ◌&&◌, ◌||◌, Option, none, some, Text, ltb, ◌==ᵗ◌,
  if◌then◌else◌,
}
use goal_starter.Domain.Instance.{Time}

pub record Session : Type 0 where
  pub token : Text
  pub csrf_token : Text
  pub user : Text
  pub created : Time
  pub expiry : Time
  pub last_used : Time

abbrev pub Sessions : Type 0
Sessions = Text → Option Session

pub data SessionError : Type 0 where
  no_token not_found expired : SessionError

pub data SessionResult : Type 0 where
  valid : Session → SessionResult
  refused : SessionError → SessionResult

-- 24 * time.Hour, in nanoseconds
abbrev pub session_ttl : ℕ
session_ttl = 86400000000000

unfoldable pub store_session : Text → Option Session → Sessions → Sessions
store_session token s sessions t = if token ==ᵗ t then s else sessions t

abbrev pub new_session : Text → Text → Text → Time → Session
new_session token csrf_token user now = record {
  token = token;
  csrf_token = csrf_token;
  user = user;
  created = now;
  expiry = now + session_ttl;
  last_used = now;
}

unfoldable pub create_session :
    Text → Option Text → Text → Time → Sessions → SessionResult × Sessions
unfolding store_session
create_session user none csrf_token now sessions = (refused no_token, sessions)
create_session user (some token) csrf_token now sessions =
    let s = new_session token csrf_token user now in
    (valid s, store_session token (some s) sessions)

-- ValidateSession, with its three readings of the clock.
unfoldable pub validate_found :
    Text → Time → Time → Time → Option Session → Sessions → SessionResult × Sessions
unfolding store_session
validate_found token now used extended none sessions = (refused not_found, sessions)
validate_found token now used extended (some s) sessions =
    let s' = record s { last_used = used; expiry = extended + session_ttl } in
    if ltb s.expiry now
    then (refused expired, store_session token none sessions)
    else (valid s', store_session token (some s') sessions)

unfoldable pub validate_session : Text → Time → Time → Time → Sessions → SessionResult × Sessions
unfolding validate_found
validate_session token now used extended sessions =
    validate_found token now used extended (sessions token) sessions

-- DestroySession; `none` is no error.
unfoldable pub destroy_session : Text → Sessions → Option SessionError × Sessions
unfolding store_session
destroy_session token sessions = elim (sessions token) [
  | none ↦ (some not_found, sessions)
  | some s ↦ (none, store_session token none sessions)
]

unfoldable pub unexpired : Time → Option Session → Option Session
unexpired now none = none
unexpired now (some s) = if ltb s.expiry now then none else some s

unfoldable pub cleanup_sessions : Time → Sessions → Sessions
unfolding unexpired
cleanup_sessions now sessions token = unexpired now (sessions token)
