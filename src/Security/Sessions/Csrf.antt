-- ===== src/Security/Sessions/Csrf.antt =====
-- internal/webui/security/csrf.go: the double-submit check of a request. subtle.ConstantTimeCompare
-- compares texts.
use goal_starter.Prelude.{
  ◌≡◌, ◌≢◌, ◌↔◌, Bool, true, not, ◌||◌, Option, none, some, [], Text, arith, ◌==ᵗ◌, text_eq_iff,
  if◌then◌else◌,
}

pub data CsrfError : Type 0 where
  missing mismatch invalid : CsrfError

-- The X-CSRF-Token header ("" if absent) and the cookie's value.
pub record CsrfRequest : Type 0 where
  pub header : Text
  pub cookie : Option Text

abbrev cookie_value : Option Text → Text
cookie_value none = []
cookie_value (some v) = v

-- `none` is no error.
unfoldable pub validate_request : Bool → CsrfRequest → Text → Option CsrfError
validate_request enabled r expected =
    if not enabled
    then none
    else if (r.header ==ᵗ []) || (cookie_value r.cookie ==ᵗ [])
    then some missing
    else if not (r.header ==ᵗ cookie_value r.cookie)
    then some mismatch
    else if not (r.header ==ᵗ expected)
    then some invalid
    else none

-- With the protection on, a request passes exactly when its header and its cookie both carry the
-- expected token, and that is not empty.
validate_request_lem :
    (r : CsrfRequest) (expected : Text)
    → (validate_request true r expected ≡ none)
      ↔ ((r.header ≡ expected) × (r.cookie ≡ some expected) × (expected ≢ []))
unfolding validate_request
validate_request_lem (r) expected = ground (
  arith,
  text_eq_iff r.header [],
  text_eq_iff (cookie_value r.cookie) [],
  text_eq_iff r.header (cookie_value r.cookie),
  text_eq_iff r.header expected,
)
