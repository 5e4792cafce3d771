-- ===== src/Security/Sessions/Ended.antt =====
-- What becomes of a token over histories of calls of the session store.
use goal_starter.Prelude.{
  ◌≡◌, refl, ap, ◌∙◌, Bool-cases, inl, inr, Option, none, some, Option-cases, List, [], ◌∷◌, arith,
  Text, All, ◌==ᵗ◌, text_eq_iff,
}
use goal_starter.Domain.Instance.{Time}
use goal_starter.Security.Sessions.{
  Sessions, refused, not_found, store_session, create_session, validate_found, validate_session,
  destroy_session, unexpired, cleanup_sessions,
}

pub data SessionEvent : Type 0 where
  created : Text → Option Text → Text → Time → SessionEvent
  validated : Text → Time → Time → Time → SessionEvent
  destroyed : Text → SessionEvent
  cleaned : Time → SessionEvent

abbrev pub after : SessionEvent → Sessions → Sessions
after (created user token csrf now) s = (create_session user token csrf now s).1
after (validated token now used extended) s = (validate_session token now used extended s).1
after (destroyed token) s = (destroy_session token s).1
after (cleaned now) s = cleanup_sessions now s

pub after_all : List SessionEvent → Sessions → Sessions
after_all [] s = s
after_all (e ∷ es) s = after_all es (after e s)

-- The event issues the token.
abbrev pub Issues : Text → SessionEvent → Type 0
Issues token (created user issued csrf now) = issued ≡ some token
Issues token _ = ⊥

validate-absent :
    (other : Text) (now used extended : Time) (s : Sessions) (token : Text)
    → s other ≡ none
    → s token ≡ none
    → (validate_session other now used extended s).1 token ≡ none
unfolding validate_session validate_found
validate-absent other now used extended s token e h = rw e h

absent_kept :
    (token : Text) (e : SessionEvent) (s : Sessions)
    → ¬ Issues token e
    → s token ≡ none
    → after e s token ≡ none
unfolding create_session validate_session validate_found destroy_session cleanup_sessions
    store_session unexpired
absent_kept token (created user none csrf now) s n h = h
absent_kept token (created user (some issued) csrf now) s n h =
    elim (Bool-cases (issued ==ᵗ token)) [
      | inl e ↦ absurd (n (ap some ((text_eq_iff issued token).0 e)))
      | inr e ↦ rw e h
    ]
absent_kept token (validated other now used extended) s n h = elim (Bool-cases (other ==ᵗ token)) [
  | inl e ↦
      validate-absent other now used extended s token (ap s ((text_eq_iff other token).0 e) ∙ h) h
  | inr e ↦ ground (arith, e, h)
]
absent_kept token (destroyed other) s n h = ground (arith, h)
absent_kept token (cleaned now) s n h = rw h refl

absent_kept_through :
    (token : Text) (es : List SessionEvent) (s : Sessions)
    → All (λ e. ¬ Issues token e) es
    → s token ≡ none
    → after_all es s token ≡ none
unfolding after_all
absent_kept_through token [] s n h = h
absent_kept_through token (e ∷ es) s n h =
    absent_kept_through token es (after e s) n.1 (absent_kept token e s n.0 h)

destroy-absent : (token : Text) (s : Sessions) → (destroy_session token s).1 token ≡ none
unfolding destroy_session store_session
destroy-absent token s = elim (Option-cases (s token)) [
  | inl e ↦ rw (e, destroy_session) e
  | inr (x, e) ↦ rw (e, destroy_session, store_session, (text_eq_iff token token).1 refl) refl
]

absent-refused :
    (token : Text) (now used extended : Time) (s : Sessions)
    → s token ≡ none
    → (validate_session token now used extended s).0 ≡ refused not_found
unfolding validate_session validate_found
absent-refused token now used extended s h = rw h refl

-- After DestroySession a token is refused, whatever sessions are created, validated, destroyed and
-- cleaned up in between, as long as none is created under the same token.
pub destroy-refused :
    (token : Text) (es : List SessionEvent) (now used extended : Time) (s : Sessions)
    → All (λ e. ¬ Issues token e) es
    → (validate_session token now used extended (after_all es (destroy_session token s).1)).0
      ≡ refused not_found
destroy-refused token es now used extended s n =
    absent-refused token now used extended _
      (absent_kept_through token es (destroy_session token s).1 n (destroy-absent token s))
