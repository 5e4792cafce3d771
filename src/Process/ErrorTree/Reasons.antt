-- ===== src/Process/ErrorTree/Reasons.antt =====
-- HasRejectionReason against the tree that it walks (internal/process/errors.go).
use goal_starter.Prelude.{
  ◌≡◌, refl, sym, ◌∙◌, ap, Bool, true, false, ◌||◌, inl, inr, Option-cases, arith,
}
use goal_starter.Process.Errors.{RejectionReason}
use goal_starter.Process.ErrorTree.{
  GoError, GoErrors, sentinel, rejection, plain, wrapped, joined, no_errors, more_errors,
  same_reason, as_rejection, has_reason, walk_errors, has_rejection_reason, as_rejection_any,
  walk_errors_any,
}

-- A node of the tree is a rejection for the reason.
unfoldable mutual
  pub carries : RejectionReason → GoError → Bool
  carries r (sentinel t) = false
  carries r (rejection a) = same_reason a.reason r
  carries r (plain t) = false
  carries r (wrapped t e) = carries r e
  carries r (joined t es) = carries_any r es

  pub carries_any : RejectionReason → GoErrors → Bool
  carries_any r no_errors = false
  carries_any r (more_errors e es) = carries r e || carries_any r es

-- What errors.As finds is a node.
mutual
  unfolding as_rejection carries

  as_rejection-carries :
      (r : RejectionReason) (e : GoError)
      → has_reason r (as_rejection e) ≡ true
      → carries r e ≡ true
  as_rejection-carries r (sentinel t) h = h
  as_rejection-carries r (rejection a) h = h
  as_rejection-carries r (plain t) h = h
  as_rejection-carries r (wrapped t e) h = as_rejection-carries r e h
  as_rejection-carries r (joined t es) h = as_rejection_any-carries_any r es h

  as_rejection_any-carries_any :
      (r : RejectionReason) (es : GoErrors)
      → has_reason r (as_rejection_any es) ≡ true
      → carries_any r es ≡ true
  as_rejection_any-carries_any r no_errors h = h
  as_rejection_any-carries_any r (more_errors e es) h = elim (Option-cases (as_rejection e)) [
    | inl n ↦ ground (arith, as_rejection_any-carries_any r es (rw (n, as_rejection) at h))
    | inr (a, n) ↦ ground (arith, as_rejection-carries r e (rw n (rw (n, as_rejection) at h)))
  ]

absorb : (a b : Bool) → (a ≡ true → b ≡ true) → (a || b) ≡ b
absorb true b h = sym (h refl)
absorb false b h = refl

mutual
  unfolding walk_errors carries as_rejection

  walk-carries :
      (r : RejectionReason) (e : GoError)
      → walk_errors (λ n. has_reason r (as_rejection n)) e ≡ carries r e
  walk-carries r (sentinel t) = refl
  walk-carries r (rejection a) = refl
  walk-carries r (plain t) = refl
  walk-carries r (wrapped t e) =
      ap (λ b. has_reason r (as_rejection e) || b) (walk-carries r e)
      ∙ absorb _ _ (as_rejection-carries r e)
  walk-carries r (joined t es) =
      ap (λ b. has_reason r (as_rejection_any es) || b) (walk_any-carries_any r es)
      ∙ absorb _ _ (as_rejection_any-carries_any r es)

  walk_any-carries_any :
      (r : RejectionReason) (es : GoErrors)
      → walk_errors_any (λ n. has_reason r (as_rejection n)) es ≡ carries_any r es
  walk_any-carries_any r no_errors = refl
  walk_any-carries_any r (more_errors e es) = rw (walk-carries r e, walk_any-carries_any r es) refl

-- HasRejectionReason is true exactly when some error of the tree, at any depth and in any branch of a
-- joined error, is an AdmissionRejection with the reason.
pub has_rejection_reason-carries :
    (r : RejectionReason) (e : GoError) → has_rejection_reason r e ≡ carries r e
unfolding has_rejection_reason
has_rejection_reason-carries r e = walk-carries r e
