-- ===== src/Process/ErrorTree.antt =====
-- internal/process/errors.go: the sentinel errors, and an error as the tree that errors.Is and
-- errors.As walk: an error with `Unwrap() error` has one child, one with `Unwrap() []error` a list.
pub mod Reasons
use goal_starter.Prelude.{Bool, true, false, ◌||◌, Option, none, some, Text, lit, ◌++◌}
use goal_starter.Process.Errors.{
  RejectionReason, in_flight, orphan_record, shutting_down, AdmissionRejection,
}

pub data Sentinel : Type 0 where
  err_launch_in_flight err_persistence_failure err_launch_aborted_by_shutdown : Sentinel
  err_termination_unconfirmed err_rollback_failed err_not_restartable : Sentinel
  err_instance_not_found : Sentinel

mutual
  pub data GoError : Type 0 where
    sentinel : Sentinel → GoError
    rejection : AdmissionRejection → GoError
    plain : Text → GoError
    wrapped : Text → GoError → GoError
    joined : Text → GoErrors → GoError

  pub data GoErrors : Type 0 where
    no_errors : GoErrors
    more_errors : GoError → GoErrors → GoErrors

-- `a == b` on two sentinels
abbrev pub same_sentinel : Sentinel → Sentinel → Bool
same_sentinel err_launch_in_flight err_launch_in_flight = true
same_sentinel err_persistence_failure err_persistence_failure = true
same_sentinel err_launch_aborted_by_shutdown err_launch_aborted_by_shutdown = true
same_sentinel err_termination_unconfirmed err_termination_unconfirmed = true
same_sentinel err_rollback_failed err_rollback_failed = true
same_sentinel err_not_restartable err_not_restartable = true
same_sentinel err_instance_not_found err_instance_not_found = true
same_sentinel _ _ = false

abbrev pub same_reason : RejectionReason → RejectionReason → Bool
same_reason in_flight in_flight = true
same_reason orphan_record orphan_record = true
same_reason shutting_down shutting_down = true
same_reason _ _ = false

abbrev sentinel_text : Sentinel → Text
sentinel_text err_launch_in_flight = lit "launch in flight: instance launch is not complete"
sentinel_text err_persistence_failure = lit "durable persistence of running identity failed"
sentinel_text err_launch_aborted_by_shutdown = lit "launch aborted: supervisor shutdown in progress"
sentinel_text err_termination_unconfirmed =
    lit "rollback kill accepted but process termination unconfirmed"
sentinel_text err_rollback_failed = lit "rollback kill refused by OS; process may be alive"
sentinel_text err_not_restartable = lit "instance is not restartable"
sentinel_text err_instance_not_found = lit "instance not found"

-- Error() of an AdmissionRejection
unfoldable pub rejection_text : AdmissionRejection → Text
rejection_text a = elim a.reason [
  | in_flight ↦
      lit "launch rejected: in-flight instance " ++ a.conflict_id ++ lit " of model " ++ a.model_id
  | orphan_record ↦
      lit "launch rejected: orphan instance " ++ a.conflict_id ++ lit " of model " ++ a.model_id
  | shutting_down ↦ lit "launch rejected: system is shutting down"
]

-- Error(): a wrapping error and a joined one have a text of their own.
unfoldable pub error_text : GoError → Text
unfolding rejection_text
error_text (sentinel s) = sentinel_text s
error_text (rejection a) = rejection_text a
error_text (plain t) = t
error_text (wrapped t e) = t
error_text (joined t es) = t

-- errors.Is(err, target)
unfoldable mutual
  pub is_error : Sentinel → GoError → Bool
  is_error s (sentinel t) = same_sentinel s t
  is_error s (rejection a) = false
  is_error s (plain t) = false
  is_error s (wrapped t e) = is_error s e
  is_error s (joined t es) = is_error_any s es

  pub is_error_any : Sentinel → GoErrors → Bool
  is_error_any s no_errors = false
  is_error_any s (more_errors e es) = is_error s e || is_error_any s es

-- errors.As(err, &rej): the first rejection, each error before its children.
unfoldable mutual
  pub as_rejection : GoError → Option AdmissionRejection
  as_rejection (sentinel t) = none
  as_rejection (rejection a) = some a
  as_rejection (plain t) = none
  as_rejection (wrapped t e) = as_rejection e
  as_rejection (joined t es) = as_rejection_any es

  pub as_rejection_any : GoErrors → Option AdmissionRejection
  as_rejection_any no_errors = none
  as_rejection_any (more_errors e es) =
      let rest = as_rejection_any es in elim (as_rejection e) [ some a ↦ some a | none ↦ rest ]

-- The test of HasRejectionReason on one node.
abbrev pub has_reason : RejectionReason → Option AdmissionRejection → Bool
has_reason r none = false
has_reason r (some a) = same_reason a.reason r

-- walkErrors(err, visit)
unfoldable mutual
  pub walk_errors : (GoError → Bool) → GoError → Bool
  walk_errors visit (sentinel t) = visit (sentinel t)
  walk_errors visit (rejection a) = visit (rejection a)
  walk_errors visit (plain t) = visit (plain t)
  walk_errors visit (wrapped t e) = visit (wrapped t e) || walk_errors visit e
  walk_errors visit (joined t es) = visit (joined t es) || walk_errors_any visit es

  pub walk_errors_any : (GoError → Bool) → GoErrors → Bool
  walk_errors_any visit no_errors = false
  walk_errors_any visit (more_errors e es) = walk_errors visit e || walk_errors_any visit es

unfoldable pub has_rejection_reason : RejectionReason → GoError → Bool
has_rejection_reason r e = walk_errors (λ n. has_reason r (as_rejection n)) e
