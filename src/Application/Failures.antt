-- ===== src/Application/Failures.antt =====
-- internal/application/pipeline_failures.go: the failures of one group request, in the order of the
-- execution. A string that serves as an enumeration is a data type.
use goal_starter.Prelude.{
  Bool, ℕ, ◌||◌, Option, none, some, List, [], ◌∷◌, ◌++◌, Text, if◌then◌else◌,
}
use goal_starter.Process.Errors.{shutting_down}
use goal_starter.Process.ErrorTree.{
  GoError, is_error, has_rejection_reason, err_instance_not_found, err_launch_in_flight,
  err_persistence_failure, err_termination_unconfirmed, err_launch_aborted_by_shutdown,
}

pub data FailureReason : Type 0 where
  reason_resolve_failed reason_start_failed reason_stop_failed : FailureReason
  reason_launch_in_flight reason_instance_gone reason_persistence_failed : FailureReason
  reason_termination_unconfirmed reason_shutting_down : FailureReason

pub data Phase : Type 0 where
  phase_start phase_stop phase_restart : Phase

pub record PipelineFailure : Type 0 where
  pub phase : Phase
  pub entry_id : Text
  pub index : ℕ
  pub model_id : Text
  pub instance_id : Text
  pub reason : FailureReason

-- PipelineStopError and PipelineStartError have the same fields.
pub record Aggregate : Type 0 where
  pub pipeline_id : Text
  pub phase : Phase
  pub failures : List PipelineFailure
  pub errs : List GoError

-- What a group request returns as its error.
pub data GroupError : Type 0 where
  pipeline_not_found : Text → GroupError
  pipeline_stop_error pipeline_start_error : Aggregate → GroupError

pub record LifecycleCollector : Type 0 where
  pub failures : List PipelineFailure
  pub errs : List GoError

abbrev pub no_failures : LifecycleCollector
no_failures = record { failures = []; errs = [] }

-- append(errs, err) unless err is nil
abbrev pub append_error : List GoError → Option GoError → List GoError
append_error errs none = errs
append_error errs (some e) = errs ++ e ∷ []

unfoldable pub add_failure :
    PipelineFailure → Option GoError → LifecycleCollector → LifecycleCollector
add_failure failure e c = record {
  failures = c.failures ++ failure ∷ [];
  errs = append_error c.errs e;
}

abbrev aggregate : Phase → Text → LifecycleCollector → Aggregate
aggregate phase pipeline_id c = record {
  pipeline_id = pipeline_id;
  phase = phase;
  failures = c.failures;
  errs = c.errs;
}

unfoldable pub stop_aggregate : Phase → Text → LifecycleCollector → Option GroupError
stop_aggregate phase pipeline_id c = elim c.failures [
  | [] ↦ none
  | _ ∷ _ ↦ some (pipeline_stop_error (aggregate phase pipeline_id c))
]

unfoldable pub start_aggregate : Text → LifecycleCollector → Option GroupError
start_aggregate pipeline_id c = elim c.failures [
  | [] ↦ none
  | _ ∷ _ ↦ some (pipeline_start_error (aggregate phase_start pipeline_id c))
]

unfoldable pub is_shutdown_class : GoError → Bool
is_shutdown_class e =
    is_error err_launch_aborted_by_shutdown e || has_rejection_reason shutting_down e

unfoldable pub classify_stop_failure : GoError → FailureReason
classify_stop_failure e =
    if is_error err_instance_not_found e
    then reason_instance_gone
    else if is_error err_launch_in_flight e
    then reason_launch_in_flight
    else if is_error err_persistence_failure e
    then reason_persistence_failed
    else if is_error err_termination_unconfirmed e
    then reason_termination_unconfirmed
    else if is_shutdown_class e
    then reason_shutting_down
    else reason_stop_failed
