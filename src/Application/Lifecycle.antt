-- ===== src/Application/Lifecycle.antt =====
-- internal/application/pipeline_service.go: the group lifecycle. The supervisor is the record
-- SupervisorCalls: what a call returns and the state after it. The pipeline's lock is held for a whole
-- request, so that a request is one sequence of calls.
pub mod Phases
pub mod Targets
pub mod Requests
pub mod Stopped
pub mod Started
pub mod Outcomes
use goal_starter.Prelude.{
  ℕ, suc, ◌+◌, Bool, true, false, not, ◌&&◌, ◌||◌, Option, none, some, List, [], ◌∷◌, ◌++◌, Text,
  lit, Dict, lookup, insert, is_some, select, map, ◌==◌, ◌==ᵗ◌, if◌then◌else◌,
}
use goal_starter.Domain.Instance.{LaunchInstanceEntry}
use goal_starter.Domain.Entries.{RuntimeEntry, ModelEntry, PipelineEntry, PipelineModel}
use goal_starter.Domain.Command.{Model, Runtime}
use goal_starter.Domain.Owner.{LaunchOwner, pipeline_owner}
use goal_starter.Domain.Instance.{zero_time}
use goal_starter.Storage.Repository.{Repository}
use goal_starter.Storage.Repository.Models.{get_model}
use goal_starter.Storage.Repository.Runtimes.{get_runtime}
use goal_starter.Storage.Repository.Pipelines.{get_pipeline}
use goal_starter.Process.Errors.{AdmissionRejection, in_flight, orphan_record, shutting_down}
use goal_starter.Process.ErrorTree.{
  GoError, is_error, as_rejection, error_text, err_launch_aborted_by_shutdown,
}
use goal_starter.Application.Failures.{
  FailureReason, reason_resolve_failed, reason_start_failed, reason_shutting_down, phase_start,
  phase_stop, phase_restart, PipelineFailure, GroupError, pipeline_not_found, LifecycleCollector,
  no_failures, add_failure, stop_aggregate, start_aggregate, classify_stop_failure,
}
use goal_starter.Application.Pipelines.{is_owned}

-- What AdmitAndStart returns: the ID of the new instance, or an error.
pub data Admitted : Type 0 where
  not_admitted : GoError → Admitted
  admitted : Text → Admitted

pub record SupervisorCalls (W : Type 0) : Type 0 where
  pub repository : W → Repository
  pub admit_and_start : Model → Runtime → LaunchOwner → W → Admitted × W
  pub stop : Text → W → Option GoError × W

pub data EntryOutcome : Type 0 where
  outcome_started outcome_already_running outcome_orphan_skipped outcome_no_runtime : EntryOutcome
  outcome_model_missing outcome_failed outcome_stopped : EntryOutcome

pub record PipelineEntryStart : Type 0 where
  pub model_id : Text
  pub entry_id : Text
  pub index : ℕ
  pub status : EntryOutcome
  pub instance_id : Text
  pub error : Option FailureReason

pub record PipelineEntryStop : Type 0 where
  pub model_id : Text
  pub entry_id : Text
  pub index : ℕ
  pub instance_id : Text
  pub stopped_instance_ids : List Text
  pub status : EntryOutcome
  pub error : Option FailureReason

-- A nil map is an empty one.
abbrev env_or_empty : Option (Dict Text) → Dict Text
env_or_empty none = []
env_or_empty (some m) = m

-- ModelEntryToDomain
unfoldable pub model_entry_to_domain : ModelEntry → Model
model_entry_to_domain e = record {
  id = e.id;
  name = e.name;
  runtime_id = e.runtime_id;
  args = e.args;
  environment = env_or_empty e.environment;
  active = e.active;
  autostart_delay = e.autostart_delay;
  pipeline_id = [];
  pipeline_entry_id = [];
  created_at = e.created_at;
  updated_at = e.updated_at;
}

-- RuntimeToDomain, on the fields of a stored runtime
unfoldable pub runtime_to_domain : RuntimeEntry → Runtime
runtime_to_domain e = record {
  id = e.id;
  name = e.name;
  executable = e.executable;
  working_directory = e.working_directory;
  environment = env_or_empty e.environment;
  created_at = zero_time;
  updated_at = zero_time;
}

-- The model of an entry: its arguments replace the model's if it has any.
unfoldable pub model_of_entry : Text → PipelineModel → ModelEntry → Model
unfolding model_entry_to_domain
model_of_entry pipeline_id entry e =
    let dm = model_entry_to_domain e in
    record dm {
      args = elim entry.args [ [] ↦ dm.args | a ∷ l ↦ a ∷ l ];
      pipeline_id = pipeline_id;
      pipeline_entry_id = entry.id;
    }

-- strings.HasPrefix(s, t)
abbrev has_prefix : Text → Text → Bool
has_prefix s [] = true
has_prefix [] (b ∷ t) = false
has_prefix (a ∷ s) (b ∷ t) = (a == b) && has_prefix s t

-- strings.Contains(s, t)
unfoldable pub contains_text : Text → Text → Bool
contains_text [] t = has_prefix [] t
contains_text (a ∷ s) t =
    let rest = contains_text s t in if has_prefix (a ∷ s) t then true else rest

-- The status, the error and the collector that a refused launch leaves; `noted` is the collector
-- after addShutdown().
abbrev Refusal : Type 0
Refusal = EntryOutcome × Option FailureReason × LifecycleCollector

-- The switch on the reason of a rejection.
unfoldable pub rejected_entry :
    Text → AdmissionRejection → LifecycleCollector → LifecycleCollector → Refusal
rejected_entry pipeline_id rej c noted = elim rej.reason [
  | shutting_down ↦ (outcome_failed, some reason_shutting_down, noted)
  | orphan_record ↦
      if (rej.pipeline_id ==ᵗ pipeline_id) || (rej.pipeline_id ==ᵗ [])
      then (outcome_orphan_skipped, none, c)
      else (outcome_already_running, none, c)
  | in_flight ↦ (outcome_already_running, none, c)
]

-- The error branch of startEntry.
unfoldable pub refused_entry : Text → GoError → LifecycleCollector → LifecycleCollector → Refusal
unfolding rejected_entry contains_text
refused_entry pipeline_id e c noted = elim (as_rejection e) [
  | some rej ↦ rejected_entry pipeline_id rej c noted
  | none ↦
      if is_error err_launch_aborted_by_shutdown e
      then (outcome_failed, some reason_shutting_down, noted)
      else if contains_text (error_text e) (lit "resolve instance")
      then (outcome_failed, some reason_resolve_failed, c)
      else (outcome_failed, some reason_start_failed, c)
]

abbrev pub entry_start : ℕ → PipelineModel → EntryOutcome → PipelineEntryStart
entry_start index entry status = record {
  model_id = entry.model_id;
  entry_id = entry.id;
  index = index;
  status = status;
  instance_id = [];
  error = none;
}

abbrev pub shutdown_failure : ℕ → PipelineModel → PipelineFailure
shutdown_failure index entry = record {
  phase = phase_start;
  entry_id = entry.id;
  index = index;
  model_id = entry.model_id;
  instance_id = [];
  reason = reason_shutting_down;
}

-- The result of an entry from what AdmitAndStart returned.
unfoldable pub admission_result :
    Text
    → ℕ
    → PipelineModel
    → Admitted
    → LifecycleCollector
    → PipelineEntryStart × LifecycleCollector
unfolding refused_entry add_failure
admission_result pipeline_id index entry (not_admitted e) c =
    let (status, why, c') =
      refused_entry pipeline_id e c (add_failure (shutdown_failure index entry) (some e) c) in
    (record (entry_start index entry status) { error = why }, c')
admission_result pipeline_id index entry (admitted id) c =
    (record (entry_start index entry outcome_started) { instance_id = id }, c)
