-- ===== src/Application/Lifecycle/Phases.antt =====
-- internal/application/pipeline_service.go: the start phase and the stop phase of a group request.
use goal_starter.Prelude.{ℕ, ◌+◌, none, some, List, [], ◌∷◌, ◌++◌, Text}
use goal_starter.Domain.Entries.{PipelineModel}
use goal_starter.Domain.Owner.{pipeline_owner}
use goal_starter.Storage.Repository.Models.{get_model}
use goal_starter.Storage.Repository.Runtimes.{get_runtime}
use goal_starter.Application.Failures.{
  FailureReason, PipelineFailure, phase_stop, LifecycleCollector, add_failure,
  classify_stop_failure,
}
use goal_starter.Application.Lifecycle.{
  SupervisorCalls, outcome_no_runtime, outcome_model_missing, outcome_failed, outcome_stopped,
  PipelineEntryStart, PipelineEntryStop, model_of_entry, runtime_to_domain, entry_start,
  admission_result,
}

abbrev pub stop_failure : ℕ → PipelineModel → Text → FailureReason → PipelineFailure
stop_failure index entry id why = record {
  phase = phase_stop;
  entry_id = entry.id;
  index = index;
  model_id = entry.model_id;
  instance_id = id;
  reason = why;
}

-- The result of an entry after a target that stopped, and after one that did not: the first error
-- stays.
abbrev pub with_stopped : Text → PipelineEntryStop → PipelineEntryStop
with_stopped id out = record out {
  instance_id = id;
  stopped_instance_ids = out.stopped_instance_ids ++ id ∷ [];
}

abbrev pub with_failed : FailureReason → PipelineEntryStop → PipelineEntryStop
with_failed why out = record out {
  status = outcome_failed;
  error = elim out.error [ none ↦ some why | some first ↦ some first ];
}

abbrev pub nothing_stopped : ℕ → PipelineModel → PipelineEntryStop
nothing_stopped index entry = record {
  model_id = entry.model_id;
  entry_id = entry.id;
  index = index;
  instance_id = [];
  stopped_instance_ids = [];
  status = outcome_stopped;
  error = none;
}

module _ {W : Type 0} (sup : SupervisorCalls W) where
  unfoldable pub start_entry :
      Text
      → ℕ
      → PipelineModel
      → LifecycleCollector
      → W
      → PipelineEntryStart × LifecycleCollector × W
  unfolding model_of_entry runtime_to_domain admission_result
  start_entry pipeline_id index entry c w = elim (get_model entry.model_id (sup.repository w)) [
    | none ↦ (entry_start index entry outcome_model_missing, c, w)
    | some me ↦ elim (get_runtime me.runtime_id (sup.repository w)) [
      | none ↦ (entry_start index entry outcome_no_runtime, c, w)
      | some rte ↦
          let (outcome, w') =
            sup.admit_and_start (model_of_entry pipeline_id entry me) (runtime_to_domain rte)
              (pipeline_owner pipeline_id entry.id) w in
          let (result, c') = admission_result pipeline_id index entry outcome c in (result, c', w')
    ]
  ]

  -- The loop of the start phase.
  unfoldable pub start_entries :
      Text
      → ℕ
      → List PipelineModel
      → LifecycleCollector
      → W
      → List PipelineEntryStart × LifecycleCollector × W
  unfolding start_entry
  start_entries pipeline_id index [] c w = ([], c, w)
  start_entries pipeline_id index (entry ∷ l) c w =
      let (result, c', w') = start_entry pipeline_id index entry c w in
      let (results, c'', w'') = start_entries pipeline_id (index + 1) l c' w' in
      (result ∷ results, c'', w'')

  -- The loop of stopEntry over the targets.
  unfoldable pub stop_targets_of :
      ℕ
      → PipelineModel
      → List Text
      → PipelineEntryStop
      → LifecycleCollector
      → W
      → PipelineEntryStop × LifecycleCollector × W
  unfolding add_failure
  stop_targets_of index entry [] out c w = (out, c, w)
  stop_targets_of index entry (id ∷ l) out c w =
      let (error, w') = sup.stop id w in
      elim error [
        | none ↦ stop_targets_of index entry l (with_stopped id out) c w'
        | some e ↦
            stop_targets_of index entry l (with_failed (classify_stop_failure e) out)
              (add_failure (stop_failure index entry id (classify_stop_failure e)) (some e) c) w'
      ]

  unfoldable pub stop_entry :
      ℕ
      → PipelineModel
      → List Text
      → LifecycleCollector
      → W
      → PipelineEntryStop × LifecycleCollector × W
  unfolding stop_targets_of
  stop_entry index entry targets c w =
      stop_targets_of index entry targets (nothing_stopped index entry) c w

  -- The loop of the stop phase, from the last entry down: the later entries are stopped first.
  unfoldable pub stop_entries :
      ℕ
      → List (PipelineModel × List Text)
      → LifecycleCollector
      → W
      → List PipelineEntryStop × LifecycleCollector × W
  unfolding stop_entry
  stop_entries index [] c w = ([], c, w)
  stop_entries index ((entry, targets) ∷ l) c w =
      let (results, c', w') = stop_entries (index + 1) l c w in
      let (result, c'', w'') = stop_entry index entry targets c' w' in
      (results ++ result ∷ [], c'', w'')
