-- ===== src/Application/Lifecycle/Requests.antt =====
-- internal/application/pipeline_service.go: the requests Start, Autostart, Stop and Restart.
use goal_starter.Prelude.{Option, none, some, List, Text}
use goal_starter.Domain.Entries.{PipelineEntry, PipelineModel}
use goal_starter.Storage.Repository.Pipelines.{get_pipeline}
use goal_starter.Application.Failures.{
  phase_stop, phase_restart, GroupError, pipeline_not_found, no_failures, stop_aggregate,
  start_aggregate,
}
use goal_starter.Application.Lifecycle.{SupervisorCalls, PipelineEntryStart, PipelineEntryStop}
use goal_starter.Application.Lifecycle.Phases.{start_entries, stop_entries}
use goal_starter.Application.Lifecycle.Targets.{stop_targets}

pub record PipelineStartResult : Type 0 where
  pub pipeline_id : Text
  pub results : List PipelineEntryStart

pub record PipelineStopResult : Type 0 where
  pub pipeline_id : Text
  pub results : List PipelineEntryStop

pub record PipelineRestartResult : Type 0 where
  pub pipeline_id : Text
  pub stop_results : List PipelineEntryStop
  pub start_results : List PipelineEntryStart

module _ {W : Type 0} (sup : SupervisorCalls W) where
  -- The targets of the pipeline's entries in the repository of this moment.
  abbrev pub targets_now : Text → PipelineEntry → W → List (PipelineModel × List Text)
  targets_now id p w = stop_targets id p.models (sup.repository w).contents.instances

  unfoldable pub start_group : Text → W → Option PipelineStartResult × Option GroupError × W
  unfolding start_entries start_aggregate
  start_group id w = elim (get_pipeline id (sup.repository w)) [
    | none ↦ (none, some (pipeline_not_found id), w)
    | some p ↦
        let (results, c, w') = start_entries sup id 0 p.models no_failures w in
        (some (record { pipeline_id = id; results = results }), start_aggregate id c, w')
  ]

  -- Autostart reports no aggregate.
  unfoldable pub autostart_group : Text → W → Option PipelineStartResult × Option GroupError × W
  unfolding start_entries
  autostart_group id w = elim (get_pipeline id (sup.repository w)) [
    | none ↦ (none, some (pipeline_not_found id), w)
    | some p ↦
        let (results, c, w') = start_entries sup id 0 p.models no_failures w in
        (some (record { pipeline_id = id; results = results }), none, w')
  ]

  unfoldable pub stop_group : Text → W → Option PipelineStopResult × Option GroupError × W
  unfolding stop_entries stop_aggregate
  stop_group id w = elim (get_pipeline id (sup.repository w)) [
    | none ↦ (none, some (pipeline_not_found id), w)
    | some p ↦
        let (results, c, w') = stop_entries sup 0 (targets_now id p w) no_failures w in
        (some (record { pipeline_id = id; results = results }), stop_aggregate phase_stop id c, w')
  ]

  unfoldable pub restart_group : Text → W → Option PipelineRestartResult × Option GroupError × W
  unfolding stop_entries start_entries stop_aggregate
  restart_group id w = elim (get_pipeline id (sup.repository w)) [
    | none ↦ (none, some (pipeline_not_found id), w)
    | some p ↦
        let (stopped, c, w') = stop_entries sup 0 (targets_now id p w) no_failures w in
        let (started, c', w'') = start_entries sup id 0 p.models c w' in
        (
          some (record { pipeline_id = id; stop_results = stopped; start_results = started }),
          stop_aggregate phase_restart id c',
          w'',
        )
  ]
