-- ===== src/Application/Lifecycle/Outcomes.antt =====
-- What the requests report, against the calls of the supervisor
-- (internal/application/pipeline_service.go).
use goal_starter.Prelude.{
  Option-cases, inl, inr, ◌≡◌, ◌↔◌, refl, ap, sym, ◌∙◌, Option, none, some, List, [], ◌∷◌, ◌++◌,
  Text, chosen,
}
use mathlib.Core.List.{Perm, perm_append_comm}
use mathlib.Core.List.Perm
use goal_starter.Domain.Entries.{PipelineEntry, PipelineModel}
use goal_starter.Storage.Repository.Instances.{instance_id}
use goal_starter.Storage.Repository.Pipelines.{get_pipeline}
use goal_starter.Application.Failures.{
  GroupError, pipeline_not_found, pipeline_stop_error, pipeline_start_error, PipelineFailure,
  LifecycleCollector, no_failures, Phase, phase_stop, phase_restart, start_aggregate,
  classify_stop_failure, stop_aggregate,
}
use goal_starter.Application.Lifecycle.{SupervisorCalls, PipelineEntryStart, PipelineEntryStop}
use goal_starter.Application.Lifecycle.Started.{
  places, numbered, shutdown_failures, start_entries-Adds,
}
use goal_starter.Application.Lifecycle.Phases.{start_entries, stop_entries}
use goal_starter.Application.Pipelines.Identified.{IsIdentified}
use goal_starter.Application.Lifecycle.Targets.Complete.{all_targets, is_target, stop_targets-Perm}
use goal_starter.Application.Lifecycle.Requests.{
  PipelineStartResult, PipelineRestartResult, start_group, autostart_group, restart_group,
  PipelineStopResult, targets_now, stop_group,
}
use goal_starter.Application.Lifecycle.Stopped.{
  succeeded, failed, failures_of, stopped_ids, stop_order, attempts, stop_entries-attempts,
}

abbrev pub stopped_of : Option PipelineStopResult → List Text
stopped_of none = []
stopped_of (some r) = stopped_ids r.results

abbrev pub failures_in : Option GroupError → List PipelineFailure
failures_in none = []
failures_in (some (pipeline_not_found id)) = []
failures_in (some (pipeline_stop_error a)) = a.failures
failures_in (some (pipeline_start_error a)) = a.failures

pub stop_aggregate-failures :
    (phase : Phase) (id : Text) (c : LifecycleCollector)
    → (failures_in (stop_aggregate phase id c) ≡ c.failures)
      × ((stop_aggregate phase id c ≡ none) ↔ (c.failures ≡ []))
unfolding stop_aggregate
stop_aggregate-failures phase id c = by_failures c.failures refl
  where
    by_failures :
        (l : List PipelineFailure)
        → c.failures ≡ l
        → (failures_in (stop_aggregate phase id c) ≡ c.failures)
          × ((stop_aggregate phase id c ≡ none) ↔ (c.failures ≡ []))
    by_failures [] h = rw (h, stop_aggregate) (refl, (λ k. refl, λ k. refl))
    by_failures (f ∷ l) h = rw (h, stop_aggregate) (h, (λ k. cc, λ k. cc))

none-failures : (fs : List PipelineFailure) → (fs ≡ []) ↔ (failures_of fs ≡ [])
none-failures [] = (λ h. refl, λ h. refl)
none-failures (f ∷ l) = (λ h. cc, λ h. cc)

failures_of-append :
    (a b : List PipelineFailure) → failures_of (a ++ b) ≡ failures_of a ++ failures_of b
failures_of-append [] b = refl
failures_of-append (f ∷ a) b = ap (λ l. (f.instance_id, f.reason) ∷ l) (failures_of-append a b)

module _ {W : Type 0} (sup : SupervisorCalls W) where
  -- A group stop of a known pipeline calls Supervisor.Stop once for each target, the last entry's
  -- targets first, whatever the calls before it returned, and changes nothing else. It reports as
  -- stopped exactly the instances whose call succeeded, in that order, and as failures exactly the
  -- others with the classes of their errors, in that order; it returns no error just when none failed.
  pub stop_group-attempts :
      (id : Text) (p : PipelineEntry) (w : W)
      → get_pipeline id (sup.repository w) ≡ some p
      → let (result, error, w') = stop_group sup id w in
        let (log, v) = attempts sup (stop_order (targets_now sup id p w)) w in
        (w' ≡ v)
        × (stopped_of result ≡ succeeded log)
        × (failures_of (failures_in error) ≡ failed log)
        × ((error ≡ none) ↔ (failed log ≡ []))
  unfolding stop_group
  stop_group-attempts id p w h =
      let (results, c, w') = stop_entries sup 0 (targets_now sup id p w) no_failures w in
      let (world, (stopped, failures, errs)) =
        stop_entries-attempts sup 0 (targets_now sup id p w) no_failures w in
      let (reported, nothing) = stop_aggregate-failures phase_stop id c in
      let (to, from) = none-failures c.failures in
      rw (h, stop_group)
        (
          world,
          stopped,
          ap failures_of reported ∙ failures,
          (λ e. sym failures ∙ to (nothing.0 e), λ e. nothing.1 (from (failures ∙ e))),
        )

  all-succeeded :
      (ids : List Text) (w : W)
      → failed (attempts sup ids w).0 ≡ []
      → succeeded (attempts sup ids w).0 ≡ ids
  unfolding attempts
  all-succeeded [] w h = refl
  all-succeeded (id ∷ l) w h = elim (Option-cases (sup.stop id w).0) [
    | inl n ↦ rw n (ap (λ k. id ∷ k) (all-succeeded l (sup.stop id w).1 (rw n at h)))
    | inr (e, n) ↦
        let no : (id, classify_stop_failure e) ∷ failed (attempts sup l (sup.stop id w).1).0 ≡ [] =
          rw n at h in
        absurd cc
  ]

stop_order-Perm : (l : List (PipelineModel × List Text)) → Perm (stop_order l) (all_targets l)
stop_order-Perm [] = Perm.nil
stop_order-Perm ((e, ids) ∷ l) =
    Perm.trans (perm_append_comm (stop_order l) ids) (Perm.append_left ids (stop_order-Perm l))

-- A group stop that returns no error has stopped every active instance that the pipeline owns and
-- that is attributed to one of its entries, or to none and has the model of one, each once, and no
-- other instance. The pipeline is known, and the IDs of its entries are set and pairwise different.
pub stop_group-complete :
    {W : Type 0} (sup : SupervisorCalls W) (id : Text) (p : PipelineEntry) (w : W)
    → get_pipeline id (sup.repository w) ≡ some p
    → IsIdentified p.models
    → (stop_group sup id w).1 ≡ none
    → Perm
        (stopped_of (stop_group sup id w).0)
        (chosen instance_id (is_target id p.models) (sup.repository w).contents.instances)
stop_group-complete sup id p w h u e =
    let (world, stopped, failures, nothing) = stop_group-attempts sup id p w h in
    let targets = targets_now sup id p w in
    let all : stopped_of (stop_group sup id w).0 ≡ stop_order targets =
      stopped ∙ all-succeeded sup (stop_order targets) w (nothing.0 e) in
    rw all (
      Perm.trans (stop_order-Perm targets)
        (stop_targets-Perm id p.models (sup.repository w).contents.instances u))

pub start_aggregate-failures :
    (id : Text) (c : LifecycleCollector) → failures_in (start_aggregate id c) ≡ c.failures
unfolding start_aggregate
start_aggregate-failures id c = by_failures c.failures refl
  where
    by_failures :
        (l : List PipelineFailure)
        → c.failures ≡ l
        → failures_in (start_aggregate id c) ≡ c.failures
    by_failures [] h = rw (h, start_aggregate) refl
    by_failures (f ∷ l) h = rw (h, start_aggregate) h

abbrev pub started_of : Option PipelineStartResult → List PipelineEntryStart
started_of none = []
started_of (some r) = r.results

-- A group start of a known pipeline gives one result for each entry, in the order of the entries, and
-- its error holds exactly the failures that the results show as refused by the shutdown, in that
-- order. The automatic start gives the same results and leaves the same state, and returns no error.
pub start_group-refused :
    {W : Type 0} (sup : SupervisorCalls W) (id : Text) (p : PipelineEntry) (w : W)
    → get_pipeline id (sup.repository w) ≡ some p
    → let (result, error, w') = start_group sup id w in
      (places (started_of result) ≡ numbered 0 p.models)
      × (failures_in error ≡ shutdown_failures (started_of result))
      × (autostart_group sup id w ≡ (result, none, w'))
unfolding start_group autostart_group
start_group-refused sup id p w h =
    let (results, c, w') = start_entries sup id 0 p.models no_failures w in
    let (added, in_order) = start_entries-Adds sup id 0 p.models no_failures w in
    rw (h, start_group, autostart_group) (in_order, start_aggregate-failures id c ∙ added, refl)

abbrev pub restarted_of :
    Option PipelineRestartResult → List PipelineEntryStop × List PipelineEntryStart
restarted_of none = ([], [])
restarted_of (some r) = (r.stop_results, r.start_results)

-- A group restart of a known pipeline makes the calls of a group stop and then starts every entry,
-- whatever those calls returned. Its error holds the failures of the stop phase and then those of the
-- start phase that the shutdown refused; there is none just when no call failed and no start was
-- refused so.
restart_group-refused :
    {W : Type 0} (sup : SupervisorCalls W) (id : Text) (p : PipelineEntry) (w : W)
    → get_pipeline id (sup.repository w) ≡ some p
    → let (result, error, w') = restart_group sup id w in
      let (stopped, started) = restarted_of result in
      let (log, v) = attempts sup (stop_order (targets_now sup id p w)) w in
      (stopped_ids stopped ≡ succeeded log)
      × (places started ≡ numbered 0 p.models)
      × (failures_of (failures_in error) ≡ failed log ++ failures_of (shutdown_failures started))
      × ((error ≡ none) ↔ (failed log ++ failures_of (shutdown_failures started) ≡ []))
unfolding restart_group
restart_group-refused sup id p w h =
    let (results, c, w') = stop_entries sup 0 (targets_now sup id p w) no_failures w in
    let (started, c', w'') = start_entries sup id 0 p.models c w' in
    let (world, (stopped, failures, errs)) =
      stop_entries-attempts sup 0 (targets_now sup id p w) no_failures w in
    let (added, in_order) = start_entries-Adds sup id 0 p.models c w' in
    let (reported, nothing) = stop_aggregate-failures phase_restart id c' in
    let (to, from) = none-failures c'.failures in
    let all : failures_of c'.failures
        ≡ failed (attempts sup (stop_order (targets_now sup id p w)) w).0
          ++ failures_of (shutdown_failures started) =
      ap failures_of added
      ∙ failures_of-append c.failures (shutdown_failures started)
      ∙ ap (λ k. k ++ failures_of (shutdown_failures started)) failures in
    rw (h, restart_group)
      (
        stopped,
        in_order,
        ap failures_of reported ∙ all,
        (λ e. sym all ∙ to (nothing.0 e), λ e. nothing.1 (from (all ∙ e))),
      )
