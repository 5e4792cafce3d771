-- ===== src/Application/Tests.antt =====
-- The pipeline service at concrete inputs (internal/application).
use goal_starter.Prelude.{
  lookup, insert, select, ◌==ᵗ◌, ℕ, zero, suc, ◌+◌, ◌≡◌, ◌≢◌, ◌↔◌, refl, true, false, none, some,
  [], ◌∷◌, Text, lit, pos, is_some, ap, if◌then◌else◌,
}
use mathlib.Core.List.{Perm}
use goal_starter.Domain.Instance.{LaunchInstanceEntry, InstanceState, running, exited, unset}
use goal_starter.Domain.Entries.{RuntimeEntry, ModelEntry, PipelineEntry, PipelineModel}
use goal_starter.Storage.Repository.{Call, Contents, Repository, written}
use goal_starter.Storage.Repository.Pipelines.{get_pipeline}
use goal_starter.Storage.Repository.Instances.{among}
use goal_starter.Storage.Collection.{find}
use goal_starter.Storage.Repository.Models.{get_model}
use goal_starter.Storage.Repository.Runtimes.{get_runtime}
use goal_starter.Application.Lifecycle.Targets.{stop_targets}
use goal_starter.Process.Errors.{shutting_down, orphan_record}
use goal_starter.Process.ErrorTree.{
  GoError, sentinel, rejection, is_error, as_rejection, wrapped, joined, no_errors, more_errors,
  err_launch_in_flight, has_rejection_reason,
}
use goal_starter.Process.ErrorTree.Reasons.{carries, has_rejection_reason-carries}
use goal_starter.Application.Failures.{reason_launch_in_flight, classify_stop_failure}
use goal_starter.Application.Pipelines.{
  validate_pipeline_entry, has_active_owned_instances, entry_ids, references_model, is_blank,
  update_group,
}
use goal_starter.Application.Pipelines.Identified.{IsIdentified, IsFresh}
use goal_starter.Application.Pipelines.Operations.{op_update_group, run_group}
use goal_starter.Application.Pipelines.Kept.{AllIdentified, run_group-AllIdentified}
use goal_starter.Application.Lifecycle.{SupervisorCalls, not_admitted, admitted}
use goal_starter.Application.Lifecycle.Requests.{stop_group, start_group, autostart_group}
use goal_starter.Application.Lifecycle.Stopped.{attempts, succeeded, failed, failures_of}
use goal_starter.Application.Lifecycle.Started.{places, shutdown_failures}
use goal_starter.Application.Lifecycle.Outcomes.{
  stopped_of, failures_in, started_of, stop_group-attempts, stop_group-complete,
  start_group-refused,
}

abbrev entry : Text → Text → Text → InstanceState → LaunchInstanceEntry
entry id entry_id model_id state = record {
  id = id;
  model_id = model_id;
  model_name = [];
  runtime_id = lit "r";
  pipeline_id = lit "p";
  pipeline_entry_id = entry_id;
  executable = [];
  args = [];
  working_directory = [];
  environment = [];
  state = state;
  pid = pos 7;
  exit_code = pos 0;
  exit_class = unset;
  last_error = [];
  started_at = 1;
  stopped_at = 0;
  created_at = 1;
  updated_at = 1;
  recovery_reason = [];
}

abbrev step : Text → Text → PipelineModel
step id model_id = record { id = id; model_id = model_id; args = []; auto_start = true }

abbrev group : PipelineEntry
group = record {
  id = lit "p";
  name = lit "P";
  active = true;
  models =
      step (lit "e1") (lit "m") ∷ step (lit "e2") (lit "m") ∷ step (lit "e3") (lit "none") ∷ [];
  created_at = 1;
  updated_at = 1;
}

abbrev model : ModelEntry
model = record {
  id = lit "m";
  name = lit "m";
  runtime_id = lit "r";
  args = [];
  environment = none;
  active = true;
  autostart_delay = pos 0;
  created_at = 1;
  updated_at = 1;
}

abbrev runtime : RuntimeEntry
runtime = record {
  id = lit "r";
  name = lit "r";
  executable = lit "/bin/r";
  working_directory = [];
  environment = none;
  created_at = 1;
  updated_at = 1;
}

-- An instance of each of two entries, one of no entry and an ended one.
abbrev contents : Contents
contents = record {
  runtimes = runtime ∷ [];
  models = model ∷ [];
  instances =
      entry (lit "a") (lit "e2") (lit "m") running
      ∷ entry (lit "b") (lit "e1") (lit "m") running
      ∷ entry (lit "c") [] (lit "m") running
      ∷ entry (lit "d") (lit "e1") (lit "m") exited
      ∷ [];
  pipelines = group ∷ [];
}

abbrev repository : Repository
repository = record { contents = contents; file = contents }

abbrev aborted : GoError
aborted = rejection (record {
  reason = shutting_down;
  model_id = lit "m";
  conflict_id = [];
  pipeline_id = [];
  entry_id = [];
})

-- The state is the repository and the number of calls. Every stop succeeds but that of one instance.
abbrev supervisor : Text → SupervisorCalls (Repository × ℕ)
supervisor stubborn = record {
  repository = λ w. w.0;
  admit_and_start = λ dm rt owner w. (
    if owner.pipeline_entry_id ==ᵗ lit "e2" then not_admitted aborted else admitted (lit "n"),
    (w.0, w.1 + 1),
  );
  stop = λ id w. (
    if id ==ᵗ stubborn then some (wrapped (lit "stop") (sentinel err_launch_in_flight)) else none,
    (w.0, w.1 + 1),
  );
}

abbrev targets_run : Repository × ℕ
targets_run = (repository, 0)

identified : IsIdentified group.models
unfolding ◌==ᵗ◌
identified = (λ h. cc, refl, (λ h. cc, refl, (λ h. cc, refl, tt)))

-- The last entry first; the instance of no entry goes to the first entry of its model.
stop_run :
    stopped_of (stop_group (supervisor (lit "c")) (lit "p") targets_run).0 ≡ lit "a" ∷ lit "b" ∷ []
unfolding stop_group get_pipeline find ◌==ᵗ◌ stop_targets lookup insert select
stop_run = refl

stop_failures :
    failures_of (failures_in (stop_group (supervisor (lit "c")) (lit "p") targets_run).1)
    ≡ (lit "c", reason_launch_in_flight) ∷ []
unfolding stop_group get_pipeline find ◌==ᵗ◌ stop_targets lookup insert select classify_stop_failure
    is_error
stop_failures = refl

stop_group-attempts_example :
    let (result, error, w') = stop_group (supervisor (lit "c")) (lit "p") targets_run in
    let (log, v) = attempts (supervisor (lit "c")) (lit "a" ∷ lit "b" ∷ lit "c" ∷ []) targets_run in
    (w' ≡ v)
    × (stopped_of result ≡ succeeded log)
    × (failures_of (failures_in error) ≡ failed log)
    × ((error ≡ none) ↔ (failed log ≡ []))
unfolding get_pipeline find ◌==ᵗ◌ stop_targets lookup insert select
stop_group-attempts_example =
    stop_group-attempts (supervisor (lit "c")) (lit "p") group targets_run refl

stop_group-complete_example :
    Perm
      (stopped_of (stop_group (supervisor []) (lit "p") targets_run).0)
      (lit "a" ∷ lit "b" ∷ lit "c" ∷ [])
unfolding stop_group get_pipeline find ◌==ᵗ◌ stop_targets lookup insert select references_model
stop_group-complete_example =
    stop_group-complete (supervisor []) (lit "p") group targets_run refl identified refl

start_group-refused_example :
    let (result, error, w') = start_group (supervisor []) (lit "p") targets_run in
    (places (started_of result)
      ≡ (0, lit "e1", lit "m") ∷ (1, lit "e2", lit "m") ∷ (2, lit "e3", lit "none") ∷ [])
    × (failures_in error ≡ shutdown_failures (started_of result))
    × (autostart_group (supervisor []) (lit "p") targets_run ≡ (result, none, w'))
unfolding get_pipeline find ◌==ᵗ◌
start_group-refused_example = start_group-refused (supervisor []) (lit "p") group targets_run refl

start_failures : is_some (start_group (supervisor []) (lit "p") targets_run).1 ≡ true
unfolding start_group get_pipeline find ◌==ᵗ◌ get_model get_runtime as_rejection
start_failures = refl

-- "x", "xx", and so on.
abbrev unary : ℕ → Text
unary zero = 120 ∷ []
unary (suc n) = 120 ∷ unary n

unary_inj : (m n : ℕ) → unary m ≡ unary n → m ≡ n
unary_inj zero zero h = refl
unary_inj zero (suc zero) h = absurd cc
unary_inj zero (suc (suc n)) h = absurd cc
unary_inj (suc zero) zero h = absurd cc
unary_inj (suc (suc m)) zero h = absurd cc
unary_inj (suc m) (suc n) h = ap suc (unary_inj m n cc)

-- A new entry among the others, in another order.
abbrev changed : PipelineEntry
changed = record group {
  models = step (lit "e2") (lit "m") ∷ step [] (lit "m") ∷ step (lit "e1") (lit "m") ∷ [];
}

abbrev call : Call
call = record { now = 9; ids = unary; write = written }

fresh : IsFresh unary changed.models
unfolding ◌==ᵗ◌
fresh = record { set = set; different = unary_inj; unused = unused }
  where
    set : (n : ℕ) → unary n ≢ []
    set zero = λ h. cc
    set (suc n) = λ h. cc

    unused : (n : ℕ) → among (unary n) (entry_ids changed.models) ≡ false
    unused zero = refl
    unused (suc n) = refl

run_group-AllIdentified_example :
    AllIdentified (run_group call (op_update_group changed) repository).1.contents
run_group-AllIdentified_example =
    run_group-AllIdentified call (op_update_group changed) repository fresh (identified, tt)

-- The change is refused, since instances of the pipeline are active.
update_refused : is_some (update_group call changed repository).0 ≡ true
unfolding update_group get_pipeline find ◌==ᵗ◌ validate_pipeline_entry is_blank get_model
    has_active_owned_instances
update_refused = refl

-- errors.As stops at the first rejection of a joined error; the walk does not.
abbrev joint : GoError
joint = joined (lit "both") (
    more_errors
      (rejection (record {
        reason = orphan_record;
        model_id = lit "m";
        conflict_id = [];
        pipeline_id = [];
        entry_id = [];
      }))
      (more_errors (wrapped (lit "w") aborted) no_errors))

has_rejection_reason-carries_example : has_rejection_reason shutting_down joint ≡ true
unfolding carries
has_rejection_reason-carries_example = has_rejection_reason-carries shutting_down joint

blank_name : is_blank (32 ∷ 226 ∷ 128 ∷ 169 ∷ 9 ∷ []) ≡ true
unfolding is_blank
blank_name = refl
