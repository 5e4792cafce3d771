-- ===== src/Storage/Tests.antt =====
-- The repository at concrete inputs (internal/storage/repository.go).
use goal_starter.Prelude.{
  Bool, ◌≡◌, ◌≢◌, refl, true, false, not, none, some, List, [], ◌∷◌, select, length, Text, lit,
  itoa, pos, All, ◌==ᵗ◌,
}
use goal_starter.Domain.Instance.{LaunchInstanceEntry, InstanceState, exited, running, unset}
use goal_starter.Domain.Entries.{RuntimeEntry, ModelEntry, PipelineEntry}
use goal_starter.Storage.Collection.{has}
use goal_starter.Storage.Repository.{
  already_exists, written, write_failed, sync_failed, Call, Repository, Contents, replace_contents,
}
use goal_starter.Storage.Repository.Runtimes.{runtime_id, create_runtime}
use goal_starter.Storage.Repository.Instances.{
  all_terminal, should_delete, delete_terminal_instances, delete_matching,
}
use goal_starter.Storage.Repository.Integrity.{
  references, replace_runtime_and_delete, validate_cross_references,
}
use goal_starter.Storage.Operations.{
  Op, op_create_runtime, op_delete_instance, op_cascade_delete, run, run_all,
}
use goal_starter.Storage.Operations.Outcome.{IsKeyed}
use goal_starter.Storage.Operations.History.{
  IsSynced, run-failed, run_all-IsKeyed, run_all-IsSynced,
}
use goal_starter.Storage.Operations.References.{
  IsReferenced, replace_runtime_and_delete-IsReferenced, replace_runtime_and_delete-same,
}
use goal_starter.Storage.Operations.Cleanup.{Picks, delete_terminal_instances-deleted}

abbrev call : Call
call = record { now = 50; ids = itoa; write = written }

abbrev failing_call : Call
failing_call = record { now = 50; ids = itoa; write = write_failed }

abbrev runtime : Text → RuntimeEntry
runtime id = record {
  id = id;
  name = id;
  executable = lit "/bin/r";
  working_directory = [];
  environment = none;
  created_at = 1;
  updated_at = 1;
}

abbrev model : ModelEntry
model = record {
  id = lit "m";
  name = lit "m";
  runtime_id = lit "r1";
  args = [];
  environment = none;
  active = true;
  autostart_delay = pos 0;
  created_at = 1;
  updated_at = 1;
}

abbrev entry : Text → InstanceState → LaunchInstanceEntry
entry id state = record {
  id = id;
  model_id = lit "m";
  model_name = [];
  runtime_id = lit "r1";
  pipeline_id = [];
  pipeline_entry_id = [];
  executable = [];
  args = [];
  working_directory = [];
  environment = [];
  state = state;
  pid = pos 0;
  exit_code = pos 0;
  exit_class = unset;
  last_error = [];
  started_at = 1;
  stopped_at = 2;
  created_at = 1;
  updated_at = 2;
  recovery_reason = [];
}

abbrev contents : Contents
contents = record {
  runtimes = runtime (lit "r1") ∷ runtime (lit "r") ∷ [];
  models = model ∷ [];
  instances = entry (lit "a") exited ∷ entry (lit "b") running ∷ [];
  pipelines = [];
}

abbrev repository : Repository
repository = record { contents = contents; file = contents }

abbrev history : List (Call × Op)
history =
    (call, op_create_runtime (runtime []))
    ∷ (failing_call, op_cascade_delete (lit "r1"))
    ∷ (call, op_delete_instance (lit "a"))
    ∷ []

abbrev legacy : List PipelineEntry
legacy =
    record {
      id = lit "p";
      name = lit "p";
      active = true;
      models = record { id = []; model_id = lit "m"; args = []; auto_start = true } ∷ [];
      created_at = 1;
      updated_at = 1;
    }
    ∷ []

contents-IsKeyed : IsKeyed contents
unfolding has ◌==ᵗ◌
contents-IsKeyed = record {
  runtimes = (refl, (refl, tt));
  models = (refl, tt);
  instances = (refl, (refl, tt));
  pipelines = tt;
}

contents-IsReferenced : IsReferenced contents
unfolding validate_cross_references has ◌==ᵗ◌
contents-IsReferenced = refl

duplicate_refused :
    (run call (op_create_runtime (runtime (lit "r1"))) repository).0
    ≡ some (already_exists (lit "r1"))
unfolding create_runtime has ◌==ᵗ◌
duplicate_refused = refl

cleaned : (delete_terminal_instances call all_terminal [] 0 repository).0 ≡ (1, none)
unfolding delete_terminal_instances delete_matching should_delete select replace_contents
cleaned = refl

runtime_known : has runtime_id (lit "r1") contents.runtimes ≡ true
unfolding has ◌==ᵗ◌
runtime_known = refl

model_refers : select (references (lit "r1")) contents.models ≢ []
unfolding select ◌==ᵗ◌
model_refers = λ h. cc

run-failed_example :
    ((run call (op_create_runtime (runtime (lit "r1"))) repository).1.contents ≡ contents)
    × (call.write ≢ sync_failed
        → (run call (op_create_runtime (runtime (lit "r1"))) repository).1.file ≡ contents)
run-failed_example =
    run-failed call (op_create_runtime (runtime (lit "r1"))) repository duplicate_refused

run_all-IsKeyed_example : IsKeyed (run_all history repository).contents
run_all-IsKeyed_example = run_all-IsKeyed history repository contents-IsKeyed

no_sync_failure : All (λ (p : Call × Op). p.0.write ≢ sync_failed) history
no_sync_failure = ((λ h. cc), ((λ h. cc), ((λ h. cc), tt)))

run_all-IsSynced_example : IsSynced (run_all history repository)
run_all-IsSynced_example = run_all-IsSynced history repository no_sync_failure refl

ids_differ : lit "r1" ≢ lit "r"
ids_differ h = cc

replace_runtime_and_delete-IsReferenced_example :
    IsReferenced (replace_runtime_and_delete call (lit "r1") (lit "r") repository).1.contents
replace_runtime_and_delete-IsReferenced_example =
    replace_runtime_and_delete-IsReferenced call (lit "r1") (lit "r") repository ids_differ
      contents-IsReferenced

replace_runtime_and_delete-same_example :
    ((replace_runtime_and_delete call (lit "r1") (lit "r1") repository).0.1 ≡ none)
    × (has runtime_id
          (lit "r1")
          (replace_runtime_and_delete call (lit "r1") (lit "r1") repository).1.contents.runtimes
        ≡ false)
    × ¬ IsReferenced (replace_runtime_and_delete call (lit "r1") (lit "r1") repository).1.contents
replace_runtime_and_delete-same_example =
    replace_runtime_and_delete-same call (lit "r1") repository refl contents-IsKeyed.runtimes
      runtime_known model_refers

delete_terminal_instances-deleted_example :
    (d : LaunchInstanceEntry → Bool) × Picks d all_terminal [] 0
    × ((delete_terminal_instances call all_terminal [] 0 repository).1.contents.instances
        ≡ select (λ e. not (d e)) repository.contents.instances)
    × (1 ≡ length (select d repository.contents.instances))
delete_terminal_instances-deleted_example =
    delete_terminal_instances-deleted call all_terminal [] 0 repository cleaned
