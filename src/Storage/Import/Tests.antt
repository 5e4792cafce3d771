-- ===== src/Storage/Import/Tests.antt =====
-- Runs of an import at concrete inputs.
use goal_starter.Prelude.{
  ◌≡◌, ◌≢◌, refl, true, none, some, List, [], ◌∷◌, ◌==ᵗ◌, select, map, Text, lit, pos,
}
use goal_starter.Domain.Entries.{RuntimeEntry, ModelEntry, PipelineEntry}
use goal_starter.Storage.Collection.{has}
use goal_starter.Storage.Repository.{
  Call, written, sync_failed, Contents, Repository, replace_contents, save_locked,
}
use goal_starter.Storage.Import.{
  has_blocked, ImportTools, ImportGraphPlan, classify, counted_status, increment,
  runtime_projection_equal, model_projection_equal, pipeline_projection_equal, args_equal,
  entries_equal, restored_runtime,
}
use goal_starter.Storage.Import.Names.{
  intents, intent_of, find_last, member, local_holders, bundle_holders, add_holder, set_add,
  contested, smallest_other, writes,
}
use goal_starter.Storage.Import.Plan.{
  plan_graph_import, model_pass, runtime_pass, plan_runtimes, plan_runtime, verdict, plan_models,
  plan_pipelines,
}
use goal_starter.Storage.Import.Graph.{
  conflict, import_graph, imported, apply_plan, place_all, replace_last, write_graph,
  graph_contents, with_ids,
}
use goal_starter.Storage.Import.Conflicts.{
  plan_conflicts, runtime_name_conflicts, group_conflicts, distinct, group,
}
use goal_starter.Storage.Import.Unique.{IsNamedOnce}
use goal_starter.Storage.Import.NamedOnce.{import_graph-conflict}
use goal_starter.Storage.Import.Preserved.{KeepsRuntimes, import_graph-kept}
use goal_starter.Storage.Import.Unchanged.{import_graph-unchanged}
use goal_starter.Storage.Import.Applied.{import_graph-failed, plan_of}
use goal_starter.Storage.Import.Connected.{IsConnected, import_graph-IsConnected}

-- On names in lower case, with no more than one other holder.
abbrev tools : ImportTools
tools = record { to_lower = λ t. t; sort_strings = λ l. l }

abbrev runtime : Text → Text → RuntimeEntry
runtime id name = record {
  id = id;
  name = name;
  executable = lit "x";
  working_directory = [];
  environment = none;
  created_at = 1;
  updated_at = 1;
}

abbrev model : Text → Text → ModelEntry
model id runtime_id = record {
  id = id;
  name = id;
  runtime_id = runtime_id;
  args = [];
  environment = none;
  active = true;
  autostart_delay = pos 0;
  created_at = 1;
  updated_at = 1;
}

abbrev pipeline : Text → Text → PipelineEntry
pipeline id model_id = record {
  id = id;
  name = id;
  active = true;
  models = record { id = []; model_id = model_id; args = []; auto_start = true } ∷ [];
  created_at = 1;
  updated_at = 1;
}

abbrev contents : Contents
contents = record {
  runtimes = runtime (lit "r") (lit "a") ∷ [];
  models = model (lit "m") (lit "r") ∷ [];
  instances = [];
  pipelines = pipeline (lit "p") (lit "m") ∷ [];
}

abbrev repository : Repository
repository = record { contents = contents; file = contents }

abbrev call : Call
call = record { now = 9; ids = λ n. n ∷ []; write = written }

abbrev new_runtimes : List RuntimeEntry
new_runtimes = runtime (lit "r") (lit "b") ∷ runtime (lit "s") (lit "c") ∷ []

abbrev new_models : List ModelEntry
new_models = model (lit "n") (lit "s") ∷ []

abbrev new_pipelines : List PipelineEntry
new_pipelines = pipeline (lit "p") (lit "n") ∷ []

contents-IsConnected : IsConnected contents
unfolding has ◌==ᵗ◌
contents-IsConnected = record { models = (refl, tt); pipelines = ((refl, tt), tt) }

import_graph-IsConnected_example :
    IsConnected
      (import_graph tools call new_runtimes new_models new_pipelines repository).1.contents
import_graph-IsConnected_example =
    import_graph-IsConnected tools call new_runtimes new_models new_pipelines repository
      contents-IsConnected

-- The new runtime's name is that of the local one.
abbrev taken : List RuntimeEntry
taken = runtime (lit "s") (lit "a") ∷ []

taken-refused :
    (p : ImportGraphPlan) → (import_graph tools call taken [] [] repository).0 ≢ imported p
unfolding import_graph plan_graph_import model_pass runtime_pass intents intent_of find_last member
    local_holders bundle_holders add_holder set_add contested smallest_other plan_runtimes
    plan_runtime verdict classify counted_status increment plan_models plan_pipelines writes ◌==ᵗ◌
    select
taken-refused p e = cc

import_graph-failed_example :
    ((import_graph tools call taken [] [] repository).1.contents ≡ contents)
    × (call.write ≢ sync_failed
        → (import_graph tools call taken [] [] repository).1.file ≡ contents)
import_graph-failed_example = import_graph-failed tools call taken [] [] repository taken-refused

-- What is there already, but for what an import does not restore.
abbrev exported : RuntimeEntry
exported = record (runtime (lit "r") (lit "a")) {
  environment = some [];
  created_at = 0;
  updated_at = 0;
}

import_graph-unchanged_example :
    import_graph tools call (exported ∷ []) contents.models contents.pipelines repository ≡ (
      imported (plan_of tools (exported ∷ []) contents.models contents.pipelines repository),
      repository,
    )
unfolding find_last runtime_projection_equal model_projection_equal pipeline_projection_equal
    args_equal entries_equal ◌==ᵗ◌
import_graph-unchanged_example =
    import_graph-unchanged tools call (exported ∷ []) contents.models contents.pipelines repository
      ((runtime (lit "r") (lit "a"), refl, refl), tt) ((model (lit "m") (lit "r"), refl, refl), tt)
      ((pipeline (lit "p") (lit "m"), refl, refl), tt)

-- One runtime is updated and one is created.
renamed_and_new :
    map
      (λ (e : RuntimeEntry). e.name)
      (import_graph tools call new_runtimes [] [] repository).1.contents.runtimes
    ≡ lit "b" ∷ lit "c" ∷ []
unfolding import_graph plan_graph_import model_pass runtime_pass intents intent_of find_last member
    local_holders bundle_holders add_holder set_add contested smallest_other plan_runtimes
    plan_runtime verdict classify counted_status increment plan_models plan_pipelines writes ◌==ᵗ◌
    select runtime_projection_equal restored_runtime apply_plan place_all replace_last has
    write_graph graph_contents runtime_name_conflicts group_conflicts distinct group
    replace_contents save_locked with_ids
renamed_and_new = refl

contents-IsNamedOnce : IsNamedOnce tools contents.runtimes
contents-IsNamedOnce = ((λ e. refl, tt), tt)

abbrev taken_plan : ImportGraphPlan
taken_plan = plan_of tools taken [] [] repository

taken_conflict :
    (import_graph tools call taken [] [] repository).0
    ≡ conflict taken_plan (plan_conflicts taken_plan)
unfolding import_graph plan_graph_import model_pass runtime_pass intents intent_of find_last member
    local_holders bundle_holders add_holder set_add contested smallest_other plan_runtimes
    plan_runtime verdict classify counted_status increment plan_models plan_pipelines writes ◌==ᵗ◌
    select
taken_conflict = refl

import_graph-conflict_example : has_blocked taken_plan ≡ true
import_graph-conflict_example =
    import_graph-conflict tools call taken [] [] repository refl contents-IsNamedOnce taken_conflict

import_graph-kept_example :
    KeepsRuntimes contents
      (import_graph tools call new_runtimes new_models new_pipelines repository).1.contents
import_graph-kept_example =
    import_graph-kept tools call new_runtimes new_models new_pipelines repository
