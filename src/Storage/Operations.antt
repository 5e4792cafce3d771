-- ===== src/Storage/Operations.antt =====
-- The writing operations of the repository (internal/storage/repository.go) as values, so that
-- a history of calls is a list.
pub mod Outcome
pub mod Keyed
pub mod History
pub mod References
pub mod Cleanup
use goal_starter.Prelude.{Option, List, [], ◌∷◌, Text}
use goal_starter.Domain.Instance.{LaunchInstanceEntry, Time}
use goal_starter.Domain.Entries.{RuntimeEntry, ModelEntry, PipelineEntry}
use goal_starter.Storage.Repository.{StoreError, Call, Repository}
use goal_starter.Storage.Repository.Runtimes.{
  RuntimePatch, create_runtime, update_runtime, patch_runtime, delete_runtime,
}
use goal_starter.Storage.Repository.Models.{
  ModelPatch, create_model, update_model, patch_model, delete_model,
}
use goal_starter.Storage.Repository.Pipelines.{create_pipeline, update_pipeline, delete_pipeline}
use goal_starter.Storage.Repository.Instances.{
  CleanupMode, create_launch_instance, create, update_instance, delete_instance,
  delete_terminal_instances,
}
use goal_starter.Storage.Repository.Integrity.{
  replace_runtime_and_delete, cascade_delete_runtime_and_models,
}

pub data Op : Type 0 where
  op_create_runtime op_update_runtime : RuntimeEntry → Op
  op_patch_runtime : Text → RuntimePatch → Op
  op_delete_runtime : Text → Op
  op_create_model op_update_model : ModelEntry → Op
  op_patch_model : Text → ModelPatch → Op
  op_delete_model : Text → Op
  op_create_pipeline op_update_pipeline : PipelineEntry → Op
  op_delete_pipeline : Text → Op
  op_create_launch_instance op_create op_update_instance : LaunchInstanceEntry → Op
  op_delete_instance : Text → Op
  op_replace_runtime : Text → Text → Op
  op_cascade_delete : Text → Op
  op_cleanup : CleanupMode → List Text → Time → Op

-- The outcome without the count that three operations also return.
abbrev pub drop_count : {N E S : Type 0} → (N × E) × S → E × S
drop_count p = (p.0.1, p.1)

abbrev pub run : Call → Op → Repository → Option StoreError × Repository
run c (op_create_runtime e) r = create_runtime c e r
run c (op_update_runtime e) r = update_runtime c e r
run c (op_patch_runtime id p) r = patch_runtime c id p r
run c (op_delete_runtime id) r = delete_runtime c id r
run c (op_create_model e) r = create_model c e r
run c (op_update_model e) r = update_model c e r
run c (op_patch_model id p) r = patch_model c id p r
run c (op_delete_model id) r = delete_model c id r
run c (op_create_pipeline e) r = create_pipeline c e r
run c (op_update_pipeline e) r = update_pipeline c e r
run c (op_delete_pipeline id) r = delete_pipeline c id r
run c (op_create_launch_instance e) r = create_launch_instance c e r
run c (op_create e) r = create c e r
run c (op_update_instance e) r = update_instance c e r
run c (op_delete_instance id) r = delete_instance c id r
run c (op_replace_runtime old new) r = drop_count (replace_runtime_and_delete c old new r)
run c (op_cascade_delete id) r = drop_count (cascade_delete_runtime_and_models c id r)
run c (op_cleanup mode ids cutoff) r = drop_count (delete_terminal_instances c mode ids cutoff r)

pub run_all : List (Call × Op) → Repository → Repository
run_all [] r = r
run_all ((c, op) ∷ l) r = run_all l (run c op r).1
