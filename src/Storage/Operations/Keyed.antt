-- ===== src/Storage/Operations/Keyed.antt =====
-- Every writing operation has an outcome as Outcome says.
use goal_starter.Prelude.{
  ℕ, ◌≡◌, refl, Bool, not, Bool-cases, inl, inr, Option, none, some, List, [], ◌∷◌, ◌++◌, select,
  length, arith, Text, ◌==◌, if◌then◌else◌,
}
use goal_starter.Domain.Instance.{LaunchInstanceEntry, Time}
use goal_starter.Domain.Entries.{ModelEntry}
use goal_starter.Storage.Collection.{has, replace_first}
use goal_starter.Storage.Collection.Unique.{
  Unique, append-Unique, replace_first-Unique, remove_first-Unique, remove_last-Unique,
  select-Unique, map-Unique,
}
use goal_starter.Storage.Repository.{counted, StoreError, Call, Write, Repository}
use goal_starter.Storage.Repository.Runtimes.{
  runtime_id, new_runtime, create_runtime, update_runtime, delete_runtime,
}
use goal_starter.Storage.Repository.Models.{
  model_id, new_model, create_model, update_model, delete_model,
}
use goal_starter.Storage.Repository.Pipelines.{
  pipeline_id, new_pipeline, updated_pipeline, create_pipeline, update_pipeline, delete_pipeline,
}
use goal_starter.Storage.Repository.Instances.{
  CleanupMode, all_terminal, older_than_7d, older_than_30d, selected, other_mode, instance_id,
  new_instance_id, create_launch_instance, create, update_instance, delete_instance,
  delete_matching, delete_terminal_instances,
}
use goal_starter.Storage.Repository.Integrity.{
  rebind, replace_runtime_and_delete, cascade_delete_runtime_and_models,
}
use goal_starter.Storage.Operations.{
  Op, op_create_runtime, op_update_runtime, op_patch_runtime, op_delete_runtime, op_create_model,
  op_update_model, op_patch_model, op_delete_model, op_create_pipeline, op_update_pipeline,
  op_delete_pipeline, op_create_launch_instance, op_create, op_update_instance, op_delete_instance,
  op_replace_runtime, op_cascade_delete, op_cleanup, drop_count, run,
}
use goal_starter.Storage.Operations.Outcome.{
  Outcome, guarded, refused, with_runtimes, with_models, with_instances, with_pipelines,
  patch_runtime-Outcome, patch_model-Outcome,
}

-- The length and the error of a counted operation do not change its outcome.
counted-Outcome :
    (w : Write) (r : Repository) (n : ℕ) (p : Option StoreError × Repository)
    → Outcome w r p
    → Outcome w r (drop_count (counted n p))
counted-Outcome w r n (none, s) h = h
counted-Outcome w r n (some e, s) h = h

rebind-id : (now : Time) (old new : Text) (m : ModelEntry) → (rebind now old new m).id ≡ m.id
unfolding rebind
rebind-id now old new m = ground arith

upsert-Unique :
    (e : LaunchInstanceEntry) (l : List LaunchInstanceEntry)
    → Unique instance_id l
    → Unique instance_id
        (if has instance_id e.id l then replace_first instance_id e.id e l else l ++ e ∷ [])
upsert-Unique e l u = elim (Bool-cases (has instance_id e.id l)) [
  | inl h ↦ rw h (replace_first-Unique instance_id e.id e l refl u)
  | inr h ↦ rw h (append-Unique instance_id l e h u)
]

matching-Outcome :
    (c : Call) (p : LaunchInstanceEntry → Bool) (r : Repository)
    → Outcome c.write r (drop_count (delete_matching c p r))
unfolding delete_matching
matching-Outcome c p r =
    let deleted = length (select p r.contents.instances) in
    let kept = record r.contents { instances = select (λ e. not (p e)) r.contents.instances } in
    elim (Bool-cases (deleted == 0)) [
      | inl e ↦ rw e (inl refl)
      | inr e ↦ rw e (
          counted-Outcome c.write r deleted _ (
            inr (
              kept,
              refl,
              λ h.
                  with_instances r.contents _
                    (select-Unique instance_id _ r.contents.instances h.instances) h,
            )))
    ]

replace_runtime-Outcome :
    (c : Call) (old new : Text) (r : Repository)
    → Outcome c.write r (drop_count (replace_runtime_and_delete c old new r))
unfolding replace_runtime_and_delete
replace_runtime-Outcome c old new r = elim (Bool-cases (has runtime_id old r.contents.runtimes)) [
  | inr e ↦ rw e (inl refl)
  | inl e ↦ elim (Bool-cases (has runtime_id new r.contents.runtimes)) [
    | inr f ↦ rw (e, f) (inl refl)
    | inl f ↦
        rw (e, f)
          (counted-Outcome c.write r _ _ (
            inr (
              _,
              refl,
              λ h. record {
                runtimes = remove_last-Unique runtime_id old r.contents.runtimes h.runtimes;
                models =
                    map-Unique model_id (rebind c.now old new) r.contents.models
                      (rebind-id c.now old new) h.models;
                instances = h.instances;
                pipelines = h.pipelines;
              },
            )))
  ]
]

cascade-Outcome :
    (c : Call) (id : Text) (r : Repository)
    → Outcome c.write r (drop_count (cascade_delete_runtime_and_models c id r))
unfolding cascade_delete_runtime_and_models
cascade-Outcome c id r = elim (Bool-cases (has runtime_id id r.contents.runtimes)) [
  | inr e ↦ rw e (inl refl)
  | inl e ↦ rw e (
      counted-Outcome c.write r _ _ (
        inr (
          _,
          refl,
          λ h. record {
            runtimes = select-Unique runtime_id _ r.contents.runtimes h.runtimes;
            models = select-Unique model_id _ r.contents.models h.models;
            instances = h.instances;
            pipelines = h.pipelines;
          },
        )))
]

cleanup-Outcome :
    (c : Call) (mode : CleanupMode) (ids : List Text) (cutoff : Time) (r : Repository)
    → Outcome c.write r (drop_count (delete_terminal_instances c mode ids cutoff r))
unfolding delete_terminal_instances
cleanup-Outcome c (other_mode m) ids cutoff r = inl refl
cleanup-Outcome c all_terminal ids cutoff r = matching-Outcome c _ r
cleanup-Outcome c older_than_7d ids cutoff r = matching-Outcome c _ r
cleanup-Outcome c older_than_30d ids cutoff r = matching-Outcome c _ r
cleanup-Outcome c selected ids cutoff r = matching-Outcome c _ r

pub run-Outcome : (c : Call) (op : Op) (r : Repository) → Outcome c.write r (run c op r)
unfolding create_runtime update_runtime delete_runtime create_model update_model delete_model
    create_pipeline update_pipeline delete_pipeline create_launch_instance create update_instance
    delete_instance new_runtime new_model new_pipeline updated_pipeline
run-Outcome c (op_create_runtime e) r = refused _ r _ _ _ (λ f h.
    with_runtimes r.contents _ (append-Unique runtime_id r.contents.runtimes _ f h.runtimes) h)
run-Outcome c (op_update_runtime e) r = guarded _ r _ _ _ (λ f h.
    with_runtimes r.contents _
      (replace_first-Unique runtime_id e.id _ r.contents.runtimes refl h.runtimes) h)
run-Outcome c (op_patch_runtime id p) r = patch_runtime-Outcome c id p r
run-Outcome c (op_delete_runtime id) r = guarded _ r _ _ _ (λ f h.
    with_runtimes r.contents _ (remove_first-Unique runtime_id id r.contents.runtimes h.runtimes) h)
run-Outcome c (op_create_model e) r =
    refused _ r _ _ _
      (λ f h. with_models r.contents _ (append-Unique model_id r.contents.models _ f h.models) h)
run-Outcome c (op_update_model e) r = guarded _ r _ _ _ (λ f h.
    with_models r.contents _ (replace_first-Unique model_id e.id _ r.contents.models refl h.models)
      h)
run-Outcome c (op_patch_model id p) r = patch_model-Outcome c id p r
run-Outcome c (op_delete_model id) r =
    guarded _ r _ _ _ (λ f h.
      with_models r.contents _ (remove_first-Unique model_id id r.contents.models h.models) h)
run-Outcome c (op_create_pipeline e) r = refused _ r _ _ _ (λ f h.
    with_pipelines r.contents _ (append-Unique pipeline_id r.contents.pipelines _ f h.pipelines) h)
run-Outcome c (op_update_pipeline e) r = guarded _ r _ _ _ (λ f h.
    with_pipelines r.contents _
      (replace_first-Unique pipeline_id e.id _ r.contents.pipelines refl h.pipelines) h)
run-Outcome c (op_delete_pipeline id) r = guarded _ r _ _ _ (λ f h.
    with_pipelines r.contents _
      (remove_first-Unique pipeline_id id r.contents.pipelines h.pipelines) h)
run-Outcome c (op_create_launch_instance e) r = refused _ r _ _ _ (λ f h.
    with_instances r.contents _ (append-Unique instance_id r.contents.instances _ f h.instances) h)
run-Outcome c (op_create e) r = inr (
  _,
  refl,
  λ h.
      with_instances r.contents _
        (upsert-Unique (record e { id = new_instance_id c e }) r.contents.instances h.instances) h,
)
run-Outcome c (op_update_instance e) r = guarded _ r _ _ _ (λ f h.
    with_instances r.contents _
      (replace_first-Unique instance_id e.id _ r.contents.instances refl h.instances) h)
run-Outcome c (op_delete_instance id) r = guarded _ r _ _ _ (λ f h.
    with_instances r.contents _
      (remove_first-Unique instance_id id r.contents.instances h.instances) h)
run-Outcome c (op_replace_runtime old new) r = replace_runtime-Outcome c old new r
run-Outcome c (op_cascade_delete id) r = cascade-Outcome c id r
run-Outcome c (op_cleanup mode ids cutoff) r = cleanup-Outcome c mode ids cutoff r
