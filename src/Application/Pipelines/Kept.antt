-- ===== src/Application/Pipelines/Kept.antt =====
-- What the writing operations of PipelineService keep (internal/application/pipeline_service.go).
use goal_starter.Prelude.{
  ℕ, ◌≡◌, refl, false, List, [], ◌∷◌, map, Text, text_eq_iff, All, All-append, arith,
}
use goal_starter.Domain.Entries.{PipelineEntry, PipelineModel}
use goal_starter.Storage.Collection.Find.{replace_first-All, remove_first-All}
use goal_starter.Storage.Repository.{Call, Contents, Repository}
use goal_starter.Storage.Repository.Pipelines.{pipeline_id, new_pipeline, updated_pipeline}
use goal_starter.Storage.Repository.Instances.{among}
use goal_starter.Application.Pipelines.{sanitize_create_entry_ids, entry_ids}
use goal_starter.Application.Pipelines.Identified.{
  IsIdentified, IsFresh, validate_pipeline_entry-IsDistinct, with_entry_ids-IsIdentified,
}
use goal_starter.Application.Pipelines.Operations.{
  GroupOp, op_create_group, op_update_group, op_delete_group, run_group, create_group_cases,
  update_group_cases, delete_group_cases,
}

abbrev pub AllIdentified : Contents → Type 0
AllIdentified k = All (λ (p : PipelineEntry). IsIdentified p.models) k.pipelines

abbrev clean_model : PipelineModel → PipelineModel
clean_model m = record m { id = [] }

clean-IsFresh :
    (ids : ℕ → Text) (l : List PipelineModel) → IsFresh ids l → IsFresh ids (map clean_model l)
clean-IsFresh ids l f = record { set = f.set; different = f.different; unused = λ n. unused n l }
  where
    unused :
        (n : ℕ) (k : List PipelineModel) → among (ids n) (entry_ids (map clean_model k)) ≡ false
    unused n [] = refl
    unused n (m ∷ k) = ground (arith, unused n k, f.set n, text_eq_iff [] (ids n))

abbrev pub models_of : GroupOp → List PipelineModel
models_of (op_create_group e) = e.models
models_of (op_update_group e) = e.models
models_of (op_delete_group id) = []

-- Every operation of the service, refused and failed ones included, keeps the IDs of the entries of
-- every pipeline set and pairwise different, if idGenerator() gives fresh IDs.
pub run_group-AllIdentified :
    (c : Call) (op : GroupOp) (r : Repository)
    → IsFresh c.ids (models_of op)
    → AllIdentified r.contents
    → AllIdentified (run_group c op r).1.contents
unfolding new_pipeline updated_pipeline sanitize_create_entry_ids
run_group-AllIdentified c (op_create_group e) r f h =
    create_group_cases AllIdentified c e r h (λ v b.
      All-append (λ (p : PipelineEntry). IsIdentified p.models) r.contents.pipelines _ h
        (
          with_entry_ids-IsIdentified c.ids _ _
              (validate_pipeline_entry-IsDistinct r (sanitize_create_entry_ids e) v)
              (clean-IsFresh c.ids e.models f),
          tt,
        ))
run_group-AllIdentified c (op_update_group e) r f h =
    update_group_cases AllIdentified c e r h (λ current n v u s.
      replace_first-All pipeline_id (λ (p : PipelineEntry). IsIdentified p.models) e.id _
        r.contents.pipelines
        (with_entry_ids-IsIdentified c.ids 0 e.models (validate_pipeline_entry-IsDistinct r e v) f)
        h)
run_group-AllIdentified c (op_delete_group id) r f h =
    delete_group_cases AllIdentified c id r h (λ a.
      remove_first-All pipeline_id (λ (p : PipelineEntry). IsIdentified p.models) id
        r.contents.pipelines h)
