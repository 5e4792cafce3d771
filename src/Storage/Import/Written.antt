-- ===== src/Storage/Import/Written.antt =====
-- The counts of an import plan: what an entity that is to be written adds to them.
use goal_starter.Prelude.{[], ◌∷◌, ◌++◌, Text, length-append, arith}
use goal_starter.Domain.Entries.{RuntimeEntry, ModelEntry, PipelineEntry}
use goal_starter.Storage.Import.{
  import_new, import_update, BlockReason, runtime_type, model_type, pipeline_type, ImportGraphPlan,
  classify, counted_status, increment,
}
use goal_starter.Storage.Import.Plan.{runtime_verdict, model_verdict, pipeline_verdict}
use goal_starter.Storage.Import.Coherent.{IsCoherent}

pub new_runtime-IsCoherent :
    (e x : RuntimeEntry) (why : BlockReason) (related : Text) (p : ImportGraphPlan)
    → IsCoherent p
    → IsCoherent (
        classify
          (runtime_verdict e import_new why related)
          (record p { create_runtimes = p.create_runtimes ++ x ∷ [] }))
unfolding classify counted_status increment
new_runtime-IsCoherent e x why related p h runtime_type = (
  omega (arith, (h runtime_type).0),
  omega (arith, (h runtime_type).1, length-append p.create_runtimes (x ∷ [])),
  (h runtime_type).2,
)
new_runtime-IsCoherent e x why related p h model_type = h model_type
new_runtime-IsCoherent e x why related p h pipeline_type = h pipeline_type

pub update_runtime-IsCoherent :
    (e x : RuntimeEntry) (why : BlockReason) (related : Text) (p : ImportGraphPlan)
    → IsCoherent p
    → IsCoherent (
        classify
          (runtime_verdict e import_update why related)
          (record p { update_runtimes = p.update_runtimes ++ x ∷ [] }))
unfolding classify counted_status increment
update_runtime-IsCoherent e x why related p h runtime_type = (
  omega (arith, (h runtime_type).0),
  (h runtime_type).1,
  omega (arith, (h runtime_type).2, length-append p.update_runtimes (x ∷ [])),
)
update_runtime-IsCoherent e x why related p h model_type = h model_type
update_runtime-IsCoherent e x why related p h pipeline_type = h pipeline_type

pub new_model-IsCoherent :
    (e x : ModelEntry) (why : BlockReason) (related : Text) (p : ImportGraphPlan)
    → IsCoherent p
    → IsCoherent (
        classify
          (model_verdict e import_new why related)
          (record p { create_models = p.create_models ++ x ∷ [] }))
unfolding classify counted_status increment
new_model-IsCoherent e x why related p h runtime_type = h runtime_type
new_model-IsCoherent e x why related p h model_type = (
  omega (arith, (h model_type).0),
  omega (arith, (h model_type).1, length-append p.create_models (x ∷ [])),
  (h model_type).2,
)
new_model-IsCoherent e x why related p h pipeline_type = h pipeline_type

pub update_model-IsCoherent :
    (e x : ModelEntry) (why : BlockReason) (related : Text) (p : ImportGraphPlan)
    → IsCoherent p
    → IsCoherent (
        classify
          (model_verdict e import_update why related)
          (record p { update_models = p.update_models ++ x ∷ [] }))
unfolding classify counted_status increment
update_model-IsCoherent e x why related p h runtime_type = h runtime_type
update_model-IsCoherent e x why related p h model_type = (
  omega (arith, (h model_type).0),
  (h model_type).1,
  omega (arith, (h model_type).2, length-append p.update_models (x ∷ [])),
)
update_model-IsCoherent e x why related p h pipeline_type = h pipeline_type

pub new_pipeline-IsCoherent :
    (e x : PipelineEntry) (why : BlockReason) (related : Text) (p : ImportGraphPlan)
    → IsCoherent p
    → IsCoherent (
        classify
          (pipeline_verdict e import_new why related)
          (record p { create_pipelines = p.create_pipelines ++ x ∷ [] }))
unfolding classify counted_status increment
new_pipeline-IsCoherent e x why related p h runtime_type = h runtime_type
new_pipeline-IsCoherent e x why related p h model_type = h model_type
new_pipeline-IsCoherent e x why related p h pipeline_type = (
  omega (arith, (h pipeline_type).0),
  omega (arith, (h pipeline_type).1, length-append p.create_pipelines (x ∷ [])),
  (h pipeline_type).2,
)

pub update_pipeline-IsCoherent :
    (e x : PipelineEntry) (why : BlockReason) (related : Text) (p : ImportGraphPlan)
    → IsCoherent p
    → IsCoherent (
        classify
          (pipeline_verdict e import_update why related)
          (record p { update_pipelines = p.update_pipelines ++ x ∷ [] }))
unfolding classify counted_status increment
update_pipeline-IsCoherent e x why related p h runtime_type = h runtime_type
update_pipeline-IsCoherent e x why related p h model_type = h model_type
update_pipeline-IsCoherent e x why related p h pipeline_type = (
  omega (arith, (h pipeline_type).0),
  (h pipeline_type).1,
  omega (arith, (h pipeline_type).2, length-append p.update_pipelines (x ∷ [])),
)
