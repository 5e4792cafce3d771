-- ===== src/Storage/Import/Plan.antt =====
-- internal/storage/import_plan.go: PlanGraphImport, with its loops and the closures they share.
use goal_starter.Prelude.{
  Bool, true, false, ◌||◌, Option, none, some, List, [], ◌∷◌, ◌++◌, Text, ◌==ᵗ◌, if◌then◌else◌,
}
use goal_starter.Domain.Entries.{RuntimeEntry, ModelEntry, PipelineModel, PipelineEntry}
use goal_starter.Storage.Collection.{has}
use goal_starter.Storage.Repository.Runtimes.{runtime_id}
use goal_starter.Storage.Repository.Models.{model_id}
use goal_starter.Storage.Repository.Pipelines.{pipeline_id}
use goal_starter.Storage.Import.{
  ImportTools, runtime_type, model_type, pipeline_type, ImportStatus, import_new, import_update,
  import_unchanged, import_blocked, BlockReason, no_reason, runtime_name_taken, runtime_ref,
  model_ref, dependency, entries_empty, ImportEntityClassification, ImportGraphPlan, empty_plan,
  classify, model_projection_equal, pipeline_projection_equal, restored_runtime, restored_model,
  restored_pipeline,
}
use goal_starter.Storage.Import.Names.{
  find_last, member, Holders, contested, Intent, intents, local_holders, bundle_holders, rt_create,
  rt_no_write, rt_restore,
}

-- What the loops carry: the plan, and for the entities of the last loop the IDs created and the
-- status under each ID.
pub record Pass : Type 0 where
  pub plan : ImportGraphPlan
  pub created_ids : List Text
  pub statuses : Text → Option ImportStatus

unfoldable pub verdict : ImportEntityClassification → ImportGraphPlan → List Text → Pass → Pass
verdict c plan created p = record {
  plan = classify c plan;
  created_ids = created;
  statuses = λ id. if c.id ==ᵗ id then some c.status else p.statuses id;
}

abbrev pub runtime_verdict :
    RuntimeEntry → ImportStatus → BlockReason → Text → ImportEntityClassification
runtime_verdict rt status reason related = record {
  entity = runtime_type;
  id = rt.id;
  name = rt.name;
  status = status;
  reason = reason;
  related_id = related;
}

unfoldable pub plan_runtime : Option Text → Intent → RuntimeEntry → Pass → Pass
plan_runtime other rt_no_write rt p =
    verdict (runtime_verdict rt import_unchanged no_reason rt.id) p.plan p.created_ids p
plan_runtime (some other) rt_create rt p =
    verdict (runtime_verdict rt import_blocked runtime_name_taken other) p.plan p.created_ids p
plan_runtime (some other) (rt_restore local) rt p =
    verdict (runtime_verdict rt import_blocked runtime_name_taken other) p.plan p.created_ids p
plan_runtime none rt_create rt p =
    verdict (runtime_verdict rt import_new no_reason [])
      (record p.plan { create_runtimes = p.plan.create_runtimes ++ rt ∷ [] })
      (rt.id ∷ p.created_ids) p
plan_runtime none (rt_restore local) rt p =
    verdict (runtime_verdict rt import_update no_reason rt.id)
      (record p.plan { update_runtimes = p.plan.update_runtimes ++ restored_runtime local rt ∷ [] })
      p.created_ids p

unfoldable pub plan_runtimes : ImportTools → Holders → List (RuntimeEntry × Intent) → Pass → Pass
plan_runtimes tools h [] p = p
plan_runtimes tools h ((rt, i) ∷ l) p =
    plan_runtimes tools h l (plan_runtime (contested tools h rt.name rt.id) i rt p)

-- runtimeResolves and modelResolves
unfoldable pub resolves : {A : Type 0} → (A → Text) → List A → List Text → Text → Bool
resolves id_of locals created id = has id_of id locals || member id created

-- What blocks a reference that does not resolve.
unfoldable pub unresolved : BlockReason → Option ImportStatus → BlockReason
unresolved missing (some import_blocked) = dependency
unresolved missing _ = missing

abbrev pub model_verdict :
    ModelEntry → ImportStatus → BlockReason → Text → ImportEntityClassification
model_verdict m status reason related = record {
  entity = model_type;
  id = m.id;
  name = m.name;
  status = status;
  reason = reason;
  related_id = related;
}

-- A model: the local entry with its ID, whether its runtime resolves, and the status of that runtime
-- in the bundle.
unfoldable pub plan_model :
    Option ModelEntry → Bool → Option ImportStatus → ModelEntry → Pass → Pass
plan_model none resolved status m p =
    let blocked =
      verdict (model_verdict m import_blocked (unresolved runtime_ref status) m.runtime_id) p.plan
        p.created_ids p in
    let new =
      verdict (model_verdict m import_new no_reason [])
        (record p.plan { create_models = p.plan.create_models ++ m ∷ [] }) (m.id ∷ p.created_ids)
        p in
    let twice = verdict (model_verdict m import_unchanged no_reason m.id) p.plan p.created_ids p in
    if member m.id p.created_ids then twice else if resolved then new else blocked
plan_model (some local) resolved status m p =
    let same = verdict (model_verdict m import_unchanged no_reason m.id) p.plan p.created_ids p in
    let blocked =
      verdict (model_verdict m import_blocked (unresolved runtime_ref status) m.runtime_id) p.plan
        p.created_ids p in
    let update =
      verdict (model_verdict m import_update no_reason m.id)
        (record p.plan { update_models = p.plan.update_models ++ restored_model local m ∷ [] })
        p.created_ids p in
    if model_projection_equal m local then same else if resolved then update else blocked

-- `runtimes` is the pass over the runtimes.
unfoldable pub plan_models :
    List RuntimeEntry → List ModelEntry → Pass → List ModelEntry → Pass → Pass
plan_models local_runtimes locals runtimes [] p = p
plan_models local_runtimes locals runtimes (m ∷ l) p =
    plan_models local_runtimes locals runtimes l (
      plan_model (find_last model_id m.id locals)
        (resolves runtime_id local_runtimes runtimes.created_ids m.runtime_id)
        (runtimes.statuses m.runtime_id) m p)

unfoldable pub pipeline_dependency_block :
    List ModelEntry → Pass → List PipelineModel → Option (BlockReason × Text)
pipeline_dependency_block locals models [] = none
pipeline_dependency_block locals models (e ∷ l) =
    if resolves model_id locals models.created_ids e.model_id
    then pipeline_dependency_block locals models l
    else some (unresolved model_ref (models.statuses e.model_id), e.model_id)

abbrev pub pipeline_verdict :
    PipelineEntry → ImportStatus → BlockReason → Text → ImportEntityClassification
pipeline_verdict e status reason related = record {
  entity = pipeline_type;
  id = e.id;
  name = e.name;
  status = status;
  reason = reason;
  related_id = related;
}

-- The related ID of an empty pipeline: its own if there is a local one.
abbrev pub related_of : Option PipelineEntry → PipelineEntry → Text
related_of none e = []
related_of (some local) e = e.id

-- A pipeline that is to be written, given what blocks its entries.
unfoldable pub write_pipeline :
    Option PipelineEntry
    → Option (BlockReason × Text)
    → PipelineEntry
    → ImportGraphPlan
    → ImportGraphPlan
write_pipeline local (some (reason, related)) e p =
    classify (pipeline_verdict e import_blocked reason related) p
write_pipeline none none e p =
    classify (pipeline_verdict e import_new no_reason [])
      (record p { create_pipelines = p.create_pipelines ++ e ∷ [] })
write_pipeline (some local) none e p =
    classify (pipeline_verdict e import_update no_reason e.id)
      (record p { update_pipelines = p.update_pipelines ++ restored_pipeline local e ∷ [] })

abbrev pub is_same : PipelineEntry → Option PipelineEntry → Bool
is_same e none = false
is_same e (some local) = pipeline_projection_equal e local

abbrev pub has_no_entries : List PipelineModel → Bool
has_no_entries [] = true
has_no_entries (x ∷ l) = false

unfoldable pub plan_pipeline :
    List ModelEntry
    → Option PipelineEntry
    → Pass
    → PipelineEntry
    → ImportGraphPlan
    → ImportGraphPlan
plan_pipeline local_models local models e p =
    if is_same e local
    then classify (pipeline_verdict e import_unchanged no_reason e.id) p
    else if has_no_entries e.models
    then classify (pipeline_verdict e import_blocked entries_empty (related_of local e)) p
    else write_pipeline local (pipeline_dependency_block local_models models e.models) e p

unfoldable pub plan_pipelines :
    List ModelEntry
    → List PipelineEntry
    → Pass
    → List PipelineEntry
    → ImportGraphPlan
    → ImportGraphPlan
plan_pipelines local_models locals models [] p = p
plan_pipelines local_models locals models (e ∷ l) p =
    plan_pipelines local_models locals models l
      (plan_pipeline local_models (find_last pipeline_id e.id locals) models e p)

abbrev pub start : ImportGraphPlan → Pass
start plan = record { plan = plan; created_ids = []; statuses = λ id. none }

-- The three passes.
unfoldable pub runtime_pass : ImportTools → List RuntimeEntry → List RuntimeEntry → Pass
runtime_pass tools locals runtimes =
    let wanted = intents locals [] runtimes in
    plan_runtimes tools (bundle_holders tools wanted (local_holders tools locals (λ name. [])))
      wanted (start empty_plan)

unfoldable pub model_pass :
    ImportTools → List RuntimeEntry → List ModelEntry → List RuntimeEntry → List ModelEntry → Pass
model_pass tools local_runtimes locals runtimes models =
    let rs = runtime_pass tools local_runtimes runtimes in
    plan_models local_runtimes locals rs models (start rs.plan)

-- The state's three collections, then the bundle's.
unfoldable pub plan_graph_import :
    ImportTools
    → List RuntimeEntry
    → List ModelEntry
    → List PipelineEntry
    → List RuntimeEntry
    → List ModelEntry
    → List PipelineEntry
    → ImportGraphPlan
plan_graph_import tools local_runtimes local_models local_pipelines runtimes models pipelines =
    let ms = model_pass tools local_runtimes local_models runtimes models in
    plan_pipelines local_models local_pipelines ms pipelines ms.plan
