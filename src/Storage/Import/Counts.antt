-- ===== src/Storage/Import/Counts.antt =====
-- The counts of an import plan.
use goal_starter.Prelude.{Bool, Bool-cases, inl, inr, Option, none, some, List, [], ◌∷◌, Text}
use goal_starter.Domain.Entries.{RuntimeEntry, ModelEntry, PipelineEntry}
use goal_starter.Storage.Import.{
  ImportTools, ImportStatus, BlockReason, runtime_type, model_type, pipeline_type, ImportGraphPlan,
  model_projection_equal, restored_runtime, restored_model, restored_pipeline,
}
use goal_starter.Storage.Import.Names.{
  Intent, rt_create, rt_restore, rt_no_write, Holders, member, contested,
}
use goal_starter.Storage.Import.Plan.{
  Pass, verdict, plan_runtime, plan_runtimes, plan_model, plan_models, write_pipeline,
  plan_pipeline, plan_pipelines, is_same, has_no_entries, runtime_pass, model_pass,
  plan_graph_import,
}
use goal_starter.Storage.Import.Coherent.{
  empty-IsCoherent, IsCoherent, unchanged-IsCoherent, blocked-IsCoherent,
}
use goal_starter.Storage.Import.Written.{
  new_runtime-IsCoherent, new_model-IsCoherent, new_pipeline-IsCoherent, update_runtime-IsCoherent,
  update_model-IsCoherent, update_pipeline-IsCoherent,
}

plan_runtime-IsCoherent :
    (o : Option Text) (i : Intent) (rt : RuntimeEntry) (p : Pass)
    → IsCoherent p.plan
    → IsCoherent (plan_runtime o i rt p).plan
unfolding plan_runtime verdict
plan_runtime-IsCoherent o rt_no_write rt p h = unchanged-IsCoherent runtime_type _ _ _ _ p.plan h
plan_runtime-IsCoherent (some other) rt_create rt p h =
    blocked-IsCoherent runtime_type _ _ _ _ p.plan h
plan_runtime-IsCoherent (some other) (rt_restore local) rt p h =
    blocked-IsCoherent runtime_type _ _ _ _ p.plan h
plan_runtime-IsCoherent none rt_create rt p h = new_runtime-IsCoherent rt rt _ _ p.plan h
plan_runtime-IsCoherent none (rt_restore local) rt p h =
    update_runtime-IsCoherent rt (restored_runtime local rt) _ _ p.plan h

plan_runtimes-IsCoherent :
    (tools : ImportTools) (h : Holders) (l : List (RuntimeEntry × Intent)) (p : Pass)
    → IsCoherent p.plan
    → IsCoherent (plan_runtimes tools h l p).plan
unfolding plan_runtimes
plan_runtimes-IsCoherent tools h [] p k = k
plan_runtimes-IsCoherent tools h ((rt, i) ∷ l) p k =
    plan_runtimes-IsCoherent tools h l _
      (plan_runtime-IsCoherent (contested tools h rt.name rt.id) i rt p k)

plan_model-IsCoherent :
    (local : Option ModelEntry) (resolved : Bool) (status : Option ImportStatus) (m : ModelEntry)
    (p : Pass)
    → IsCoherent p.plan
    → IsCoherent (plan_model local resolved status m p).plan
unfolding plan_model verdict
plan_model-IsCoherent none resolved status m p h = elim (Bool-cases (member m.id p.created_ids)) [
  | inl e ↦ rw e (unchanged-IsCoherent model_type _ _ _ _ p.plan h)
  | inr e ↦ elim (Bool-cases resolved) [
    | inl f ↦ rw (e, f) (new_model-IsCoherent m m _ _ p.plan h)
    | inr f ↦ rw (e, f) (blocked-IsCoherent model_type _ _ _ _ p.plan h)
  ]
]
plan_model-IsCoherent (some local) resolved status m p h =
    elim (Bool-cases (model_projection_equal m local)) [
      | inl e ↦ rw e (unchanged-IsCoherent model_type _ _ _ _ p.plan h)
      | inr e ↦ elim (Bool-cases resolved) [
        | inl f ↦ rw (e, f) (update_model-IsCoherent m (restored_model local m) _ _ p.plan h)
        | inr f ↦ rw (e, f) (blocked-IsCoherent model_type _ _ _ _ p.plan h)
      ]
    ]

plan_models-IsCoherent :
    (rs : List RuntimeEntry) (locals : List ModelEntry) (q : Pass) (l : List ModelEntry) (p : Pass)
    → IsCoherent p.plan
    → IsCoherent (plan_models rs locals q l p).plan
unfolding plan_models
plan_models-IsCoherent rs locals q [] p h = h
plan_models-IsCoherent rs locals q (m ∷ l) p h =
    plan_models-IsCoherent rs locals q l _ (plan_model-IsCoherent _ _ _ m p h)

write_pipeline-IsCoherent :
    (local : Option PipelineEntry) (b : Option (BlockReason × Text)) (e : PipelineEntry)
    (p : ImportGraphPlan)
    → IsCoherent p
    → IsCoherent (write_pipeline local b e p)
unfolding write_pipeline
write_pipeline-IsCoherent local (some (why, related)) e p h =
    blocked-IsCoherent pipeline_type _ _ _ _ p h
write_pipeline-IsCoherent none none e p h = new_pipeline-IsCoherent e e _ _ p h
write_pipeline-IsCoherent (some local) none e p h =
    update_pipeline-IsCoherent e (restored_pipeline local e) _ _ p h

plan_pipeline-IsCoherent :
    (ms : List ModelEntry) (local : Option PipelineEntry) (q : Pass) (e : PipelineEntry)
    (p : ImportGraphPlan)
    → IsCoherent p
    → IsCoherent (plan_pipeline ms local q e p)
unfolding plan_pipeline
plan_pipeline-IsCoherent ms local q e p h = elim (Bool-cases (is_same e local)) [
  | inl s ↦ rw s (unchanged-IsCoherent pipeline_type _ _ _ _ p h)
  | inr s ↦ elim (Bool-cases (has_no_entries e.models)) [
    | inl n ↦ rw (s, n) (blocked-IsCoherent pipeline_type _ _ _ _ p h)
    | inr n ↦ rw (s, n) (write_pipeline-IsCoherent local _ e p h)
  ]
]

plan_pipelines-IsCoherent :
    (ms : List ModelEntry) (locals : List PipelineEntry) (q : Pass) (l : List PipelineEntry)
    (p : ImportGraphPlan)
    → IsCoherent p
    → IsCoherent (plan_pipelines ms locals q l p)
unfolding plan_pipelines
plan_pipelines-IsCoherent ms locals q [] p h = h
plan_pipelines-IsCoherent ms locals q (e ∷ l) p h =
    plan_pipelines-IsCoherent ms locals q l _ (plan_pipeline-IsCoherent ms _ q e p h)

-- In every import plan the counts of new, updated, unchanged and blocked entities of a type add up to
-- its total, and the entities to create and to update are as many as the counts say.
plan_graph_import-IsCoherent :
    (tools : ImportTools) (local_runtimes : List RuntimeEntry) (local_models : List ModelEntry)
    (local_pipelines : List PipelineEntry) (runtimes : List RuntimeEntry) (models : List ModelEntry)
    (pipelines : List PipelineEntry)
    → IsCoherent (
        plan_graph_import tools local_runtimes local_models local_pipelines runtimes models
          pipelines)
unfolding plan_graph_import model_pass runtime_pass
plan_graph_import-IsCoherent tools lr lm lp rs ms ps =
    plan_pipelines-IsCoherent lm lp _ ps _
      (plan_models-IsCoherent lr lm _ ms _ (plan_runtimes-IsCoherent tools _ _ _ empty-IsCoherent))
