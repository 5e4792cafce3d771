-- ===== src/Storage/Import/Frame.antt =====
-- What the passes over the models and the pipelines leave alone: the runtimes that a plan writes.
use goal_starter.Prelude.{Bool, Bool-cases, inl, inr, Option, none, some, List, [], ◌∷◌, Text, All}
use goal_starter.Domain.Entries.{RuntimeEntry, ModelEntry, PipelineEntry}
use goal_starter.Storage.Import.{
  ImportStatus, ImportGraphPlan, BlockReason, classify, counted_status, model_projection_equal,
}
use goal_starter.Storage.Import.Names.{member}
use goal_starter.Storage.Import.Plan.{
  Pass, verdict, plan_model, plan_models, plan_pipeline, plan_pipelines, write_pipeline, is_same,
  has_no_entries, pipeline_dependency_block,
}

-- What the plan creates and what it updates.
abbrev pub Writes : (RuntimeEntry → Type 0) → (RuntimeEntry → Type 0) → ImportGraphPlan → Type 0
Writes C U p = All C p.create_runtimes × All U p.update_runtimes

module _ (C U : RuntimeEntry → Type 0) where
  plan_model-Writes :
      (local : Option ModelEntry) (resolved : Bool) (status : Option ImportStatus) (m : ModelEntry)
      (p : Pass)
      → Writes C U p.plan
      → Writes C U (plan_model local resolved status m p).plan
  unfolding plan_model verdict classify counted_status
  plan_model-Writes none resolved status m p k = elim (Bool-cases (member m.id p.created_ids)) [
    | inl e ↦ rw e k
    | inr e ↦ elim (Bool-cases resolved) [ inl f ↦ rw (e, f) k | inr f ↦ rw (e, f) k ]
  ]
  plan_model-Writes (some local) resolved status m p k =
      elim (Bool-cases (model_projection_equal m local)) [
        | inl e ↦ rw e k
        | inr e ↦ elim (Bool-cases resolved) [ inl f ↦ rw (e, f) k | inr f ↦ rw (e, f) k ]
      ]

  pub plan_models-Writes :
      (lr : List RuntimeEntry) (locals : List ModelEntry) (q : Pass) (l : List ModelEntry)
      (p : Pass)
      → Writes C U p.plan
      → Writes C U (plan_models lr locals q l p).plan
  unfolding plan_models
  plan_models-Writes lr locals q [] p k = k
  plan_models-Writes lr locals q (m ∷ l) p k =
      plan_models-Writes lr locals q l _ (plan_model-Writes _ _ _ m p k)

  write_pipeline-Writes :
      (local : Option PipelineEntry) (b : Option (BlockReason × Text)) (e : PipelineEntry)
      (p : ImportGraphPlan)
      → Writes C U p
      → Writes C U (write_pipeline local b e p)
  unfolding write_pipeline classify counted_status
  write_pipeline-Writes local (some (why, related)) e p k = k
  write_pipeline-Writes none none e p k = k
  write_pipeline-Writes (some local) none e p k = k

  plan_pipeline-Writes :
      (lm : List ModelEntry) (local : Option PipelineEntry) (q : Pass) (e : PipelineEntry)
      (p : ImportGraphPlan)
      → Writes C U p
      → Writes C U (plan_pipeline lm local q e p)
  unfolding plan_pipeline classify counted_status
  plan_pipeline-Writes lm local q e p k = elim (Bool-cases (is_same e local)) [
    | inl s ↦ rw s k
    | inr s ↦ elim (Bool-cases (has_no_entries e.models)) [
      | inl n ↦ rw (s, n) k
      | inr n ↦
          rw (s, n) (write_pipeline-Writes local (pipeline_dependency_block lm q e.models) e p k)
    ]
  ]

  pub plan_pipelines-Writes :
      (lm : List ModelEntry) (locals : List PipelineEntry) (q : Pass) (l : List PipelineEntry)
      (p : ImportGraphPlan)
      → Writes C U p
      → Writes C U (plan_pipelines lm locals q l p)
  unfolding plan_pipelines
  plan_pipelines-Writes lm locals q [] p k = k
  plan_pipelines-Writes lm locals q (e ∷ l) p k =
      plan_pipelines-Writes lm locals q l _ (plan_pipeline-Writes lm _ q e p k)
