-- ===== src/Storage/Import/Resolved.antt =====
-- The references of what an import plan writes.
use goal_starter.Prelude.{
  ◌≡◌, refl, true, Bool-cases, inl, inr, Option, none, some, List, [], ◌∷◌, Text, All, All-append,
  arith,
}
use goal_starter.Domain.Entries.{RuntimeEntry, ModelEntry, PipelineModel, PipelineEntry}
use goal_starter.Storage.Collection.{has}
use goal_starter.Storage.Repository.Runtimes.{runtime_id}
use goal_starter.Storage.Repository.Models.{model_id}
use goal_starter.Storage.Import.{
  ImportTools, ImportStatus, ImportGraphPlan, empty_plan, classify, counted_status, BlockReason,
  model_projection_equal, restored_model, restored_pipeline,
}
use goal_starter.Storage.Import.Names.{
  Intent, rt_create, rt_restore, rt_no_write, Holders, member, contested,
}
use goal_starter.Storage.Import.Plan.{
  Pass, verdict, plan_runtime, plan_runtimes, plan_model, plan_models, resolves,
  pipeline_dependency_block, write_pipeline, plan_pipeline, plan_pipelines, is_same, has_no_entries,
  start, runtime_pass, model_pass, plan_graph_import,
}
use goal_starter.Storage.Import.Refers.{
  ModelRefers, EntryRefers, PipelineRefers, KnownRuntimes, KnownModels, IsClosed, nothing_known,
  known_grown, resolves_known, models_grown, pipelines_grown,
}

module _ (lr : List RuntimeEntry) (lm : List ModelEntry) where
  -- What the pass over the runtimes keeps.
  abbrev RuntimesHold : Pass → Type 0
  RuntimesHold p = KnownRuntimes p.created_ids p.plan × IsClosed lr lm p.plan

  plan_runtime-RuntimesHold :
      (o : Option Text) (i : Intent) (rt : RuntimeEntry) (p : Pass)
      → RuntimesHold p
      → RuntimesHold (plan_runtime o i rt p)
  unfolding plan_runtime verdict classify counted_status
  plan_runtime-RuntimesHold o rt_no_write rt p h = h
  plan_runtime-RuntimesHold (some other) rt_create rt p h = h
  plan_runtime-RuntimesHold (some other) (rt_restore local) rt p h = h
  plan_runtime-RuntimesHold none (rt_restore local) rt p h = h
  plan_runtime-RuntimesHold none rt_create rt p (known, closed) =
      let cr = p.plan.create_runtimes in
      (
        known_grown runtime_id p.created_ids cr rt known,
        (
          models_grown lr cr rt p.plan.create_models closed.0,
          models_grown lr cr rt p.plan.update_models closed.1,
          closed.2,
          closed.3,
        ),
      )

  plan_runtimes-RuntimesHold :
      (tools : ImportTools) (h : Holders) (l : List (RuntimeEntry × Intent)) (p : Pass)
      → RuntimesHold p
      → RuntimesHold (plan_runtimes tools h l p)
  unfolding plan_runtimes
  plan_runtimes-RuntimesHold tools h [] p k = k
  plan_runtimes-RuntimesHold tools h ((rt, i) ∷ l) p k =
      plan_runtimes-RuntimesHold tools h l _
        (plan_runtime-RuntimesHold (contested tools h rt.name rt.id) i rt p k)

  -- What the pass over the models keeps, `ids` being the runtimes that are taken as created.
  abbrev ModelsHold : List Text → Pass → Type 0
  ModelsHold ids p =
      KnownRuntimes ids p.plan × KnownModels p.created_ids p.plan × IsClosed lr lm p.plan

  plan_model-ModelsHold :
      (ids : List Text) (local : Option ModelEntry) (status : Option ImportStatus) (m : ModelEntry)
      (p : Pass)
      → ModelsHold ids p
      → ModelsHold ids (plan_model local (resolves runtime_id lr ids m.runtime_id) status m p)
  unfolding plan_model verdict classify counted_status restored_model
  plan_model-ModelsHold ids none status m p h =
      let (kr, km, closed) = h in
      elim (Bool-cases (member m.id p.created_ids)) [
        | inl e ↦ rw e h
        | inr e ↦ elim (Bool-cases (resolves runtime_id lr ids m.runtime_id)) [
          | inr f ↦ rw (e, f) h
          | inl f ↦
              rw (e, f)
                (
                  kr,
                  known_grown model_id p.created_ids p.plan.create_models m km,
                  (
                    All-append (ModelRefers lr p.plan.create_runtimes) p.plan.create_models (m ∷ [])
                        closed.0
                        (
                          resolves_known runtime_id lr ids p.plan.create_runtimes m.runtime_id kr f,
                          tt,
                        ),
                    closed.1,
                    pipelines_grown lm p.plan.create_models m p.plan.create_pipelines closed.2,
                    pipelines_grown lm p.plan.create_models m p.plan.update_pipelines closed.3,
                  ),
                )
        ]
      ]
  plan_model-ModelsHold ids (some local) status m p h =
      let (kr, km, closed) = h in
      elim (Bool-cases (model_projection_equal m local)) [
        | inl e ↦ rw e h
        | inr e ↦ elim (Bool-cases (resolves runtime_id lr ids m.runtime_id)) [
          | inr f ↦ rw (e, f) h
          | inl f ↦
              rw (e, f)
                (
                  kr,
                  km,
                  (
                    closed.0,
                    All-append (ModelRefers lr p.plan.create_runtimes) p.plan.update_models
                        (restored_model local m ∷ []) closed.1
                        (
                          resolves_known runtime_id lr ids p.plan.create_runtimes m.runtime_id kr f,
                          tt,
                        ),
                    closed.2,
                    closed.3,
                  ),
                )
        ]
      ]

  plan_models-ModelsHold :
      (locals : List ModelEntry) (q : Pass) (l : List ModelEntry) (p : Pass)
      → ModelsHold q.created_ids p
      → ModelsHold q.created_ids (plan_models lr locals q l p)
  unfolding plan_models
  plan_models-ModelsHold locals q [] p h = h
  plan_models-ModelsHold locals q (m ∷ l) p h =
      plan_models-ModelsHold locals q l _
        (plan_model-ModelsHold q.created_ids _ (q.statuses m.runtime_id) m p h)

  -- What the pass over the pipelines keeps, `ids` being the models that are taken as created.
  abbrev PipelinesHold : List Text → ImportGraphPlan → Type 0
  PipelinesHold ids p = KnownModels ids p × IsClosed lr lm p

  unblocked-EntryRefers :
      (q : Pass) (created : List ModelEntry) (l : List PipelineModel)
      → ((id : Text) → member id q.created_ids ≡ true → has model_id id created ≡ true)
      → pipeline_dependency_block lm q l ≡ none
      → All (EntryRefers lm created) l
  unfolding pipeline_dependency_block
  unblocked-EntryRefers q created [] k h = tt
  unblocked-EntryRefers q created (e ∷ l) k h =
      elim (Bool-cases (resolves model_id lm q.created_ids e.model_id)) [
        | inl r ↦ (
          resolves_known model_id lm q.created_ids created e.model_id k r,
          unblocked-EntryRefers q created l k (rw r at h),
        )
        | inr r ↦ absurd (ground arith)
      ]

  write_pipeline-PipelinesHold :
      (q : Pass) (local : Option PipelineEntry) (b : Option (BlockReason × Text))
      (e : PipelineEntry) (p : ImportGraphPlan)
      → pipeline_dependency_block lm q e.models ≡ b
      → PipelinesHold q.created_ids p
      → PipelinesHold q.created_ids (write_pipeline local b e p)
  unfolding write_pipeline classify counted_status restored_pipeline
  write_pipeline-PipelinesHold q local (some (why, related)) e p f h = h
  write_pipeline-PipelinesHold q none none e p f (known, closed) = (
    known,
    (
      closed.0,
      closed.1,
      All-append (PipelineRefers lm p.create_models) p.create_pipelines (e ∷ []) closed.2
          (unblocked-EntryRefers q p.create_models e.models known f, tt),
      closed.3,
    ),
  )
  write_pipeline-PipelinesHold q (some local) none e p f (known, closed) = (
    known,
    (
      closed.0,
      closed.1,
      closed.2,
      All-append (PipelineRefers lm p.create_models) p.update_pipelines
          (restored_pipeline local e ∷ []) closed.3
          (unblocked-EntryRefers q p.create_models e.models known f, tt),
    ),
  )

  plan_pipeline-PipelinesHold :
      (q : Pass) (local : Option PipelineEntry) (e : PipelineEntry) (p : ImportGraphPlan)
      → PipelinesHold q.created_ids p
      → PipelinesHold q.created_ids (plan_pipeline lm local q e p)
  unfolding plan_pipeline classify counted_status
  plan_pipeline-PipelinesHold q local e p h = elim (Bool-cases (is_same e local)) [
    | inl s ↦ rw s h
    | inr s ↦ elim (Bool-cases (has_no_entries e.models)) [
      | inl n ↦ rw (s, n) h
      | inr n ↦
          rw (s, n)
            (write_pipeline-PipelinesHold q local (pipeline_dependency_block lm q e.models) e p refl
              h)
    ]
  ]

  plan_pipelines-PipelinesHold :
      (locals : List PipelineEntry) (q : Pass) (l : List PipelineEntry) (p : ImportGraphPlan)
      → PipelinesHold q.created_ids p
      → PipelinesHold q.created_ids (plan_pipelines lm locals q l p)
  unfolding plan_pipelines
  plan_pipelines-PipelinesHold locals q [] p h = h
  plan_pipelines-PipelinesHold locals q (e ∷ l) p h =
      plan_pipelines-PipelinesHold locals q l _ (plan_pipeline-PipelinesHold q _ e p h)

  pub plan_graph_import-IsClosed :
      (tools : ImportTools) (lp : List PipelineEntry) (rs : List RuntimeEntry)
      (ms : List ModelEntry) (ps : List PipelineEntry)
      → IsClosed lr lm (plan_graph_import tools lr lm lp rs ms ps)
  unfolding plan_graph_import model_pass runtime_pass
  plan_graph_import-IsClosed tools lp rs ms ps =
      let r = runtime_pass tools lr rs in
      let rh : RuntimesHold r =
        plan_runtimes-RuntimesHold tools _ _ (start empty_plan)
          (nothing_known (λ id. has runtime_id id [] ≡ true), (tt, tt, tt, tt)) in
      let m = model_pass tools lr lm rs ms in
      let mh : ModelsHold r.created_ids m =
        plan_models-ModelsHold lm r ms (start r.plan) (rh.0, nothing_known _, rh.1) in
      let (kr, km, closed) = mh in (plan_pipelines-PipelinesHold lp m ps m.plan (km, closed)).1
