-- ===== src/Storage/Import/Unchanged.antt =====
-- Imports of entities that are there already, with the same restorable content.
use goal_starter.Prelude.{◌≡◌, refl, Bool, true, some, List, [], ◌∷◌, Text, All}
use goal_starter.Domain.Entries.{RuntimeEntry, ModelEntry, PipelineEntry}
use goal_starter.Storage.Repository.{Call, Repository}
use goal_starter.Storage.Repository.Runtimes.{runtime_id}
use goal_starter.Storage.Repository.Models.{model_id}
use goal_starter.Storage.Repository.Pipelines.{pipeline_id}
use goal_starter.Storage.Import.{
  ImportTools, ImportGraphPlan, no_counts, classify, counted_status, runtime_projection_equal,
  model_projection_equal, pipeline_projection_equal,
}
use goal_starter.Storage.Import.Names.{Intent, rt_no_write, Holders, find_last, intent_of, intents}
use goal_starter.Storage.Import.Plan.{
  Pass, verdict, plan_runtime, plan_runtimes, plan_model, plan_models, plan_pipeline,
  plan_pipelines, runtime_pass, model_pass, plan_graph_import,
}
use goal_starter.Storage.Import.Graph.{import_graph, imported}
use goal_starter.Storage.Import.Applied.{plan_of}

-- The local entry with the ID has the same restorable content.
abbrev pub IsUnchanged : {A : Type 0} → (A → Text) → (A → A → Bool) → List A → A → Type 0
IsUnchanged {A} id_of equal locals e =
    (l : A) × (find_last id_of (id_of e) locals ≡ some l) × (equal e l ≡ true)

-- The plan writes nothing and blocks nothing.
abbrev IsIdle : ImportGraphPlan → Type 0
IsIdle p = (p.created ≡ no_counts) × (p.updated ≡ no_counts) × (p.blocked ≡ [])

intents_idle :
    (locals : List RuntimeEntry) (seen : List Text) (rs : List RuntimeEntry)
    → All (IsUnchanged runtime_id runtime_projection_equal locals) rs
    → All (λ (x : RuntimeEntry × Intent). x.1 ≡ rt_no_write) (intents locals seen rs)
unfolding intents intent_of
intents_idle locals seen [] h = tt
intents_idle locals seen (rt ∷ rs) ((l, found, same), h) =
    rw (found, same) (refl, intents_idle locals seen rs h)

plan_runtimes-IsIdle :
    (tools : ImportTools) (h : Holders) (l : List (RuntimeEntry × Intent)) (p : Pass)
    → All (λ (x : RuntimeEntry × Intent). x.1 ≡ rt_no_write) l
    → IsIdle p.plan
    → IsIdle (plan_runtimes tools h l p).plan
unfolding plan_runtimes plan_runtime verdict classify counted_status
plan_runtimes-IsIdle tools h [] p a k = k
plan_runtimes-IsIdle tools h ((rt, i) ∷ l) p a k = plan_runtimes-IsIdle tools h l _ a.1 (rw a.0 k)

plan_models-IsIdle :
    (lr : List RuntimeEntry) (locals : List ModelEntry) (q : Pass) (l : List ModelEntry) (p : Pass)
    → All (IsUnchanged model_id model_projection_equal locals) l
    → IsIdle p.plan
    → IsIdle (plan_models lr locals q l p).plan
unfolding plan_models plan_model verdict classify counted_status
plan_models-IsIdle lr locals q [] p h k = k
plan_models-IsIdle lr locals q (m ∷ ms) p ((l, found, same), h) k =
    plan_models-IsIdle lr locals q ms _ h (rw (found, same) k)

plan_pipelines-IsIdle :
    (lm : List ModelEntry) (locals : List PipelineEntry) (q : Pass) (l : List PipelineEntry)
    (p : ImportGraphPlan)
    → All (IsUnchanged pipeline_id pipeline_projection_equal locals) l
    → IsIdle p
    → IsIdle (plan_pipelines lm locals q l p)
unfolding plan_pipelines plan_pipeline classify counted_status
plan_pipelines-IsIdle lm locals q [] p h k = k
plan_pipelines-IsIdle lm locals q (e ∷ es) p ((l, found, same), h) k =
    plan_pipelines-IsIdle lm locals q es _ h (rw (found, same) k)

plan-IsIdle :
    (tools : ImportTools) (rs : List RuntimeEntry) (ms : List ModelEntry) (ps : List PipelineEntry)
    (r : Repository)
    → All (IsUnchanged runtime_id runtime_projection_equal r.contents.runtimes) rs
    → All (IsUnchanged model_id model_projection_equal r.contents.models) ms
    → All (IsUnchanged pipeline_id pipeline_projection_equal r.contents.pipelines) ps
    → IsIdle (plan_of tools rs ms ps r)
unfolding plan_graph_import model_pass runtime_pass
plan-IsIdle tools rs ms ps r hr hm hp =
    let k = r.contents in
    plan_pipelines-IsIdle k.models k.pipelines (model_pass tools k.runtimes k.models rs ms) ps _ hp
      (plan_models-IsIdle k.runtimes k.models (runtime_pass tools k.runtimes rs) ms _ hm
        (plan_runtimes-IsIdle tools _ _ _ (intents_idle k.runtimes [] rs hr) (refl, refl, refl)))

-- An import whose every entity has an entry of its ID with the same restorable content succeeds and
-- changes nothing, in memory or in the file: nothing is written.
pub import_graph-unchanged :
    (tools : ImportTools) (c : Call) (rs : List RuntimeEntry) (ms : List ModelEntry)
    (ps : List PipelineEntry) (r : Repository)
    → All (IsUnchanged runtime_id runtime_projection_equal r.contents.runtimes) rs
    → All (IsUnchanged model_id model_projection_equal r.contents.models) ms
    → All (IsUnchanged pipeline_id pipeline_projection_equal r.contents.pipelines) ps
    → import_graph tools c rs ms ps r ≡ (imported (plan_of tools rs ms ps r), r)
unfolding import_graph
import_graph-unchanged tools c rs ms ps r hr hm hp =
    let (created, updated, blocked) = plan-IsIdle tools rs ms ps r hr hm hp in
    rw (blocked, created, updated) refl
