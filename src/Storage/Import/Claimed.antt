-- ===== src/Storage/Import/Claimed.antt =====
-- The names of the runtimes that an import plan writes.
use goal_starter.Prelude.{
  ◌≡◌, refl, Option, none, some, List, [], ◌∷◌, Text, All, All-append, arith,
}
use goal_starter.Domain.Entries.{RuntimeEntry, ModelEntry, PipelineEntry}
use goal_starter.Storage.Repository.Runtimes.{runtime_id}
use goal_starter.Storage.Import.{
  ImportTools, ImportGraphPlan, restored_runtime, classify, counted_status,
}
use goal_starter.Storage.Import.Names.{
  Intent, rt_create, rt_restore, rt_no_write, Holders, find_last, contested, intent_of, writes,
  intents, local_holders, bundle_holders,
}
use goal_starter.Storage.Import.Plan.{
  Pass, verdict, plan_runtime, plan_runtimes, runtime_pass, model_pass, plan_graph_import,
}
use goal_starter.Storage.Import.Frame.{Writes, plan_models-Writes, plan_pipelines-Writes}
use goal_starter.Storage.Import.Held.{Held, IsFree, Claims, bundle_holders-Claims, find_last-id}

-- What is restored is the local entry with the ID.
abbrev pub Restores : List RuntimeEntry → RuntimeEntry × Intent → Type 0
Restores locals (rt, i) =
    (local : RuntimeEntry) → i ≡ rt_restore local → find_last runtime_id rt.id locals ≡ some local

intent_of-restore :
    (o : Option RuntimeEntry) (seen : List Text) (rt local : RuntimeEntry)
    → intent_of o seen rt ≡ rt_restore local
    → o ≡ some local
unfolding intent_of
intent_of-restore none seen rt local h = ground (arith, h)
intent_of-restore (some l) seen rt local h = ground (arith, h)

pub intents-Restores :
    (locals rs : List RuntimeEntry) (seen : List Text)
    → All (Restores locals) (intents locals seen rs)
unfolding intents
intents-Restores locals [] seen = tt
intents-Restores locals (rt ∷ rs) seen = (
  λ local e. intent_of-restore (find_last runtime_id rt.id locals) seen rt local e,
  intents-Restores locals rs _,
)

module _ (tools : ImportTools) (h : Holders) where
  abbrev Alone : RuntimeEntry → Type 0
  Alone e = Held tools h e × IsFree tools h e

  -- What the plan creates and updates holds its name alone.
  abbrev pub IsPlanned : ImportGraphPlan → Type 0
  IsPlanned = Writes Alone Alone

  contested-IsFree :
      (rt : RuntimeEntry) → contested tools h rt.name rt.id ≡ none → IsFree tools h rt
  unfolding contested
  contested-IsFree rt e = ground (arith, e)

  plan_runtime-IsPlanned :
      (locals : List RuntimeEntry) (o : Option Text) (i : Intent) (rt : RuntimeEntry) (p : Pass)
      → (o ≡ none → IsFree tools h rt)
      → Claims tools h (rt, i)
      → Restores locals (rt, i)
      → IsPlanned p.plan
      → IsPlanned (plan_runtime o i rt p).plan
  unfolding plan_runtime verdict classify counted_status writes restored_runtime
  plan_runtime-IsPlanned locals o rt_no_write rt p free claims restores k = k
  plan_runtime-IsPlanned locals (some other) rt_create rt p free claims restores k = k
  plan_runtime-IsPlanned locals (some other) (rt_restore local) rt p free claims restores k = k
  plan_runtime-IsPlanned locals none rt_create rt p free claims restores (cr, ur) =
      (All-append Alone p.plan.create_runtimes (rt ∷ []) cr ((claims refl, free refl), tt), ur)
  plan_runtime-IsPlanned locals none (rt_restore local) rt p free claims restores (cr, ur) = (
    cr,
    All-append Alone p.plan.update_runtimes (restored_runtime local rt ∷ []) ur
        ((rw (find_last-id rt.id locals (restores local refl)) (claims refl), free refl), tt),
  )

  plan_runtimes-IsPlanned :
      (locals : List RuntimeEntry) (l : List (RuntimeEntry × Intent)) (p : Pass)
      → All (Claims tools h) l
      → All (Restores locals) l
      → IsPlanned p.plan
      → IsPlanned (plan_runtimes tools h l p).plan
  unfolding plan_runtimes
  plan_runtimes-IsPlanned locals [] p c r k = k
  plan_runtimes-IsPlanned locals ((rt, i) ∷ l) p c r k =
      plan_runtimes-IsPlanned locals l _ c.1 r.1 (
        plan_runtime-IsPlanned locals (contested tools h rt.name rt.id) i rt p (contested-IsFree rt)
          c.0 r.0 k)

-- The holders of the names while an import is planned.
abbrev pub planning_holders : ImportTools → List RuntimeEntry → List RuntimeEntry → Holders
planning_holders tools locals rs =
    bundle_holders tools (intents locals [] rs) (local_holders tools locals (λ name. []))

pub plan_graph_import-IsPlanned :
    (tools : ImportTools) (lr : List RuntimeEntry) (lm : List ModelEntry) (lp : List PipelineEntry)
    (rs : List RuntimeEntry) (ms : List ModelEntry) (ps : List PipelineEntry)
    → IsPlanned tools (planning_holders tools lr rs) (plan_graph_import tools lr lm lp rs ms ps)
unfolding plan_graph_import model_pass runtime_pass
plan_graph_import-IsPlanned tools lr lm lp rs ms ps =
    let h = planning_holders tools lr rs in
    let wanted = intents lr [] rs in
    plan_pipelines-Writes (Alone tools h) (Alone tools h) lm lp _ ps _ (
      plan_models-Writes (Alone tools h) (Alone tools h) lr lm _ ms _ (
        plan_runtimes-IsPlanned tools h lr wanted _
          (bundle_holders-Claims tools wanted (local_holders tools lr (λ name. [])))
          (intents-Restores lr rs []) (tt, tt)))
