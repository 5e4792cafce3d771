-- ===== src/Storage/Import/Preserved.antt =====
-- What an import keeps of the runtimes that are there.
use mathlib.Core.List.{append-nil}
use goal_starter.Prelude.{
  ◌≡◌, refl, ap, sym, ◌∙◌, inl, inr, Option, none, some, List, [], ◌∷◌, ◌++◌, map, Text, All,
  All-append,
}
use goal_starter.Domain.Instance.{Time}
use goal_starter.Domain.Entries.{RuntimeEntry, ModelEntry, PipelineEntry}
use goal_starter.Storage.Repository.{
  Call, Contents, Repository, Write, written, write_failed, sync_failed, replace_contents,
}
use goal_starter.Storage.Repository.Runtimes.{runtime_id}
use goal_starter.Storage.Import.{ImportTools, restored_runtime, classify, counted_status}
use goal_starter.Storage.Import.Names.{
  Intent, rt_create, rt_restore, rt_no_write, Holders, find_last, contested, intents,
}
use goal_starter.Storage.Import.Plan.{
  Pass, verdict, plan_runtime, plan_runtimes, plan_graph_import, model_pass, runtime_pass,
}
use goal_starter.Storage.Import.Frame.{plan_models-Writes, plan_pipelines-Writes}
use goal_starter.Storage.Import.Claimed.{Restores, intents-Restores, planning_holders}
use goal_starter.Storage.Import.Held.{find_last-id}
use goal_starter.Storage.Import.Graph.{
  updated_runtime, created_runtime, graph_contents, import_graph,
}
use goal_starter.Storage.Import.Placed.{All-map}
use goal_starter.Storage.Import.Applied.{plan_of, after_save-same, import_graph-Applied}
use goal_starter.Storage.Import.Kept.{Kept, kept, kept_id, Fits, find_last-map, map-place_all}

-- Each update fits the entry that it is to replace.
restored-Fits :
    (now : Time) (locals : List RuntimeEntry) (rt local : RuntimeEntry)
    → find_last runtime_id rt.id locals ≡ some local
    → Fits (map kept locals) (updated_runtime now (restored_runtime local rt))
unfolding restored_runtime
restored-Fits now locals rt local h =
    ap (λ t. find_last kept_id t (map kept locals)) (find_last-id rt.id locals h)
    ∙ find_last-map rt.id locals h

module _ (now : Time) (locals : List RuntimeEntry) where
  abbrev Fitting : RuntimeEntry → Type 0
  Fitting e = Fits (map kept locals) (updated_runtime now e)

  plan_runtime-Fitting :
      (o : Option Text) (i : Intent) (rt : RuntimeEntry) (p : Pass)
      → Restores locals (rt, i)
      → All Fitting p.plan.update_runtimes
      → All Fitting (plan_runtime o i rt p).plan.update_runtimes
  unfolding plan_runtime verdict classify counted_status
  plan_runtime-Fitting o rt_no_write rt p r k = k
  plan_runtime-Fitting (some other) rt_create rt p r k = k
  plan_runtime-Fitting (some other) (rt_restore local) rt p r k = k
  plan_runtime-Fitting none rt_create rt p r k = k
  plan_runtime-Fitting none (rt_restore local) rt p r k =
      All-append Fitting p.plan.update_runtimes (restored_runtime local rt ∷ []) k
        (restored-Fits now locals rt local (r local refl), tt)

  plan_runtimes-Fitting :
      (tools : ImportTools) (h : Holders) (l : List (RuntimeEntry × Intent)) (p : Pass)
      → All (Restores locals) l
      → All Fitting p.plan.update_runtimes
      → All Fitting (plan_runtimes tools h l p).plan.update_runtimes
  unfolding plan_runtimes
  plan_runtimes-Fitting tools h [] p r k = k
  plan_runtimes-Fitting tools h ((rt, i) ∷ l) p r k =
      plan_runtimes-Fitting tools h l _ r.1
        (plan_runtime-Fitting (contested tools h rt.name rt.id) i rt p r.0 k)

everything : (l : List RuntimeEntry) → All {0, 0} (λ e. Unit) l
everything [] = tt
everything (e ∷ l) = (tt, everything l)

plan_graph_import-Fitting :
    (now : Time) (tools : ImportTools) (lr : List RuntimeEntry) (lm : List ModelEntry)
    (lp : List PipelineEntry) (rs : List RuntimeEntry) (ms : List ModelEntry)
    (ps : List PipelineEntry)
    → All (Fitting now lr) (plan_graph_import tools lr lm lp rs ms ps).update_runtimes
unfolding plan_graph_import model_pass runtime_pass
plan_graph_import-Fitting now tools lr lm lp rs ms ps =
    let h = planning_holders tools lr rs in
    (plan_pipelines-Writes (λ e. Unit) (Fitting now lr) lm lp _ ps _
      (plan_models-Writes (λ e. Unit) (Fitting now lr) lr lm _ ms _
        (
          everything _,
          plan_runtimes-Fitting now lr tools h (intents lr [] rs) _ (intents-Restores lr rs []) tt,
        ))).1

map-append : {A B : Type 0} (f : A → B) (l k : List A) → map f (l ++ k) ≡ map f l ++ map f k
map-append f [] k = refl
map-append f (x ∷ l) k = ap (λ t. f x ∷ t) (map-append f l k)

-- The first of the runtimes after an import are those before it, with what an import must not touch.
abbrev pub KeepsRuntimes : Contents → Contents → Type 0
KeepsRuntimes before after =
    (created : List Kept) × (map kept after.runtimes ≡ map kept before.runtimes ++ created)

either-kept :
    (w : Write) (next : Contents) (r : Repository)
    → KeepsRuntimes r.contents r.contents
    → KeepsRuntimes r.contents next
    → KeepsRuntimes r.contents (replace_contents w next r).1.contents
unfolding replace_contents
either-kept written next r h n = n
either-kept write_failed next r h n = h
either-kept sync_failed next r h n = h

-- An import keeps every runtime that is there: afterwards they stand first, in their order, each with
-- its ID, its environment and its time of creation, whatever is imported and whatever becomes of the
-- write.
pub import_graph-kept :
    (tools : ImportTools) (c : Call) (rs : List RuntimeEntry) (ms : List ModelEntry)
    (ps : List PipelineEntry) (r : Repository)
    → KeepsRuntimes r.contents (import_graph tools c rs ms ps r).1.contents
unfolding graph_contents
import_graph-kept tools c rs ms ps r =
    let k = r.contents in
    let unchanged : KeepsRuntimes k k = ([], sym (append-nil (map kept k.runtimes))) in
    elim (import_graph-Applied tools c rs ms ps r) [
      | inl same ↦ rw same unchanged
      | inr (unblocked, a) ↦
          let p = plan_of tools rs ms ps r in
          let next = graph_contents c p k a.runtimes a.models a.pipelines in
          let end =
            ap (λ o. o.1) a.same ∙ (after_save-same p (replace_contents c.write next r)).0 in
          let created = map (created_runtime c.now) p.create_runtimes in
          let old : map kept a.runtimes ≡ map kept k.runtimes =
            map-place_all (map (updated_runtime c.now) p.update_runtimes) k.runtimes a.runtimes
              a.placed_runtimes
              (All-map (Fits (map kept k.runtimes)) (updated_runtime c.now) p.update_runtimes
                (plan_graph_import-Fitting c.now tools k.runtimes k.models k.pipelines rs ms ps)) in
          rw end (
            either-kept c.write next r unchanged (
              map kept created,
              map-append kept a.runtimes created ∙ ap (λ t. t ++ map kept created) old,
            ))
    ]
