-- ===== src/Storage/Import/Connected.antt =====
-- The references of the repository before and after an import.
use goal_starter.Prelude.{
  ◌≡◌, refl, ap, ◌∙◌, Bool, true, ◌||◌, inl, inr, List, ◌++◌, map, Text, All, All-imp,
}
use goal_starter.Domain.Instance.{Time}
use goal_starter.Domain.Entries.{RuntimeEntry, ModelEntry, PipelineModel, PipelineEntry}
use goal_starter.Storage.Collection.{has}
use goal_starter.Storage.Repository.{
  Call, Contents, Repository, Write, written, write_failed, sync_failed, replace_contents,
}
use goal_starter.Storage.Repository.Runtimes.{runtime_id}
use goal_starter.Storage.Repository.Models.{model_id}
use goal_starter.Storage.Repository.Pipelines.{pipeline_id}
use goal_starter.Storage.Import.{ImportTools, ImportGraphPlan}
use goal_starter.Storage.Import.Refers.{ModelRefers, EntryRefers, PipelineRefers, IsClosed}
use goal_starter.Storage.Import.Resolved.{plan_graph_import-IsClosed}
use goal_starter.Storage.Import.Graph.{
  placed, place_all, updated_runtime, created_runtime, updated_model, created_model, updated_entry,
  created_entry, with_ids, allocated, graph_contents, import_graph,
}
use goal_starter.Storage.Import.Applied.{import_graph-Applied, plan_of, after_save-same}
use goal_starter.Storage.Import.Placed.{has-next, All-next, with_ids_kept}

-- Every model's runtime and the model of every pipeline's entry are there.
pub record IsConnected (k : Contents) : Type 0 where
  pub models : All (λ (m : ModelEntry). has runtime_id m.runtime_id k.runtimes ≡ true) k.models
  pub pipelines :
      All
        (λ (p : PipelineEntry).
          All (λ (e : PipelineModel). has model_id e.model_id k.models ≡ true) p.models)
        k.pipelines

or_left : (a b : Bool) → a ≡ true → (a || b) ≡ true
or_left a b h = rw h refl

next-models :
    (now : Time) (p : ImportGraphPlan) (k : Contents) (ms : List ModelEntry) (Q : Text → Type 0)
    → ((t : Text)
        → (has runtime_id t k.runtimes || has runtime_id t p.create_runtimes) ≡ true
        → Q t)
    → place_all model_id (map (updated_model now) p.update_models) k.models ≡ placed ms
    → IsClosed k.runtimes k.models p
    → IsConnected k
    → All (λ (m : ModelEntry). Q m.runtime_id) (ms ++ map (created_model now) p.create_models)
next-models now p k ms Q there em (cm, um, cp, up) h =
    let cr = p.create_runtimes in
    let found = λ (m : ModelEntry). there m.runtime_id in
    All-next model_id (updated_model now) (created_model now) (λ x. refl)
      (λ (m : ModelEntry). Q m.runtime_id) p.update_models p.create_models k.models ms em
      (All-imp (λ m. has runtime_id m.runtime_id k.runtimes ≡ true) (λ m. Q m.runtime_id) k.models
        (λ m e.
          there m.runtime_id
            (or_left (has runtime_id m.runtime_id k.runtimes) (has runtime_id m.runtime_id cr) e))
        h.models)
      (All-imp (ModelRefers k.runtimes cr) (λ m. Q m.runtime_id) p.update_models found um)
      (All-imp (ModelRefers k.runtimes cr) (λ m. Q m.runtime_id) p.create_models found cm)

next-pipelines :
    (c : Call) (p : ImportGraphPlan) (k : Contents) (ps : List PipelineEntry) (Q : Text → Type 0)
    → ((t : Text) → (has model_id t k.models || has model_id t p.create_models) ≡ true → Q t)
    → place_all pipeline_id
        (map (updated_entry c.now) (with_ids c.ids 0 p.update_pipelines))
        k.pipelines
      ≡ placed ps
    → IsClosed k.runtimes k.models p
    → IsConnected k
    → All
        (λ (x : PipelineEntry). All (λ (e : PipelineModel). Q e.model_id) x.models)
        (ps
          ++ map
              (created_entry c.now)
              (with_ids c.ids (allocated p.update_pipelines) p.create_pipelines))
next-pipelines c p k ps Q there ep (cm, um, cp, up) h =
    let All_of : PipelineEntry → Type 0 =
      λ (x : PipelineEntry). All (λ (e : PipelineModel). Q e.model_id) x.models in
    let Old : PipelineModel → Type 0 = λ e. has model_id e.model_id k.models ≡ true in
    let found = λ (x : PipelineEntry).
      All-imp (EntryRefers k.models p.create_models) (λ e. Q e.model_id) x.models
        (λ e. there e.model_id) in
    let old = λ (x : PipelineEntry).
      All-imp Old (λ e. Q e.model_id) x.models
        (λ e b. there e.model_id (
          or_left (has model_id e.model_id k.models) (has model_id e.model_id p.create_models)
            b)) in
    All-next pipeline_id (updated_entry c.now) (created_entry c.now) (λ x. refl) All_of
      (with_ids c.ids 0 p.update_pipelines)
      (with_ids c.ids (allocated p.update_pipelines) p.create_pipelines) k.pipelines ps ep
      (All-imp (λ x. All Old x.models) All_of k.pipelines old h.pipelines)
      (with_ids_kept Q c.ids 0 p.update_pipelines
        (All-imp (PipelineRefers k.models p.create_models) All_of p.update_pipelines found up))
      (with_ids_kept Q c.ids (allocated p.update_pipelines) p.create_pipelines
        (All-imp (PipelineRefers k.models p.create_models) All_of p.create_pipelines found cp))

graph-IsConnected :
    (c : Call) (p : ImportGraphPlan) (k : Contents) (rs : List RuntimeEntry) (ms : List ModelEntry)
    (ps : List PipelineEntry)
    → place_all runtime_id (map (updated_runtime c.now) p.update_runtimes) k.runtimes ≡ placed rs
    → place_all model_id (map (updated_model c.now) p.update_models) k.models ≡ placed ms
    → place_all pipeline_id
        (map (updated_entry c.now) (with_ids c.ids 0 p.update_pipelines))
        k.pipelines
      ≡ placed ps
    → IsClosed k.runtimes k.models p
    → IsConnected k
    → IsConnected (graph_contents c p k rs ms ps)
unfolding graph_contents
graph-IsConnected c p k rs ms ps er em ep closed h = record {
  models =
      next-models c.now p k ms _
        (λ t e.
          has-next runtime_id (updated_runtime c.now) (created_runtime c.now) (λ x. refl)
            p.update_runtimes p.create_runtimes k.runtimes rs t er
          ∙ e)
        em closed h;
  pipelines =
      next-pipelines c p k ps (λ t. has model_id t (graph_contents c p k rs ms ps).models ≡ true)
        (λ t e.
          has-next model_id (updated_model c.now) (created_model c.now) (λ x. refl) p.update_models
            p.create_models k.models ms t em
          ∙ e)
        ep closed h;
}

either-IsConnected :
    (w : Write) (next : Contents) (r : Repository)
    → IsConnected next
    → IsConnected r.contents
    → IsConnected (replace_contents w next r).1.contents
unfolding replace_contents
either-IsConnected written next r n h = n
either-IsConnected write_failed next r n h = h
either-IsConnected sync_failed next r n h = h

-- An import leaves no model without its runtime and no pipeline entry without its model, if there was
-- none before, whatever is imported and whatever becomes of the write.
pub import_graph-IsConnected :
    (tools : ImportTools) (c : Call) (rs : List RuntimeEntry) (ms : List ModelEntry)
    (ps : List PipelineEntry) (r : Repository)
    → IsConnected r.contents
    → IsConnected (import_graph tools c rs ms ps r).1.contents
import_graph-IsConnected tools c rs ms ps r h = elim (import_graph-Applied tools c rs ms ps r) [
  | inl same ↦ rw same h
  | inr (unblocked, a) ↦
      let p = plan_of tools rs ms ps r in
      let k = r.contents in
      let next = graph_contents c p k a.runtimes a.models a.pipelines in
      let end = ap (λ o. o.1) a.same ∙ (after_save-same p (replace_contents c.write next r)).0 in
      rw end (
        either-IsConnected c.write next r
          (graph-IsConnected c p k a.runtimes a.models a.pipelines a.placed_runtimes a.placed_models
            a.placed_pipelines
            (plan_graph_import-IsClosed k.runtimes k.models tools k.pipelines rs ms ps) h)
          h)
]
