-- ===== src/Storage/Import/Applied.antt =====
-- What an import comes to: its two kinds of outcome.
use goal_starter.Prelude.{
  Option, ◌≡◌, ◌≢◌, ◌⊎◌, refl, ap, ◌∙◌, false, Bool-cases, inl, inr, none, some, Option-cases, List,
  [], ◌∷◌, map,
}
use goal_starter.Domain.Entries.{RuntimeEntry, ModelEntry, PipelineEntry}
use goal_starter.Storage.Repository.{StoreError, Call, Repository, sync_failed, replace_contents}
use goal_starter.Storage.Repository.Runtimes.{runtime_id}
use goal_starter.Storage.Repository.Models.{model_id}
use goal_starter.Storage.Repository.Pipelines.{pipeline_id}
use goal_starter.Storage.Operations.History.{replace_contents-failed}
use goal_starter.Storage.Import.{ImportTools, ImportGraphPlan, has_blocked, will_mutate}
use goal_starter.Storage.Import.Conflicts.{runtime_name_conflicts}
use goal_starter.Storage.Import.Plan.{plan_graph_import}
use goal_starter.Storage.Import.Graph.{
  ImportResult, imported, Placed, placed, unknown, place_all, updated_runtime, updated_model,
  updated_entry, with_ids, graph_contents, write_graph, apply_plan, import_graph, after_save,
}

pub Placed-cases :
    {A : Type 0} (x : Placed A) → ((l : List A) × (x ≡ placed l)) ⊎ ((id : _) × (x ≡ unknown id))
Placed-cases (placed l) = inl (l, refl)
Placed-cases (unknown id) = inr (id, refl)

List-cases : {A : Type 0} (l : List A) → (l ≡ []) ⊎ ((x : A) × (k : List A) × (l ≡ x ∷ k))
List-cases [] = inl refl
List-cases (x ∷ l) = inr (x, l, refl)

-- The graph of the plan goes through the write.
pub record Applied (tools : ImportTools) (c : Call) (p : ImportGraphPlan) (r : Repository)
    (out : ImportResult × Repository) : Type 0 where
  pub runtimes : List RuntimeEntry
  pub models : List ModelEntry
  pub pipelines : List PipelineEntry
  pub placed_runtimes :
      place_all runtime_id (map (updated_runtime c.now) p.update_runtimes) r.contents.runtimes
      ≡ placed runtimes
  pub placed_models :
      place_all model_id (map (updated_model c.now) p.update_models) r.contents.models
      ≡ placed models
  pub placed_pipelines :
      place_all pipeline_id
        (map (updated_entry c.now) (with_ids c.ids 0 p.update_pipelines))
        r.contents.pipelines
      ≡ placed pipelines
  pub no_conflict :
      runtime_name_conflicts tools
        (graph_contents c p r.contents runtimes models pipelines).runtimes
      ≡ []
  pub same :
      out
      ≡ after_save p
          (replace_contents c.write (graph_contents c p r.contents runtimes models pipelines) r)

apply_plan-Applied :
    (tools : ImportTools) (c : Call) (p : ImportGraphPlan) (r : Repository)
    → ((apply_plan tools c p r).1 ≡ r) ⊎ Applied tools c p r (apply_plan tools c p r)
unfolding apply_plan write_graph
apply_plan-Applied tools c p r =
    elim (Placed-cases
      (place_all runtime_id (map (updated_runtime c.now) p.update_runtimes) r.contents.runtimes)) [
        | inr (id, e) ↦ rw (apply_plan, e) (inl refl)
        | inl (rs, e) ↦
            elim (Placed-cases
              (place_all model_id (map (updated_model c.now) p.update_models) r.contents.models)) [
                | inr (id, f) ↦ rw (apply_plan, e, f) (inl refl)
                | inl (ms, f) ↦
                    elim (Placed-cases (
                      place_all pipeline_id
                        (map (updated_entry c.now) (with_ids c.ids 0 p.update_pipelines))
                        r.contents.pipelines)) [
                          | inr (id, g) ↦ rw (apply_plan, e, f, g) (inl refl)
                          | inl (ps, g) ↦
                              elim (List-cases (
                                runtime_name_conflicts tools
                                  (graph_contents c p r.contents rs ms ps).runtimes)) [
                                    | inr (x, l, h) ↦
                                        rw (apply_plan, e, f, g, write_graph, h) (inl refl)
                                    | inl h ↦ inr (record {
                                      runtimes = rs;
                                      models = ms;
                                      pipelines = ps;
                                      placed_runtimes = e;
                                      placed_models = f;
                                      placed_pipelines = g;
                                      no_conflict = h;
                                      same = rw (apply_plan, e, f, g, write_graph, h) refl;
                                    })
                                  ]
                        ]
              ]
      ]

-- The plan of an import.
abbrev pub plan_of :
    ImportTools
    → List RuntimeEntry
    → List ModelEntry
    → List PipelineEntry
    → Repository
    → ImportGraphPlan
plan_of tools rs ms ps r =
    plan_graph_import tools r.contents.runtimes r.contents.models r.contents.pipelines rs ms ps

pub import_graph-Applied :
    (tools : ImportTools) (c : Call) (rs : List RuntimeEntry) (ms : List ModelEntry)
    (ps : List PipelineEntry) (r : Repository)
    → ((import_graph tools c rs ms ps r).1 ≡ r)
      ⊎ ((has_blocked (plan_of tools rs ms ps r) ≡ false)
          × Applied tools c (plan_of tools rs ms ps r) r (import_graph tools c rs ms ps r))
unfolding import_graph
import_graph-Applied tools c rs ms ps r =
    let p = plan_of tools rs ms ps r in
    elim (Bool-cases (has_blocked p)) [
      | inl e ↦ rw e (inl refl)
      | inr e ↦ elim (Bool-cases (will_mutate p)) [
        | inr f ↦ rw (e, f) (inl refl)
        | inl f ↦ elim (apply_plan-Applied tools c p r) [
          | inl same ↦ rw (e, f) (inl same)
          | inr a ↦ rw (e, f) (inr (refl, a))
        ]
      ]
    ]

pub after_save-same :
    (p : ImportGraphPlan) (q : Option StoreError × Repository)
    → ((after_save p q).1 ≡ q.1) × ((q.0 ≡ none) → ((after_save p q).0 ≡ imported p))
after_save-same p (none, s) = (refl, λ e. refl)
after_save-same p (some e, s) = (refl, λ h. cc)

-- An import that does not report success leaves every collection in memory as it was, and, unless
-- only the sync of the directory failed, the file too.
pub import_graph-failed :
    (tools : ImportTools) (c : Call) (rs : List RuntimeEntry) (ms : List ModelEntry)
    (ps : List PipelineEntry) (r : Repository)
    → ((p : ImportGraphPlan) → (import_graph tools c rs ms ps r).0 ≢ imported p)
    → ((import_graph tools c rs ms ps r).1.contents ≡ r.contents)
      × (c.write ≢ sync_failed → (import_graph tools c rs ms ps r).1.file ≡ r.file)
import_graph-failed tools c rs ms ps r n = elim (import_graph-Applied tools c rs ms ps r) [
  | inl same ↦ (ap (λ s. s.contents) same, λ w. ap (λ s. s.file) same)
  | inr (unblocked, a) ↦
      let p = plan_of tools rs ms ps r in
      let next = graph_contents c p r.contents a.runtimes a.models a.pipelines in
      let (state, good) = after_save-same p (replace_contents c.write next r) in
      let end = ap (λ o. o.1) a.same ∙ state in
      elim (Option-cases (replace_contents c.write next r).0) [
        | inl e ↦ absurd (n p (ap (λ o. o.0) a.same ∙ good e))
        | inr (e, failed) ↦
            let (kept, file) = replace_contents-failed c.write next r failed in
            (ap (λ s. s.contents) end ∙ kept, λ w. ap (λ s. s.file) end ∙ file w)
      ]
]
