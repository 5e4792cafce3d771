-- ===== src/Storage/Import/Graph.antt =====
-- internal/storage/repository.go: ImportGraph, which plans, checks and writes under one lock.
use goal_starter.Prelude.{
  Option, none, some, ℕ, ◌+◌, not, none, some, List, [], ◌∷◌, ◌++◌, map, Text, length, select,
  ◌==ᵗ◌, if◌then◌else◌,
}
use goal_starter.Domain.Instance.{Time}
use goal_starter.Domain.Entries.{RuntimeEntry, ModelEntry, PipelineModel, PipelineEntry}
use goal_starter.Storage.Collection.{has}
use goal_starter.Storage.Repository.{StoreError, Call, Contents, Repository, replace_contents}
use goal_starter.Storage.Repository.Runtimes.{runtime_id}
use goal_starter.Storage.Repository.Models.{model_id}
use goal_starter.Storage.Repository.Pipelines.{pipeline_id, with_entry_ids}
use goal_starter.Storage.Import.{
  ImportTools, EntityType, runtime_type, model_type, pipeline_type, ImportGraphPlan, has_blocked,
  will_mutate,
}
use goal_starter.Storage.Import.Plan.{plan_graph_import}
use goal_starter.Storage.Import.Conflicts.{
  ImportConflict, plan_conflicts, runtime_name_conflicts, add_escaped_blocks,
}

pub data ImportResult : Type 0 where
  imported : ImportGraphPlan → ImportResult
  conflict : ImportGraphPlan → List ImportConflict → ImportResult
  unknown_entity : EntityType → Text → ImportResult
  not_saved : StoreError → ImportResult

-- The records that the updates replace, at the last index with the ID, or the ID that has none.
unfoldable pub replace_last : {A : Type 0} → (A → Text) → A → List A → List A
replace_last id_of e [] = []
replace_last id_of e (x ∷ l) =
    let rest = replace_last id_of e l in
    if has id_of (id_of e) l then x ∷ rest else if id_of x ==ᵗ id_of e then e ∷ l else x ∷ rest

pub data Placed (A : Type 0) : Type 0 where
  placed : List A → Placed A
  unknown : Text → Placed A

unfoldable pub place_all : {A : Type 0} → (A → Text) → List A → List A → Placed A
place_all id_of [] l = placed l
place_all id_of (e ∷ es) l =
    let rest = place_all id_of es (replace_last id_of e l) in
    if has id_of (id_of e) l then rest else unknown (id_of e)

abbrev pub updated_runtime : Time → RuntimeEntry → RuntimeEntry
updated_runtime now e = record e { updated_at = now }

abbrev pub created_runtime : Time → RuntimeEntry → RuntimeEntry
created_runtime now e = record e { created_at = now; updated_at = now }

abbrev pub updated_model : Time → ModelEntry → ModelEntry
updated_model now e = record e { updated_at = now }

abbrev pub created_model : Time → ModelEntry → ModelEntry
created_model now e = record e { created_at = now; updated_at = now }

-- withAllocatedEntryIDs, when `n` IDs are taken already.
unfoldable pub with_allocated_entry_ids : (ℕ → Text) → ℕ → PipelineEntry → PipelineEntry
with_allocated_entry_ids ids n e = record e { models = with_entry_ids ids n e.models }

-- How many IDs the pipelines take.
unfoldable pub allocated : List PipelineEntry → ℕ
allocated [] = 0
allocated (e ∷ l) = length (select (λ (m : PipelineModel). m.id ==ᵗ []) e.models) + allocated l

unfoldable pub with_ids : (ℕ → Text) → ℕ → List PipelineEntry → List PipelineEntry
with_ids ids n [] = []
with_ids ids n (e ∷ l) = with_allocated_entry_ids ids n e ∷ with_ids ids (n + allocated (e ∷ [])) l

abbrev pub updated_entry : Time → PipelineEntry → PipelineEntry
updated_entry now e = record e { updated_at = now }

abbrev pub created_entry : Time → PipelineEntry → PipelineEntry
created_entry now e = record e { created_at = now; updated_at = now }

abbrev pub after_save : ImportGraphPlan → Option StoreError × Repository → ImportResult × Repository
after_save p (none, saved) = (imported p, saved)
after_save p (some e, saved) = (not_saved e, saved)

-- The check of the names, then the one write.
unfoldable pub write_graph :
    ImportTools → Call → ImportGraphPlan → Contents → Repository → ImportResult × Repository
write_graph tools c p next r = elim (runtime_name_conflicts tools next.runtimes) [
  | x ∷ l ↦ (conflict (add_escaped_blocks (x ∷ l) p) (x ∷ l), r)
  | [] ↦ after_save p (replace_contents c.write next r)
]

unfoldable pub graph_contents :
    Call
    → ImportGraphPlan
    → Contents
    → List RuntimeEntry
    → List ModelEntry
    → List PipelineEntry
    → Contents
graph_contents c p k runtimes models pipelines = record k {
  runtimes = runtimes ++ map (created_runtime c.now) p.create_runtimes;
  models = models ++ map (created_model c.now) p.create_models;
  pipelines =
      pipelines
      ++ map (created_entry c.now)
          (with_ids c.ids (allocated p.update_pipelines) p.create_pipelines);
}

unfoldable pub apply_plan :
    ImportTools → Call → ImportGraphPlan → Repository → ImportResult × Repository
apply_plan tools c p r =
    let k = r.contents in
    elim (place_all runtime_id (map (updated_runtime c.now) p.update_runtimes) k.runtimes) [
      | unknown id ↦ (unknown_entity runtime_type id, r)
      | placed runtimes ↦
          elim (place_all model_id (map (updated_model c.now) p.update_models) k.models) [
            | unknown id ↦ (unknown_entity model_type id, r)
            | placed models ↦
                elim (place_all pipeline_id
                  (map (updated_entry c.now) (with_ids c.ids 0 p.update_pipelines)) k.pipelines) [
                    | unknown id ↦ (unknown_entity pipeline_type id, r)
                    | placed pipelines ↦
                        write_graph tools c p (graph_contents c p k runtimes models pipelines) r
                  ]
          ]
    ]

unfoldable pub import_graph :
    ImportTools
    → Call
    → List RuntimeEntry
    → List ModelEntry
    → List PipelineEntry
    → Repository
    → ImportResult × Repository
import_graph tools c runtimes models pipelines r =
    let k = r.contents in
    let plan = plan_graph_import tools k.runtimes k.models k.pipelines runtimes models pipelines in
    if has_blocked plan
    then (conflict plan (plan_conflicts plan), r)
    else if not (will_mutate plan)
    then (imported plan, r)
    else apply_plan tools c plan r
