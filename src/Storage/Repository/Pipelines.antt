-- ===== src/Storage/Repository/Pipelines.antt =====
-- internal/storage/repository.go: the pipelines. Each entry of a pipeline that has no ID gets the next
-- one of idGenerator().
use goal_starter.Prelude.{
  ℕ, ◌+◌, Option, some, List, [], ◌∷◌, ◌++◌, map, Text, lit, itoa, ◌==ᵗ◌, if◌then◌else◌,
}
use goal_starter.Domain.Entries.{PipelineEntry, PipelineModel}
use goal_starter.Storage.Collection.{has, find, replace_first, remove_first}
use goal_starter.Storage.Repository.{
  StoreError, already_exists, not_found, Call, Repository, replace_contents,
}

-- The loop that fills empty entry IDs; `n` IDs are taken already.
unfoldable pub with_entry_ids : (ℕ → Text) → ℕ → List PipelineModel → List PipelineModel
with_entry_ids ids n [] = []
with_entry_ids ids n (m ∷ l) =
    let filled = record m { id = ids n } ∷ with_entry_ids ids (n + 1) l in
    let kept = m ∷ with_entry_ids ids n l in if m.id ==ᵗ [] then filled else kept

-- The legacy entry IDs that loading a file fills in: `<pipeline>-e<position>`, the positions from 1.
unfoldable pub with_legacy_ids : Text → ℕ → List PipelineModel → List PipelineModel
with_legacy_ids pipeline_id i [] = []
with_legacy_ids pipeline_id i (m ∷ l) =
    (if m.id ==ᵗ [] then record m { id = pipeline_id ++ lit "-e" ++ itoa (i + 1) } else m)
    ∷ with_legacy_ids pipeline_id (i + 1) l

unfoldable pub backfill_pipeline_entry_ids : List PipelineEntry → List PipelineEntry
unfolding with_legacy_ids
backfill_pipeline_entry_ids l =
    map (λ (p : PipelineEntry). record p { models = with_legacy_ids p.id 0 p.models }) l

abbrev pub pipeline_id : PipelineEntry → Text
pipeline_id e = e.id

-- The ID that CreatePipeline gives: idGenerator() if the entry has none.
abbrev pub new_pipeline_id : Call → PipelineEntry → Text
new_pipeline_id c e = if e.id ==ᵗ [] then c.ids 0 else e.id

-- How many IDs the pipeline itself takes.
abbrev taken_ids : PipelineEntry → ℕ
taken_ids e = if e.id ==ᵗ [] then 1 else 0

unfoldable pub new_pipeline : Call → PipelineEntry → PipelineEntry
unfolding with_entry_ids
new_pipeline c e = record e {
  id = new_pipeline_id c e;
  models = with_entry_ids c.ids (taken_ids e) e.models;
  created_at = c.now;
  updated_at = c.now;
}

unfoldable pub updated_pipeline : Call → PipelineEntry → PipelineEntry
unfolding with_entry_ids
updated_pipeline c e = record e { models = with_entry_ids c.ids 0 e.models; updated_at = c.now }

unfoldable pub create_pipeline : Call → PipelineEntry → Repository → Option StoreError × Repository
create_pipeline c e r =
    if has pipeline_id (new_pipeline_id c e) r.contents.pipelines
    then (some (already_exists (new_pipeline_id c e)), r)
    else replace_contents c.write
        (record r.contents { pipelines = r.contents.pipelines ++ new_pipeline c e ∷ [] }) r

unfoldable pub update_pipeline : Call → PipelineEntry → Repository → Option StoreError × Repository
update_pipeline c e r =
    if has pipeline_id e.id r.contents.pipelines
    then replace_contents c.write
        (record r.contents {
          pipelines = replace_first pipeline_id e.id (updated_pipeline c e) r.contents.pipelines;
        })
        r
    else (some (not_found e.id), r)

unfoldable pub get_pipeline : Text → Repository → Option PipelineEntry
get_pipeline id r = find pipeline_id id r.contents.pipelines

unfoldable pub delete_pipeline : Call → Text → Repository → Option StoreError × Repository
delete_pipeline c id r =
    if has pipeline_id id r.contents.pipelines
    then replace_contents c.write
        (record r.contents { pipelines = remove_first pipeline_id id r.contents.pipelines }) r
    else (some (not_found id), r)
