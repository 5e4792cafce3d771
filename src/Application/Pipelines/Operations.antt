-- ===== src/Application/Pipelines/Operations.antt =====
-- The writing operations of PipelineService as values, and what each leaves in the repository
-- (internal/application/pipeline_service.go).
use goal_starter.Prelude.{
  ◌≡◌, ◌⊎◌, inl, inr, Option, none, some, Option-cases, true, false, Bool-cases, [], ◌∷◌, ◌++◌,
  Text,
}
use goal_starter.Domain.Entries.{PipelineEntry}
use goal_starter.Storage.Collection.{has, replace_first, remove_first}
use goal_starter.Storage.Repository.{
  Call, Contents, Repository, Write, written, write_failed, sync_failed, replace_contents,
}
use goal_starter.Storage.Repository.Pipelines.{
  pipeline_id, new_pipeline, new_pipeline_id, updated_pipeline, get_pipeline, create_pipeline,
  update_pipeline, delete_pipeline,
}
use goal_starter.Application.Pipelines.{
  ServiceError, create_group, update_group, delete_group, sanitize_create_entry_ids, passed_on,
  validate_pipeline_entry, unknown_entry, entry_ids, same_entry_sequence,
  has_active_owned_instances,
}

pub data GroupOp : Type 0 where
  op_create_group op_update_group : PipelineEntry → GroupOp
  op_delete_group : Text → GroupOp

abbrev pub run_group : Call → GroupOp → Repository → Option ServiceError × Repository
run_group c (op_create_group e) r = create_group c e r
run_group c (op_update_group e) r = update_group c e r
run_group c (op_delete_group id) r = delete_group c id r

-- A property of the contents that the next contents have as the present ones do.
pub passed_on-replace_contents :
    (P : Contents → Type 0) (w : Write) (next : Contents) (r : Repository)
    → P next
    → P r.contents
    → P (passed_on (replace_contents w next r)).1.contents
unfolding replace_contents
passed_on-replace_contents P written next r n h = n
passed_on-replace_contents P write_failed next r n h = h
passed_on-replace_contents P sync_failed next r n h = h

abbrev clean : PipelineEntry → PipelineEntry
clean e = sanitize_create_entry_ids e

-- create_group changes nothing, or adds the pipeline that it has validated under a new ID.
pub create_group_cases :
    (P : Contents → Type 0) (c : Call) (e : PipelineEntry) (r : Repository)
    → P r.contents
    → (validate_pipeline_entry r (some (sanitize_create_entry_ids e)) ≡ none
        → has pipeline_id (new_pipeline_id c (sanitize_create_entry_ids e)) r.contents.pipelines
          ≡ false
        → P (record r.contents {
          pipelines = r.contents.pipelines ++ new_pipeline c (sanitize_create_entry_ids e) ∷ [];
        }))
    → P (create_group c e r).1.contents
unfolding create_group create_pipeline
create_group_cases P c e r h added =
    elim (Option-cases (validate_pipeline_entry r (some (sanitize_create_entry_ids e)))) [
      | inr (error, n) ↦ rw (n, create_group) h
      | inl n ↦
          elim (Bool-cases (
            has pipeline_id (new_pipeline_id c (sanitize_create_entry_ids e))
              r.contents.pipelines)) [
                | inl b ↦ rw (n, create_group, b) h
                | inr b ↦
                    rw (n, create_group, b) (passed_on-replace_contents P c.write _ r (added n b) h)
              ]
    ]

stored_by :
    (P : Contents → Type 0) (c : Call) (e : PipelineEntry) (r : Repository)
    → P r.contents
    → P (record r.contents {
      pipelines = replace_first pipeline_id e.id (updated_pipeline c e) r.contents.pipelines;
    })
    → P (passed_on (update_pipeline c e r)).1.contents
unfolding update_pipeline
stored_by P c e r h n = elim (Bool-cases (has pipeline_id e.id r.contents.pipelines)) [
  | inl b ↦ rw b (passed_on-replace_contents P c.write _ r n h)
  | inr b ↦ rw b h
]

-- update_group changes nothing, or replaces the pipeline that it has found and validated, whose
-- entries are the same ones in the same order unless no instance of the pipeline is active.
pub update_group_cases :
    (P : Contents → Type 0) (c : Call) (e : PipelineEntry) (r : Repository)
    → P r.contents
    → ((current : PipelineEntry)
        → get_pipeline e.id r ≡ some current
        → validate_pipeline_entry r (some e) ≡ none
        → unknown_entry (entry_ids current.models) e.models ≡ none
        → (same_entry_sequence current.models e.models ≡ true)
          ⊎ (has_active_owned_instances e.id r ≡ false)
        → P (record r.contents {
          pipelines =
              replace_first pipeline_id e.id
                (updated_pipeline c (record e { created_at = current.created_at }))
                r.contents.pipelines;
        }))
    → P (update_group c e r).1.contents
unfolding update_group update_pipeline
update_group_cases P c e r h replaced = elim (Option-cases (get_pipeline e.id r)) [
  | inl n ↦ rw (n, update_group) h
  | inr (current, n) ↦ elim (Option-cases (validate_pipeline_entry r (some e))) [
    | inr (error, v) ↦ rw (n, update_group, v) h
    | inl v ↦ elim (Option-cases (unknown_entry (entry_ids current.models) e.models)) [
      | inr (id, u) ↦ rw (n, update_group, v, u) h
      | inl u ↦ elim (Bool-cases (same_entry_sequence current.models e.models)) [
        | inl s ↦
            let stored = replaced current n v u (inl s) in
            rw (n, update_group, v, u, s)
              (stored_by P c (record e { created_at = current.created_at }) r h stored)
        | inr s ↦ elim (Bool-cases (has_active_owned_instances e.id r)) [
          | inl a ↦ rw (n, update_group, v, u, s, a) h
          | inr a ↦
              let stored = replaced current n v u (inr a) in
              rw (n, update_group, v, u, s, a)
                (stored_by P c (record e { created_at = current.created_at }) r h stored)
        ]
      ]
    ]
  ]
]

pub delete_group_cases :
    (P : Contents → Type 0) (c : Call) (id : Text) (r : Repository)
    → P r.contents
    → (has_active_owned_instances id r ≡ false
        → P (record r.contents { pipelines = remove_first pipeline_id id r.contents.pipelines }))
    → P (delete_group c id r).1.contents
unfolding delete_group delete_pipeline
delete_group_cases P c id r h removed = elim (Option-cases (get_pipeline id r)) [
  | inl n ↦ rw (n, delete_group) h
  | inr (p, n) ↦ elim (Bool-cases (has_active_owned_instances id r)) [
    | inl a ↦ rw (n, delete_group, a) h
    | inr a ↦ elim (Bool-cases (has pipeline_id id r.contents.pipelines)) [
      | inr b ↦ rw (n, delete_group, a, b) h
      | inl b ↦ rw (n, delete_group, a, b) (passed_on-replace_contents P c.write _ r (removed a) h)
    ]
  ]
]
