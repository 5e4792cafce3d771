-- ===== src/Application/Pipelines.antt =====
-- internal/application/pipeline_service.go: what PipelineService lets into the repository. The
-- interface storage.Repository is the model of JSONRepository, whose lists never fail.
pub mod Identified
pub mod Kept
pub mod Attributed
pub mod Operations
use goal_starter.Prelude.{
  ℕ, zero, suc, Bool, true, false, not, ◌&&◌, ◌||◌, Option, none, some, List, [], ◌∷◌, ◌++◌, map,
  Text, lit, ◌==◌, ltb, leb, ◌==ᵗ◌, if◌then◌else◌,
}
use goal_starter.Domain.Instance.{LaunchInstanceEntry, is_in_flight}
use goal_starter.Domain.Entries.{PipelineEntry, PipelineModel}
use goal_starter.Storage.Repository.{StoreError, Call, Repository}
use goal_starter.Storage.Repository.Models.{get_model}
use goal_starter.Storage.Repository.Pipelines.{
  get_pipeline, create_pipeline, update_pipeline, delete_pipeline,
}
use goal_starter.Storage.Repository.Instances.{among}

pub data ApiCode : Type 0 where
  code_bad_request code_not_found code_conflict : ApiCode

-- An error of the service, or one of the repository passed on.
pub data ServiceError : Type 0 where
  api_error : ApiCode → Text → ServiceError
  store_error : StoreError → ServiceError

-- The white space of strings.TrimSpace below 0x80.
abbrev is_space : ℕ → Bool
is_space b = (b == 32) || (leb 9 b && leb b 13)

-- U+0085 and U+00A0
abbrev is_space_pair : ℕ → ℕ → Bool
is_space_pair a b = (a == 194) && ((b == 133) || (b == 160))

-- U+1680, U+2000 to U+200A, U+2028, U+2029, U+202F, U+205F and U+3000
abbrev is_space_triple : ℕ → ℕ → ℕ → Bool
is_space_triple a b c =
    ((a == 225) && (b == 154) && (c == 128))
    || ((a == 226)
        && (b == 128)
        && leb 128 c
        && (leb c 138 || (c == 168) || (c == 169) || (c == 175)))
    || ((a == 226) && (b == 129) && (c == 159))
    || ((a == 227) && (b == 128) && (c == 128))

-- strings.TrimSpace(s) == "": the bytes of `s` encode white space only.
unfoldable pub is_blank : Text → Bool
is_blank [] = true
is_blank (a ∷ []) = is_space a
is_blank (a ∷ b ∷ []) = (is_space a && is_space b) || is_space_pair a b
is_blank (a ∷ b ∷ c ∷ s) =
    (is_space a && is_blank (b ∷ c ∷ s))
    || (is_space_pair a b && is_blank (c ∷ s))
    || (is_space_triple a b c && is_blank s)

-- The loop of ValidatePipelineEntry over the entries; `seen` is seenEntryIDs.
unfoldable pub validate_entries : Repository → List Text → List PipelineModel → Option ServiceError
validate_entries r seen [] = none
validate_entries r seen (m ∷ l) =
    let rest = validate_entries r (if m.id ==ᵗ [] then seen else m.id ∷ seen) l in
    if m.model_id ==ᵗ []
    then some (api_error code_bad_request (lit "model_id is required in pipeline entries"))
    else if not (m.id ==ᵗ []) && among m.id seen
    then some (api_error code_bad_request (lit "duplicate entry id in pipeline: " ++ m.id))
    else elim (get_model m.model_id r) [
      | none ↦
          some (api_error code_bad_request (lit "unknown model id in pipeline: " ++ m.model_id))
      | some e ↦ rest
    ]

-- ValidatePipelineEntry; `none` is the nil entry.
unfoldable pub validate_pipeline_entry : Repository → Option PipelineEntry → Option ServiceError
unfolding validate_entries
validate_pipeline_entry r none = some (api_error code_bad_request (lit "pipeline name is required"))
validate_pipeline_entry r (some e) =
    if is_blank e.name
    then some (api_error code_bad_request (lit "pipeline name is required"))
    else elim e.models [
      | [] ↦ some (api_error code_bad_request (lit "pipeline model list is required"))
      | m ∷ l ↦ validate_entries r [] (m ∷ l)
    ]

unfoldable pub sanitize_create_entry_ids : PipelineEntry → PipelineEntry
sanitize_create_entry_ids e = record e {
  models = map (λ (m : PipelineModel). record m { id = [] }) e.models;
}

-- An error of the repository as the error of the service.
abbrev pub passed_on : Option StoreError × Repository → Option ServiceError × Repository
passed_on (none, r) = (none, r)
passed_on (some e, r) = (some (store_error e), r)

-- CreatePipeline of the service, on an entry that is not nil
unfoldable pub create_group : Call → PipelineEntry → Repository → Option ServiceError × Repository
create_group c e r =
    let clean = sanitize_create_entry_ids e in
    elim (validate_pipeline_entry r (some clean)) [
      | some refused ↦ (some refused, r)
      | none ↦ passed_on (create_pipeline c clean r)
    ]

abbrev pub entry_ids : List PipelineModel → List Text
entry_ids l = map (λ (m : PipelineModel). m.id) l

-- The first entry whose ID is set and not among the given ones.
unfoldable pub unknown_entry : List Text → List PipelineModel → Option Text
unknown_entry current [] = none
unknown_entry current (m ∷ l) =
    let rest = unknown_entry current l in
    if not (m.id ==ᵗ []) && not (among m.id current) then some m.id else rest

unfoldable pub same_entry_sequence : List PipelineModel → List PipelineModel → Bool
same_entry_sequence [] [] = true
same_entry_sequence [] (n ∷ k) = false
same_entry_sequence (m ∷ l) [] = false
same_entry_sequence (m ∷ l) (n ∷ k) = (m.id ==ᵗ n.id) && same_entry_sequence l k

-- An instance that the pipeline owns and that is in flight.
abbrev pub is_owned : Text → LaunchInstanceEntry → Bool
is_owned id i = (i.pipeline_id ==ᵗ id) && is_in_flight i.state

unfoldable pub any_owned : Text → List LaunchInstanceEntry → Bool
any_owned id [] = false
any_owned id (i ∷ l) = is_owned id i || any_owned id l

unfoldable pub has_active_owned_instances : Text → Repository → Bool
unfolding any_owned
has_active_owned_instances id r = any_owned id r.contents.instances

-- UpdatePipeline of the service
unfoldable pub update_group : Call → PipelineEntry → Repository → Option ServiceError × Repository
unfolding unknown_entry same_entry_sequence
update_group c e r = elim (get_pipeline e.id r) [
  | none ↦ (some (api_error code_not_found (lit "pipeline not found: " ++ e.id)), r)
  | some current ↦ elim (validate_pipeline_entry r (some e)) [
    | some refused ↦ (some refused, r)
    | none ↦ elim (unknown_entry (entry_ids current.models) e.models) [
      | some id ↦ (some (api_error code_bad_request (lit "unknown pipeline entry id: " ++ id)), r)
      | none ↦
          if not (same_entry_sequence current.models e.models) && has_active_owned_instances e.id r
          then (
            some (
                api_error code_conflict (
                  lit
                    "pipeline has active owned instances; structural changes are not allowed while active")),
            r,
          )
          else passed_on (update_pipeline c (record e { created_at = current.created_at }) r)
    ]
  ]
]

-- DeletePipeline of the service
unfoldable pub delete_group : Call → Text → Repository → Option ServiceError × Repository
delete_group c id r = elim (get_pipeline id r) [
  | none ↦ (some (api_error code_not_found (lit "pipeline not found: " ++ id)), r)
  | some current ↦
      if has_active_owned_instances id r
      then (
        some (
            api_error code_conflict
              (lit "pipeline has active owned instances; stop the pipeline before deleting it")),
        r,
      )
      else passed_on (delete_pipeline c id r)
]

-- An entry of the list references the model.
unfoldable pub references_model : Text → List PipelineModel → Bool
references_model id [] = false
references_model id (m ∷ l) = (m.model_id ==ᵗ id) || references_model id l

-- The loop of ListPipelinesReferencingModel
unfoldable pub names_referencing : Text → List PipelineEntry → List Text
unfolding references_model
names_referencing id [] = []
names_referencing id (p ∷ l) =
    let rest = names_referencing id l in
    if references_model id p.models then p.name ∷ rest else rest

unfoldable pub list_pipelines_referencing_model : Text → Repository → List Text
unfolding names_referencing
list_pipelines_referencing_model id r = names_referencing id r.contents.pipelines
