-- ===== src/Application/Lifecycle/Targets.antt =====
-- internal/application/pipeline_service.go: which instances each entry of a pipeline stops.
pub mod Dicts
pub mod Complete
use goal_starter.Prelude.{
  ℕ, ◌+◌, Bool, false, not, ◌&&◌, ◌||◌, Option, none, some, List, [], ◌∷◌, ◌++◌, Text, Dict, lookup,
  insert, map, select, ◌==◌, ◌==ᵗ◌, if◌then◌else◌,
}
use goal_starter.Domain.Instance.{LaunchInstanceEntry}
use goal_starter.Domain.Entries.{PipelineModel}
use goal_starter.Storage.Repository.Instances.{instance_id}
use goal_starter.Application.Pipelines.{is_owned}

-- An active instance that the pipeline owns and that is attributed to the entry.
abbrev pub is_attributed : Text → Text → LaunchInstanceEntry → Bool
is_attributed pipeline_id entry_id i = is_owned pipeline_id i && (i.pipeline_entry_id ==ᵗ entry_id)

-- One that is attributed to no entry.
abbrev pub is_legacy : Text → LaunchInstanceEntry → Bool
is_legacy pipeline_id i = is_owned pipeline_id i && (i.pipeline_entry_id ==ᵗ [])

-- The loop that sets claimed[i]
unfoldable pub claimed : Text → Text → List LaunchInstanceEntry → Bool
claimed pipeline_id entry_id [] = false
claimed pipeline_id entry_id (i ∷ l) =
    is_attributed pipeline_id entry_id i || claimed pipeline_id entry_id l

-- m[k], with the zero value for a missing key
abbrev pub at_or_nil : Option (List Text) → List Text
at_or_nil none = []
at_or_nil (some l) = l

-- The loop that fills legacyByModel.
unfoldable pub legacy_by_model :
    Text → List LaunchInstanceEntry → Dict (List Text) → Dict (List Text)
legacy_by_model pipeline_id [] m = m
legacy_by_model pipeline_id (i ∷ l) m =
    let added = insert i.model_id (at_or_nil (lookup i.model_id m) ++ i.id ∷ []) m in
    legacy_by_model pipeline_id l (if is_legacy pipeline_id i then added else m)

-- The loop that fills firstOfModel.
unfoldable pub first_of_model : ℕ → List PipelineModel → Dict ℕ → Dict ℕ
first_of_model index [] m = m
first_of_model index (entry ∷ l) m =
    first_of_model (index + 1) l
      (elim (lookup entry.model_id m) [ some first ↦ m | none ↦ insert entry.model_id index m ])

-- firstOfModel[k] == i; the zero value of a missing key is 0.
abbrev pub is_first : Option ℕ → ℕ → Bool
is_first none index = 0 == index
is_first (some first) index = first == index

-- The instances that an entry stops: those attributed to it, and, if it is the first of its model,
-- the model's that are attributed to none.
unfoldable pub entry_targets :
    Text → List LaunchInstanceEntry → Dict (List Text) → Dict ℕ → ℕ → PipelineModel → List Text
unfolding claimed
entry_targets pipeline_id instances legacy first index entry =
    (if claimed pipeline_id entry.id instances
      then map instance_id (select (is_attributed pipeline_id entry.id) instances)
      else [])
    ++ (if is_first (lookup entry.model_id first) index
        then at_or_nil (lookup entry.model_id legacy)
        else [])

-- The loop that fills `targets`, each with its entry.
unfoldable pub targets_from :
    Text
    → List LaunchInstanceEntry
    → Dict (List Text)
    → Dict ℕ
    → ℕ
    → List PipelineModel
    → List (PipelineModel × List Text)
unfolding entry_targets
targets_from pipeline_id instances legacy first index [] = []
targets_from pipeline_id instances legacy first index (entry ∷ l) =
    (entry, entry_targets pipeline_id instances legacy first index entry)
    ∷ targets_from pipeline_id instances legacy first (index + 1) l

unfoldable pub stop_targets :
    Text → List PipelineModel → List LaunchInstanceEntry → List (PipelineModel × List Text)
unfolding targets_from legacy_by_model first_of_model
stop_targets pipeline_id models instances =
    targets_from pipeline_id instances (legacy_by_model pipeline_id instances [])
      (first_of_model 0 models []) 0 models
