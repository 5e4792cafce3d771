-- ===== src/Application/Pipelines/Attributed.antt =====
-- The active instances that a pipeline's entry started, and the entry, under the writing operations of
-- PipelineService (internal/application/pipeline_service.go).
use goal_starter.Prelude.{◌≡◌, ◌≢◌, Bool, true, false, Option, none, some, List, [], Text, All}
use goal_starter.Domain.Instance.{LaunchInstanceEntry, is_in_flight}
use goal_starter.Domain.Entries.{PipelineEntry}
use goal_starter.Storage.Collection.{find}
use goal_starter.Storage.Repository.{Contents, Repository}
use goal_starter.Storage.Repository.Pipelines.{pipeline_id}
use goal_starter.Storage.Repository.Instances.{among}
use goal_starter.Application.Pipelines.{entry_ids}

-- A pipeline that is there has the entry.
abbrev pub has_entry : Text → Option PipelineEntry → Bool
has_entry k none = false
has_entry k (some p) = among k (entry_ids p.models)

-- An instance that is active and attributed to an entry: its pipeline is there and has the entry.
abbrev pub HasEntry : List PipelineEntry → LaunchInstanceEntry → Type 0
HasEntry ps i =
    is_in_flight i.state ≡ true
    → i.pipeline_entry_id ≢ []
    → has_entry i.pipeline_entry_id (find pipeline_id i.pipeline_id ps) ≡ true

abbrev pub IsAttributed : Contents → Type 0
IsAttributed k = All (λ (i : LaunchInstanceEntry). HasEntry k.pipelines i) k.instances
