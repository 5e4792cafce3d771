-- ===== src/Domain/Entries.antt =====
-- internal/domain/model_entry.go and pipeline.go: the persisted runtimes, models and pipelines.
use goal_starter.Prelude.{Bool, Option, List, Text, Dict, ℤ}
use goal_starter.Domain.Instance.{Time}

pub record RuntimeEntry : Type 0 where
  pub id : Text
  pub name : Text
  pub executable : Text
  pub working_directory : Text
  pub environment : Option (Dict Text)
  pub created_at : Time
  pub updated_at : Time

pub record ModelEntry : Type 0 where
  pub id : Text
  pub name : Text
  pub runtime_id : Text
  pub args : List Text
  pub environment : Option (Dict Text)
  pub active : Bool
  pub autostart_delay : ℤ
  pub created_at : Time
  pub updated_at : Time

pub record PipelineModel : Type 0 where
  pub id : Text
  pub model_id : Text
  pub args : List Text
  pub auto_start : Bool

pub record PipelineEntry : Type 0 where
  pub id : Text
  pub name : Text
  pub active : Bool
  pub models : List PipelineModel
  pub created_at : Time
  pub updated_at : Time
