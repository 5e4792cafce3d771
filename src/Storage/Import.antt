-- ===== src/Storage/Import.antt =====
-- internal/storage/import_plan.go and import_projection.go: what an import of runtimes, models and
-- pipelines says of each of them, and what it compares and restores. strings.ToLower and sort.Strings
-- are the record ImportTools; a Go set is the list of its members.
pub mod Names
pub mod Plan
pub mod Conflicts
pub mod Graph
pub mod Applied
pub mod Refers
pub mod Resolved
pub mod Placed
pub mod Connected
pub mod Unchanged
pub mod Frame
pub mod Held
pub mod Claimed
pub mod Kept
pub mod Preserved
pub mod Unique
pub mod NamedOnce
mod Tests
pub mod Coherent
pub mod Written
pub mod Counts
use goal_starter.Prelude.{
  ℕ, ◌+◌, ◌-◌, Bool, true, false, not, ◌&&◌, ◌||◌, List, [], ◌∷◌, ◌++◌, map, Text, ℤ, pos, negsuc,
  length, ltb, ◌==◌, ◌==ᵗ◌, if◌then◌else◌,
}
use goal_starter.Domain.Entries.{RuntimeEntry, ModelEntry, PipelineModel, PipelineEntry}

pub record ImportTools : Type 0 where
  pub to_lower : Text → Text
  pub sort_strings : List Text → List Text

pub data EntityType : Type 0 where
  runtime_type model_type pipeline_type : EntityType

pub data ImportStatus : Type 0 where
  import_new import_update import_unchanged import_blocked : ImportStatus

-- `no_reason` is "".
pub data BlockReason : Type 0 where
  no_reason runtime_name_taken runtime_ref model_ref dependency entries_empty : BlockReason

pub record ImportCounts : Type 0 where
  pub runtimes : ℕ
  pub models : ℕ
  pub pipelines : ℕ

abbrev pub total_of : ImportCounts → ℕ
total_of c = c.runtimes + c.models + c.pipelines

abbrev pub no_counts : ImportCounts
no_counts = record { runtimes = 0; models = 0; pipelines = 0 }

unfoldable pub increment : EntityType → ImportCounts → ImportCounts
increment runtime_type c = record c { runtimes = c.runtimes + 1 }
increment model_type c = record c { models = c.models + 1 }
increment pipeline_type c = record c { pipelines = c.pipelines + 1 }

-- Only an entity that is counted is taken out of a count.
unfoldable pub decrement : EntityType → ImportCounts → ImportCounts
decrement runtime_type c = record c { runtimes = c.runtimes - 1 }
decrement model_type c = record c { models = c.models - 1 }
decrement pipeline_type c = record c { pipelines = c.pipelines - 1 }

-- The field Type is `entity`.
pub record ImportEntityClassification : Type 0 where
  pub entity : EntityType
  pub id : Text
  pub name : Text
  pub status : ImportStatus
  pub reason : BlockReason
  pub related_id : Text

pub record ImportGraphPlan : Type 0 where
  pub created : ImportCounts
  pub updated : ImportCounts
  pub unchanged : ImportCounts
  pub total : ImportCounts
  pub classifications : List ImportEntityClassification
  pub blocked : List ImportEntityClassification
  pub create_runtimes : List RuntimeEntry
  pub create_models : List ModelEntry
  pub create_pipelines : List PipelineEntry
  pub update_runtimes : List RuntimeEntry
  pub update_models : List ModelEntry
  pub update_pipelines : List PipelineEntry

abbrev pub empty_plan : ImportGraphPlan
empty_plan = record {
  created = no_counts;
  updated = no_counts;
  unchanged = no_counts;
  total = no_counts;
  classifications = [];
  blocked = [];
  create_runtimes = [];
  create_models = [];
  create_pipelines = [];
  update_runtimes = [];
  update_models = [];
  update_pipelines = [];
}

abbrev pub has_blocked : ImportGraphPlan → Bool
has_blocked p = ltb 0 (length p.blocked)

abbrev pub will_mutate : ImportGraphPlan → Bool
will_mutate p = ltb 0 (total_of p.created + total_of p.updated)

-- The switch on the status in `classify`.
unfoldable pub counted_status :
    ImportStatus → ImportEntityClassification → ImportGraphPlan → ImportGraphPlan
counted_status import_new c p = record p { created = increment c.entity p.created }
counted_status import_update c p = record p { updated = increment c.entity p.updated }
counted_status import_unchanged c p = record p { unchanged = increment c.entity p.unchanged }
counted_status import_blocked c p = record p { blocked = p.blocked ++ c ∷ [] }

unfoldable pub classify : ImportEntityClassification → ImportGraphPlan → ImportGraphPlan
classify c p =
    counted_status c.status c (record p {
      total = increment c.entity p.total;
      classifications = p.classifications ++ c ∷ [];
    })

unfoldable pub args_equal : List Text → List Text → Bool
args_equal [] [] = true
args_equal [] (y ∷ b) = false
args_equal (x ∷ a) [] = false
args_equal (x ∷ a) (y ∷ b) = (x ==ᵗ y) && args_equal a b

-- `a == b` on bool and on int
abbrev pub bool_eq : Bool → Bool → Bool
bool_eq true b = b
bool_eq false b = not b

abbrev pub int_eq : ℤ → ℤ → Bool
int_eq (pos a) (pos b) = a == b
int_eq (pos a) (negsuc b) = false
int_eq (negsuc a) (pos b) = false
int_eq (negsuc a) (negsuc b) = a == b

unfoldable pub runtime_projection_equal : RuntimeEntry → RuntimeEntry → Bool
runtime_projection_equal b l =
    (b.name ==ᵗ l.name)
    && (b.executable ==ᵗ l.executable)
    && (b.working_directory ==ᵗ l.working_directory)

unfoldable pub model_projection_equal : ModelEntry → ModelEntry → Bool
model_projection_equal b l =
    (b.name ==ᵗ l.name)
    && (b.runtime_id ==ᵗ l.runtime_id)
    && args_equal b.args l.args
    && bool_eq b.active l.active
    && int_eq b.autostart_delay l.autostart_delay

-- The comparison of the entries of two pipelines.
unfoldable pub entries_equal : List PipelineModel → List PipelineModel → Bool
entries_equal [] [] = true
entries_equal [] (y ∷ b) = false
entries_equal (x ∷ a) [] = false
entries_equal (x ∷ a) (y ∷ b) =
    (x.model_id ==ᵗ y.model_id)
    && args_equal x.args y.args
    && bool_eq x.auto_start y.auto_start
    && entries_equal a b

unfoldable pub pipeline_projection_equal : PipelineEntry → PipelineEntry → Bool
pipeline_projection_equal b l =
    (b.name ==ᵗ l.name) && bool_eq b.active l.active && entries_equal b.models l.models

unfoldable pub restored_runtime : RuntimeEntry → RuntimeEntry → RuntimeEntry
restored_runtime local b = record local {
  name = b.name;
  executable = b.executable;
  working_directory = b.working_directory;
}

unfoldable pub restored_model : ModelEntry → ModelEntry → ModelEntry
restored_model local b = record local {
  name = b.name;
  runtime_id = b.runtime_id;
  args = b.args;
  active = b.active;
  autostart_delay = b.autostart_delay;
}

unfoldable pub restored_pipeline : PipelineEntry → PipelineEntry → PipelineEntry
restored_pipeline local b = record local { name = b.name; active = b.active; models = b.models }
