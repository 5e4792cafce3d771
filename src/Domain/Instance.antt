-- ===== src/Domain/Instance.antt =====
-- internal/domain/instance.go and launch_instance_entry.go: a launch of a model, its states and its
-- stored form. A string that serves as an enumeration is a data type, with a constructor for any
-- other string. A time is the number of nanoseconds since Go's zero time; time.Now() is an argument.
pub mod States
pub mod Stored
use goal_starter.Prelude.{
  ℕ, zero, suc, Bool, true, false, Option, none, some, List, [], ◌∷◌, ◌++◌, map, Text, lit, Dict, ℤ,
  pos, is_zero, if◌then◌else◌,
}

abbrev pub Time : Type 0
Time = ℕ

abbrev pub zero_time : Time
zero_time = 0

pub data InstanceState : Type 0 where
  pending starting running stopping exited failed unknown stale orphan : InstanceState
  other : Text → InstanceState

abbrev pub is_live : InstanceState → Bool
is_live starting = true
is_live running = true
is_live stopping = true
is_live _ = false

abbrev pub is_in_flight : InstanceState → Bool
is_in_flight pending = true
is_in_flight starting = true
is_in_flight running = true
is_in_flight stopping = true
is_in_flight _ = false

abbrev pub is_running_or_starting : InstanceState → Bool
is_running_or_starting starting = true
is_running_or_starting running = true
is_running_or_starting _ = false

abbrev pub is_terminal : InstanceState → Bool
is_terminal exited = true
is_terminal failed = true
is_terminal stale = true
is_terminal _ = false

pub data ExitClass : Type 0 where
  normal failure killed timeout context error signaled : ExitClass
  unset : ExitClass
  other_class : Text → ExitClass

pub record LaunchInstance : Type 0 where
  pub id : Text
  pub model_id : Text
  pub model_name : Text
  pub runtime_id : Text
  pub pipeline_id : Text
  pub pipeline_entry_id : Text
  pub pid : ℤ
  pub state : InstanceState
  pub started_at : Time
  pub stopped_at : Time
  pub exit_code : Option ℤ
  pub exit_class : ExitClass
  pub last_error : Text
  pub executable : Text
  pub args : List Text
  pub working_directory : Text
  pub environment : Dict Text
  pub created_at : Time
  pub updated_at : Time
  pub recovery_reason : Text

-- The switch of UpdateState; `later` is its second time.Now().
dispatch_state : InstanceState → Time → LaunchInstance → LaunchInstance
dispatch_state starting later i = record i {
  stopped_at = zero_time;
  exit_code = none;
  exit_class = unset;
  last_error = [];
}
dispatch_state running later i = record i {
  stopped_at = zero_time;
  exit_code = none;
  exit_class = unset;
  last_error = [];
}
dispatch_state stopping later i = record i {
  stopped_at = zero_time;
  exit_code = none;
  exit_class = unset;
  last_error = [];
}
dispatch_state orphan later i = record i {
  stopped_at = zero_time;
  exit_code = none;
  exit_class = unset;
  last_error = [];
}
dispatch_state exited later i = record i { stopped_at = later }
dispatch_state failed later i = record i { stopped_at = later }
dispatch_state stale later i = record i { stopped_at = later }
dispatch_state _ later i = i

unfoldable pub update_state : InstanceState → Time → Time → LaunchInstance → LaunchInstance
unfolding dispatch_state
update_state state now later i =
    dispatch_state state later (record i { state = state; updated_at = now })

unfoldable pub update_error : Text → ExitClass → Time → LaunchInstance → LaunchInstance
update_error message exit_cls now i = record i {
  last_error = message;
  exit_class = exit_cls;
  updated_at = now;
}

unfoldable pub fail : Text → ExitClass → Time → LaunchInstance → LaunchInstance
fail message exit_cls now i = record i {
  last_error = message;
  exit_class = exit_cls;
  state = failed;
  stopped_at = now;
  updated_at = now;
}

unfoldable pub environment_to_list : LaunchInstance → List Text
environment_to_list i = map (λ (e : Text × Text). e.0 ++ lit "=" ++ e.1) i.environment

pub record LaunchInstanceEntry : Type 0 where
  pub id : Text
  pub model_id : Text
  pub model_name : Text
  pub runtime_id : Text
  pub pipeline_id : Text
  pub pipeline_entry_id : Text
  pub executable : Text
  pub args : List Text
  pub working_directory : Text
  pub environment : Dict Text
  pub state : InstanceState
  pub pid : ℤ
  pub exit_code : ℤ
  pub exit_class : ExitClass
  pub last_error : Text
  pub started_at : Time
  pub stopped_at : Time
  pub created_at : Time
  pub updated_at : Time
  pub recovery_reason : Text

stored_exit_code : Option ℤ → ℤ
stored_exit_code none = pos 0
stored_exit_code (some code) = code

loaded_exit_code : ℤ → Option ℤ
loaded_exit_code code = if is_zero code then none else some code

-- The environment is not stored.
unfoldable pub to_storage_entry : LaunchInstance → LaunchInstanceEntry
unfolding stored_exit_code
to_storage_entry i = record {
  id = i.id;
  model_id = i.model_id;
  model_name = i.model_name;
  runtime_id = i.runtime_id;
  pipeline_id = i.pipeline_id;
  pipeline_entry_id = i.pipeline_entry_id;
  executable = i.executable;
  args = i.args;
  working_directory = i.working_directory;
  environment = [];
  state = i.state;
  pid = i.pid;
  exit_code = stored_exit_code i.exit_code;
  exit_class = i.exit_class;
  last_error = i.last_error;
  started_at = i.started_at;
  stopped_at = i.stopped_at;
  created_at = i.created_at;
  updated_at = i.updated_at;
  recovery_reason = i.recovery_reason;
}

unfoldable pub to_domain : LaunchInstanceEntry → LaunchInstance
unfolding loaded_exit_code
to_domain e = record {
  id = e.id;
  model_id = e.model_id;
  model_name = e.model_name;
  runtime_id = e.runtime_id;
  pipeline_id = e.pipeline_id;
  pipeline_entry_id = e.pipeline_entry_id;
  pid = e.pid;
  state = e.state;
  started_at = e.started_at;
  stopped_at = e.stopped_at;
  exit_code = loaded_exit_code e.exit_code;
  exit_class = e.exit_class;
  last_error = e.last_error;
  executable = e.executable;
  args = e.args;
  working_directory = e.working_directory;
  environment = e.environment;
  created_at = e.created_at;
  updated_at = e.updated_at;
  recovery_reason = e.recovery_reason;
}
