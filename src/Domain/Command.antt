-- ===== src/Domain/Command.antt =====
-- internal/domain/command.go, model.go and runtime.go: the resolution of a model and a runtime to
-- a command. What the code takes from the operating system and from the Go library is the record
-- Host; a map is walked in the order of its entries.
pub mod Layers
pub mod Resolved
use goal_starter.Prelude.{
  ℕ, Bool, true, false, Option, none, some, List, [], ◌∷◌, ◌++◌, map, Text, lit, cut, Dict, insert,
  ℤ, ◌==ᵗ◌, if◌then◌else◌,
}
use goal_starter.Prelude.{pos}
use goal_starter.Domain.Instance.{Time, LaunchInstance, pending, unset, zero_time}
use goal_starter.Domain.VarResolve.{
  Source, VarError, Result, ok, err, new_variable_source, resolve_string_field, resolve_args,
  resolve_env_values, ◌>>=◌,
}

pub record Model : Type 0 where
  pub id : Text
  pub name : Text
  pub runtime_id : Text
  pub args : List Text
  pub environment : Dict Text
  pub active : Bool
  pub autostart_delay : ℤ
  pub pipeline_id : Text
  pub pipeline_entry_id : Text
  pub created_at : Time
  pub updated_at : Time

pub record Runtime : Type 0 where
  pub id : Text
  pub name : Text
  pub executable : Text
  pub working_directory : Text
  pub environment : Dict Text
  pub created_at : Time
  pub updated_at : Time

pub record CommandSpec : Type 0 where
  pub executable : Text
  pub args : List Text
  pub working_directory : Text
  pub environment : List Text

-- LaunchResolver, os.LookupEnv, os.Environ, filepath.IsAbs, filepath.Join and strings.ToUpper.
pub record Host : Type 0 where
  pub env_case_insensitive : Bool
  pub data_dir : Text
  pub lookup_env : Source
  pub environ : List Text
  pub is_abs : Text → Bool
  pub join : Text → Text → Text
  pub to_upper : Text → Text

pub data ResolveFailure : Type 0 where
  model_required runtime_required executable_empty : ResolveFailure
  variable : VarError → ResolveFailure

pub data Resolution : Type 0 where
  resolved : CommandSpec → Resolution
  failed : ResolveFailure → Resolution

unfoldable pub resolve_executable_path : Host → Text → Text → Text
resolve_executable_path h executable working_dir =
    if h.is_abs executable
    then executable
    else if working_dir ==ᵗ []
    then executable
    else h.join working_dir executable

unfoldable pub normalize_key : Host → Text → Text
normalize_key h key = if h.env_case_insensitive then h.to_upper key else key

-- `for k, v := range layer { envMap[r.normalizeKey(k)] = v }`
unfoldable pub overlay : Host → Dict Text → Dict Text → Dict Text
unfolding normalize_key
overlay h [] env = env
overlay h ((k, v) ∷ layer) env = overlay h layer (insert (normalize_key h k) v env)

abbrev pub equals_sign : ℕ
equals_sign = 61

-- The variables of os.Environ(): what has no '=' is passed over.
unfoldable pub environ_entries : List Text → Dict Text
environ_entries [] = []
environ_entries (ev ∷ l) = elim (cut equals_sign ev) [
  | none ↦ environ_entries l
  | some (k, v) ↦ (k, v) ∷ environ_entries l
]

-- The environment of a command: the process's own, then the runtime's, the model's and the caller's.
unfoldable pub command_environment : Host → Dict Text → Dict Text → Dict Text → Dict Text
unfolding overlay environ_entries
command_environment h rt_env model_env cust_env =
    overlay h cust_env
      (overlay h model_env (overlay h rt_env (overlay h (environ_entries h.environ) [])))

unfoldable pub to_env_list : Dict Text → List Text
to_env_list env = map (λ (e : Text × Text). e.0 ++ lit "=" ++ e.1) env

-- The fields in the order in which they are resolved; the first that fails is the error.
unfoldable pub resolve_fields : Host → Model → Runtime → List Text → Dict Text → Result CommandSpec
resolve_fields h model runtime custom_args custom_env =
    let src = new_variable_source h.lookup_env h.data_dir in
    do
      exe ← resolve_string_field runtime.executable (lit "runtime.executable") src
      wd ← resolve_string_field runtime.working_directory (lit "runtime.working_directory") src
      rt_env ← resolve_env_values runtime.environment (lit "runtime.environment") src
      model_args ← resolve_args model.args (lit "model.args") src
      cust_args ← resolve_args custom_args (lit "custom.args") src
      model_env ← resolve_env_values model.environment (lit "model.environment") src
      cust_env ← resolve_env_values custom_env (lit "custom.environment") src
      ok (record {
        executable = resolve_executable_path h exe wd;
        args = model_args ++ cust_args;
        working_directory = wd;
        environment = to_env_list (command_environment h rt_env model_env cust_env);
      })

abbrev pub from_result : Result CommandSpec → Resolution
from_result (err e) = failed (variable e)
from_result (ok spec) = resolved spec

unfoldable pub resolve : Host → Option Model → Option Runtime → List Text → Dict Text → Resolution
resolve h none runtime custom_args custom_env = failed model_required
resolve h (some model) none custom_args custom_env = failed runtime_required
resolve h (some model) (some runtime) custom_args custom_env =
    if runtime.executable ==ᵗ []
    then failed executable_empty
    else from_result (resolve_fields h model runtime custom_args custom_env)

-- Preview, which is Resolve without the variables of os.Environ().
unfoldable pub preview : Host → Option Model → Option Runtime → List Text → Dict Text → Resolution
preview h model runtime custom_args custom_env =
    resolve (record h { environ = [] }) model runtime custom_args custom_env

-- envMap[k] = v for every entry of the list that has a '='
unfoldable pub env_map : List Text → Dict Text → Dict Text
env_map [] env = env
env_map (ev ∷ l) env = elim (cut equals_sign ev) [
  | none ↦ env_map l env
  | some (k, v) ↦ env_map l (insert k v env)
]

-- ResolveToInstance after a successful Resolve; `stamp` is what follows the model's ID in the new ID.
unfoldable pub resolved_instance :
    Text → Time → Time → Model → Runtime → CommandSpec → LaunchInstance
unfolding env_map
resolved_instance stamp now later model runtime spec = record {
  id = model.id ++ lit "-" ++ stamp;
  model_id = model.id;
  model_name = model.name;
  runtime_id = runtime.id;
  pipeline_id = model.pipeline_id;
  pipeline_entry_id = model.pipeline_entry_id;
  pid = pos 0;
  state = pending;
  started_at = zero_time;
  stopped_at = zero_time;
  exit_code = none;
  exit_class = unset;
  last_error = [];
  executable = spec.executable;
  args = spec.args;
  working_directory = spec.working_directory;
  environment = env_map spec.environment [];
  created_at = now;
  updated_at = later;
  recovery_reason = [];
}
