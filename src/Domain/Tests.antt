-- ===== src/Domain/Tests.antt =====
-- Templates, states, entries and patches at concrete inputs (internal/domain).
use goal_starter.Domain.Command.{
  Model, Runtime, Host, CommandSpec, resolve, resolved, resolve_fields, resolve_executable_path,
  command_environment, overlay, normalize_key, environ_entries, to_env_list,
}
use goal_starter.Domain.Command.Layers.{layer_value, lookup-command_environment}
use goal_starter.Domain.Command.Resolved.{Parts, resolve-Parts}
use goal_starter.Domain.VarResolve.{combined_source, builtin_source}
use goal_starter.Prelude.{◌==◌, insert, lookup, contains, cut}
use goal_starter.Prelude.{
  ◌≡◌, ◌≢◌, refl, true, false, none, some, List, [], ◌∷◌, ◌++◌, lit, pos, All, lookup, contains,
  cut, ◌==ᵗ◌, if◌then◌else◌,
}
use goal_starter.Domain.Instance.{
  LaunchInstance, LaunchInstanceEntry, exited, normal, to_storage_entry, to_domain,
}
use goal_starter.Domain.Instance.Stored.{drop_zero, to_domain-to_storage_entry}
use goal_starter.Domain.EnvPatch.{EnvPatchOp, set, delete}
use goal_starter.Domain.VarResolve.{
  Source, ok, err, undefined, out_of_fuel, is_letter, is_word, all_word, is_valid_var_name,
  reference, resolve_loop, resolve_string, resolve_string_field, resolve_args, resolve_args_loop,
  any_dollar, resolve_env_values, resolve_env_loop, any_value_dollar, new_variable_source,
}
use goal_starter.Domain.VarResolve.Loop.{resolve_string-ne-out_of_fuel}
use goal_starter.Domain.VarResolve.Template.{
  Token, plain, escaped_dollar, ref, IsToken, print, eval, resolve_string-print,
}

-- HOME is /h, and nothing else is known.
abbrev home : Source
home name = if name ==ᵗ lit "HOME" then some (lit "/h") else none

-- ${HOME}/$$x
abbrev template : List Token
template = ref (lit "HOME") ∷ plain 47 ∷ escaped_dollar ∷ plain 120 ∷ []

template-IsToken : All IsToken template
unfolding is_valid_var_name is_letter all_word is_word
template-IsToken = (refl, ((λ e. cc), (tt, ((λ e. cc), tt))))

abbrev instance : LaunchInstance
instance = record {
  id = lit "a";
  model_id = lit "m";
  model_name = lit "model";
  runtime_id = lit "r";
  pipeline_id = [];
  pipeline_entry_id = [];
  pid = pos 42;
  state = exited;
  started_at = 5;
  stopped_at = 9;
  exit_code = some (pos 0);
  exit_class = normal;
  last_error = lit "bye";
  executable = lit "/bin/model";
  args = lit "-v" ∷ [];
  working_directory = [];
  environment = (lit "A", lit "1") ∷ [];
  created_at = 5;
  updated_at = 9;
  recovery_reason = [];
}

abbrev entry : LaunchInstanceEntry
entry = to_storage_entry instance

abbrev patch : List EnvPatchOp
patch =
    record { key = lit "A"; action = delete; value = none }
    ∷ record { key = lit "B"; action = set; value = some (lit "2") }
    ∷ []

resolve_template : resolve_string (lit "${HOME}/$$x") home ≡ ok (lit "/h/$x")
unfolding resolve_string resolve_loop reference contains cut is_valid_var_name is_letter all_word
    is_word ◌==ᵗ◌
resolve_template = refl

resolve_unknown : resolve_string (lit "a${NO}") home ≡ err (undefined (lit "NO") [])
unfolding resolve_string resolve_loop reference contains cut is_valid_var_name is_letter all_word
    is_word ◌==ᵗ◌
resolve_unknown = refl

resolve_string-print_example : resolve_string (print template) home ≡ eval home template []
resolve_string-print_example = resolve_string-print home template template-IsToken

template_value : eval home template [] ≡ ok (lit "/h/$x")
unfolding eval ◌==ᵗ◌
template_value = refl

resolve_string-ne-out_of_fuel_example : resolve_string (lit "${${") home ≢ err out_of_fuel
resolve_string-ne-out_of_fuel_example = resolve_string-ne-out_of_fuel (lit "${${") home

args_resolved :
    resolve_args (lit "-v" ∷ lit "$$" ∷ []) (lit "args") home ≡ ok (lit "-v" ∷ lit "$" ∷ [])
unfolding resolve_args resolve_args_loop any_dollar resolve_string_field resolve_string resolve_loop
    contains
args_resolved = refl

env_resolved :
    resolve_env_values ((lit "K", lit "$$") ∷ []) (lit "env") home ≡ ok ((lit "K", lit "$") ∷ [])
unfolding resolve_env_values resolve_env_loop any_value_dollar resolve_string_field resolve_string
    resolve_loop contains
env_resolved = refl

to_domain-to_storage_entry_example :
    to_domain (to_storage_entry instance)
    ≡ record instance { environment = []; exit_code = drop_zero (some (pos 0)) }
to_domain-to_storage_entry_example = to_domain-to_storage_entry instance

abbrev host : Host
host = record {
  env_case_insensitive = false;
  data_dir = lit "/d";
  lookup_env = home;
  environ = lit "PATH=/bin" ∷ lit "odd" ∷ [];
  is_abs = λ t. elim t [ [] ↦ false | c ∷ l ↦ c == 47 ];
  join = λ a b. a ++ lit "/" ++ b;
  to_upper = λ t. t;
}

abbrev sample_runtime : Runtime
sample_runtime = record {
  id = lit "r";
  name = lit "r";
  executable = lit "server";
  working_directory = lit "${GOAL_DATA}";
  environment = (lit "PATH", lit "/opt") ∷ [];
  created_at = 1;
  updated_at = 1;
}

abbrev sample_model : Model
sample_model = record {
  id = lit "m";
  name = lit "m";
  runtime_id = lit "r";
  args = lit "-v" ∷ [];
  environment = [];
  active = true;
  autostart_delay = pos 0;
  pipeline_id = [];
  pipeline_entry_id = [];
  created_at = 1;
  updated_at = 1;
}

abbrev spec : CommandSpec
spec = record {
  executable = lit "/d/server";
  args = lit "-v" ∷ lit "$" ∷ [];
  working_directory = lit "/d";
  environment = lit "PATH=/opt" ∷ [];
}

resolved_command :
    resolve host (some sample_model) (some sample_runtime) (lit "$$" ∷ []) [] ≡ resolved spec
unfolding resolve resolve_fields resolve_executable_path command_environment overlay normalize_key
    environ_entries to_env_list new_variable_source combined_source builtin_source
    resolve_string_field resolve_string resolve_loop reference is_valid_var_name is_letter all_word
    is_word contains cut resolve_args resolve_args_loop any_dollar resolve_env_values
    resolve_env_loop any_value_dollar lookup insert ◌==ᵗ◌
resolved_command = refl

resolve-Parts_example :
    Parts host sample_model sample_runtime (lit "$$" ∷ []) [] spec
    × ((sample_runtime.executable ==ᵗ []) ≡ false)
resolve-Parts_example =
    resolve-Parts host sample_model sample_runtime (lit "$$" ∷ []) [] {spec = spec} resolved_command

lookup-command_environment_example :
    lookup (lit "PATH") (command_environment host sample_runtime.environment [] [])
    ≡ layer_value host [] (lit "PATH") (
        layer_value host [] (lit "PATH") (
          layer_value host sample_runtime.environment
            (lit "PATH")
            (layer_value host (environ_entries host.environ) (lit "PATH") none)))
lookup-command_environment_example =
    lookup-command_environment host sample_runtime.environment [] [] (lit "PATH")
