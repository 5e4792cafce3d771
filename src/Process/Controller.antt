-- ===== src/Process/Controller.antt =====
-- The controller of one launch instance (internal/process/supervisor.go, and the operation records
-- of arbitration.go). The OS process manager and the goroutines are not modelled.
pub mod Views
use goal_starter.Prelude.{
  ℕ, zero, suc, ◌+◌, ◌%◌, ◌^◌, Bool, true, false, Option, none, some, List, [], ◌∷◌, Text, ℤ, ◌==◌,
  ◌==ᵗ◌, if◌then◌else◌,
}
use goal_starter.Domain.Instance.{
  LaunchInstance, InstanceState, ExitClass, Time, update_state, update_error, fail,
}
use goal_starter.Prelude.{◌==ᵗ◌}
use goal_starter.Domain.Command.{CommandSpec, env_map}
use goal_starter.Domain.Owner.{LaunchOwner}

-- A spawn authorization. It is passed by pointer: `address` is its identity. Whether it is consumed
-- is kept in the supervisor's state, by address.
pub record SpawnClaim : Type 0 where
  pub address : ℕ
  pub sup : ℕ
  pub model_id : Text
  pub owner : LaunchOwner
  pub instance_id : Text
  pub op_id : ℕ
  pub restart : Bool

pub record LaunchOperation : Type 0 where
  pub id : ℕ
  pub owner : LaunchOwner
  pub claim : SpawnClaim

-- lifecycleView; a run is its identity.
pub record LifecycleView : Type 0 where
  pub instance : LaunchInstance
  pub generation : ℕ
  pub run : Option ℕ
  pub active : Option LaunchOperation

pub record InstanceController : Type 0 where
  pub instance : LaunchInstance
  pub instance_id : Text
  pub model_id : Text
  pub supervisor_ref : ℕ
  pub active : Option LaunchOperation
  pub run : Option ℕ
  pub view : LifecycleView
  pub view_generation : ℕ
  pub pre_spawn_token : Bool

-- viewGeneration is a uint64.
unfoldable pub publish_locked : InstanceController → InstanceController
publish_locked ic = record ic {
  view_generation = (ic.view_generation + 1) % 2 ^ 64;
  view = record {
    instance = ic.instance;
    generation = (ic.view_generation + 1) % 2 ^ 64;
    run = ic.run;
    active = ic.active;
  };
}

unfoldable pub set_state_locked :
    InstanceState → Time → Time → InstanceController → InstanceController
unfolding publish_locked
set_state_locked state now later ic =
    publish_locked (record ic { instance = update_state state now later ic.instance })

unfoldable pub set_terminal_locked :
    InstanceState → ℤ → Option ℤ → ExitClass → Text → Time → InstanceController → InstanceController
unfolding publish_locked
set_terminal_locked state pid exit_code cls last_error now ic = publish_locked (record ic {
  instance = record ic.instance {
    pid = pid;
    exit_code = exit_code;
    exit_class = cls;
    last_error = last_error;
    state = state;
    stopped_at = now;
    updated_at = now;
  };
})

unfoldable pub fail_locked : Text → ExitClass → Time → InstanceController → InstanceController
unfolding publish_locked
fail_locked cause cls now ic =
    publish_locked (record ic { instance = fail cause cls now ic.instance })

unfoldable pub set_error_locked : Text → ExitClass → Time → InstanceController → InstanceController
unfolding publish_locked
set_error_locked message cls now ic =
    publish_locked (record ic { instance = update_error message cls now ic.instance })

unfoldable pub set_last_error_locked : Text → InstanceController → InstanceController
unfolding publish_locked
set_last_error_locked message ic =
    publish_locked (record ic { instance = record ic.instance { last_error = message } })

unfoldable pub set_run_locked : Option ℕ → InstanceController → InstanceController
unfolding publish_locked
set_run_locked run ic = publish_locked (record ic { run = run })

unfoldable pub set_operation_locked : LaunchOperation → InstanceController → InstanceController
unfolding publish_locked
set_operation_locked op ic = publish_locked (record ic { active = some op })

abbrev owns : ℕ → Option LaunchOperation → Bool
owns op_id none = false
owns op_id (some op) = op.id == op_id

unfoldable pub clear_operation_locked : ℕ → InstanceController → InstanceController
unfolding publish_locked
clear_operation_locked op_id ic =
    if owns op_id ic.active then publish_locked (record ic { active = none }) else ic

-- setLaunchFieldsLocked with specEnvironmentMap: a restart's new command.
unfoldable pub set_launch_fields_locked :
    Text → CommandSpec → InstanceController → InstanceController
unfolding publish_locked
set_launch_fields_locked runtime_id spec ic = publish_locked (record ic {
  instance = record ic.instance {
    runtime_id = if runtime_id ==ᵗ [] then ic.instance.runtime_id else runtime_id;
    executable = spec.executable;
    args = spec.args;
    working_directory = spec.working_directory;
    environment = env_map spec.environment [];
  };
})

-- NewInstanceController and the back reference that newController sets: the first view is published
-- before the controller can be reached.
unfoldable pub new_controller : ℕ → LaunchInstance → InstanceController
unfolding publish_locked
new_controller sup inst = publish_locked (record {
  instance = inst;
  instance_id = inst.id;
  model_id = inst.model_id;
  supervisor_ref = sup;
  active = none;
  run = none;
  view = record { instance = inst; generation = 0; run = none; active = none };
  view_generation = 0;
  pre_spawn_token = false;
})
