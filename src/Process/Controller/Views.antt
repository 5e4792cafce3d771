-- ===== src/Process/Controller/Views.antt =====
-- Every operation on a controller leaves its published view equal to its state.
use goal_starter.Prelude.{ℕ, ◌≡◌, refl, Option, List, [], ◌∷◌, Text, ℤ, arith}
use goal_starter.Domain.Instance.{LaunchInstance, InstanceState, ExitClass, Time}
use goal_starter.Domain.Command.{CommandSpec}
use goal_starter.Process.Controller.{
  set_launch_fields_locked, InstanceController, LaunchOperation, publish_locked, set_state_locked,
  set_terminal_locked, fail_locked, set_error_locked, set_last_error_locked, set_run_locked,
  set_operation_locked, clear_operation_locked, new_controller,
}

-- What a reader of the view sees is the controller's state.
pub record IsPublished (ic : InstanceController) : Type 0 where
  pub same_instance : ic.view.instance ≡ ic.instance
  pub same_run : ic.view.run ≡ ic.run
  pub same_active : ic.view.active ≡ ic.active
  pub same_generation : ic.view.generation ≡ ic.view_generation

-- The mutations of a controller, as values. The writes of PID and StartedAt by startCore stand with the
-- setStateLocked that publishes them in one critical section, and are not among these.
pub data Mutation : Type 0 where
  state : InstanceState → Time → Time → Mutation
  terminal : InstanceState → ℤ → Option ℤ → ExitClass → Text → Time → Mutation
  failure : Text → ExitClass → Time → Mutation
  error : Text → ExitClass → Time → Mutation
  last_error : Text → Mutation
  run : Option ℕ → Mutation
  launch_fields : Text → CommandSpec → Mutation
  operation : LaunchOperation → Mutation
  release : ℕ → Mutation

abbrev pub mutate : Mutation → InstanceController → InstanceController
mutate (state s now later) ic = set_state_locked s now later ic
mutate (terminal s pid code cls e now) ic = set_terminal_locked s pid code cls e now ic
mutate (failure cause cls now) ic = fail_locked cause cls now ic
mutate (error message cls now) ic = set_error_locked message cls now ic
mutate (last_error message) ic = set_last_error_locked message ic
mutate (run r) ic = set_run_locked r ic
mutate (launch_fields runtime_id spec) ic = set_launch_fields_locked runtime_id spec ic
mutate (operation op) ic = set_operation_locked op ic
mutate (release op_id) ic = clear_operation_locked op_id ic

-- Every mutation of a controller ends with a view that shows its state.
pub mutate-IsPublished :
    (m : Mutation) (ic : InstanceController) → IsPublished ic → IsPublished (mutate m ic)
unfolding set_state_locked set_terminal_locked fail_locked set_error_locked set_last_error_locked
    set_launch_fields_locked set_run_locked set_operation_locked clear_operation_locked
    publish_locked
mutate-IsPublished (state s now later) ic h = record {
  same_instance = refl;
  same_run = refl;
  same_active = refl;
  same_generation = refl;
}
mutate-IsPublished (release op_id) ic h = ground arith
mutate-IsPublished _ ic h = record {
  same_instance = refl;
  same_run = refl;
  same_active = refl;
  same_generation = refl;
}

-- So does a new controller.
pub new_controller-IsPublished :
    (sup : ℕ) (inst : LaunchInstance) → IsPublished (new_controller sup inst)
unfolding new_controller
new_controller-IsPublished sup inst = record {
  same_instance = refl;
  same_run = refl;
  same_active = refl;
  same_generation = refl;
}

pub mutate_all : List Mutation → InstanceController → InstanceController
mutate_all [] ic = ic
mutate_all (m ∷ ms) ic = mutate_all ms (mutate m ic)

mutate_all-IsPublished :
    (ms : List Mutation) (ic : InstanceController) → IsPublished ic → IsPublished (mutate_all ms ic)
unfolding mutate_all
mutate_all-IsPublished [] ic h = h
mutate_all-IsPublished (m ∷ ms) ic h =
    mutate_all-IsPublished ms (mutate m ic) (mutate-IsPublished m ic h)

-- From its creation on, after any mutations, a controller's published view shows its instance, run
-- and operation as they are, under the current generation number.
pub history-IsPublished :
    (sup : ℕ) (inst : LaunchInstance) (ms : List Mutation)
    → IsPublished (mutate_all ms (new_controller sup inst))
history-IsPublished sup inst ms =
    mutate_all-IsPublished ms (new_controller sup inst) (new_controller-IsPublished sup inst)
