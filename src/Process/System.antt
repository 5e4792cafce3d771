-- ===== src/Process/System.antt =====
-- The supervisor as a state machine: the steps that its goroutines take, in any interleaving.
pub mod Registry
pub mod Quiets
pub mod Launches
pub mod Exclusion
pub mod Claims
pub mod Grants
pub mod Tokens
pub mod Admission
pub mod Drain
use goal_starter.Prelude.{
  ℕ, ◌≡◌, ◌⊎◌, Bool, true, false, Option, none, some, List, [], ◌∷◌, Text, ℤ,
}
use goal_starter.Domain.Instance.{LaunchInstance, InstanceState, ExitClass, Time, is_in_flight}
use goal_starter.Domain.Owner.{LaunchOwner}
use goal_starter.Process.Controller.{
  InstanceController, SpawnClaim, new_controller, set_state_locked, set_terminal_locked,
  fail_locked, set_error_locked, set_last_error_locked, set_run_locked,
}
use goal_starter.Process.Controller.Views.{
  Mutation, mutate, state, terminal, failure, error, last_error, run, operation, release,
}
use goal_starter.Process.Arbitration.{
  Supervisor, controller_at, without, put, conflict_visible, new_admission_claimant, arbitrate,
  set_controller,
}
use goal_starter.Process.Arbitration.Exclusive.{Owns}
use goal_starter.Domain.Instance.States.{SameLaunch}
use goal_starter.Process.Restart.{restart}
use goal_starter.Process.Commit.{
  commit_spawn, abort_terminalize, forget_controller, abort_spend, release_launch_operation,
  begin_drain,
}

-- What the lifecycle work that is not modelled does to a controller: it enters a state in flight only
-- from one in flight or inside an operation, its terminal results are not in flight, and it publishes
-- no operation.
abbrev pub Allowed : InstanceController → Mutation → Type 0
Allowed ic (state s now later) = (is_in_flight s ≡ false) ⊎ (conflict_visible ic ≡ true)
Allowed ic (terminal s pid code cls e now) = is_in_flight s ≡ false
Allowed ic (operation op) = ⊥
Allowed ic (release op_id) = ⊥
Allowed ic _ = Unit

-- A controller that a goroutine holds: in the registry, or out of it.
abbrev pub Held : InstanceController → Supervisor → Type 0
Held ic s =
    (controller_at ic.instance_id s.instances ≡ some ic)
    ⊎ ((controller_at ic.instance_id s.instances ≡ none)
        × (controller_at ic.instance_id s.departed ≡ some ic))

-- One step is what a goroutine does in one critical section; the steps of several interleave.
pub data Step (s : Supervisor) : Supervisor → Type 0 where
  -- AdmitAndStart up to the claim, for an instance with a new ID
  admit :
      (inst : LaunchInstance) (owner : LaunchOwner)
      → Owns owner inst
      → controller_at inst.id s.instances ≡ none
      → Step s
          (arbitrate
            (new_admission_claimant inst.model_id (new_controller s.identity inst) owner)
            s).1
  -- restart from a snapshot, old or new, to the claim
  restart_target :
      (snap : LaunchInstance) (ic : InstanceController)
      → Held ic s
      → SameLaunch ic.view.instance snap
      → Step s (restart snap ic s).1
  -- startCore up to the commit
  commit :
      (now later : Time) (claim : Option SpawnClaim) (ic : InstanceController)
      → Held ic s
      → Step s (commit_spawn now later claim ic s).1
  -- the first section of a clean-up of an admitted launch, and the third
  abort : (now : Time) (ic : InstanceController) → Held ic s → Step s (abort_terminalize now ic s)
  give_back : (ic : InstanceController) → Held ic s → Step s (abort_spend ic s)
  -- a controller leaves the registry: the second section, forgetController
  forget : (id : Text) → Step s (forget_controller id s)
  -- the end of a launch operation
  release_operation :
      (op_id : ℕ) (ic : InstanceController)
      → Held ic s
      → Step s (release_launch_operation op_id ic s)
  -- the start of a shutdown, and the end of the lifecycle context
  drain : Step s (begin_drain s)
  end_lifecycle : Step s (record s { lifecycle_ended = true })
  -- lifecycle work on a controller
  work :
      (m : Mutation) (ic : InstanceController)
      → Held ic s
      → Allowed ic m
      → Step s (set_controller (mutate m ic) s)

pub data Reach (s : Supervisor) : Supervisor → Type 0 where
  here : Reach s s
  next : {t u : Supervisor} → Reach s t → Step t u → Reach s u

-- A supervisor as NewSupervisor makes it.
pub record IsFresh (s : Supervisor) : Type 0 where
  pub no_instances : s.instances ≡ []
  pub none_departed : s.departed ≡ []
  pub not_draining : s.draining ≡ false
  pub none_pre_spawn : s.pre_spawn_in_flight ≡ 0
  pub zero_open : s.zero_closed ≡ false
