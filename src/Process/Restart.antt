-- ===== src/Process/Restart.antt =====
-- The arbitration side of a restart: internal/process/arbitration.go (instanceOwner,
-- PreflightRestart) and supervisor.go (controllerFor, restart up to the claim).
use goal_starter.Prelude.{Option, none, some, List, [], ◌∷◌, Text, ◌==ᵗ◌, if◌then◌else◌}
use goal_starter.Domain.Instance.{LaunchInstance}
use goal_starter.Domain.Owner.{LaunchOwner, manual_owner, pipeline_owner}
use goal_starter.Process.Errors.{ProcessError, not_restartable, instance_not_found, Result, ok, err}
use goal_starter.Process.Controller.{InstanceController, SpawnClaim}
use goal_starter.Process.Arbitration.{
  Supervisor, controller_at, new_restart_claimant, check_restart_target, arbitrate,
}

unfoldable pub instance_owner : LaunchInstance → Result LaunchOwner
instance_owner snap =
    if snap.pipeline_id ==ᵗ []
    then ok manual_owner
    else if snap.pipeline_entry_id ==ᵗ []
    then err (not_restartable snap.id)
    else ok (pipeline_owner snap.pipeline_id snap.pipeline_entry_id)

unfoldable pub controller_for : Text → Supervisor → Result InstanceController
controller_for id s = elim (controller_at id s.instances) [
  | none ↦ err (instance_not_found id)
  | some ctrl ↦ ok ctrl
]

-- What restart does with the owner that the snapshot names.
unfoldable pub restart_with :
    InstanceController → Text → Result LaunchOwner → Supervisor → Result SpawnClaim × Supervisor
restart_with ctrl model_id (err e) s = (err e, s)
restart_with ctrl model_id (ok owner) s = arbitrate (new_restart_claimant ctrl model_id owner) s

-- restart up to the claim that it hands to the lifecycle work: `snap` is what ctrl.Snapshot()
-- returned, and `ctrl` is the controller of the arbitration. Restart has got it from controllerFor
-- earlier, so it may have left the registry since.
unfoldable pub restart :
    LaunchInstance → InstanceController → Supervisor → Result SpawnClaim × Supervisor
restart snap ctrl s = restart_with ctrl snap.model_id (instance_owner snap) s

-- The preconditions of one target; `none` is no error.
unfoldable pub preflight_target : Text → Supervisor → Option ProcessError
preflight_target id s = elim (controller_for id s) [
  | err e ↦ some e
  | ok ctrl ↦ elim (instance_owner ctrl.view.instance) [
    | err e ↦ some e
    | ok owner ↦ check_restart_target ctrl
  ]
]

unfoldable pub preflight_restart : List Text → Supervisor → Option ProcessError
preflight_restart [] s = none
preflight_restart (id ∷ ids) s = elim (preflight_target id s) [
  | some e ↦ some e
  | none ↦ preflight_restart ids s
]
