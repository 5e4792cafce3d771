-- ===== src/Process/Arbitration.antt =====
-- The launch arbitration of the supervisor: internal/process/arbitration.go, and of supervisor.go the
-- compatibility matrix, the spawn commit of startCore, and the shutdown drain.
--
-- Each function below is what one critical section does; the locks themselves are not modelled. The
-- registry s.instances is a list of controllers with different instance IDs; the code's map walks it
-- in any order. What the store answers to ListByModelID is the field `store`: none for no store, and
-- none inside for an error.
pub mod Registered
pub mod Exclusive
pub mod Granted
use goal_starter.Prelude.{
  ℕ, zero, suc, ◌+◌, ◌-◌, ◌%◌, ◌^◌, Bool, true, false, not, ◌&&◌, ◌||◌, Option, none, some, is_some,
  List, [], ◌∷◌, ◌++◌, Text, select, ltb, ◌==◌, ◌==ᵗ◌, if◌then◌else◌,
}
use goal_starter.Domain.Instance.{
  LaunchInstance, LaunchInstanceEntry, InstanceState, pending, starting, running, stopping, exited,
  failed, orphan, Time, error, is_in_flight, to_storage_entry,
}
use goal_starter.Domain.Owner.{
  LaunchOwner, OwnerKind, manual, pipeline, manual_owner, pipeline_owner, owner_eq,
}
use goal_starter.Process.Errors.{
  AdmissionRejection, in_flight, orphan_record, shutting_down, ClaimFault, no_claim,
  other_supervisor, other_model, other_instance, no_operation, other_generation, other_operation,
  other_owner, already_consumed, ProcessError, rejected, launch_in_flight, not_restartable,
  instance_not_found, claim_rejected, aborted_by_shutdown, Result, ok, err,
}
use goal_starter.Process.Controller.{
  SpawnClaim, LaunchOperation, InstanceController, set_operation_locked, clear_operation_locked,
  set_state_locked, fail_locked,
}

pub record Supervisor : Type 0 where
  pub identity : ℕ
  pub instances : List InstanceController
  pub departed : List InstanceController  -- deleted from s.instances, still held by pointers
  pub store : Option (Text → Option (List LaunchInstanceEntry))
  pub writes : List LaunchInstanceEntry  -- the store's Update calls, latest first
  pub lifecycle_ended : Bool  -- lifecycleContext().Err() != nil
  pub op_seq : ℕ  -- uint64
  pub next_address : ℕ  -- of the next claim
  pub consumed : List ℕ  -- addresses of the consumed claims
  pub draining : Bool
  pub pre_spawn_in_flight : ℕ
  pub zero_closed : Bool  -- zeroSig is closed

-- s.instances[id]
unfoldable pub controller_at : Text → List InstanceController → Option InstanceController
controller_at id [] = none
controller_at id (c ∷ l) = if c.instance_id ==ᵗ id then some c else controller_at id l

-- delete(s.instances, id)
unfoldable pub without : Text → List InstanceController → List InstanceController
without id l = select (λ c. not (c.instance_id ==ᵗ id)) l

-- s.instances[c.instanceID] = c
unfoldable pub put : InstanceController → List InstanceController → List InstanceController
unfolding without
put c l = c ∷ without c.instance_id l

unfoldable pub replace_held : InstanceController → List InstanceController → List InstanceController
replace_held c [] = []
replace_held c (d ∷ l) =
    let rest = replace_held c l in if d.instance_id ==ᵗ c.instance_id then c ∷ l else d ∷ rest

-- A change of a controller through its pointer, which does not ask whether the registry has it: a
-- registered one changes in the registry, one that has left it outside.
unfoldable pub set_controller : InstanceController → Supervisor → Supervisor
unfolding replace_held
set_controller c s =
    if is_some (controller_at c.instance_id s.instances)
    then record s { instances = put c s.instances }
    else record s { departed = replace_held c s.departed }

unfoldable pub compatible : LaunchOwner → LaunchInstance → Bool
compatible new_owner existing = elim new_owner.kind [
  | manual ↦ false
  | pipeline ↦
      not (existing.pipeline_id ==ᵗ [])
      && (existing.pipeline_id ==ᵗ new_owner.pipeline_id)
      && not (existing.pipeline_entry_id ==ᵗ [])
      && not (existing.pipeline_entry_id ==ᵗ new_owner.pipeline_entry_id)
]

pub data ClaimantMode : Type 0 where
  claim_new_admission claim_restart_existing : ClaimantMode

-- `ctrl.instance` is the field `inst` of a new admission.
pub record Claimant : Type 0 where
  pub mode : ClaimantMode
  pub model_id : Text
  pub instance_id : Text
  pub owner : LaunchOwner
  pub ctrl : InstanceController

unfoldable pub new_admission_claimant : Text → InstanceController → LaunchOwner → Claimant
new_admission_claimant model_id ctrl owner = record {
  mode = claim_new_admission;
  model_id = model_id;
  instance_id = ctrl.instance.id;
  owner = owner;
  ctrl = ctrl;
}

unfoldable pub new_restart_claimant : InstanceController → Text → LaunchOwner → Claimant
new_restart_claimant ctrl model_id owner = record {
  mode = claim_restart_existing;
  model_id = model_id;
  instance_id = ctrl.instance_id;
  owner = owner;
  ctrl = ctrl;
}

-- The condition on one candidate of scanConflicts: of the model, another instance, and in flight or
-- with an operation.
unfoldable pub conflict_visible : InstanceController → Bool
conflict_visible c = is_in_flight c.view.instance.state || is_some c.view.active

unfoldable pub conflicts : Claimant → InstanceController → Bool
conflicts c other =
    not (other.instance_id ==ᵗ c.instance_id)
    && (other.view.instance.model_id ==ᵗ c.model_id)
    && conflict_visible other
    && not (compatible c.owner other.view.instance)

unfoldable pub scan_conflicts : Claimant → List InstanceController → Option AdmissionRejection
scan_conflicts c [] = none
scan_conflicts c (other ∷ l) =
    if conflicts c other
    then some (record {
      reason = in_flight;
      model_id = c.model_id;
      conflict_id = other.instance_id;
      pipeline_id = other.view.instance.pipeline_id;
      entry_id = other.view.instance.pipeline_entry_id;
    })
    else scan_conflicts c l

abbrev is_orphan : InstanceState → Bool
is_orphan orphan = true
is_orphan _ = false

unfoldable pub orphan_among : Claimant → List LaunchInstanceEntry → Option AdmissionRejection
orphan_among c [] = none
orphan_among c (e ∷ l) =
    if is_orphan e.state
    then some (record {
      reason = orphan_record;
      model_id = c.model_id;
      conflict_id = e.id;
      pipeline_id = e.pipeline_id;
      entry_id = e.pipeline_entry_id;
    })
    else orphan_among c l

-- The entries that the fence examines: none without a store, and none when the store fails.
abbrev listed : Option (Text → Option (List LaunchInstanceEntry)) → Text → List LaunchInstanceEntry
listed none model_id = []
listed (some list) model_id = elim (list model_id) [ none ↦ [] | some entries ↦ entries ]

unfoldable pub orphan_fence : Claimant → Supervisor → Option AdmissionRejection
unfolding orphan_among
orphan_fence c s = orphan_among c (listed s.store c.model_id)

abbrev restartable_state : Text → InstanceState → Option ProcessError
restartable_state id pending = some (launch_in_flight id)
restartable_state id starting = some (launch_in_flight id)
restartable_state id running = none
restartable_state id stopping = none
restartable_state id exited = none
restartable_state id failed = none
restartable_state id _ = some (not_restartable id)

unfoldable pub check_restart_target : InstanceController → Option ProcessError
check_restart_target ctrl = elim (restartable_state ctrl.instance_id ctrl.view.instance.state) [
  | some e ↦ some e
  | none ↦ if is_some ctrl.view.active then some (launch_in_flight ctrl.instance_id) else none
]

-- The target's check in arbitrate, which only a restart has.
unfoldable pub check_target : Claimant → Option ProcessError
unfolding check_restart_target
check_target c = elim c.mode [
  | claim_new_admission ↦ none
  | claim_restart_existing ↦ check_restart_target c.ctrl
]

abbrev is_restart : ClaimantMode → Bool
is_restart claim_new_admission = false
is_restart claim_restart_existing = true

abbrev pub shutdown_rejection : Text → AdmissionRejection
shutdown_rejection model_id = record {
  reason = shutting_down;
  model_id = model_id;
  conflict_id = [];
  pipeline_id = [];
  entry_id = [];
}

unfoldable pub minted_claim : Claimant → Supervisor → SpawnClaim
minted_claim c s = record {
  address = s.next_address;
  sup = s.identity;
  model_id = c.model_id;
  owner = c.owner;
  instance_id = c.instance_id;
  op_id = (s.op_seq + 1) % 2 ^ 64;
  restart = is_restart c.mode;
}

-- The controller with the operation published, and, at a new admission, with its pre-spawn token.
unfoldable pub published_controller : Claimant → SpawnClaim → InstanceController
published_controller c claim =
    let ctrl =
      set_operation_locked (record { id = claim.op_id; owner = c.owner; claim = claim }) c.ctrl in
    elim c.mode [
      | claim_new_admission ↦ record ctrl { pre_spawn_token = true }
      | claim_restart_existing ↦ ctrl
    ]

-- The publication with the controller: only a new admission is entered in the registry and counted.
unfoldable pub register : Claimant → InstanceController → Supervisor → Supervisor
unfolding set_controller
register c ctrl s = elim c.mode [
  | claim_new_admission ↦ record s {
    instances = put ctrl s.instances;
    pre_spawn_in_flight = s.pre_spawn_in_flight + 1;
  }
  | claim_restart_existing ↦ set_controller ctrl s
]

unfoldable pub publish_claim_locked : Claimant → Supervisor → Result SpawnClaim × Supervisor
unfolding register
publish_claim_locked c s =
    let claim = minted_claim c s in
    let s' = record s { op_seq = (s.op_seq + 1) % 2 ^ 64; next_address = s.next_address + 1 } in
    if s.draining
    then (err (rejected (shutdown_rejection c.model_id)), s')
    else (ok claim, register c (published_controller c claim) s')

-- The checks of arbitrate in their order; the first that fails is the answer.
unfoldable pub refusal : Claimant → Supervisor → Option ProcessError
refusal c s =
    if s.lifecycle_ended
    then some (rejected (shutdown_rejection c.model_id))
    else elim (check_target c) [
      | some e ↦ some e
      | none ↦ elim (scan_conflicts c s.instances) [
        | some r ↦ some (rejected r)
        | none ↦ elim (orphan_fence c s) [ some r ↦ some (rejected r) | none ↦ none ]
      ]
    ]

unfoldable pub arbitrate : Claimant → Supervisor → Result SpawnClaim × Supervisor
arbitrate c s = elim (refusal c s) [ some e ↦ (err e, s) | none ↦ publish_claim_locked c s ]
