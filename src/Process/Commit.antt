-- ===== src/Process/Commit.antt =====
-- The spawn commit and the shutdown drain: consumeSpawnClaimLocked, releaseLaunchOperation and
-- revalidateOperation of internal/process/arbitration.go; commit C of startCore, beginDrain and
-- the three critical sections of abortPreSpawnCleanup of supervisor.go. The slot that an abort gives back is not modelled here.
use goal_starter.Prelude.{
  ℕ, ◌-◌, Bool, true, false, not, ◌&&◌, ◌||◌, Option, none, some, List, [], ◌∷◌, Text, lit, ◌==◌,
  ◌==ᵗ◌, if◌then◌else◌,
}
use goal_starter.Domain.Instance.{LaunchInstanceEntry, Time, starting, error, to_storage_entry}
use goal_starter.Domain.Owner.{owner_eq}
use goal_starter.Process.Errors.{
  ClaimFault, no_claim, other_supervisor, other_model, other_instance, no_operation,
  other_generation, other_operation, other_owner, already_consumed, ProcessError, claim_rejected,
  aborted_by_shutdown,
}
use goal_starter.Process.Controller.{
  SpawnClaim, LaunchOperation, InstanceController, clear_operation_locked, set_state_locked,
  fail_locked,
}
use goal_starter.Process.Arbitration.{Supervisor, controller_at, without, set_controller}

-- claim.consumed
unfoldable pub is_consumed : ℕ → List ℕ → Bool
is_consumed address [] = false
is_consumed address (a ∷ l) = (a == address) || is_consumed address l

-- The checks of the operation that the controller publishes.
unfoldable pub operation_fault : Option LaunchOperation → SpawnClaim → Option ClaimFault
operation_fault none claim = some no_operation
operation_fault (some op) claim =
    if not (op.claim.address == claim.address)
    then some other_generation
    else if not (op.id == claim.op_id)
    then some other_operation
    else if not (owner_eq claim.owner op.owner)
    then some other_owner
    else none

unfoldable pub claim_fault : InstanceController → SpawnClaim → Option ClaimFault
unfolding operation_fault
claim_fault ic claim =
    if not (claim.sup == ic.supervisor_ref)
    then some other_supervisor
    else if not (claim.model_id ==ᵗ ic.model_id)
    then some other_model
    else if not (claim.instance_id ==ᵗ ic.instance_id)
    then some other_instance
    else operation_fault ic.active claim

-- A claim that is presented with no fault is spent; the compare-and-swap refuses a spent one.
unfoldable pub spend : Option ClaimFault → ℕ → Supervisor → Option ClaimFault × Supervisor
spend (some fault) address s = (some fault, s)
spend none address s =
    if is_consumed address s.consumed
    then (some already_consumed, s)
    else (none, record s { consumed = address ∷ s.consumed })

unfoldable pub consume_spawn_claim_locked :
    InstanceController → Option SpawnClaim → Supervisor → Option ClaimFault × Supervisor
consume_spawn_claim_locked ic none s = (some no_claim, s)
consume_spawn_claim_locked ic (some claim) s = spend (claim_fault ic claim) claim.address s

unfoldable pub signal_pre_spawn_zero_locked : Supervisor → Supervisor
signal_pre_spawn_zero_locked s =
    if s.draining && (s.pre_spawn_in_flight == 0) then record s { zero_closed = true } else s

unfoldable pub begin_drain : Supervisor → Supervisor
begin_drain s = signal_pre_spawn_zero_locked (record s { draining = true })

-- Spending the pre-spawn token of a controller, if it has one.
unfoldable pub take_token : Bool → Supervisor → Supervisor
take_token false s = s
take_token true s =
    signal_pre_spawn_zero_locked (record s { pre_spawn_in_flight = s.pre_spawn_in_flight - 1 })

-- Commit C of startCore, after the claim is spent and with no drain begun: the controller becomes
-- starting and its token is taken as committed.
unfoldable pub commit_starting : Time → Time → InstanceController → Supervisor → Supervisor
commit_starting now later ic s =
    take_token ic.pre_spawn_token (
      set_controller (record (set_state_locked starting now later ic) { pre_spawn_token = false })
        s)

-- abortPreSpawnCleanup has three critical sections, and other goroutines may run between them. The
-- first, of a call that terminalizes: under ic.mu the controller fails and its record is written.
unfoldable pub abort_terminalize : Time → InstanceController → Supervisor → Supervisor
abort_terminalize now ic s =
    let failed = fail_locked (lit "launch aborted: supervisor shutdown in progress") error now ic in
    let written : List LaunchInstanceEntry = elim s.store [
      | none ↦ s.writes
      | some list ↦ to_storage_entry failed.view.instance ∷ s.writes
    ] in
    set_controller failed (record s { writes = written })

-- The second: under s.mu the controller leaves the registry, its token with it. This is also what
-- forgetController does.
unfoldable pub forget_controller : Text → Supervisor → Supervisor
forget_controller id s = elim (controller_at id s.instances) [
  | none ↦ s
  | some ic ↦ record s { instances = without id s.instances; departed = ic ∷ s.departed }
]

-- The third: under launchMu the token, if the controller still has it, is given back.
unfoldable pub abort_spend : InstanceController → Supervisor → Supervisor
abort_spend ic s =
    take_token ic.pre_spawn_token (set_controller (record ic { pre_spawn_token = false }) s)

-- What startCore does with the verdict on the claim; `none` is a committed spawn. Under a drain it
-- leaves the two locks with the claim spent, and then calls abortPreSpawn, which for a new admission
-- runs the sections above.
unfoldable pub commit_verdict :
    Time
    → Time
    → SpawnClaim
    → InstanceController
    → Option ClaimFault
    → Supervisor
    → Option ProcessError × Supervisor
commit_verdict now later claim ic (some fault) s = (some (claim_rejected ic.instance_id fault), s)
commit_verdict now later claim ic none s =
    if s.draining then (some aborted_by_shutdown, s) else (none, commit_starting now later ic s)

-- startCore from the claim to the commit or to its refusal.
unfoldable pub commit_spawn :
    Time
    → Time
    → Option SpawnClaim
    → InstanceController
    → Supervisor
    → Option ProcessError × Supervisor
commit_spawn now later none ic s = (some (claim_rejected ic.instance_id no_claim), s)
commit_spawn now later (some claim) ic s =
    let (fault, s') = consume_spawn_claim_locked ic (some claim) s in
    commit_verdict now later claim ic fault s'

-- releaseLaunchOperation on a controller.
unfoldable pub release_launch_operation : ℕ → InstanceController → Supervisor → Supervisor
release_launch_operation op_id ic s = set_controller (clear_operation_locked op_id ic) s

-- revalidateOperation; `true` is no error.
unfoldable pub revalidate_operation : InstanceController → Option SpawnClaim → Bool
revalidate_operation ic none = false
revalidate_operation ic (some claim) = elim ic.view.active [
  | none ↦ false
  | some op ↦ (op.claim.address == claim.address) && (op.id == claim.op_id)
]
