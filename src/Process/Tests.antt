-- ===== src/Process/Tests.antt =====
-- Runs of the supervisor at concrete inputs (internal/process).
use goal_starter.Process.System.Grants.{Names, arbitrate-commit}
use goal_starter.Process.Controller.{LaunchOperation}
use goal_starter.Process.Controller.Views.{
  operation, release, state, IsPublished, mutate_all, history-IsPublished,
}
use goal_starter.Domain.Instance.{running}
use goal_starter.Process.Arbitration.Exclusive.{IsClaimant, arbitrate-Exclusive}
use goal_starter.Process.Arbitration.Granted.{Grant, arbitrate-granted}
use goal_starter.Process.System.Claims.{commit-authorized}
use goal_starter.Prelude.{◌∷◌}
use goal_starter.Prelude.{
  ◌≡◌, ◌≢◌, ◌↔◌, ◌+◌, refl, select, ◌==ᵗ◌, true, false, none, some, [], Text, lit, pos,
}
use goal_starter.Domain.Instance.{LaunchInstance, pending, unset, zero_time, update_state}
use goal_starter.Domain.Owner.{LaunchOwner, owner_eq, manual_owner, pipeline_owner}
use goal_starter.Process.Errors.{ok, err, rejected, in_flight}
use goal_starter.Process.Controller.{
  InstanceController, SpawnClaim, new_controller, publish_locked, set_operation_locked,
  set_state_locked,
}
use goal_starter.Process.Arbitration.{
  Supervisor, Claimant, new_admission_claimant, arbitrate, minted_claim, put, published_controller,
  orphan_fence, check_target, refusal, scan_conflicts, conflicts, conflict_visible, compatible,
  orphan_among, publish_claim_locked, register, set_controller, replace_held, without,
  controller_at,
}
use goal_starter.Process.Arbitration.Exclusive.{Owns, Exclusive}
use goal_starter.Process.Commit.{
  commit_spawn, begin_drain, forget_controller, is_consumed, consume_spawn_claim_locked,
  claim_fault, operation_fault, spend, commit_verdict, commit_starting, take_token,
  signal_pre_spawn_zero_locked,
}
use goal_starter.Process.System.{admit, drain, forget, Reach, here, next, IsFresh}
use goal_starter.Process.System.Exclusion.{Reach-Exclusive}
use goal_starter.Process.System.Claims.{spawn_once}
use goal_starter.Process.System.Tokens.{tokens}
use goal_starter.Process.System.Drain.{drain_signal}

abbrev empty_supervisor : Supervisor
empty_supervisor = record {
  identity = 1;
  instances = [];
  departed = [];
  store = none;
  writes = [];
  lifecycle_ended = false;
  op_seq = 0;
  next_address = 100;
  consumed = [];
  draining = false;
  pre_spawn_in_flight = 0;
  zero_closed = false;
}

abbrev launch : Text → Text → Text → LaunchInstance
launch id pipeline_id entry_id = record {
  id = id;
  model_id = lit "m";
  model_name = lit "model";
  runtime_id = lit "r";
  pipeline_id = pipeline_id;
  pipeline_entry_id = entry_id;
  pid = pos 0;
  state = pending;
  started_at = zero_time;
  stopped_at = zero_time;
  exit_code = none;
  exit_class = unset;
  last_error = [];
  executable = lit "/bin/model";
  args = [];
  working_directory = [];
  environment = [];
  created_at = 5;
  updated_at = 5;
  recovery_reason = [];
}

abbrev first_launch : LaunchInstance
first_launch = launch (lit "a") (lit "p") (lit "e1")

abbrev second_launch : LaunchInstance
second_launch = launch (lit "b") (lit "p") (lit "e2")

abbrev manual_launch : LaunchInstance
manual_launch = launch (lit "c") [] []

abbrev first_owner : LaunchOwner
first_owner = pipeline_owner (lit "p") (lit "e1")

abbrev second_owner : LaunchOwner
second_owner = pipeline_owner (lit "p") (lit "e2")

abbrev first_claimant : Claimant
first_claimant = new_admission_claimant (lit "m") (new_controller 1 first_launch) first_owner

abbrev second_claimant : Claimant
second_claimant = new_admission_claimant (lit "m") (new_controller 1 second_launch) second_owner

abbrev manual_claimant : Claimant
manual_claimant = new_admission_claimant (lit "m") (new_controller 1 manual_launch) manual_owner

abbrev one_launch : Supervisor
one_launch = (arbitrate first_claimant empty_supervisor).1

abbrev two_launches : Supervisor
two_launches = (arbitrate second_claimant one_launch).1

abbrev first_claim : SpawnClaim
first_claim = minted_claim first_claimant empty_supervisor

abbrev second_claim : SpawnClaim
second_claim = minted_claim second_claimant one_launch

abbrev first_controller : InstanceController
first_controller = published_controller first_claimant first_claim

empty-IsFresh : IsFresh empty_supervisor
empty-IsFresh = record {
  no_instances = refl;
  none_departed = refl;
  not_draining = refl;
  none_pre_spawn = refl;
  zero_open = refl;
}

first-Owns : Owns first_owner first_launch
first-Owns = record { pipeline_of = λ e. refl; entry_of = λ e. refl; entry_named = λ e h. cc }

second-Owns : Owns second_owner second_launch
second-Owns = record { pipeline_of = λ e. refl; entry_of = λ e. refl; entry_named = λ e h. cc }

abbrev committed : Supervisor
committed = (commit_spawn 10 11 (some first_claim) first_controller one_launch).1

-- A second entry of the pipeline is admitted beside the first, a manual launch is not.
sibling_admitted :
    (arbitrate second_claimant one_launch).0 ≡ ok (minted_claim second_claimant one_launch)
unfolding arbitrate refusal check_target scan_conflicts conflicts conflict_visible compatible
    orphan_fence orphan_among publish_claim_locked register minted_claim published_controller put
    without controller_at new_admission_claimant new_controller publish_locked set_operation_locked
    select ◌==ᵗ◌
sibling_admitted = refl

manual_refused :
    (arbitrate manual_claimant one_launch).0
    ≡ err (
        rejected (record {
          reason = in_flight;
          model_id = lit "m";
          conflict_id = lit "a";
          pipeline_id = lit "p";
          entry_id = lit "e1";
        }))
unfolding arbitrate refusal check_target scan_conflicts conflicts conflict_visible compatible
    orphan_fence orphan_among publish_claim_locked register minted_claim published_controller put
    without controller_at new_admission_claimant new_controller publish_locked set_operation_locked
    select ◌==ᵗ◌
manual_refused = refl

first_registered : controller_at (lit "a") one_launch.instances ≡ some first_controller
unfolding arbitrate refusal check_target scan_conflicts conflicts conflict_visible compatible
    orphan_fence orphan_among publish_claim_locked register minted_claim published_controller put
    without controller_at new_admission_claimant new_controller publish_locked set_operation_locked
    select ◌==ᵗ◌
first_registered = refl

second_absent : controller_at (lit "b") one_launch.instances ≡ none
unfolding arbitrate refusal check_target scan_conflicts conflicts conflict_visible compatible
    orphan_fence orphan_among publish_claim_locked register minted_claim published_controller put
    without controller_at new_admission_claimant new_controller publish_locked set_operation_locked
    select ◌==ᵗ◌
second_absent = refl

first_accepted : (commit_spawn 10 11 (some first_claim) first_controller one_launch).0 ≡ none
unfolding arbitrate refusal check_target scan_conflicts conflicts conflict_visible compatible
    orphan_fence orphan_among publish_claim_locked register minted_claim published_controller put
    without controller_at new_admission_claimant new_controller publish_locked set_operation_locked
    select ◌==ᵗ◌ commit_spawn consume_spawn_claim_locked claim_fault operation_fault spend
    is_consumed commit_verdict commit_starting set_controller replace_held take_token
    set_state_locked update_state owner_eq signal_pre_spawn_zero_locked
first_accepted = refl

one_launch-Reach : Reach empty_supervisor one_launch
unfolding controller_at arbitrate refusal check_target new_admission_claimant scan_conflicts
    orphan_fence publish_claim_locked register
one_launch-Reach = next here (admit first_launch first_owner first-Owns refl)

two_launches-Reach : Reach empty_supervisor two_launches
unfolding controller_at arbitrate refusal check_target new_admission_claimant scan_conflicts
    orphan_fence publish_claim_locked register
two_launches-Reach =
    next (next here (admit first_launch first_owner first-Owns refl))
      (admit second_launch second_owner second-Owns second_absent)

drained-Reach : Reach empty_supervisor (begin_drain two_launches)
drained-Reach = next two_launches-Reach drain

Reach-Exclusive_example : Exclusive two_launches.instances
Reach-Exclusive_example = Reach-Exclusive empty-IsFresh two_launches-Reach

-- A launch that is being aborted: out of the registry, its token not yet given back.
abbrev aborting : Supervisor
aborting = forget_controller (lit "a") (begin_drain two_launches)

drain_signal_example :
    (aborting.pre_spawn_in_flight ≡ tokens aborting.departed + tokens aborting.instances)
    × ((aborting.zero_closed ≡ true) ↔ (
        (aborting.draining ≡ true)
        × (tokens aborting.departed ≡ 0)
        × (tokens aborting.instances ≡ 0)))
drain_signal_example = drain_signal empty-IsFresh (next drained-Reach (forget (lit "a")))

spawn_once_example :
    (commit_spawn 20 21 (some first_claim) first_controller (begin_drain committed)).0 ≢ none
spawn_once_example =
    spawn_once one_launch 10 11 20 21 first_claim first_controller first_controller first_accepted
      (next here drain)

commit-authorized_example :
    (first_claim.sup ≡ first_controller.supervisor_ref)
    × (first_claim.model_id ≡ first_controller.model_id)
    × (first_claim.instance_id ≡ first_controller.instance_id)
    × ((op : LaunchOperation) × (first_controller.active ≡ some op)
        × (op.claim.address ≡ first_claim.address)
        × (op.id ≡ first_claim.op_id))
    × (is_consumed first_claim.address one_launch.consumed ≡ false)
    × (one_launch.draining ≡ false)
commit-authorized_example =
    commit-authorized 10 11 first_claim first_controller one_launch first_accepted

second-IsClaimant : IsClaimant second_claimant
unfolding new_admission_claimant new_controller
second-IsClaimant = record { of_instance = refl; of_model = refl; of_owner = second-Owns }

arbitrate-Exclusive_example : Exclusive two_launches.instances
arbitrate-Exclusive_example =
    arbitrate-Exclusive second_claimant one_launch second-IsClaimant
      (Reach-Exclusive empty-IsFresh one_launch-Reach)

arbitrate-granted_example : Grant second_claimant one_launch second_claim two_launches
arbitrate-granted_example =
    arbitrate-granted second_claimant one_launch {claim = second_claim} sibling_admitted

history-IsPublished_example : IsPublished (
    mutate_all
      (operation (record { id = 7; owner = manual_owner; claim = first_claim })
        ∷ state running 8 9
        ∷ release 7
        ∷ [])
      (new_controller 1 manual_launch))
history-IsPublished_example = history-IsPublished 1 manual_launch (
    operation (record { id = 7; owner = manual_owner; claim = first_claim })
    ∷ state running 8 9
    ∷ release 7
    ∷ [])

first_granted : (arbitrate first_claimant empty_supervisor).0 ≡ ok first_claim
unfolding arbitrate refusal check_target scan_conflicts orphan_fence orphan_among
    publish_claim_locked register minted_claim new_admission_claimant new_controller
first_granted = refl

first-Names : Names first_claimant empty_supervisor
unfolding new_admission_claimant new_controller
first-Names = record { of_instance = refl; of_model = refl; of_supervisor = refl }

none_consumed : is_consumed empty_supervisor.next_address empty_supervisor.consumed ≡ false
unfolding is_consumed
none_consumed = refl

arbitrate-commit_example :
    (commit_spawn 10 11
      (some first_claim)
      (published_controller first_claimant first_claim)
      one_launch).0
    ≡ none
arbitrate-commit_example =
    arbitrate-commit 10 11 first_claimant empty_supervisor {claim = first_claim} first-Names
      none_consumed first_granted
