-- ===== src/Process/System/Exclusion.antt =====
-- Every reachable registry is exclusive: at any time the launches of one model in flight or in an
-- operation are entries of one pipeline, each different from the others.
use goal_starter.Prelude.{
  ℕ, ◌≡◌, refl, subst, ap, sym, ◌∙◌, Bool, true, false, Bool-cases, inl, inr, Option, none, some,
  Option-cases, is_some, List, [], arith, Text, lit,
}
use goal_starter.Domain.Instance.{Time, starting, error}
use goal_starter.Domain.Instance.States.{update_state-SameLaunch}
use goal_starter.Process.Errors.{ClaimFault}
use goal_starter.Process.Controller.{
  InstanceController, SpawnClaim, publish_locked, set_state_locked, clear_operation_locked,
  set_terminal_locked, fail_locked, set_error_locked, set_last_error_locked,
  set_launch_fields_locked, set_run_locked, set_operation_locked,
}
use goal_starter.Process.Controller.Views.{
  IsPublished, Mutation, mutate, mutate-IsPublished, release, failure,
}
use goal_starter.Process.Arbitration.{Supervisor, controller_at, conflict_visible}
use goal_starter.Process.Arbitration.Exclusive.{Exclusive}
use goal_starter.Process.Commit.{
  commit_verdict, commit_starting, spend, claim_fault, operation_fault, take_token,
  signal_pre_spawn_zero_locked, commit_spawn, consume_spawn_claim_locked, abort_terminalize,
  forget_controller, abort_spend, release_launch_operation, begin_drain,
}
use goal_starter.Process.System.{
  Step, admit, Held, restart_target, commit, abort, give_back, release_operation, drain,
  end_lifecycle, work, forget, Reach, here, next, IsFresh,
}
use goal_starter.Process.System.Quiets.{
  Quiets, SameLaunch-Quiets, Inv, set_controller-Inv, without-Inv, mutate-Quiets,
}
use goal_starter.Process.System.Launches.{restart-Inv, arbitrate-Inv, admission-IsClaimant}

pub clear-id :
    (op_id : ℕ) (ic : InstanceController)
    → (clear_operation_locked op_id ic).instance_id ≡ ic.instance_id
unfolding clear_operation_locked publish_locked
clear-id op_id ic = ground arith

clear-Quiets :
    (op_id : ℕ) (ic : InstanceController)
    → IsPublished ic
    → Quiets ic (clear_operation_locked op_id ic)
unfolding clear_operation_locked publish_locked conflict_visible
clear-Quiets op_id ic p = ground (arith, p.same_instance, p.same_active)

release-Inv :
    (op_id : ℕ) (ic : InstanceController) (s : Supervisor)
    → Held ic s
    → Inv s.instances
    → Inv (release_launch_operation op_id ic s).instances
unfolding release_launch_operation
release-Inv op_id ic s r v =
    set_controller-Inv ic (clear_operation_locked op_id ic) s r (clear-id op_id ic)
      (λ p. (clear-Quiets op_id ic p, mutate-IsPublished (release op_id) ic p)) v

-- No mutation of a controller touches its ID.
pub mutate-id :
    (m : Mutation) (ic : InstanceController) → (mutate m ic).instance_id ≡ ic.instance_id
unfolding set_state_locked set_terminal_locked fail_locked set_error_locked set_last_error_locked
    set_launch_fields_locked set_run_locked set_operation_locked
mutate-id (release op) ic = clear-id op ic
mutate-id _ ic = refl

pub drain-instances : (s : Supervisor) → (begin_drain s).instances ≡ s.instances
unfolding begin_drain signal_pre_spawn_zero_locked
drain-instances s = ground arith

pub take_token-instances : (b : Bool) (s : Supervisor) → (take_token b s).instances ≡ s.instances
unfolding take_token signal_pre_spawn_zero_locked
take_token-instances true s = ground arith
take_token-instances false s = refl

forget-Inv : (id : Text) (s : Supervisor) → Inv s.instances → Inv (forget_controller id s).instances
unfolding forget_controller
forget-Inv id s v = elim (Option-cases (controller_at id s.instances)) [
  | inl e ↦ rw (e, forget_controller) v
  | inr (ic, e) ↦ rw (e, forget_controller) (without-Inv id s.instances v)
]

-- The token of a controller cannot be seen.
spend-Quiets : (ic : InstanceController) → Quiets ic (record ic { pre_spawn_token = false })
unfolding conflict_visible
spend-Quiets ic = record {
  same_id = refl;
  same_model = refl;
  same_pipeline = refl;
  same_entry = refl;
  visible = λ v. v;
}

give_back-Inv :
    (ic : InstanceController) (s : Supervisor)
    → Held ic s
    → Inv s.instances
    → Inv (abort_spend ic s).instances
unfolding abort_spend
give_back-Inv ic s r v =
    subst (λ l. Inv l) (sym (take_token-instances ic.pre_spawn_token _))
      (set_controller-Inv ic (record ic { pre_spawn_token = false }) s r refl
        (λ p. (
          spend-Quiets ic,
          record {
            same_instance = p.same_instance;
            same_run = p.same_run;
            same_active = p.same_active;
            same_generation = p.same_generation;
          },
        ))
        v)

abort-Inv :
    (now : Time) (ic : InstanceController) (s : Supervisor)
    → Held ic s
    → Inv s.instances
    → Inv (abort_terminalize now ic s).instances
unfolding abort_terminalize
abort-Inv now ic s r v =
    let failure_at = failure (lit "launch aborted: supervisor shutdown in progress") error now in
    set_controller-Inv ic (mutate failure_at ic) _ r (mutate-id failure_at ic)
      (λ p. (mutate-Quiets failure_at ic tt p, mutate-IsPublished failure_at ic p)) v

pub consume-instances :
    (ic : InstanceController) (claim : Option SpawnClaim) (s : Supervisor)
    → (consume_spawn_claim_locked ic claim s).1.instances ≡ s.instances
unfolding consume_spawn_claim_locked spend
consume-instances ic claim s = ground arith

pub consume-departed :
    (ic : InstanceController) (claim : Option SpawnClaim) (s : Supervisor)
    → (consume_spawn_claim_locked ic claim s).1.departed ≡ s.departed
unfolding consume_spawn_claim_locked spend
consume-departed ic claim s = ground arith

pub consume-Held :
    (a ic : InstanceController) (claim : Option SpawnClaim) (s : Supervisor)
    → Held a s
    → Held a (consume_spawn_claim_locked ic claim s).1
consume-Held a ic claim s (inl r) =
    inl (ap (λ l. controller_at a.instance_id l) (consume-instances ic claim s) ∙ r)
consume-Held a ic claim s (inr r) = inr (
  ap (λ l. controller_at a.instance_id l) (consume-instances ic claim s) ∙ r.0,
  ap (λ l. controller_at a.instance_id l) (consume-departed ic claim s) ∙ r.1,
)

consume-active :
    (ic : InstanceController) (claim : SpawnClaim) (s : Supervisor)
    → (consume_spawn_claim_locked ic (some claim) s).0 ≡ none
    → is_some ic.active ≡ true
unfolding consume_spawn_claim_locked spend claim_fault operation_fault
consume-active ic claim s h = ground arith

starting-Quiets :
    (now later : Time) (ic : InstanceController)
    → IsPublished ic
    → is_some ic.active ≡ true
    → Quiets ic (record (set_state_locked starting now later ic) { pre_spawn_token = false })
unfolding set_state_locked publish_locked conflict_visible
starting-Quiets now later ic p act =
    SameLaunch-Quiets ic
      (record (set_state_locked starting now later ic) { pre_spawn_token = false }) p refl
      (update_state-SameLaunch starting now later ic.instance) (λ v. ground (arith, p.same_active))

starting-IsPublished :
    (now later : Time) (ic : InstanceController)
    → IsPublished (record (set_state_locked starting now later ic) { pre_spawn_token = false })
unfolding set_state_locked
starting-IsPublished now later ic = record {
  same_instance = refl;
  same_run = refl;
  same_active = refl;
  same_generation = refl;
}

starting-Inv :
    (now later : Time) (ic : InstanceController) (s : Supervisor)
    → Held ic s
    → is_some ic.active ≡ true
    → Inv s.instances
    → Inv (commit_starting now later ic s).instances
unfolding commit_starting set_state_locked publish_locked
starting-Inv now later ic s r act v =
    subst (λ l. Inv l) (sym (take_token-instances ic.pre_spawn_token _))
      (set_controller-Inv ic
        (record (set_state_locked starting now later ic) { pre_spawn_token = false }) s r refl
        (λ p. (starting-Quiets now later ic p act, starting-IsPublished now later ic)) v)

verdict-Inv :
    (now later : Time) (claim : SpawnClaim) (ic : InstanceController) (fault : Option ClaimFault)
    (s : Supervisor)
    → Held ic s
    → (fault ≡ none → is_some ic.active ≡ true)
    → Inv s.instances
    → Inv (commit_verdict now later claim ic fault s).1.instances
unfolding commit_verdict
verdict-Inv now later claim ic (some fault) s r act v = v
verdict-Inv now later claim ic none s r act v = elim (Bool-cases s.draining) [
  | inl d ↦ simp d v
  | inr d ↦ simp d (starting-Inv now later ic s r (act refl) v)
]

commit-Inv :
    (now later : Time) (claim : Option SpawnClaim) (ic : InstanceController) (s : Supervisor)
    → Held ic s
    → Inv s.instances
    → Inv (commit_spawn now later claim ic s).1.instances
unfolding commit_spawn
commit-Inv now later none ic s r v = v
commit-Inv now later (some claim) ic s r v =
    let same = sym (consume-instances ic (some claim) s) in
    let (fault, s') = consume_spawn_claim_locked ic (some claim) s in
    verdict-Inv now later claim ic fault s' (consume-Held ic ic (some claim) s r)
      (consume-active ic claim s) (subst (λ l. Inv l) same v)

pub Step-Inv : {s t : Supervisor} → Step s t → Inv s.instances → Inv t.instances
Step-Inv {s} (admit inst owner o fresh) v =
    arbitrate-Inv _ s (admission-IsClaimant s.identity inst owner o) v
Step-Inv {s} (restart_target snap ic r l) v = restart-Inv snap ic s r l v
Step-Inv {s} (commit now later claim ic r) v = commit-Inv now later claim ic s r v
Step-Inv {s} (abort now ic r) v = abort-Inv now ic s r v
Step-Inv {s} (give_back ic r) v = give_back-Inv ic s r v
Step-Inv {s} (forget id) v = forget-Inv id s v
Step-Inv {s} (release_operation op_id ic r) v = release-Inv op_id ic s r v
Step-Inv {s} drain v = subst (λ l. Inv l) (sym (drain-instances s)) v
Step-Inv end_lifecycle v = v
Step-Inv {s} (work m ic r a) v =
    set_controller-Inv ic (mutate m ic) s r (mutate-id m ic)
      (λ p. (mutate-Quiets m ic a p, mutate-IsPublished m ic p)) v

empty-Inv : {l : List InstanceController} → l ≡ [] → Inv l
empty-Inv e = subst (λ l. Inv l) (sym e) (record { exclusive = tt; published = tt })

Reach-Inv : {s t : Supervisor} → Inv s.instances → Reach s t → Inv t.instances
Reach-Inv v here = v
Reach-Inv v (next r st) = Step-Inv st (Reach-Inv v r)

-- From a supervisor with no instances, whatever launches, restarts, commits, aborts, releases,
-- lifecycle work and shutdowns follow, in any order: two controllers in the registry that are both in
-- flight or in an operation on one model are differently named entries of one pipeline.
pub Reach-Exclusive : {s t : Supervisor} → IsFresh s → Reach s t → Exclusive t.instances
Reach-Exclusive fresh r = (Reach-Inv (empty-Inv fresh.no_instances) r).exclusive
