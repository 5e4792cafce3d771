-- ===== src/Process/System/Claims.antt =====
-- A spawn authorization is spent at most once.
use goal_starter.Prelude.{
  ℕ, ◌≡◌, ◌≢◌, refl, Bool, true, false, inl, inr, Bool-cases, ◌∙◌, Option, none, some, Option-cases,
  List, arith, Text, text_eq_iff,
}
use goal_starter.Domain.Instance.{Time}
use goal_starter.Process.Errors.{ClaimFault, claim_rejected, ok, err}
use goal_starter.Process.Controller.{InstanceController, SpawnClaim, LaunchOperation}
use goal_starter.Process.Arbitration.{
  Supervisor, Claimant, arbitrate, publish_claim_locked, new_restart_claimant, set_controller,
  refusal, published_controller, minted_claim,
}
use goal_starter.Process.Restart.{restart, restart_with, instance_owner}
use goal_starter.Process.Commit.{
  is_consumed, spend, claim_fault, operation_fault, consume_spawn_claim_locked,
  signal_pre_spawn_zero_locked, begin_drain, take_token, commit_starting, abort_terminalize,
  forget_controller, abort_spend, commit_verdict, commit_spawn, release_launch_operation,
}
use goal_starter.Process.Arbitration.Registered.{register-Framed, set_controller-Framed}
use goal_starter.Domain.Instance.{LaunchInstance}
use goal_starter.Process.System.{
  Step, admit, restart_target, commit, abort, give_back, release_operation, drain, end_lifecycle,
  work, forget, Reach, here, next,
}

-- No claim that is spent in the first list is unspent in the second.
abbrev Keeps : List ℕ → List ℕ → Type 0
Keeps l m = (a : ℕ) → is_consumed a l ≡ true → is_consumed a m ≡ true

Keeps-of : (l m : List ℕ) → m ≡ l → Keeps l m
Keeps-of l m e a h = rw e h

publish-consumed :
    (c : Claimant) (s : Supervisor) → (publish_claim_locked c s).1.consumed ≡ s.consumed
unfolding publish_claim_locked
publish-consumed c s = elim (Bool-cases s.draining) [
  | inl d ↦ simp d refl
  | inr d ↦ simp d (register-Framed c (published_controller c (minted_claim c s)) _).same_consumed
]

arbitrate-consumed : (c : Claimant) (s : Supervisor) → (arbitrate c s).1.consumed ≡ s.consumed
unfolding arbitrate
arbitrate-consumed c s = elim (Option-cases (refusal c s)) [
  | inl e ↦ rw (e, arbitrate) (publish-consumed c s)
  | inr (x, e) ↦ rw (e, arbitrate) refl
]

restart-consumed :
    (snap : LaunchInstance) (ctrl : InstanceController) (s : Supervisor)
    → (restart snap ctrl s).1.consumed ≡ s.consumed
unfolding restart restart_with
restart-consumed snap ctrl s =
    elim (instance_owner snap)
      as (λ o. (restart_with ctrl snap.model_id o s).1.consumed ≡ s.consumed) [
        | err e ↦ refl
        | ok owner ↦ arbitrate-consumed (new_restart_claimant ctrl snap.model_id owner) s
      ]

token-consumed : (b : Bool) (s : Supervisor) → (take_token b s).consumed ≡ s.consumed
unfolding take_token signal_pre_spawn_zero_locked
token-consumed b s = ground arith

drain-consumed : (s : Supervisor) → (begin_drain s).consumed ≡ s.consumed
unfolding begin_drain signal_pre_spawn_zero_locked
drain-consumed s = ground arith

forget-consumed : (id : Text) (s : Supervisor) → (forget_controller id s).consumed ≡ s.consumed
unfolding forget_controller
forget-consumed id s = ground arith

-- The change of a controller, and the spending of its token after it, spend no claim.
set-consumed :
    (c : InstanceController) (s : Supervisor) → (set_controller c s).consumed ≡ s.consumed
set-consumed c s = (set_controller-Framed c s).same_consumed

taken-consumed :
    (b : Bool) (c : InstanceController) (s : Supervisor)
    → (take_token b (set_controller c s)).consumed ≡ s.consumed
taken-consumed b c s = token-consumed b (set_controller c s) ∙ set-consumed c s

verdict-consumed :
    (now later : Time) (claim : SpawnClaim) (ic : InstanceController) (fault : Option ClaimFault)
    (s : Supervisor)
    → (commit_verdict now later claim ic fault s).1.consumed ≡ s.consumed
unfolding commit_verdict commit_starting
verdict-consumed now later claim ic (some f) s = refl
verdict-consumed now later claim ic none s = elim (Bool-cases s.draining) [
  | inl d ↦ simp d refl
  | inr d ↦ simp d (taken-consumed ic.pre_spawn_token _ s)
]

spend-Keeps :
    (f : Option ClaimFault) (a : ℕ) (s : Supervisor) → Keeps s.consumed (spend f a s).1.consumed
unfolding spend is_consumed
spend-Keeps (some f) a s b h = h
spend-Keeps none a s b h = ground arith

commit-Keeps :
    (now later : Time) (claim : Option SpawnClaim) (ic : InstanceController) (s : Supervisor)
    → Keeps s.consumed (commit_spawn now later claim ic s).1.consumed
unfolding commit_spawn consume_spawn_claim_locked
commit-Keeps now later none ic s a h = h
commit-Keeps now later (some claim) ic s a h =
    let (fault, s') = spend (claim_fault ic claim) claim.address s in
    rw (verdict-consumed now later claim ic fault s')
      (spend-Keeps (claim_fault ic claim) claim.address s a h)

Step-Keeps : {s t : Supervisor} → Step s t → Keeps s.consumed t.consumed
unfolding abort_terminalize abort_spend release_launch_operation
Step-Keeps {s} (admit inst owner o fresh) = Keeps-of s.consumed _ (arbitrate-consumed _ s)
Step-Keeps {s} (restart_target snap ic r l) = Keeps-of s.consumed _ (restart-consumed snap ic s)
Step-Keeps {s} (commit now later claim ic r) = commit-Keeps now later claim ic s
Step-Keeps {s} (abort now ic r) = Keeps-of s.consumed _ (set-consumed _ _)
Step-Keeps {s} (give_back ic r) = Keeps-of s.consumed _ (taken-consumed ic.pre_spawn_token _ s)
Step-Keeps {s} (forget id) = Keeps-of s.consumed _ (forget-consumed id s)
Step-Keeps {s} (release_operation op ic r) = Keeps-of s.consumed _ (set-consumed _ s)
Step-Keeps {s} drain = Keeps-of s.consumed _ (drain-consumed s)
Step-Keeps end_lifecycle = λ a h. h
Step-Keeps {s} (work m ic r a) = Keeps-of s.consumed _ (set-consumed _ s)

Reach-Keeps : {s t : Supervisor} → Reach s t → Keeps s.consumed t.consumed
Reach-Keeps here a h = h
Reach-Keeps (next r st) a h = Step-Keeps st a (Reach-Keeps r a h)

-- The verdicts that a commit passes on.
verdict-error :
    (now later : Time) (claim : SpawnClaim) (ic : InstanceController) (f : ClaimFault)
    (s : Supervisor)
    → (commit_verdict now later claim ic (some f) s).0 ≡ some (claim_rejected ic.instance_id f)
unfolding commit_verdict
verdict-error now later claim ic f s = refl

spend-spent :
    (f : Option ClaimFault) (a : ℕ) (s : Supervisor)
    → (spend f a s).0 ≡ none
    → is_consumed a (spend f a s).1.consumed ≡ true
unfolding spend is_consumed
spend-spent (some f) a s h = cc
spend-spent none a s h = ground arith

verdict_none :
    (now later : Time) (claim : SpawnClaim) (ic : InstanceController) (fault : Option ClaimFault)
    (s : Supervisor)
    → (commit_verdict now later claim ic fault s).0 ≡ none
    → fault ≡ none
unfolding commit_verdict
verdict_none now later claim ic (some f) s h = cc
verdict_none now later claim ic none s h = refl

-- A commit spends the claim that it accepts.
pub commit-spends :
    (now later : Time) (claim : SpawnClaim) (ic : InstanceController) (s : Supervisor)
    → (commit_spawn now later (some claim) ic s).0 ≡ none
    → is_consumed claim.address (commit_spawn now later (some claim) ic s).1.consumed ≡ true
unfolding commit_spawn consume_spawn_claim_locked
commit-spends now later claim ic s h =
    let (fault, s') = spend (claim_fault ic claim) claim.address s in
    rw (verdict-consumed now later claim ic fault s') (
      spend-spent (claim_fault ic claim) claim.address s
        (verdict_none now later claim ic fault s' h))

-- A claim that is spent is refused.
spent-refused :
    (now later : Time) (claim : SpawnClaim) (ic : InstanceController) (s : Supervisor)
    → is_consumed claim.address s.consumed ≡ true
    → (commit_spawn now later (some claim) ic s).0 ≢ none
unfolding commit_spawn consume_spawn_claim_locked spend commit_verdict
spent-refused now later claim ic s h e = ground arith

-- A spawn claim starts at most one process: once a commit has accepted it, every later commit that
-- presents it is refused, whatever steps are taken between the two and on whichever controller.
pub spawn_once :
    (s : Supervisor) {t : Supervisor} (now later now' later' : Time) (claim : SpawnClaim)
    (ic ic' : InstanceController)
    → (commit_spawn now later (some claim) ic s).0 ≡ none
    → Reach (commit_spawn now later (some claim) ic s).1 t
    → (commit_spawn now' later' (some claim) ic' t).0 ≢ none
spawn_once s {t} now later now' later' claim ic ic' accepted r =
    spent-refused now' later' claim ic' t
      (Reach-Keeps r claim.address (commit-spends now later claim ic s accepted))

operation_of :
    (active : Option LaunchOperation) (claim : SpawnClaim)
    → operation_fault active claim ≡ none
    → (op : LaunchOperation) × (active ≡ some op)
      × (op.claim.address ≡ claim.address)
      × (op.id ≡ claim.op_id)
unfolding operation_fault
operation_of none claim h = cc
operation_of (some op) claim h = (op, refl, ground arith, ground arith)

-- A commit is accepted only for the claim of the operation that the controller holds: of this
-- supervisor, model and instance, of that operation's generation, unspent, and with no drain begun.
pub commit-authorized :
    (now later : Time) (claim : SpawnClaim) (ic : InstanceController) (s : Supervisor)
    → (commit_spawn now later (some claim) ic s).0 ≡ none
    → (claim.sup ≡ ic.supervisor_ref)
      × (claim.model_id ≡ ic.model_id)
      × (claim.instance_id ≡ ic.instance_id)
      × ((op : LaunchOperation) × (ic.active ≡ some op)
          × (op.claim.address ≡ claim.address)
          × (op.id ≡ claim.op_id))
      × (is_consumed claim.address s.consumed ≡ false)
      × (s.draining ≡ false)
unfolding commit_spawn consume_spawn_claim_locked spend commit_verdict claim_fault operation_fault
commit-authorized now later claim ic s h =
    let named = operation_of ic.active claim (ground arith) in
    (
      ground arith,
      ground (arith, text_eq_iff claim.model_id ic.model_id),
      ground (arith, text_eq_iff claim.instance_id ic.instance_id),
      named,
      ground arith,
      ground arith,
    )
