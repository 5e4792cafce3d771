-- ===== src/Process/System/Admission.antt =====
-- What admitting, restarting and committing a launch do to the count of launches before their
-- commit.
use goal_starter.Prelude.{
  ℕ, false, ◌≡◌, ◌⊎◌, refl, ap, ◌∙◌, true, Bool-cases, inl, inr, Option, none, some, Option-cases,
  arith, Text,
}
use goal_starter.Domain.Instance.{Time, LaunchInstance}
use goal_starter.Domain.Owner.{LaunchOwner}
use goal_starter.Process.Errors.{ClaimFault, Result, ok, err}
use goal_starter.Process.Controller.{
  InstanceController, SpawnClaim, set_operation_locked, set_state_locked, publish_locked,
}
use goal_starter.Process.Arbitration.{
  Supervisor, Claimant, claim_new_admission, claim_restart_existing, arbitrate,
  publish_claim_locked, new_restart_claimant, refusal, controller_at, published_controller,
  minted_claim, register,
}
use goal_starter.Process.Restart.{restart, restart_with, instance_owner}
use goal_starter.Process.Commit.{
  is_consumed, spend, claim_fault, consume_spawn_claim_locked, commit_verdict, commit_starting,
  commit_spawn,
}
use goal_starter.Process.System.{Held}
use goal_starter.Process.System.Exclusion.{consume-Held}
use goal_starter.Process.System.Registry.{put-IsMap}
use goal_starter.Process.System.Tokens.{
  weight, Accounts, put-tokens_new, kept-Accounts, spent-Accounts,
}

-- What a claimant brings: a new instance ID, or the registered controller without a new token.
abbrev pub Brings : Claimant → Supervisor → Type 0
Brings c s =
    ((c.mode ≡ claim_new_admission) × (controller_at c.ctrl.instance_id s.instances ≡ none))
    ⊎ ((c.mode ≡ claim_restart_existing) × Held c.ctrl s)

published-id :
    (c : Claimant) (claim : SpawnClaim)
    → (published_controller c claim).instance_id ≡ c.ctrl.instance_id
unfolding published_controller set_operation_locked
published-id c claim = ground arith

published-token_new :
    (c : Claimant) (claim : SpawnClaim)
    → c.mode ≡ claim_new_admission
    → (published_controller c claim).pre_spawn_token ≡ true
unfolding published_controller set_operation_locked
published-token_new c claim m = ground arith

published-token_kept :
    (c : Claimant) (claim : SpawnClaim)
    → c.mode ≡ claim_restart_existing
    → (published_controller c claim).pre_spawn_token ≡ c.ctrl.pre_spawn_token
unfolding published_controller set_operation_locked
published-token_kept c claim m = ground arith

register-Accounts :
    (c : Claimant) (claim : SpawnClaim) (s : Supervisor)
    → Brings c s
    → s.draining ≡ false
    → Accounts 0 s
    → Accounts 0 (register c (published_controller c claim) s)
unfolding register
register-Accounts c claim s (inl (m, fresh)) d h =
    let id = published-id c claim in
    let grown =
      put-tokens_new (published_controller c claim) s.instances
        (ap (λ (i : Text). controller_at i s.instances) id ∙ fresh) in
    rw (m, register)
      (record {
        is_map = put-IsMap (published_controller c claim) s.instances h.is_map;
        counted = omega (arith, h.counted, grown, ap weight (published-token_new c claim m));
        signalled = λ e. absurd (cc);
        honest = λ z. absurd (cc (d, (h.honest z).0));
      })
register-Accounts c claim s (inr (m, r)) d h =
    rw (m, register)
      (kept-Accounts c.ctrl (published_controller c claim) s r (published-id c claim)
        (published-token_kept c claim m) h)

publish-Accounts :
    (c : Claimant) (s : Supervisor)
    → Brings c s
    → Accounts 0 s
    → Accounts 0 (publish_claim_locked c s).1
unfolding publish_claim_locked
publish-Accounts c s b h = elim (Bool-cases s.draining) [
  | inl d ↦ simp d (record {
    is_map = h.is_map;
    counted = h.counted;
    signalled = λ e. h.signalled d;
    honest = λ z. (refl, (h.honest z).1);
  })
  | inr d ↦ simp d (
      register-Accounts c (minted_claim c s) _ b refl (record {
        is_map = h.is_map;
        counted = h.counted;
        signalled = λ e. absurd (cc);
        honest = λ z. absurd (cc (d, (h.honest z).0));
      }))
]

pub arbitrate-Accounts :
    (c : Claimant) (s : Supervisor) → Brings c s → Accounts 0 s → Accounts 0 (arbitrate c s).1
unfolding arbitrate
arbitrate-Accounts c s b h = elim (Option-cases (refusal c s)) [
  | inl e ↦ rw (e, arbitrate) (publish-Accounts c s b h)
  | inr (x, e) ↦ rw (e, arbitrate) h
]

restart_with-Accounts :
    (ctrl : InstanceController) (model_id : Text) (o : Result LaunchOwner) (s : Supervisor)
    → Held ctrl s
    → Accounts 0 s
    → Accounts 0 (restart_with ctrl model_id o s).1
unfolding restart_with new_restart_claimant
restart_with-Accounts ctrl model_id (err e) s r h = h
restart_with-Accounts ctrl model_id (ok owner) s r h =
    arbitrate-Accounts (new_restart_claimant ctrl model_id owner) s (inr (refl, r)) h

pub restart-Accounts :
    (snap : LaunchInstance) (ctrl : InstanceController) (s : Supervisor)
    → Held ctrl s
    → Accounts 0 s
    → Accounts 0 (restart snap ctrl s).1
unfolding restart
restart-Accounts snap ctrl s r h =
    restart_with-Accounts ctrl snap.model_id (instance_owner snap) s r h

verdict-Accounts :
    (now later : Time) (claim : SpawnClaim) (ic : InstanceController) (fault : Option ClaimFault)
    (s : Supervisor)
    → Held ic s
    → Accounts 0 s
    → Accounts 0 (commit_verdict now later claim ic fault s).1
unfolding commit_verdict commit_starting set_state_locked publish_locked
verdict-Accounts now later claim ic (some f) s r h = h
verdict-Accounts now later claim ic none s r h = elim (Bool-cases s.draining) [
  | inl d ↦ simp d h
  | inr d ↦ simp d (spent-Accounts ic _ s r refl refl h)
]

spend-Accounts :
    (f : Option ClaimFault) (address : ℕ) (s : Supervisor)
    → Accounts 0 s
    → Accounts 0 (spend f address s).1
unfolding spend
spend-Accounts (some f) address s h = h
spend-Accounts none address s h = elim (Bool-cases (is_consumed address s.consumed)) [
  | inl e ↦ simp e h
  | inr e ↦ simp e (record {
    is_map = h.is_map;
    counted = h.counted;
    signalled = h.signalled;
    honest = h.honest;
  })
]

consume-Accounts :
    (ic : InstanceController) (claim : Option SpawnClaim) (s : Supervisor)
    → Accounts 0 s
    → Accounts 0 (consume_spawn_claim_locked ic claim s).1
unfolding consume_spawn_claim_locked
consume-Accounts ic none s h = h
consume-Accounts ic (some claim) s h = spend-Accounts (claim_fault ic claim) claim.address s h

pub commit-Accounts :
    (now later : Time) (claim : Option SpawnClaim) (ic : InstanceController) (s : Supervisor)
    → Held ic s
    → Accounts 0 s
    → Accounts 0 (commit_spawn now later claim ic s).1
unfolding commit_spawn
commit-Accounts now later none ic s r h = h
commit-Accounts now later (some claim) ic s r h =
    let (fault, s') = consume_spawn_claim_locked ic (some claim) s in
    verdict-Accounts now later claim ic fault s' (consume-Held ic ic (some claim) s r)
      (consume-Accounts ic (some claim) s h)
