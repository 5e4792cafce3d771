-- ===== src/Process/System/Grants.antt =====
-- A granted claim can be spent: the commit that follows the grant is accepted.
use goal_starter.Prelude.{
  ◌≡◌, ap, ◌∙◌, Option-cases, inl, inr, false, none, some, arith, text_eq_iff,
}
use goal_starter.Domain.Instance.{Time}
use goal_starter.Domain.Owner.{owner_eq_refl}
use goal_starter.Process.Errors.{ok}
use goal_starter.Process.Controller.{InstanceController, SpawnClaim, set_operation_locked}
use goal_starter.Process.Arbitration.{
  Supervisor, Claimant, arbitrate, publish_claim_locked, minted_claim, published_controller,
  refusal,
}
use goal_starter.Process.Arbitration.Registered.{register-Framed}
use goal_starter.Process.Commit.{
  is_consumed, spend, claim_fault, operation_fault, consume_spawn_claim_locked, commit_verdict,
  commit_spawn,
}

-- A claimant of this supervisor that names its controller.
pub record Names (c : Claimant) (s : Supervisor) : Type 0 where
  pub of_instance : c.instance_id ≡ c.ctrl.instance_id
  pub of_model : c.model_id ≡ c.ctrl.model_id
  pub of_supervisor : c.ctrl.supervisor_ref ≡ s.identity

minted-fault :
    (c : Claimant) (s : Supervisor)
    → Names c s
    → claim_fault (published_controller c (minted_claim c s)) (minted_claim c s) ≡ none
unfolding claim_fault operation_fault published_controller minted_claim set_operation_locked
minted-fault c s n = ground (
  arith,
  n.of_instance,
  n.of_model,
  n.of_supervisor,
  text_eq_iff c.model_id c.ctrl.model_id,
  text_eq_iff c.instance_id c.ctrl.instance_id,
  owner_eq_refl c.owner,
)

publish-minted :
    (c : Claimant) (s : Supervisor) {claim : SpawnClaim}
    → (publish_claim_locked c s).0 ≡ ok claim
    → (claim ≡ minted_claim c s) × (s.draining ≡ false)
unfolding publish_claim_locked
publish-minted c s h = ground arith

publish-granted :
    (c : Claimant) (s : Supervisor) {claim : SpawnClaim}
    → (publish_claim_locked c s).0 ≡ ok claim
    → (claim ≡ minted_claim c s)
      × ((publish_claim_locked c s).1.consumed ≡ s.consumed)
      × ((publish_claim_locked c s).1.draining ≡ false)
unfolding publish_claim_locked
publish-granted c s h =
    let (minted, d) = publish-minted c s h in
    (
      minted,
      simp d (register-Framed c (published_controller c (minted_claim c s)) _).same_consumed,
      simp d (register-Framed c (published_controller c (minted_claim c s)) _).same_draining,
    )

arbitrate_granted :
    (c : Claimant) (s : Supervisor) {claim : SpawnClaim}
    → (arbitrate c s).0 ≡ ok claim
    → (claim ≡ minted_claim c s)
      × ((arbitrate c s).1.consumed ≡ s.consumed)
      × ((arbitrate c s).1.draining ≡ false)
unfolding arbitrate
arbitrate_granted c s h = elim (Option-cases (refusal c s)) [
  | inl e ↦ rw (e, arbitrate) (publish-granted c s (rw (e, arbitrate) at h))
  | inr (x, e) ↦ absurd (ground arith)
]

accepted :
    (now later : Time) (claim : SpawnClaim) (ic : InstanceController) (s : Supervisor)
    → claim_fault ic claim ≡ none
    → is_consumed claim.address s.consumed ≡ false
    → s.draining ≡ false
    → (commit_spawn now later (some claim) ic s).0 ≡ none
unfolding commit_spawn consume_spawn_claim_locked spend commit_verdict
accepted now later claim ic s f u d = ground arith

-- A granted claim is good for a spawn: if its address is a new one and the claimant names a
-- controller of this supervisor, the commit that follows on that controller is accepted.
pub arbitrate-commit :
    (now later : Time) (c : Claimant) (s : Supervisor) {claim : SpawnClaim}
    → Names c s
    → is_consumed s.next_address s.consumed ≡ false
    → (arbitrate c s).0 ≡ ok claim
    → (commit_spawn now later (some claim) (published_controller c claim) (arbitrate c s).1).0
      ≡ none
unfolding minted_claim
arbitrate-commit now later c s n fresh h =
    let (minted, consumed, open_gate) = arbitrate_granted c s h in
    rw minted (
      accepted now later (minted_claim c s) (published_controller c (minted_claim c s))
        (arbitrate c s).1 (minted-fault c s n)
        (ap (λ l. is_consumed s.next_address l) consumed ∙ fresh) open_gate)
