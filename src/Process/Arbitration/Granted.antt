-- ===== src/Process/Arbitration/Granted.antt =====
-- What a granted claim stands for (internal/process/arbitration.go).
use goal_starter.Prelude.{
  ◌+◌, ◌%◌, ◌^◌, ◌≡◌, ◌≢◌, ◌↔◌, ◌⊎◌, refl, sym, ◌∙◌, true, false, inl, inr, none, some, Option,
  Option-cases, is_some, List, [], ◌∷◌, arith, Text, All, text_eq_iff,
}
use goal_starter.Domain.Instance.{
  LaunchInstance, LaunchInstanceEntry, running, stopping, exited, failed, orphan, is_in_flight,
}
use goal_starter.Domain.Owner.{LaunchOwner, pipeline}
use goal_starter.Process.Errors.{ok}
use goal_starter.Process.Controller.{InstanceController, SpawnClaim, set_operation_locked}
use goal_starter.Process.Arbitration.{
  Supervisor, Claimant, claim_new_admission, claim_restart_existing, compatible, conflict_visible,
  conflicts, controller_at, register, refusal, arbitrate, publish_claim_locked,
  published_controller, minted_claim, check_target, check_restart_target, orphan_fence,
  orphan_among,
}
use goal_starter.Process.Arbitration.Registered.{register-Framed, register-at, register-counted}
use goal_starter.Process.Arbitration.Exclusive.{refusal-none, scan-Passed, Passed}

-- An owner whose launch may run beside another launch of the model: both are entries of one pipeline,
-- and different.
pub record Beside (owner : LaunchOwner) (other : LaunchInstance) : Type 0 where
  pub by_pipeline : owner.kind ≡ pipeline
  pub in_pipeline : other.pipeline_id ≢ []
  pub same_pipeline : other.pipeline_id ≡ owner.pipeline_id
  pub named : other.pipeline_entry_id ≢ []
  pub different : other.pipeline_entry_id ≢ owner.pipeline_entry_id

-- Another launch of the model, in flight or in an operation, may run beside.
abbrev pub Clear : Claimant → InstanceController → Type 0
Clear c other =
    other.instance_id ≢ c.instance_id
    → other.view.instance.model_id ≡ c.model_id
    → (is_in_flight other.view.instance.state ≡ true) ⊎ (is_some other.view.active ≡ true)
    → Beside c.owner other.view.instance

abbrev pub IsRestartable : InstanceController → Type 0
IsRestartable ctrl =
    ((ctrl.view.instance.state ≡ running)
      ⊎ (ctrl.view.instance.state ≡ stopping)
      ⊎ (ctrl.view.instance.state ≡ exited)
      ⊎ (ctrl.view.instance.state ≡ failed))
    × (ctrl.view.active ≡ none)

-- The claim that the claimant gets.
pub record IsClaimOf (c : Claimant) (s : Supervisor) (claim : SpawnClaim) : Type 0 where
  pub of_supervisor : claim.sup ≡ s.identity
  pub of_model : claim.model_id ≡ c.model_id
  pub of_instance : claim.instance_id ≡ c.instance_id
  pub of_owner : claim.owner ≡ c.owner
  pub of_operation : claim.op_id ≡ (s.op_seq + 1) % 2 ^ 64
  pub of_address : claim.address ≡ s.next_address
  pub of_mode : (claim.restart ≡ true) ↔ (c.mode ≡ claim_restart_existing)

-- The claimant's controller, with the claim's operation published.
pub record Carries (c : Claimant) (claim : SpawnClaim) (ic : InstanceController) : Type 0 where
  pub operation : ic.active ≡ some (record { id = claim.op_id; owner = c.owner; claim = claim })
  pub published : ic.view.active ≡ ic.active
  pub same_instance : ic.instance ≡ c.ctrl.instance
  pub same_view : ic.view.instance ≡ c.ctrl.instance
  pub token : c.mode ≡ claim_new_admission → ic.pre_spawn_token ≡ true

pub record Grant (c : Claimant) (s : Supervisor) (claim : SpawnClaim) (t : Supervisor)
    : Type 0 where
  pub alive : s.lifecycle_ended ≡ false
  pub not_draining : s.draining ≡ false
  pub restartable : c.mode ≡ claim_restart_existing → IsRestartable c.ctrl
  pub clear : All (Clear c) s.instances
  pub no_orphan :
      (list : Text → Option (List LaunchInstanceEntry)) (entries : List LaunchInstanceEntry)
      → s.store ≡ some list
      → list c.model_id ≡ some entries
      → All (λ (e : LaunchInstanceEntry). e.state ≢ orphan) entries
  pub claimed : IsClaimOf c s claim
  pub numbered : t.op_seq ≡ claim.op_id
  pub registered :
      (c.mode ≡ claim_new_admission)
        ⊎ (is_some (controller_at c.ctrl.instance_id s.instances) ≡ true)
      → (ic : InstanceController) × Carries c claim ic
        × (controller_at c.ctrl.instance_id t.instances ≡ some ic)
  pub counted : c.mode ≡ claim_new_admission → t.pre_spawn_in_flight ≡ s.pre_spawn_in_flight + 1

conflicts-compatible :
    (c : Claimant) (other : InstanceController)
    → conflicts c other ≡ false
    → other.instance_id ≢ c.instance_id
    → other.view.instance.model_id ≡ c.model_id
    → (is_in_flight other.view.instance.state ≡ true) ⊎ (is_some other.view.active ≡ true)
    → compatible c.owner other.view.instance ≡ true
unfolding conflicts conflict_visible
conflicts-compatible c other h apart model seen = ground (
  arith,
  text_eq_iff other.instance_id c.instance_id,
  text_eq_iff other.view.instance.model_id c.model_id,
)

compatible-Beside :
    (owner : LaunchOwner) (i : LaunchInstance) → compatible owner i ≡ true → Beside owner i
unfolding compatible
compatible-Beside owner i h = ground (
  arith,
  text_eq_iff i.pipeline_id [],
  text_eq_iff i.pipeline_id owner.pipeline_id,
  text_eq_iff i.pipeline_entry_id [],
  text_eq_iff i.pipeline_entry_id owner.pipeline_entry_id,
)

conflicts-Clear :
    (c : Claimant) (other : InstanceController) → conflicts c other ≡ false → Clear c other
conflicts-Clear c other h apart model seen =
    compatible-Beside c.owner other.view.instance (conflicts-compatible c other h apart model seen)

clear_all : (c : Claimant) (l : List InstanceController) → All (Passed c) l → All (Clear c) l
clear_all c [] h = tt
clear_all c (o ∷ l) h = (conflicts-Clear c o h.0, clear_all c l h.1)

orphan_among-none :
    (c : Claimant) (l : List LaunchInstanceEntry)
    → orphan_among c l ≡ none
    → All (λ (e : LaunchInstanceEntry). e.state ≢ orphan) l
unfolding orphan_among
orphan_among-none c [] h = tt
orphan_among-none c (e ∷ l) h = ((λ k. ground arith), orphan_among-none c l (ground arith))

check_target-IsRestartable :
    (c : Claimant) → check_target c ≡ none → c.mode ≡ claim_restart_existing → IsRestartable c.ctrl
unfolding check_target check_restart_target
check_target-IsRestartable c h m = (ground arith, ground arith)

minted-IsClaimOf : (c : Claimant) (s : Supervisor) → IsClaimOf c s (minted_claim c s)
unfolding minted_claim
minted-IsClaimOf c s = record {
  of_supervisor = refl;
  of_model = refl;
  of_instance = refl;
  of_owner = refl;
  of_operation = refl;
  of_address = refl;
  of_mode = ground arith;
}

published-Carries :
    (c : Claimant) (claim : SpawnClaim) → Carries c claim (published_controller c claim)
unfolding published_controller set_operation_locked
published-Carries c claim = record {
  operation = ground arith;
  published = ground arith;
  same_instance = ground arith;
  same_view = ground arith;
  token = ground arith;
}

published-id :
    (c : Claimant) (claim : SpawnClaim)
    → (published_controller c claim).instance_id ≡ c.ctrl.instance_id
unfolding published_controller set_operation_locked
published-id c claim = ground arith

publish-granted :
    (c : Claimant) (s : Supervisor) {claim : SpawnClaim}
    → (publish_claim_locked c s).0 ≡ ok claim
    → (claim ≡ minted_claim c s)
      × (s.draining ≡ false)
      × (publish_claim_locked c s).1
        ≡ register c
            (published_controller c (minted_claim c s))
            (record s { op_seq = (s.op_seq + 1) % 2 ^ 64; next_address = s.next_address + 1 })
unfolding publish_claim_locked
publish-granted c s h = ground arith

listed_none :
    (c : Claimant) (s : Supervisor) (list : Text → Option (List LaunchInstanceEntry))
    (entries : List LaunchInstanceEntry)
    → orphan_fence c s ≡ none
    → s.store ≡ some list
    → list c.model_id ≡ some entries
    → orphan_among c entries ≡ none
unfolding orphan_fence
listed_none c s list entries h e k = rw (e, k) at h

granted :
    (c : Claimant) (s : Supervisor) (t : Supervisor) (claim : SpawnClaim)
    → (claim ≡ minted_claim c s)
    → (s.draining ≡ false)
    → t
      ≡ register c
          (published_controller c (minted_claim c s))
          (record s { op_seq = (s.op_seq + 1) % 2 ^ 64; next_address = s.next_address + 1 })
    → refusal c s ≡ none
    → Grant c s claim t
granted c s t claim minted gate e r =
    let (alive, target, passed, fence) = refusal-none c s r in
    let numbered : Supervisor = record s {
      op_seq = (s.op_seq + 1) % 2 ^ 64;
      next_address = s.next_address + 1;
    } in
    let ic = published_controller c (minted_claim c s) in
    let is_claim = minted-IsClaimOf c s in
    rw (minted, e)
      (record {
        alive = alive;
        not_draining = gate;
        restartable = check_target-IsRestartable c target;
        clear = clear_all c s.instances (scan-Passed c s.instances passed);
        no_orphan = λ list entries k l.
            orphan_among-none c entries (listed_none c s list entries fence k l);
        claimed = is_claim;
        numbered = (register-Framed c ic numbered).same_op_seq ∙ sym is_claim.of_operation;
        registered = λ k. (
          ic,
          published-Carries c (minted_claim c s),
          register-at c ic numbered (published-id c (minted_claim c s)) k,
        );
        counted = register-counted c ic numbered;
      })

-- A granted claim means that every check passed: the supervisor is not shut down and not draining; a
-- restart's target is running, stopping, exited or failed and has no operation; every other
-- registered launch of the model that is in flight or in an operation is an entry of the claimant's
-- pipeline, different from the claimant's own; and no record that the store lists for the model is an
-- orphan. The claim names this supervisor and the claimant's model, instance, owner and mode, with
-- the next operation number. After it, the controller of a new admission, and that of a restart if it
-- is still registered, is the registered one and publishes the operation with that owner and claim;
-- a new admission is counted with its token.
pub arbitrate-granted :
    (c : Claimant) (s : Supervisor) {claim : SpawnClaim}
    → (arbitrate c s).0 ≡ ok claim
    → Grant c s claim (arbitrate c s).1
unfolding arbitrate
arbitrate-granted c s {claim} h = elim (Option-cases (refusal c s)) [
  | inl e ↦
      let (minted, gate, after) = publish-granted c s (rw (e, arbitrate) at h) in
      rw (e, arbitrate) (granted c s _ claim minted gate after e)
  | inr (x, e) ↦ absurd (ground arith)
]
