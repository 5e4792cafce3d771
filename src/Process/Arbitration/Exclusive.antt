-- ===== src/Process/Arbitration/Exclusive.antt =====
-- Mutual exclusion of launches of one model.
use goal_starter.Prelude.{
  ◌≡◌, ◌≢◌, ap, sym, ◌∙◌, true, false, not, Bool-cases, inl, inr, none, Option-cases, List, [], ◌∷◌,
  arith, Text, All, All-select, select, ◌==ᵗ◌, text_eq_iff,
}
use goal_starter.Domain.Instance.{LaunchInstance}
use goal_starter.Domain.Owner.{LaunchOwner, pipeline}
use goal_starter.Process.Errors.{ProcessError, err}
use goal_starter.Process.Controller.{InstanceController, SpawnClaim, set_operation_locked}
use goal_starter.Process.Arbitration.Registered.{register_cases}
use goal_starter.Process.Arbitration.{
  Supervisor, Claimant, compatible, conflict_visible, conflicts, scan_conflicts, without, put,
  refusal, arbitrate, publish_claim_locked, published_controller, minted_claim, check_target,
  orphan_fence,
}

-- Two launches that may run side by side: entries of one pipeline, both named and different.
pub record Siblings (a b : LaunchInstance) : Type 0 where
  pub same_pipeline : a.pipeline_id ≡ b.pipeline_id
  pub in_pipeline : a.pipeline_id ≢ []
  pub named_left : a.pipeline_entry_id ≢ []
  pub named_right : b.pipeline_entry_id ≢ []
  pub different : a.pipeline_entry_id ≢ b.pipeline_entry_id

-- Two controllers do not launch one model at a time, unless they are siblings.
abbrev pub NoClash : InstanceController → InstanceController → Type 0
NoClash a b =
    a.view.instance.model_id ≡ b.view.instance.model_id
    → conflict_visible a ≡ true
    → conflict_visible b ≡ true
    → Siblings a.view.instance b.view.instance

abbrev pub Exclusive : List InstanceController → Type 0
Exclusive [] = Unit
Exclusive (c ∷ l) = All (NoClash c) l × Exclusive l

-- The owner that an instance records, with the entry of a pipeline launch named.
pub record Owns (owner : LaunchOwner) (i : LaunchInstance) : Type 0 where
  pub pipeline_of : owner.kind ≡ pipeline → owner.pipeline_id ≡ i.pipeline_id
  pub entry_of : owner.kind ≡ pipeline → owner.pipeline_entry_id ≡ i.pipeline_entry_id
  pub entry_named : owner.kind ≡ pipeline → i.pipeline_entry_id ≢ []

pub without-Exclusive :
    (id : Text) (l : List InstanceController) → Exclusive l → Exclusive (without id l)
unfolding without select
without-Exclusive id [] h = tt
without-Exclusive id (c ∷ l) h = elim (Bool-cases (c.instance_id ==ᵗ id)) [
  | inl e ↦ rw e (without-Exclusive id l h.1)
  | inr e ↦
      rw e
        (All-select (NoClash c) (λ d. not (d.instance_id ==ᵗ id)) l h.0, without-Exclusive id l h.1)
]

-- What the scan has passed.
abbrev pub Passed : Claimant → InstanceController → Type 0
Passed c other = conflicts c other ≡ false

pub scan-Passed :
    (c : Claimant) (l : List InstanceController) → scan_conflicts c l ≡ none → All (Passed c) l
unfolding scan_conflicts
scan-Passed c [] h = tt
scan-Passed c (other ∷ l) h = elim (Bool-cases (conflicts c other)) [
  | inl e ↦ absurd (ground arith)
  | inr e ↦ (e, scan-Passed c l (ground arith))
]

compatible-Siblings :
    (owner : LaunchOwner) (a b : LaunchInstance)
    → Owns owner a
    → compatible owner b ≡ true
    → Siblings a b
unfolding compatible
compatible-Siblings owner a b o h = ground (
  arith,
  text_eq_iff b.pipeline_id [],
  text_eq_iff b.pipeline_id owner.pipeline_id,
  text_eq_iff b.pipeline_entry_id [],
  text_eq_iff b.pipeline_entry_id owner.pipeline_entry_id,
  o.pipeline_of,
  o.entry_of,
  o.entry_named,
)

-- A claimant that describes its controller: the identity, the model and the owner are those of the
-- instance it launches.
pub record IsClaimant (c : Claimant) : Type 0 where
  pub of_instance : c.instance_id ≡ c.ctrl.instance_id
  pub of_model : c.model_id ≡ c.ctrl.instance.model_id
  pub of_owner : Owns c.owner c.ctrl.instance

published-instance :
    (c : Claimant) (claim : SpawnClaim)
    → (published_controller c claim).view.instance ≡ c.ctrl.instance
unfolding published_controller set_operation_locked
published-instance c claim = ground arith

published-instance_id :
    (c : Claimant) (claim : SpawnClaim)
    → (published_controller c claim).instance_id ≡ c.ctrl.instance_id
unfolding published_controller set_operation_locked
published-instance_id c claim = ground arith

-- A candidate that the scan has passed, of the claimant's model and visible, is compatible.
Passed-compatible :
    (c : Claimant) (other : InstanceController)
    → (other.instance_id ==ᵗ c.instance_id) ≡ false
    → Passed c other
    → c.model_id ≡ other.view.instance.model_id
    → conflict_visible other ≡ true
    → compatible c.owner other.view.instance ≡ true
unfolding conflicts
Passed-compatible c other ne p model v =
    ground (arith, text_eq_iff other.view.instance.model_id c.model_id)

Passed-NoClash :
    (c : Claimant) (claim : SpawnClaim) (other : InstanceController)
    → IsClaimant c
    → (other.instance_id ==ᵗ c.instance_id) ≡ false
    → Passed c other
    → NoClash (published_controller c claim) other
Passed-NoClash c claim other w ne p model va vb =
    let same = published-instance c claim in
    rw same (
      compatible-Siblings c.owner c.ctrl.instance other.view.instance w.of_owner
        (Passed-compatible c other ne p (w.of_model ∙ ap (λ i. i.model_id) (sym same) ∙ model) vb))

without-NoClash :
    (c : Claimant) (claim : SpawnClaim) (l : List InstanceController)
    → IsClaimant c
    → All (Passed c) l
    → All (NoClash (published_controller c claim)) (without c.instance_id l)
unfolding without select
without-NoClash c claim [] w h = tt
without-NoClash c claim (o ∷ l) w h = elim (Bool-cases (o.instance_id ==ᵗ c.instance_id)) [
  | inl e ↦ rw e (without-NoClash c claim l w h.1)
  | inr e ↦ rw e (Passed-NoClash c claim o w e h.0, without-NoClash c claim l w h.1)
]

put-Exclusive :
    (c : Claimant) (claim : SpawnClaim) (l : List InstanceController)
    → IsClaimant c
    → All (Passed c) l
    → Exclusive l
    → Exclusive (put (published_controller c claim) l)
unfolding put
put-Exclusive c claim l w p h =
    let id = published-instance_id c claim ∙ sym w.of_instance in
    (simp id (without-NoClash c claim l w p), simp id (without-Exclusive c.instance_id l h))

pub refusal-none :
    (c : Claimant) (s : Supervisor)
    → refusal c s ≡ none
    → (s.lifecycle_ended ≡ false)
      × (check_target c ≡ none)
      × (scan_conflicts c s.instances ≡ none)
      × (orphan_fence c s ≡ none)
unfolding refusal
refusal-none c s h = ground arith

publish-Exclusive :
    (c : Claimant) (s : Supervisor)
    → IsClaimant c
    → scan_conflicts c s.instances ≡ none
    → Exclusive s.instances
    → Exclusive (publish_claim_locked c s).1.instances
unfolding publish_claim_locked
publish-Exclusive c s w passed h = elim (Bool-cases s.draining) [
  | inl d ↦ simp d h
  | inr d ↦ simp d (
      register_cases (λ l. Exclusive l) c (published_controller c (minted_claim c s)) _
        (put-Exclusive c (minted_claim c s) s.instances w (scan-Passed c s.instances passed) h) h)
]

-- Arbitration keeps launches of one model exclusive: if no two controllers in the registry clash,
-- that is, are both in flight or in an operation on one model without being differently named
-- entries of one pipeline, then none do after it, granted or refused. The claimant must describe its
-- controller.
pub arbitrate-Exclusive :
    (c : Claimant) (s : Supervisor)
    → IsClaimant c
    → Exclusive s.instances
    → Exclusive (arbitrate c s).1.instances
unfolding arbitrate
arbitrate-Exclusive c s w h = elim (Option-cases (refusal c s)) [
  | inl e ↦ rw (e, arbitrate) (publish-Exclusive c s w (refusal-none c s e).2 h)
  | inr (x, e) ↦ rw (e, arbitrate) h
]

-- A refusal leaves the registry, the spent claims and the count of pre-spawn launches as they were.
arbitrate-refused :
    (c : Claimant) (s : Supervisor) {e : ProcessError}
    → (arbitrate c s).0 ≡ err e
    → ((arbitrate c s).1.instances ≡ s.instances)
      × ((arbitrate c s).1.consumed ≡ s.consumed)
      × ((arbitrate c s).1.pre_spawn_in_flight ≡ s.pre_spawn_in_flight)
unfolding arbitrate publish_claim_locked
arbitrate-refused c s h = ground arith
