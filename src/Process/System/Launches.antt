-- ===== src/Process/System/Launches.antt =====
-- Admissions and restarts keep the registry exclusive and its views published.
use goal_starter.Prelude.{
  ℕ, ◌≡◌, sym, ◌∙◌, none, refl, subst, ap, Bool-cases, inl, inr, Option-cases, [], arith, All,
  text_eq_iff,
}
use goal_starter.Domain.Instance.{LaunchInstance}
use goal_starter.Domain.Owner.{LaunchOwner}
use goal_starter.Process.Errors.{Result, ok, err}
use goal_starter.Process.Controller.{
  InstanceController, SpawnClaim, new_controller, set_operation_locked,
}
use goal_starter.Process.Controller.Views.{IsPublished}
use goal_starter.Process.Arbitration.{
  Supervisor, Claimant, controller_at, new_admission_claimant, new_restart_claimant, arbitrate,
  publish_claim_locked, published_controller, refusal, minted_claim, register, set_controller,
  claim_restart_existing,
}
use goal_starter.Process.Arbitration.Exclusive.{Owns, IsClaimant, arbitrate-Exclusive}
use goal_starter.Process.Restart.{restart, instance_owner, restart_with}
use goal_starter.Domain.Instance.States.{SameLaunch}
use goal_starter.Process.Arbitration.Registered.{register_cases}
use goal_starter.Process.System.{Held}
use goal_starter.Process.System.Registry.{All-controller_at}
use goal_starter.Process.System.Quiets.{put-IsPublished, Inv}

published_controller-IsPublished :
    (c : Claimant) (claim : SpawnClaim) → IsPublished (published_controller c claim)
unfolding published_controller set_operation_locked
published_controller-IsPublished c claim = ground arith

publish-IsPublished :
    (c : Claimant) (s : Supervisor)
    → All IsPublished s.instances
    → All IsPublished (publish_claim_locked c s).1.instances
unfolding publish_claim_locked
publish-IsPublished c s h = elim (Bool-cases s.draining) [
  | inl d ↦ simp d h
  | inr d ↦ simp d (
      register_cases (λ l. All IsPublished l) c (published_controller c (minted_claim c s)) _
        (put-IsPublished (published_controller c (minted_claim c s)) s.instances
          (published_controller-IsPublished c (minted_claim c s)) h)
        h)
]

arbitrate-IsPublished :
    (c : Claimant) (s : Supervisor)
    → All IsPublished s.instances
    → All IsPublished (arbitrate c s).1.instances
unfolding arbitrate
arbitrate-IsPublished c s h = elim (Option-cases (refusal c s)) [
  | inl e ↦ rw (e, arbitrate) (publish-IsPublished c s h)
  | inr (x, e) ↦ rw (e, arbitrate) h
]

pub arbitrate-Inv :
    (c : Claimant) (s : Supervisor)
    → IsClaimant c
    → Inv s.instances
    → Inv (arbitrate c s).1.instances
arbitrate-Inv c s w v = record {
  exclusive = arbitrate-Exclusive c s w v.exclusive;
  published = arbitrate-IsPublished c s v.published;
}

pub admission-IsClaimant :
    (sup : ℕ) (inst : LaunchInstance) (owner : LaunchOwner)
    → Owns owner inst
    → IsClaimant (new_admission_claimant inst.model_id (new_controller sup inst) owner)
unfolding new_admission_claimant new_controller
admission-IsClaimant sup inst owner o = record { of_instance = refl; of_model = refl; of_owner = o }

instance_owner-Owns :
    (i : LaunchInstance) (owner : LaunchOwner) → instance_owner i ≡ ok owner → Owns owner i
unfolding instance_owner
instance_owner-Owns i owner h =
    ground (arith, text_eq_iff i.pipeline_id [], text_eq_iff i.pipeline_entry_id [])

Owns-SameLaunch :
    (owner : LaunchOwner) (a b : LaunchInstance) → SameLaunch a b → Owns owner b → Owns owner a
Owns-SameLaunch owner a b l o = record {
  pipeline_of = λ k. o.pipeline_of k ∙ l.same_pipeline;
  entry_of = λ k. o.entry_of k ∙ l.same_entry;
  entry_named = λ k e. o.entry_named k (l.same_entry ∙ e);
}

restart-IsClaimant :
    (snap : LaunchInstance) (ctrl : InstanceController) (owner : LaunchOwner)
    → IsPublished ctrl
    → SameLaunch ctrl.view.instance snap
    → instance_owner snap ≡ ok owner
    → IsClaimant (new_restart_claimant ctrl snap.model_id owner)
unfolding new_restart_claimant
restart-IsClaimant snap ctrl owner p l h = record {
  of_instance = refl;
  of_model = l.same_model ∙ ap (λ i. i.model_id) p.same_instance;
  of_owner =
      subst (λ i. Owns owner i) p.same_instance
        (Owns-SameLaunch owner ctrl.view.instance snap l (instance_owner-Owns snap owner h));
}

-- A restart of a controller that has left the registry does not enter it again.
arbitrate-departed :
    (c : Claimant) (s : Supervisor)
    → c.mode ≡ claim_restart_existing
    → controller_at c.ctrl.instance_id s.instances ≡ none
    → (arbitrate c s).1.instances ≡ s.instances
unfolding arbitrate publish_claim_locked register set_controller published_controller
    set_operation_locked
arbitrate-departed c s m gone = ground (arith, m, gone)

restart_with-Inv :
    (snap : LaunchInstance) (ctrl : InstanceController) (o : Result LaunchOwner) (s : Supervisor)
    → Held ctrl s
    → SameLaunch ctrl.view.instance snap
    → instance_owner snap ≡ o
    → Inv s.instances
    → Inv (restart_with ctrl snap.model_id o s).1.instances
unfolding restart_with new_restart_claimant
restart_with-Inv snap ctrl (err e) s r l h v = v
restart_with-Inv snap ctrl (ok owner) s (inl r) l h v =
    arbitrate-Inv (new_restart_claimant ctrl snap.model_id owner) s
      (restart-IsClaimant snap ctrl owner
        (All-controller_at IsPublished ctrl.instance_id s.instances r v.published) l h)
      v
restart_with-Inv snap ctrl (ok owner) s (inr r) l h v =
    subst (λ k. Inv k)
      (sym (arbitrate-departed (new_restart_claimant ctrl snap.model_id owner) s refl r.0)) v

pub restart-Inv :
    (snap : LaunchInstance) (ctrl : InstanceController) (s : Supervisor)
    → Held ctrl s
    → SameLaunch ctrl.view.instance snap
    → Inv s.instances
    → Inv (restart snap ctrl s).1.instances
unfolding restart
restart-Inv snap ctrl s r l v = restart_with-Inv snap ctrl (instance_owner snap) s r l refl v
