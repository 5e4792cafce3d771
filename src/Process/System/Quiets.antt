-- ===== src/Process/System/Quiets.antt =====
-- Changes of one controller that keep the registry exclusive.
use goal_starter.Prelude.{
  some_inj, ◌≡◌, refl, subst, ap, sym, ◌∙◌, true, Bool-cases, inl, inr, none, some, List, [], ◌∷◌,
  arith, Text, All, All-imp, select, ◌==ᵗ◌,
}
use goal_starter.Domain.Instance.{LaunchInstance, update_error, fail}
use goal_starter.Domain.Instance.States.{SameLaunch, update_state-SameLaunch, update_state_lem}
use goal_starter.Process.Controller.{
  set_launch_fields_locked, InstanceController, set_state_locked, set_terminal_locked, fail_locked,
  set_error_locked, set_last_error_locked, set_run_locked,
}
use goal_starter.Process.Controller.Views.{
  IsPublished, Mutation, mutate, state, terminal, operation, release,
}
use goal_starter.Process.Arbitration.{
  Supervisor, controller_at, without, put, conflict_visible, set_controller,
}
use goal_starter.Process.Arbitration.Exclusive.{Siblings, NoClash, Exclusive, without-Exclusive}
use goal_starter.Process.Arbitration.Registered.{set_controller_cases}
use goal_starter.Process.System.{Allowed, Held}
use goal_starter.Process.System.Registry.{All-without, All-controller_at}

-- A controller in place of another: the same attribution, and visible only if the other was.
pub record Quiets (a b : InstanceController) : Type 0 where
  pub same_id : b.instance_id ≡ a.instance_id
  pub same_model : b.view.instance.model_id ≡ a.view.instance.model_id
  pub same_pipeline : b.view.instance.pipeline_id ≡ a.view.instance.pipeline_id
  pub same_entry : b.view.instance.pipeline_entry_id ≡ a.view.instance.pipeline_entry_id
  pub visible : conflict_visible b ≡ true → conflict_visible a ≡ true

Siblings-of :
    (a b i : LaunchInstance)
    → b.pipeline_id ≡ a.pipeline_id
    → b.pipeline_entry_id ≡ a.pipeline_entry_id
    → Siblings a i
    → Siblings b i
Siblings-of a b i p e h = record {
  same_pipeline = p ∙ h.same_pipeline;
  in_pipeline = λ q. h.in_pipeline (sym p ∙ q);
  named_left = λ q. h.named_left (sym e ∙ q);
  named_right = h.named_right;
  different = λ q. h.different (sym e ∙ q);
}

Quiets-NoClash : (a b c : InstanceController) → Quiets a b → NoClash a c → NoClash b c
Quiets-NoClash a b c q h m vb vc =
    Siblings-of a.view.instance b.view.instance c.view.instance q.same_pipeline q.same_entry
      (h (sym q.same_model ∙ m) (q.visible vb) vc)

Siblings-sym : (a b : LaunchInstance) → Siblings a b → Siblings b a
Siblings-sym a b h = record {
  same_pipeline = sym h.same_pipeline;
  in_pipeline = λ q. h.in_pipeline (h.same_pipeline ∙ q);
  named_left = h.named_right;
  named_right = h.named_left;
  different = λ q. h.different (sym q);
}

NoClash-sym : (a b : InstanceController) → NoClash a b → NoClash b a
NoClash-sym a b h m va vb = Siblings-sym a.view.instance b.view.instance (h (sym m) vb va)

-- A registered controller clashes with no other one.
registered-NoClash :
    (a : InstanceController) (l : List InstanceController)
    → controller_at a.instance_id l ≡ some a
    → Exclusive l
    → All (NoClash a) (without a.instance_id l)
unfolding controller_at without select
registered-NoClash a [] r h = tt
registered-NoClash a (d ∷ l) r h = elim (Bool-cases (d.instance_id ==ᵗ a.instance_id)) [
  | inl t ↦ rw t (
      All-without (NoClash a) a.instance_id l (
        subst (λ (o : InstanceController). All (NoClash o) l)
          (some_inj d a (rw (t, controller_at) at r)) h.0))
  | inr t ↦
      let r' : controller_at a.instance_id l ≡ some a = rw (t, controller_at) at r in
      rw t (
        NoClash-sym d a (All-controller_at (NoClash d) a.instance_id l r' h.0),
        registered-NoClash a l r' h.1,
      )
]

put-Quiets :
    (a b : InstanceController) (l : List InstanceController)
    → controller_at a.instance_id l ≡ some a
    → Quiets a b
    → Exclusive l
    → Exclusive (put b l)
unfolding put
put-Quiets a b l r q h =
    subst (λ (id : Text). All (NoClash b) (without id l) × Exclusive (without id l)) (sym q.same_id)
      (
        All-imp (NoClash a) (NoClash b) (without a.instance_id l) (λ c. Quiets-NoClash a b c q)
            (registered-NoClash a l r h),
        without-Exclusive a.instance_id l h,
      )

pub put-IsPublished :
    (b : InstanceController) (l : List InstanceController)
    → IsPublished b
    → All IsPublished l
    → All IsPublished (put b l)
unfolding put
put-IsPublished b l p h = (p, All-without IsPublished b.instance_id l h)

-- What holds of the registry between two steps.
pub record Inv (l : List InstanceController) : Type 0 where
  pub exclusive : Exclusive l
  pub published : All IsPublished l

pub put-Inv :
    (a b : InstanceController) (l : List InstanceController)
    → controller_at a.instance_id l ≡ some a
    → Quiets a b
    → IsPublished b
    → Inv l
    → Inv (put b l)
put-Inv a b l r q p v = record {
  exclusive = put-Quiets a b l r q v.exclusive;
  published = put-IsPublished b l p v.published;
}

pub without-Inv : (id : Text) (l : List InstanceController) → Inv l → Inv (without id l)
without-Inv id l v = record {
  exclusive = without-Exclusive id l v.exclusive;
  published = All-without IsPublished id l v.published;
}

-- A change of a controller that somebody holds, which quiets it if it is registered.
pub set_controller-Inv :
    (a b : InstanceController) (s : Supervisor)
    → Held a s
    → b.instance_id ≡ a.instance_id
    → (IsPublished a → Quiets a b × IsPublished b)
    → Inv s.instances
    → Inv (set_controller b s).instances
unfolding set_controller
set_controller-Inv a b s (inl r) id q v =
    let (quiet, published) =
      q (All-controller_at IsPublished a.instance_id s.instances r v.published) in
    set_controller_cases (λ l. Inv l) b s (put-Inv a b s.instances r quiet published v) v
set_controller-Inv a b s (inr r) id q v =
    let gone : controller_at b.instance_id s.instances ≡ none =
      ap (λ (i : Text). controller_at i s.instances) id ∙ r.0 in
    rw gone v

pub SameLaunch-Quiets :
    (a b : InstanceController)
    → IsPublished a
    → b.instance_id ≡ a.instance_id
    → SameLaunch a.instance b.view.instance
    → (conflict_visible b ≡ true → conflict_visible a ≡ true)
    → Quiets a b
SameLaunch-Quiets a b p id l v = record {
  same_id = id;
  same_model = l.same_model ∙ ap (λ i. i.model_id) (sym p.same_instance);
  same_pipeline = l.same_pipeline ∙ ap (λ i. i.pipeline_id) (sym p.same_instance);
  same_entry = l.same_entry ∙ ap (λ i. i.pipeline_entry_id) (sym p.same_instance);
  visible = v;
}

pub SameLaunch-refl : (i : LaunchInstance) → SameLaunch i i
SameLaunch-refl i = record {
  same_id = refl;
  same_model = refl;
  same_pipeline = refl;
  same_entry = refl;
}

-- Lifecycle work that is allowed quiets its controller.
pub mutate-Quiets :
    (m : Mutation) (ic : InstanceController)
    → Allowed ic m
    → IsPublished ic
    → Quiets ic (mutate m ic)
unfolding set_state_locked set_terminal_locked fail_locked set_error_locked set_last_error_locked
    set_launch_fields_locked set_run_locked update_error fail conflict_visible
mutate-Quiets (state s now later) ic a p =
    SameLaunch-Quiets ic (mutate (state s now later) ic) p refl
      (update_state-SameLaunch s now later ic.instance)
      (λ v. ground (arith, p.same_active, update_state_lem s now later ic.instance))
mutate-Quiets (terminal s pid code cls e now) ic a p =
    ground (arith, p.same_instance, p.same_active)
mutate-Quiets (operation op) ic a p = absurd a
mutate-Quiets (release op_id) ic a p = absurd a
mutate-Quiets _ ic a p = ground (arith, p.same_instance, p.same_active)
