-- ===== src/Process/Arbitration/Registered.antt =====
-- How a publication changes the registry, and what it leaves alone.
use goal_starter.Prelude.{
  some, ◌≡◌, ◌⊎◌, ◌+◌, ◌∙◌, ap, Text, text_eq_iff, refl, Bool-cases, inl, inr, is_some, List, arith,
  true,
}
use goal_starter.Process.Controller.{InstanceController}
use goal_starter.Process.Arbitration.{
  Supervisor, Claimant, claim_new_admission, claim_restart_existing, controller_at, put,
  set_controller, register,
}

set_controller-registered :
    (c : InstanceController) (s : Supervisor)
    → is_some (controller_at c.instance_id s.instances) ≡ true
    → set_controller c s ≡ record s { instances = put c s.instances }
unfolding set_controller
set_controller-registered c s e = rw e refl

-- A change of a controller either puts it in the registry or leaves the registry alone.
pub set_controller_cases {κ} :
    (P : List InstanceController → Type κ) (c : InstanceController) (s : Supervisor)
    → P (put c s.instances)
    → P s.instances
    → P (set_controller c s).instances
unfolding set_controller
set_controller_cases P c s h k =
    elim (Bool-cases (is_some (controller_at c.instance_id s.instances))) [
      | inl e ↦ rw e h
      | inr e ↦ rw e k
    ]

pub register_cases {κ} :
    (P : List InstanceController → Type κ) (c : Claimant) (ctrl : InstanceController)
    (s : Supervisor)
    → P (put ctrl s.instances)
    → P s.instances
    → P (register c ctrl s).instances
unfolding register
register_cases P c ctrl s h k =
    elim c.mode as (λ m. P (register (record c { mode = m }) ctrl s).instances) [
      | claim_new_admission ↦ h
      | claim_restart_existing ↦ set_controller_cases P ctrl s h k
    ]

-- What a change of a controller does not touch.
pub record Framed (s t : Supervisor) : Type 0 where
  pub same_consumed : t.consumed ≡ s.consumed
  pub same_draining : t.draining ≡ s.draining
  pub same_closed : t.zero_closed ≡ s.zero_closed
  pub same_op_seq : t.op_seq ≡ s.op_seq

pub set_controller-Framed :
    (c : InstanceController) (s : Supervisor) → Framed s (set_controller c s)
unfolding set_controller
set_controller-Framed c s = record {
  same_consumed = ground arith;
  same_draining = ground arith;
  same_closed = ground arith;
  same_op_seq = ground arith;
}

pub set_controller-in_flight :
    (c : InstanceController) (s : Supervisor)
    → (set_controller c s).pre_spawn_in_flight ≡ s.pre_spawn_in_flight
unfolding set_controller
set_controller-in_flight c s = ground arith

pub register-Framed :
    (c : Claimant) (ctrl : InstanceController) (s : Supervisor) → Framed s (register c ctrl s)
unfolding register
register-Framed c ctrl s =
    elim c.mode as (λ m. Framed s (register (record c { mode = m }) ctrl s)) [
      | claim_new_admission ↦ record {
        same_consumed = refl;
        same_draining = refl;
        same_closed = refl;
        same_op_seq = refl;
      }
      | claim_restart_existing ↦ set_controller-Framed ctrl s
    ]

at_head :
    (b : InstanceController) (id : Text) (l : List InstanceController)
    → b.instance_id ≡ id
    → controller_at id (put b l) ≡ some b
unfolding controller_at put
at_head b id l e = rw ((text_eq_iff b.instance_id id).1 e) refl

-- The controller of a publication, found in the registry: that of a new admission, and that of a
-- restart if it is there.
pub register-at :
    (c : Claimant) (ctrl : InstanceController) (s : Supervisor)
    → ctrl.instance_id ≡ c.ctrl.instance_id
    → (c.mode ≡ claim_new_admission)
      ⊎ (is_some (controller_at c.ctrl.instance_id s.instances) ≡ true)
    → controller_at c.ctrl.instance_id (register c ctrl s).instances ≡ some ctrl
unfolding register
register-at c ctrl s id (inl m) = rw (m, register) (at_head ctrl _ s.instances id)
register-at c ctrl s id (inr there) =
    let known : is_some (controller_at ctrl.instance_id s.instances) ≡ true =
      ap (λ (i : Text). is_some (controller_at i s.instances)) id ∙ there in
    elim c.mode
      as (λ m.
        controller_at c.ctrl.instance_id (register (record c { mode = m }) ctrl s).instances
        ≡ some ctrl) [
          | claim_new_admission ↦ at_head ctrl _ s.instances id
          | claim_restart_existing ↦
              ap (λ (k : Supervisor). controller_at c.ctrl.instance_id k.instances)
                (set_controller-registered ctrl s known)
              ∙ at_head ctrl _ s.instances id
        ]

pub register-counted :
    (c : Claimant) (ctrl : InstanceController) (s : Supervisor)
    → c.mode ≡ claim_new_admission
    → (register c ctrl s).pre_spawn_in_flight ≡ s.pre_spawn_in_flight + 1
unfolding register
register-counted c ctrl s m = rw (m, register) refl
