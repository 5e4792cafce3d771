-- ===== src/Process/System/Registry.antt =====
-- The registry as a finite map with one controller to an instance ID.
use goal_starter.Prelude.{
  some_inj, ◌≡◌, refl, subst, ap, sym, ◌∙◌, false, not, Bool-cases, inl, inr, none, some, List, [],
  ◌∷◌, arith, Text, All, All-select, select, ◌==ᵗ◌, text_eq_iff,
}
use goal_starter.Process.Controller.{InstanceController}
use goal_starter.Process.Arbitration.{controller_at, without, put}

abbrev pub Apart : InstanceController → InstanceController → Type 0
Apart a b = (a.instance_id ==ᵗ b.instance_id) ≡ false

abbrev pub IsMap : List InstanceController → Type 0
IsMap [] = Unit
IsMap (c ∷ l) = All (λ d. (d.instance_id ==ᵗ c.instance_id) ≡ false) l × IsMap l

pub All-without {κ} :
    (P : InstanceController → Type κ) (id : Text) (l : List InstanceController)
    → All P l
    → All P (without id l)
unfolding without
All-without P id l h = All-select P (λ c. not (c.instance_id ==ᵗ id)) l h

-- Nothing in `without id l` has the ID.
pub without-absent :
    (id : Text) (l : List InstanceController)
    → All (λ c. (c.instance_id ==ᵗ id) ≡ false) (without id l)
unfolding without select
without-absent id [] = tt
without-absent id (c ∷ l) = elim (Bool-cases (c.instance_id ==ᵗ id)) [
  | inl e ↦ rw e (without-absent id l)
  | inr e ↦ rw e (e, without-absent id l)
]

-- Removing an ID that is not there changes nothing.
pub without-of_absent :
    (id : Text) (l : List InstanceController)
    → All (λ c. (c.instance_id ==ᵗ id) ≡ false) l
    → without id l ≡ l
unfolding without select
without-of_absent id [] h = refl
without-of_absent id (c ∷ l) h = rw h.0 (ap (λ t. c ∷ t) (without-of_absent id l h.1))

pub without-IsMap : (id : Text) (l : List InstanceController) → IsMap l → IsMap (without id l)
unfolding without select
without-IsMap id [] h = tt
without-IsMap id (c ∷ l) h = elim (Bool-cases (c.instance_id ==ᵗ id)) [
  | inl e ↦ rw e (without-IsMap id l h.1)
  | inr e ↦ rw e (
    All-select (λ d. (d.instance_id ==ᵗ c.instance_id) ≡ false) (λ d. not (d.instance_id ==ᵗ id)) l
        h.0,
    without-IsMap id l h.1,
  )
]

pub put-IsMap : (c : InstanceController) (l : List InstanceController) → IsMap l → IsMap (put c l)
unfolding put
put-IsMap c l h = (without-absent c.instance_id l, without-IsMap c.instance_id l h)

-- A registered controller satisfies what all do.
pub All-controller_at {κ} :
    (P : InstanceController → Type κ) (id : Text) (l : List InstanceController)
    {c : InstanceController}
    → controller_at id l ≡ some c
    → All P l
    → P c
unfolding controller_at
All-controller_at P id [] e h = cc
All-controller_at P id (d ∷ l) {c} e h = elim (Bool-cases (d.instance_id ==ᵗ id)) [
  | inl t ↦ subst P (some_inj d c (rw (t, controller_at) at e)) h.0
  | inr t ↦ All-controller_at P id l (rw (t, controller_at) at e) h.1
]

pub controller_at-id :
    (id : Text) (l : List InstanceController) {c : InstanceController}
    → controller_at id l ≡ some c
    → c.instance_id ≡ id
unfolding controller_at
controller_at-id id [] e = cc
controller_at-id id (d ∷ l) {c} e = elim (Bool-cases (d.instance_id ==ᵗ id)) [
  | inl t ↦
      ap (λ (o : InstanceController). o.instance_id)
        (sym (some_inj d c (rw (t, controller_at) at e)))
      ∙ (text_eq_iff d.instance_id id).0 t
  | inr t ↦ controller_at-id id l (rw (t, controller_at) at e)
]

-- An ID with no controller.
pub controller_at-none :
    (id : Text) (l : List InstanceController)
    → controller_at id l ≡ none
    → All (λ c. (c.instance_id ==ᵗ id) ≡ false) l
unfolding controller_at
controller_at-none id [] e = tt
controller_at-none id (d ∷ l) e = elim (Bool-cases (d.instance_id ==ᵗ id)) [
  | inl t ↦ absurd (ground arith)
  | inr t ↦ (t, controller_at-none id l (rw (t, controller_at) at e))
]
