-- ===== src/Storage/Import/Held.antt =====
-- Who holds a runtime's name when an import is planned.
use goal_starter.Prelude.{
  ◌≡◌, ap, sym, ◌∙◌, true, Bool-cases, inl, inr, some, Option-cases, List, [], ◌∷◌, Text,
  text_eq_iff, All, length, ltb, arith, if◌then◌else◌,
}
use goal_starter.Domain.Entries.{RuntimeEntry}
use goal_starter.Storage.Repository.Runtimes.{runtime_id}
use goal_starter.Storage.Import.{ImportTools}
use goal_starter.Storage.Import.Names.{
  Intent, Holders, find_last, member, set_add, add_holder, writes, local_holders, bundle_holders,
}

-- The entry is among the holders of its name.
abbrev pub Held : ImportTools → Holders → RuntimeEntry → Type 0
Held tools h e = member e.id (h (tools.to_lower e.name)) ≡ true

-- The name has no second holder.
abbrev pub IsFree : ImportTools → Holders → RuntimeEntry → Type 0
IsFree tools h e = ltb (length (h (tools.to_lower e.name))) 2 ≡ true

add_holder-more :
    (tools : ImportTools) (name id : Text) (h : Holders) (k x : Text)
    → member x (h k) ≡ true
    → member x (add_holder tools name id h k) ≡ true
unfolding add_holder set_add member
add_holder-more tools name id h k x m = ground (arith, m)

add_holder_self :
    (tools : ImportTools) (name id : Text) (h : Holders)
    → member id (add_holder tools name id h (tools.to_lower name)) ≡ true
unfolding add_holder set_add member
add_holder_self tools name id h =
    ground (arith, text_eq_iff (tools.to_lower name) (tools.to_lower name), text_eq_iff id id)

module _ (tools : ImportTools) where
  local_holders-more :
      (l : List RuntimeEntry) (h : Holders) (k x : Text)
      → member x (h k) ≡ true
      → member x (local_holders tools l h k) ≡ true
  unfolding local_holders
  local_holders-more [] h k x m = m
  local_holders-more (e ∷ l) h k x m =
      local_holders-more l _ k x (add_holder-more tools e.name e.id h k x m)

  pub local_holders-Held :
      (l : List RuntimeEntry) (h : Holders) → All (Held tools (local_holders tools l h)) l
  unfolding local_holders
  local_holders-Held [] h = tt
  local_holders-Held (e ∷ l) h = (
    local_holders-more l (add_holder tools e.name e.id h) (tools.to_lower e.name) e.id
        (add_holder_self tools e.name e.id h),
    local_holders-Held l (add_holder tools e.name e.id h),
  )

  pub bundle_holders-more :
      (l : List (RuntimeEntry × Intent)) (h : Holders) (k x : Text)
      → member x (h k) ≡ true
      → member x (bundle_holders tools l h k) ≡ true
  unfolding bundle_holders
  bundle_holders-more [] h k x m = m
  bundle_holders-more ((rt, i) ∷ l) h k x m = elim (Bool-cases (writes i)) [
    | inl w ↦ rw w (bundle_holders-more l _ k x (add_holder-more tools rt.name rt.id h k x m))
    | inr w ↦ rw w (bundle_holders-more l h k x m)
  ]

  abbrev pub Claims : Holders → RuntimeEntry × Intent → Type 0
  Claims h (rt, i) = writes i ≡ true → Held tools h rt

  pub bundle_holders-Claims :
      (l : List (RuntimeEntry × Intent)) (h : Holders) → All (Claims (bundle_holders tools l h)) l
  unfolding bundle_holders
  bundle_holders-Claims [] h = tt
  bundle_holders-Claims ((rt, i) ∷ l) h =
      let next : Holders = if writes i then add_holder tools rt.name rt.id h else h in
      (
        λ w.
            bundle_holders-more l next (tools.to_lower rt.name) rt.id
              (rw w (add_holder_self tools rt.name rt.id h)),
        bundle_holders-Claims l next,
      )

pub find_last-id :
    (id : Text) (l : List RuntimeEntry) {e : RuntimeEntry}
    → find_last runtime_id id l ≡ some e
    → e.id ≡ id
unfolding find_last
find_last-id id [] h = absurd (ground arith)
find_last-id id (x ∷ l) {e} h = elim (Option-cases (find_last runtime_id id l)) [
  | inr (y, f) ↦
      let same : y ≡ e = ground (arith, f, h) in
      ap (λ (r : RuntimeEntry). r.id) (sym same) ∙ find_last-id id l f
  | inl f ↦ ground (arith, f, h, text_eq_iff x.id id)
]
