-- ===== src/Storage/Import/Unique.antt =====
-- The check of the runtimes' names before the write.
use goal_starter.Prelude.{
  ◌≡◌, ◌⊎◌, refl, ap, sym, ◌∙◌, Bool, true, false, not, Bool-cases, inl, inr, List, [], ◌∷◌, map,
  select, Text, text_eq_iff, All, All-select, All-imp, length, ltb, ◌==ᵗ◌,
}
use goal_starter.Domain.Entries.{RuntimeEntry}
use goal_starter.Storage.Repository.Runtimes.{runtime_id}
use goal_starter.Storage.Import.{ImportTools}
use goal_starter.Storage.Import.Names.{member, set_add}
use goal_starter.Storage.Import.Conflicts.{
  distinct, group, group_ids, group_conflicts, runtime_name_conflicts,
}

-- Two runtimes with one name, but for case, have one ID.
abbrev pub Agree : ImportTools → RuntimeEntry → RuntimeEntry → Type 0
Agree tools a b = tools.to_lower a.name ≡ tools.to_lower b.name → a.id ≡ b.id

abbrev pub IsNamedOnce : ImportTools → List RuntimeEntry → Type 0
IsNamedOnce tools l = All (λ a. All (Agree tools a) l) l

-- sort.Strings has nothing to sort.
abbrev pub SortsNothing : ImportTools → Type 0
SortsNothing tools = tools.sort_strings [] ≡ []

distinct-alike :
    (t : Text) (l : List Text) → All (λ x. x ≡ t) l → (distinct l ≡ []) ⊎ (distinct l ≡ t ∷ [])
unfolding distinct set_add member
distinct-alike t [] h = inl refl
distinct-alike t (x ∷ l) h = elim (distinct-alike t l h.1) [
  | inl e ↦ inr (rw (e, h.0) refl)
  | inr e ↦ inr (rw (e, h.0, (text_eq_iff t t).1 refl) refl)
]

alike-short : (t : Text) (l : List Text) → All (λ x. x ≡ t) l → ltb (length (distinct l)) 2 ≡ true
alike-short t l h = elim (distinct-alike t l h) [ inl e ↦ rw e refl | inr e ↦ rw e refl ]

select_sound : {A : Type 0} (p : A → Bool) (l : List A) → All (λ x. p x ≡ true) (select p l)
unfolding select
select_sound p [] = tt
select_sound p (x ∷ l) = elim (Bool-cases (p x)) [
  | inl e ↦ rw e (e, select_sound p l)
  | inr e ↦ rw e (select_sound p l)
]

select-none : {A : Type 0} (p : A → Bool) (l : List A) → ((x : A) → p x ≡ false) → select p l ≡ []
unfolding select
select-none p [] h = refl
select-none p (x ∷ l) h = rw (h x) (select-none p l h)

module _ (tools : ImportTools) where
  -- The IDs of runtimes that agree with one of the same name.
  ids_alike :
      (a : RuntimeEntry) (k : Text) (g : List RuntimeEntry)
      → tools.to_lower a.name ≡ k
      → All (Agree tools a) g
      → All (λ (e : RuntimeEntry). (tools.to_lower e.name ==ᵗ k) ≡ true) g
      → All (λ x. x ≡ a.id) (map runtime_id g)
  ids_alike a k [] e h s = tt
  ids_alike a k (b ∷ g) e h s = (
    sym (h.0 (e ∙ sym ((text_eq_iff (tools.to_lower b.name) k).0 s.0))),
    ids_alike a k g e h.1 s.1,
  )

  group_short :
      (k : Text) (g : List RuntimeEntry)
      → IsNamedOnce tools g
      → All (λ (e : RuntimeEntry). (tools.to_lower e.name ==ᵗ k) ≡ true) g
      → ltb (length (distinct (map runtime_id g))) 2 ≡ true
  unfolding distinct
  group_short k [] h s = refl
  group_short k (a ∷ g) h s =
      alike-short a.id (map runtime_id (a ∷ g))
        (ids_alike a k (a ∷ g) ((text_eq_iff (tools.to_lower a.name) k).0 s.0) h.0 s)

  group-IsNamedOnce :
      (p : RuntimeEntry → Bool) (l : List RuntimeEntry)
      → IsNamedOnce tools l
      → IsNamedOnce tools (select p l)
  group-IsNamedOnce p l h =
      All-imp (λ a. All (Agree tools a) l) (λ a. All (Agree tools a) (select p l)) (select p l)
        (λ a. All-select (Agree tools a) p l) (All-select (λ a. All (Agree tools a) l) p l h)

  pub no_name_conflict :
      (l : List RuntimeEntry)
      → SortsNothing tools
      → IsNamedOnce tools l
      → runtime_name_conflicts tools l ≡ []
  unfolding runtime_name_conflicts group group_conflicts
  no_name_conflict l nothing h =
      let of_name = λ (k : Text) (e : RuntimeEntry). tools.to_lower e.name ==ᵗ k in
      let short : (k : Text) → not (ltb (length (group_ids tools l k)) 2) ≡ false = λ k. ap not (
        group_short k (select (of_name k) l) (group-IsNamedOnce (of_name k) l h)
          (select_sound (of_name k) l)) in
      rw
        (
          select-none _ (distinct (map (λ (e : RuntimeEntry). tools.to_lower e.name) l)) short,
          nothing,
        )
        refl
