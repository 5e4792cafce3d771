-- ===== src/Application/Lifecycle/Targets/Dicts.antt =====
-- The two maps that stopTargets builds, key by key (internal/application/pipeline_service.go).
use goal_starter.Prelude.{
  ℕ, ◌+◌, ◌<◌, ◌≡◌, refl, ap, sym, ◌∙◌, Bool, not, ◌&&◌, ◌||◌, inl, inr, Bool-cases, none, some,
  Option-cases, is_some, List, [], ◌∷◌, ◌++◌, Text, ◌==ᵗ◌, text_eq_iff, text_eq_refl, text_eq_sound,
  Dict, lookup, insert, lookup-insert, select, chosen, if◌then◌else◌, arith,
}
use mathlib.Core.List.{append_assoc, append-nil}
use goal_starter.Domain.Instance.{LaunchInstanceEntry}
use goal_starter.Domain.Entries.{PipelineModel}
use goal_starter.Storage.Repository.Instances.{instance_id}
use goal_starter.Application.Lifecycle.Targets.{
  is_attributed, is_legacy, claimed, at_or_nil, legacy_by_model, first_of_model, is_first,
}

-- claimed[i] guards a loop that would collect nothing anyway.
pub claimed-chosen :
    (pipeline_id entry_id : Text) (l : List LaunchInstanceEntry)
    → (if claimed pipeline_id entry_id l
        then chosen instance_id (is_attributed pipeline_id entry_id) l
        else [])
      ≡ chosen instance_id (is_attributed pipeline_id entry_id) l
unfolding claimed select
claimed-chosen pipeline_id entry_id [] = refl
claimed-chosen pipeline_id entry_id (i ∷ l) =
    elim (Bool-cases (is_attributed pipeline_id entry_id i)) [
      | inl e ↦ rw e refl
      | inr e ↦ rw e (claimed-chosen pipeline_id entry_id l)
    ]

-- Legacy instances of one model.
abbrev pub is_legacy_of : Text → Text → LaunchInstanceEntry → Bool
is_legacy_of pipeline_id model_id i = is_legacy pipeline_id i && (i.model_id ==ᵗ model_id)

pub lookup-legacy_by_model :
    (pipeline_id k : Text) (l : List LaunchInstanceEntry) (m : Dict (List Text))
    → at_or_nil (lookup k (legacy_by_model pipeline_id l m))
      ≡ at_or_nil (lookup k m) ++ chosen instance_id (is_legacy_of pipeline_id k) l
unfolding legacy_by_model select
lookup-legacy_by_model pipeline_id k [] m = sym (append-nil _)
lookup-legacy_by_model pipeline_id k (i ∷ l) m = elim (Bool-cases (is_legacy pipeline_id i)) [
  | inr e ↦ rw e (lookup-legacy_by_model pipeline_id k l m)
  | inl e ↦ elim (Bool-cases (i.model_id ==ᵗ k)) [
    | inl n ↦
        let added = at_or_nil (lookup i.model_id m) ++ i.id ∷ [] in
        let same : i.model_id ≡ k = text_eq_sound i.model_id k n in
        let rest = chosen instance_id (is_legacy_of pipeline_id k) l in
        let found : at_or_nil (lookup k (insert i.model_id added m)) ≡ added =
          rw (lookup-insert i.model_id k added m, n) refl in
        let split : at_or_nil (lookup k (insert i.model_id added m)) ++ rest
            ≡ at_or_nil (lookup k m) ++ i.id ∷ rest =
          rw (found, same) (append_assoc (at_or_nil (lookup k m)) (i.id ∷ []) rest) in
        rw (e, n) (lookup-legacy_by_model pipeline_id k l (insert i.model_id added m) ∙ split)
    | inr n ↦
        let added = at_or_nil (lookup i.model_id m) ++ i.id ∷ [] in
        let other : lookup k (insert i.model_id added m) ≡ lookup k m =
          rw (lookup-insert i.model_id k added m, n) refl in
        rw (e, n)
          (lookup-legacy_by_model pipeline_id k l (insert i.model_id added m)
            ∙ ap (λ o. at_or_nil o ++ chosen instance_id (is_legacy_of pipeline_id k) l) other)
  ]
]

-- A key that is there keeps its index.
pub first_of_model-kept :
    (k : Text) (index f : ℕ) (l : List PipelineModel) (m : Dict ℕ)
    → lookup k m ≡ some f
    → lookup k (first_of_model index l m) ≡ some f
unfolding first_of_model
first_of_model-kept k index f [] m h = h
first_of_model-kept k index f (e ∷ l) m h = elim (Option-cases (lookup e.model_id m)) [
  | inr (g, n) ↦ rw n (first_of_model-kept k (index + 1) f l m h)
  | inl n ↦ rw n (
      first_of_model-kept k (index + 1) f l (insert e.model_id index m)
        (ground (arith, lookup-insert e.model_id k index m, text_eq_iff e.model_id k)))
]

-- The map after an entry.
abbrev pub after_entry : ℕ → PipelineModel → Dict ℕ → Dict ℕ
after_entry index e m = elim (lookup e.model_id m) [
  | some first ↦ m
  | none ↦ insert e.model_id index m
]

-- All indices of a map are below a bound.
abbrev pub IsBelow : ℕ → Dict ℕ → Type 0
IsBelow bound m = (k : Text) (f : ℕ) → lookup k m ≡ some f → f < bound

pub after_entry-IsBelow :
    (index : ℕ) (e : PipelineModel) (m : Dict ℕ)
    → IsBelow index m
    → IsBelow (index + 1) (after_entry index e m)
after_entry-IsBelow index e m h k f p = elim (Option-cases (lookup e.model_id m)) [
  | inr (g, n) ↦ let q : f < index = h k f (rw (n, after_entry) at p) in omega arith
  | inl n ↦ elim (Bool-cases (e.model_id ==ᵗ k)) [
    | inl s ↦ ground (arith, lookup-insert e.model_id k index m)
    | inr s ↦
        let q : f < index = h k f (ground (arith, lookup-insert e.model_id k index m)) in
        omega arith
  ]
]

pub is_some-after_entry :
    (index : ℕ) (e : PipelineModel) (m : Dict ℕ) (k : Text)
    → is_some (lookup k (after_entry index e m)) ≡ ((e.model_id ==ᵗ k) || is_some (lookup k m))
is_some-after_entry index e m k = elim (Option-cases (lookup e.model_id m)) [
  | inr (g, n) ↦ elim (Bool-cases (e.model_id ==ᵗ k)) [
    | inl s ↦ rw (n, after_entry, s, sym (text_eq_sound e.model_id k s), n) refl
    | inr s ↦ rw (n, after_entry, s) refl
  ]
  | inl n ↦ elim (Bool-cases (e.model_id ==ᵗ k)) [
    | inl s ↦ rw (n, after_entry, lookup-insert e.model_id k index m, s) refl
    | inr s ↦ rw (n, after_entry, lookup-insert e.model_id k index m, s) refl
  ]
]

-- An entry is the first of its model if no earlier one has put the model into the map.
pub is_first-first_of_model :
    (index : ℕ) (e : PipelineModel) (l : List PipelineModel) (m : Dict ℕ)
    → IsBelow index m
    → is_first (lookup e.model_id (first_of_model index (e ∷ l) m)) index
      ≡ not (is_some (lookup e.model_id m))
unfolding first_of_model
is_first-first_of_model index e l m h = elim (Option-cases (lookup e.model_id m)) [
  | inr (g, n) ↦
      let q : g < index = h e.model_id g n in
      rw (n, first_of_model-kept e.model_id (index + 1) g l m n) (ground arith)
  | inl n ↦
      let p : lookup e.model_id (insert e.model_id index m) ≡ some index =
        lookup-insert e.model_id e.model_id index m ∙ rw (text_eq_refl e.model_id) refl in
      rw (n, first_of_model-kept e.model_id (index + 1) index l (insert e.model_id index m) p)
        (ground arith)
]
