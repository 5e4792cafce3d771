-- ===== src/Application/Pipelines/Identified.antt =====
-- The IDs of a pipeline's entries after validation and after the repository has filled the empty ones
-- (internal/application/pipeline_service.go, internal/storage/repository.go).
use goal_starter.Prelude.{
  is_some, text_eq_refl, ℕ, ◌+◌, ◌≤◌, ◌≡◌, ◌≢◌, refl, true, false, inl, inr, Bool-cases, none, some,
  Option-cases, List, [], ◌∷◌, Text, ◌==ᵗ◌, text_eq_iff, if◌then◌else◌, arith,
}
use goal_starter.Domain.Entries.{PipelineEntry, PipelineModel}
use goal_starter.Storage.Repository.{Repository}
use goal_starter.Storage.Repository.Models.{get_model}
use goal_starter.Storage.Repository.Pipelines.{with_entry_ids}
use goal_starter.Storage.Repository.Instances.{among}
use goal_starter.Application.Pipelines.{
  is_blank, validate_entries, validate_pipeline_entry, entry_ids,
}

-- The IDs of the entries are set and pairwise different.
abbrev pub IsIdentified : List PipelineModel → Type 0
IsIdentified [] = Unit
IsIdentified (m ∷ l) = (m.id ≢ []) × (among m.id (entry_ids l) ≡ false) × IsIdentified l

-- The IDs that are set are pairwise different.
abbrev pub IsDistinct : List PipelineModel → Type 0
IsDistinct [] = Unit
IsDistinct (m ∷ l) = (m.id ≢ [] → among m.id (entry_ids l) ≡ false) × IsDistinct l

-- idGenerator() gives no ID twice, none that is empty and none that an entry of the list has.
pub record IsFresh (ids : ℕ → Text) (l : List PipelineModel) : Type 0 where
  pub set : (n : ℕ) → ids n ≢ []
  pub different : (m n : ℕ) → ids m ≡ ids n → m ≡ n
  pub unused : (n : ℕ) → among (ids n) (entry_ids l) ≡ false

-- The IDs seen after an entry.
abbrev seen_after : List Text → PipelineModel → List Text
seen_after seen m = if m.id ==ᵗ [] then seen else m.id ∷ seen

validate_entries-step :
    (r : Repository) (seen : List Text) (m : PipelineModel) (l : List PipelineModel)
    → validate_entries r seen (m ∷ l) ≡ none
    → (m.id ≢ [] → among m.id seen ≡ false)
      × (validate_entries r (seen_after seen m) l ≡ none)
      × (is_some (get_model m.model_id r) ≡ true)
unfolding validate_entries
validate_entries-step r seen m l v = elim (Option-cases (get_model m.model_id r)) [
  | inl e ↦ ground (arith, text_eq_iff m.id [])
  | inr (x, e) ↦ ground (arith, text_eq_iff m.id [])
]

-- An ID that is seen is not the ID of an entry that the loop accepts.
validate_entries-seen :
    (r : Repository) (seen : List Text) (k : Text) (l : List PipelineModel)
    → validate_entries r seen l ≡ none
    → among k seen ≡ true
    → k ≢ []
    → among k (entry_ids l) ≡ false
unfolding validate_entries
validate_entries-seen r seen k [] v s n = refl
validate_entries-seen r seen k (m ∷ l) v s n =
    let (new, rest, known) = validate_entries-step r seen m l v in
    ground (
      arith,
      new,
      text_eq_iff m.id [],
      text_eq_iff m.id k,
      text_eq_iff k [],
      validate_entries-seen r (seen_after seen m) k l rest,
    )

validate_entries-IsDistinct :
    (r : Repository) (seen : List Text) (l : List PipelineModel)
    → validate_entries r seen l ≡ none
    → IsDistinct l
unfolding validate_entries
validate_entries-IsDistinct r seen [] v = tt
validate_entries-IsDistinct r seen (m ∷ l) v =
    let (new, rest, known) = validate_entries-step r seen m l v in
    (
      λ n.
          validate_entries-seen r (seen_after seen m) m.id l rest
            (ground (arith, text_eq_iff m.id [], text_eq_refl m.id)) n,
      validate_entries-IsDistinct r (seen_after seen m) l rest,
    )

-- An ID that is set, that no entry has and that no later call of idGenerator() gives.
among-with_entry_ids :
    (ids : ℕ → Text) (n : ℕ) (k : Text) (l : List PipelineModel)
    → k ≢ []
    → ((m : ℕ) → n ≤ m → ids m ≢ k)
    → among k (entry_ids l) ≡ false
    → among k (entry_ids (with_entry_ids ids n l)) ≡ false
unfolding with_entry_ids
among-with_entry_ids ids n k [] s u h = refl
among-with_entry_ids ids n k (m ∷ l) s u h = elim (Bool-cases (m.id ==ᵗ [])) [
  | inl e ↦ rw e (
      ground (
        arith,
        text_eq_iff (ids n) k,
        u n (omega arith),
        among-with_entry_ids ids (n + 1) k l s (λ i b. u i (omega arith)),
      ))
  | inr e ↦ rw e (ground (arith, among-with_entry_ids ids n k l s u))
]

IsFresh-tail :
    (ids : ℕ → Text) (m : PipelineModel) (l : List PipelineModel)
    → IsFresh ids (m ∷ l)
    → IsFresh ids l
IsFresh-tail ids m l f = record {
  set = f.set;
  different = f.different;
  unused = λ n. ground (arith, f.unused n);
}

pub with_entry_ids-IsIdentified :
    (ids : ℕ → Text) (n : ℕ) (l : List PipelineModel)
    → IsDistinct l
    → IsFresh ids l
    → IsIdentified (with_entry_ids ids n l)
unfolding with_entry_ids
with_entry_ids-IsIdentified ids n [] d f = tt
with_entry_ids-IsIdentified ids n (m ∷ l) d f = elim (Bool-cases (m.id ==ᵗ [])) [
  | inl e ↦ rw e (
    f.set n,
    among-with_entry_ids ids (n + 1) (ids n) l (f.set n)
        (λ i b h. let same : i ≡ n = f.different i n h in omega arith)
        ((IsFresh-tail ids m l f).unused n),
    with_entry_ids-IsIdentified ids (n + 1) l d.1 (IsFresh-tail ids m l f),
  )
  | inr e ↦ rw e (
    (λ h. ground (arith, text_eq_iff m.id [])),
    among-with_entry_ids ids n m.id l (λ h. ground (arith, text_eq_iff m.id []))
        (λ i b h. ground (arith, f.unused i, text_eq_iff m.id (ids i)))
        (d.0 (λ h. ground (arith, text_eq_iff m.id []))),
    with_entry_ids-IsIdentified ids n l d.1 (IsFresh-tail ids m l f),
  )
]

pub validate_pipeline_entry-IsDistinct :
    (r : Repository) (e : PipelineEntry)
    → validate_pipeline_entry r (some e) ≡ none
    → IsDistinct e.models
unfolding validate_pipeline_entry
validate_pipeline_entry-IsDistinct r e v = by_models e.models refl
  where
    by_models : (l : List PipelineModel) → e.models ≡ l → IsDistinct e.models
    by_models [] h = rw h tt
    by_models (m ∷ l) h = elim (Bool-cases (is_blank e.name)) [
      | inl b ↦ absurd (let no : some _ ≡ none = rw (b, validate_pipeline_entry) at v in cc)
      | inr b ↦
          rw h (validate_entries-IsDistinct r [] (m ∷ l) (rw (b, validate_pipeline_entry, h) at v))
    ]
