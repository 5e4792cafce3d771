-- ===== src/Storage/Import/Refers.antt =====
-- What the references of an import plan are, and how they fare as the plan grows.
use goal_starter.Prelude.{
  ◌≡◌, true, ◌||◌, Bool-cases, inl, inr, List, [], ◌∷◌, ◌++◌, Text, All, All-imp, arith,
}
use goal_starter.Domain.Entries.{RuntimeEntry, ModelEntry, PipelineModel, PipelineEntry}
use goal_starter.Storage.Collection.{has}
use goal_starter.Storage.Collection.Unique.{has-append}
use goal_starter.Storage.Repository.Runtimes.{runtime_id}
use goal_starter.Storage.Repository.Models.{model_id}
use goal_starter.Storage.Import.{ImportGraphPlan}
use goal_starter.Storage.Import.Names.{member}
use goal_starter.Storage.Import.Plan.{resolves}

-- The runtime of the model is a local one or one that the plan creates.
abbrev pub ModelRefers : List RuntimeEntry → List RuntimeEntry → ModelEntry → Type 0
ModelRefers locals created m =
    (has runtime_id m.runtime_id locals || has runtime_id m.runtime_id created) ≡ true

abbrev pub EntryRefers : List ModelEntry → List ModelEntry → PipelineModel → Type 0
EntryRefers locals created e =
    (has model_id e.model_id locals || has model_id e.model_id created) ≡ true

abbrev pub PipelineRefers : List ModelEntry → List ModelEntry → PipelineEntry → Type 0
PipelineRefers locals created p = All (EntryRefers locals created) p.models

-- An ID that is taken as created is that of an entry to create.
abbrev pub KnownRuntimes : List Text → ImportGraphPlan → Type 0
KnownRuntimes ids p =
    (id : Text) → member id ids ≡ true → has runtime_id id p.create_runtimes ≡ true

abbrev pub KnownModels : List Text → ImportGraphPlan → Type 0
KnownModels ids p = (id : Text) → member id ids ≡ true → has model_id id p.create_models ≡ true

-- All that the plan writes refers to what is there or is created.
abbrev pub IsClosed : List RuntimeEntry → List ModelEntry → ImportGraphPlan → Type 0
IsClosed lr lm p =
    All (ModelRefers lr p.create_runtimes) p.create_models
    × All (ModelRefers lr p.create_runtimes) p.update_models
    × All (PipelineRefers lm p.create_models) p.create_pipelines
    × All (PipelineRefers lm p.create_models) p.update_pipelines

pub nothing_known : (P : Text → Type 0) (id : Text) → member id [] ≡ true → P id
unfolding member
nothing_known P id h = absurd (ground arith)

module _ {A : Type 0} (id_of : A → Text) where
  pub grown :
      (locals created : List A) (x : A) (k : Text)
      → (has id_of k locals || has id_of k created) ≡ true
      → (has id_of k locals || has id_of k (created ++ x ∷ [])) ≡ true
  grown locals created x k h = ground (arith, h, has-append id_of k created (x ∷ []))

  pub known_grown :
      (ids : List Text) (created : List A) (x : A)
      → ((id : Text) → member id ids ≡ true → has id_of id created ≡ true)
      → (id : Text) → member id (id_of x ∷ ids) ≡ true
      → has id_of id (created ++ x ∷ []) ≡ true
  unfolding member has
  known_grown ids created x h id m = elim (Bool-cases (member id ids)) [
    | inl e ↦ ground (arith, h id e, has-append id_of id created (x ∷ []))
    | inr e ↦ ground (arith, e, m, has-append id_of id created (x ∷ []))
  ]

  pub resolves_known :
      (locals : List A) (ids : List Text) (created : List A) (k : Text)
      → ((id : Text) → member id ids ≡ true → has id_of id created ≡ true)
      → resolves id_of locals ids k ≡ true
      → (has id_of k locals || has id_of k created) ≡ true
  unfolding resolves
  resolves_known locals ids created k h r = elim (Bool-cases (member k ids)) [
    | inl e ↦ ground (arith, h k e)
    | inr e ↦ ground (arith, e, r)
  ]

pub models_grown :
    (lr cr : List RuntimeEntry) (x : RuntimeEntry) (l : List ModelEntry)
    → All (ModelRefers lr cr) l
    → All (ModelRefers lr (cr ++ x ∷ [])) l
models_grown lr cr x l =
    All-imp (ModelRefers lr cr) (ModelRefers lr (cr ++ x ∷ [])) l
      (λ m. grown runtime_id lr cr x m.runtime_id)

pub pipelines_grown :
    (lm cm : List ModelEntry) (x : ModelEntry) (l : List PipelineEntry)
    → All (PipelineRefers lm cm) l
    → All (PipelineRefers lm (cm ++ x ∷ [])) l
pipelines_grown lm cm x l =
    All-imp (PipelineRefers lm cm) (PipelineRefers lm (cm ++ x ∷ [])) l (λ p.
      All-imp (EntryRefers lm cm) (EntryRefers lm (cm ++ x ∷ [])) p.models
        (λ e. grown model_id lm cm x e.model_id))
