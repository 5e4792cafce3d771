-- ===== src/Storage/Repository/Backfill.antt =====
-- The legacy entry IDs that loading a repository fills in (backfillPipelineEntryIDs).
use goal_starter.Prelude.{
  itoa, lit, ℕ, ◌+◌, ◌≡◌, refl, ap, false, Bool-cases, inl, inr, List, [], ◌∷◌, ◌++◌, Text, All,
  ◌==ᵗ◌,
}
use goal_starter.Domain.Entries.{PipelineModel, PipelineEntry}
use goal_starter.Storage.Repository.Pipelines.{with_legacy_ids, backfill_pipeline_entry_ids}

abbrev pub IsNamed : PipelineModel → Type 0
IsNamed m = (m.id ==ᵗ []) ≡ false

name-not_empty : (p s : Text) → ((p ++ lit "-e" ++ s) ==ᵗ []) ≡ false
unfolding ◌==ᵗ◌
name-not_empty [] s = refl
name-not_empty (x ∷ p) s = refl

legacy-IsNamed : (p : Text) (i : ℕ) (l : List PipelineModel) → All IsNamed (with_legacy_ids p i l)
unfolding with_legacy_ids
legacy-IsNamed p i [] = tt
legacy-IsNamed p i (m ∷ l) = elim (Bool-cases (m.id ==ᵗ [])) [
  | inl e ↦ rw e (name-not_empty p (itoa (i + 1)), legacy-IsNamed p (i + 1) l)
  | inr e ↦ rw e (e, legacy-IsNamed p (i + 1) l)
]

legacy-keeps :
    (p : Text) (i : ℕ) (l : List PipelineModel) → All IsNamed l → with_legacy_ids p i l ≡ l
unfolding with_legacy_ids
legacy-keeps p i [] h = refl
legacy-keeps p i (m ∷ l) h = rw h.0 (ap (λ t. m ∷ t) (legacy-keeps p (i + 1) l h.1))

-- After loading, every entry of every pipeline has an ID.
backfill_pipeline_entry_ids-IsNamed :
    (l : List PipelineEntry)
    → All (λ (p : PipelineEntry). All IsNamed p.models) (backfill_pipeline_entry_ids l)
unfolding backfill_pipeline_entry_ids
backfill_pipeline_entry_ids-IsNamed [] = tt
backfill_pipeline_entry_ids-IsNamed (p ∷ l) =
    (legacy-IsNamed p.id 0 p.models, backfill_pipeline_entry_ids-IsNamed l)

-- Loading again what was loaded and saved reassigns no ID.
backfill_pipeline_entry_ids_idem :
    (l : List PipelineEntry)
    → backfill_pipeline_entry_ids (backfill_pipeline_entry_ids l) ≡ backfill_pipeline_entry_ids l
unfolding backfill_pipeline_entry_ids
backfill_pipeline_entry_ids_idem [] = refl
backfill_pipeline_entry_ids_idem (p ∷ l) =
    rw (legacy-keeps p.id 0 (with_legacy_ids p.id 0 p.models) (legacy-IsNamed p.id 0 p.models)) (
      ap (λ t. record p { models = with_legacy_ids p.id 0 p.models } ∷ t)
        (backfill_pipeline_entry_ids_idem l))
