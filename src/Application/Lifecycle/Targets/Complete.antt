-- ===== src/Application/Lifecycle/Targets/Complete.antt =====
-- What stopTargets collects, over all entries (internal/application/pipeline_service.go).
use goal_starter.Prelude.{
  ℕ, ◌+◌, ◌≡◌, ◌≢◌, refl, ap, sym, subst, ◌∙◌, Bool, false, not, ◌&&◌, ◌||◌, List, [], ◌∷◌, ◌++◌,
  Text, ◌==ᵗ◌, text_eq_iff, Dict, lookup, is_some, chosen, chosen-ext, chosen-none, chosen-when,
  chosen-or, arith,
}
use mathlib.Core.List.{Perm}
use mathlib.Core.List.Perm
use goal_starter.Domain.Instance.{LaunchInstanceEntry}
use goal_starter.Domain.Entries.{PipelineModel}
use goal_starter.Storage.Repository.Instances.{instance_id, among}
use goal_starter.Application.Pipelines.{is_owned, entry_ids, references_model}
use goal_starter.Application.Pipelines.Identified.{IsIdentified}
use goal_starter.Application.Lifecycle.Targets.{
  is_attributed, first_of_model, entry_targets, targets_from, stop_targets, legacy_by_model,
}
use goal_starter.Application.Lifecycle.Targets.Dicts.{
  claimed-chosen, is_legacy_of, lookup-legacy_by_model, after_entry, IsBelow, after_entry-IsBelow,
  is_some-after_entry, is_first-first_of_model,
}

-- All targets of a request, in the order of the entries.
abbrev pub all_targets : List (PipelineModel × List Text) → List Text
all_targets [] = []
all_targets ((m, ids) ∷ l) = ids ++ all_targets l

-- An active instance of the pipeline that is attributed to one of its entries, or to none and has
-- the model of one.
abbrev pub is_target : Text → List PipelineModel → LaunchInstanceEntry → Bool
is_target pipeline_id models i =
    is_owned pipeline_id i
    && (among i.pipeline_entry_id (entry_ids models)
        || ((i.pipeline_entry_id ==ᵗ []) && references_model i.model_id models))

-- The same for the entries that are left when the map has the models of the earlier ones.
is_target_after : Text → Dict ℕ → List PipelineModel → LaunchInstanceEntry → Bool
is_target_after pipeline_id m models i =
    is_owned pipeline_id i
    && (among i.pipeline_entry_id (entry_ids models)
        || ((i.pipeline_entry_id ==ᵗ [])
            && references_model i.model_id models
            && not (is_some (lookup i.model_id m))))

-- The instances attributed to no entry that an entry takes.
is_taken : Text → Dict ℕ → PipelineModel → LaunchInstanceEntry → Bool
is_taken pipeline_id m e i =
    is_legacy_of pipeline_id e.model_id i && not (is_some (lookup e.model_id m))

unset-among : (l : List PipelineModel) → IsIdentified l → among [] (entry_ids l) ≡ false
unset-among [] h = refl
unset-among (m ∷ l) h = ground (arith, unset-among l h.2, text_eq_iff m.id [], h.0)

-- No instance is a target of an entry in both ways.
attributed-taken :
    (pipeline_id : Text) (m : Dict ℕ) (e : PipelineModel) (i : LaunchInstanceEntry)
    → e.id ≢ []
    → (is_attributed pipeline_id e.id i && is_taken pipeline_id m e i) ≡ false
unfolding is_taken
attributed-taken pipeline_id m e i h =
    ground (arith, text_eq_iff i.pipeline_entry_id e.id, text_eq_iff i.pipeline_entry_id [])

-- No instance is a target of an entry and of a later one.
earlier-later :
    (pipeline_id : Text) (index : ℕ) (m : Dict ℕ) (e : PipelineModel) (l : List PipelineModel)
    (i : LaunchInstanceEntry)
    → IsIdentified (e ∷ l)
    → ((is_attributed pipeline_id e.id i || is_taken pipeline_id m e i)
        && is_target_after pipeline_id (after_entry index e m) l i)
      ≡ false
unfolding is_taken is_target_after references_model
earlier-later pipeline_id index m e l i h = rw (is_some-after_entry index e m i.model_id) (
    ground (
      arith,
      unset-among l h.2,
      h.0,
      h.1,
      text_eq_iff i.pipeline_entry_id e.id,
      text_eq_iff i.pipeline_entry_id [],
      text_eq_iff i.model_id e.model_id,
      text_eq_iff e.model_id i.model_id,
    ))

-- A target of an entry or of a later one.
earlier-or-later :
    (pipeline_id : Text) (index : ℕ) (m : Dict ℕ) (e : PipelineModel) (l : List PipelineModel)
    (i : LaunchInstanceEntry)
    → ((is_attributed pipeline_id e.id i || is_taken pipeline_id m e i)
        || is_target_after pipeline_id (after_entry index e m) l i)
      ≡ is_target_after pipeline_id m (e ∷ l) i
unfolding is_taken is_target_after references_model
earlier-or-later pipeline_id index m e l i = rw (is_some-after_entry index e m i.model_id) (
    ground (
      arith,
      text_eq_iff i.pipeline_entry_id e.id,
      text_eq_iff e.id i.pipeline_entry_id,
      text_eq_iff i.model_id e.model_id,
      text_eq_iff e.model_id i.model_id,
    ))

module _ (pipeline_id : Text) (instances : List LaunchInstanceEntry) where
  -- The targets of an entry, by tests.
  entry_targets-chosen :
      (index : ℕ) (e : PipelineModel) (l : List PipelineModel) (m : Dict ℕ)
      → IsBelow index m
      → entry_targets pipeline_id instances
          (legacy_by_model pipeline_id instances [])
          (first_of_model index (e ∷ l) m)
          index
          e
        ≡ chosen instance_id (is_attributed pipeline_id e.id) instances
          ++ chosen instance_id (is_taken pipeline_id m e) instances
  unfolding entry_targets is_taken lookup
  entry_targets-chosen index e l m h =
      rw
        (
          claimed-chosen pipeline_id e.id instances,
          is_first-first_of_model index e l m h,
          lookup-legacy_by_model pipeline_id e.model_id instances [],
        )
        (ap (λ l. chosen instance_id (is_attributed pipeline_id e.id) instances ++ l)
          (chosen-when instance_id (not (is_some (lookup e.model_id m)))
            (is_legacy_of pipeline_id e.model_id) instances))

  targets_from-Perm :
      (index : ℕ) (l : List PipelineModel) (m : Dict ℕ)
      → IsIdentified l
      → IsBelow index m
      → Perm
          (all_targets (
            targets_from pipeline_id instances
              (legacy_by_model pipeline_id instances [])
              (first_of_model index l m)
              index
              l))
          (chosen instance_id (is_target_after pipeline_id m l) instances)
  unfolding targets_from first_of_model is_target_after references_model
  targets_from-Perm index [] m u h =
      subst (λ k. Perm [] k)
        (sym (
          chosen-ext instance_id (is_target_after pipeline_id m []) (λ i. false) instances
            (λ i. ground arith)
          ∙ chosen-none instance_id instances))
        Perm.nil
  targets_from-Perm index (e ∷ l) m u h =
      let rest =
        targets_from-Perm (index + 1) l (after_entry index e m) u.2
          (after_entry-IsBelow index e m h) in
      let own : Perm _ _ =
        chosen-or instance_id (is_attributed pipeline_id e.id) (is_taken pipeline_id m e) instances
          (λ i. attributed-taken pipeline_id m e i u.0) in
      let both : Perm _ _ =
        chosen-or instance_id (λ i. is_attributed pipeline_id e.id i || is_taken pipeline_id m e i)
          (is_target_after pipeline_id (after_entry index e m) l) instances
          (λ i. earlier-later pipeline_id index m e l i u) in
      let targets = all_targets (
        targets_from pipeline_id instances (legacy_by_model pipeline_id instances [])
          (first_of_model index (e ∷ l) m) (index + 1) l) in
      let own_ids = chosen instance_id (is_attributed pipeline_id e.id) instances in
      let taken_ids = chosen instance_id (is_taken pipeline_id m e) instances in
      rw (entry_targets-chosen index e l m h) (
        subst (λ k. Perm ((own_ids ++ taken_ids) ++ targets) k)
          (chosen-ext instance_id _ (is_target_after pipeline_id m (e ∷ l)) instances
            (earlier-or-later pipeline_id index m e l))
          (Perm.trans (Perm.append own rest) both))

-- The targets of a group stop, over all entries, are the IDs of the active instances that the pipeline
-- owns and that are attributed to one of its entries, or to no entry and have the model of one; each
-- is a target of one entry only. The IDs of the entries are set and pairwise different.
pub stop_targets-Perm :
    (pipeline_id : Text) (models : List PipelineModel) (instances : List LaunchInstanceEntry)
    → IsIdentified models
    → Perm
        (all_targets (stop_targets pipeline_id models instances))
        (chosen instance_id (is_target pipeline_id models) instances)
unfolding stop_targets is_target_after lookup
stop_targets-Perm pipeline_id models instances u =
    subst (λ k. Perm (all_targets (stop_targets pipeline_id models instances)) k)
      (chosen-ext instance_id (is_target_after pipeline_id [] models) (is_target pipeline_id models)
        instances (λ i. ground arith))
      (targets_from-Perm pipeline_id instances 0 models [] u (λ k f h. absurd (ground arith)))
