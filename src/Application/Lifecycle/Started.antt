-- ===== src/Application/Lifecycle/Started.antt =====
-- What the start phase puts into its results and into the collector
-- (internal/application/pipeline_service.go).
use goal_starter.Prelude.{
  ℕ, ◌+◌, ◌||◌, ◌≡◌, refl, ap, sym, ◌∙◌, inl, inr, Bool-cases, Option, none, some, Option-cases,
  List, [], ◌∷◌, ◌++◌, Text, lit, ◌==ᵗ◌,
}
use mathlib.Core.List.{append_assoc, append-nil}
use goal_starter.Domain.Entries.{PipelineModel}
use goal_starter.Domain.Owner.{pipeline_owner}
use goal_starter.Storage.Repository.Models.{get_model}
use goal_starter.Storage.Repository.Runtimes.{get_runtime}
use goal_starter.Process.Errors.{
  RejectionReason, AdmissionRejection, in_flight, orphan_record, shutting_down,
}
use goal_starter.Process.ErrorTree.{
  GoError, is_error, as_rejection, error_text, err_launch_aborted_by_shutdown,
}
use goal_starter.Application.Failures.{
  FailureReason, reason_shutting_down, phase_start, PipelineFailure, LifecycleCollector,
  add_failure,
}
use goal_starter.Application.Lifecycle.{
  SupervisorCalls, Admitted, not_admitted, admitted, PipelineEntryStart, model_of_entry,
  runtime_to_domain, contains_text, rejected_entry, refused_entry, admission_result,
  shutdown_failure,
}
use goal_starter.Application.Lifecycle.Phases.{start_entry, start_entries}

abbrev failure_at : PipelineEntryStart → PipelineFailure
failure_at r = record {
  phase = phase_start;
  entry_id = r.entry_id;
  index = r.index;
  model_id = r.model_id;
  instance_id = [];
  reason = reason_shutting_down;
}

-- The failure that a result of an entry stands for: a refusal by the shutdown.
abbrev pub refused_by_shutdown : PipelineEntryStart → Option FailureReason → List PipelineFailure
refused_by_shutdown r (some reason_shutting_down) = failure_at r ∷ []
refused_by_shutdown r _ = []

abbrev pub shutdown_failures : List PipelineEntryStart → List PipelineFailure
shutdown_failures [] = []
shutdown_failures (r ∷ l) = refused_by_shutdown r r.error ++ shutdown_failures l

-- Where a result stands: its index, its entry and its model.
abbrev place : PipelineEntryStart → ℕ × Text × Text
place r = (r.index, r.entry_id, r.model_id)

abbrev pub places : List PipelineEntryStart → List (ℕ × Text × Text)
places [] = []
places (r ∷ l) = place r ∷ places l

-- The entries of a pipeline in order, numbered.
abbrev pub numbered : ℕ → List PipelineModel → List (ℕ × Text × Text)
numbered index [] = []
numbered index (e ∷ l) = (index, e.id, e.model_id) ∷ numbered (index + 1) l

-- The collector of a refusal is `noted` when its error is the shutdown's, and `c` otherwise.
abbrev Noted :
    LifecycleCollector → LifecycleCollector → Option FailureReason → LifecycleCollector → Type 0
Noted c noted (some reason_shutting_down) c' = c' ≡ noted
Noted c noted _ c' = c' ≡ c

rejected_entry-by_reason :
    (id : Text) (rej : AdmissionRejection) (c noted : LifecycleCollector) (r : RejectionReason)
    → rej.reason ≡ r
    → let (status, why, c') = rejected_entry id rej c noted in Noted c noted why c'
unfolding rejected_entry
rejected_entry-by_reason id rej c noted shutting_down h = rw (h, rejected_entry) refl
rejected_entry-by_reason id rej c noted in_flight h = rw (h, rejected_entry) refl
rejected_entry-by_reason id rej c noted orphan_record h =
    elim (Bool-cases ((rej.pipeline_id ==ᵗ id) || (rej.pipeline_id ==ᵗ []))) [
      | inl e ↦ rw (h, rejected_entry, e) refl
      | inr e ↦ rw (h, rejected_entry, e) refl
    ]

refused_entry-Noted :
    (id : Text) (e : GoError) (c noted : LifecycleCollector)
    → let (status, why, c') = refused_entry id e c noted in Noted c noted why c'
unfolding refused_entry
refused_entry-Noted id e c noted = elim (Option-cases (as_rejection e)) [
  | inr (rej, n) ↦ rw (n, refused_entry) (rejected_entry-by_reason id rej c noted rej.reason refl)
  | inl n ↦ elim (Bool-cases (is_error err_launch_aborted_by_shutdown e)) [
    | inl s ↦ rw (n, refused_entry, s) refl
    | inr s ↦ elim (Bool-cases (contains_text (error_text e) (lit "resolve instance"))) [
      | inl t ↦ rw (n, refused_entry, s, t) refl
      | inr t ↦ rw (n, refused_entry, s, t) refl
    ]
  ]
]

-- What one result adds.
abbrev Adds : PipelineEntryStart → LifecycleCollector → LifecycleCollector → Type 0
Adds r c c' = c'.failures ≡ c.failures ++ refused_by_shutdown r r.error

Noted-Adds :
    (r : PipelineEntryStart) (e : GoError) (c c' : LifecycleCollector) (why : Option FailureReason)
    → Noted c (add_failure (failure_at r) (some e) c) why c'
    → c'.failures ≡ c.failures ++ refused_by_shutdown r why
unfolding add_failure
Noted-Adds r e c c' none h = ap (λ k. k.failures) h ∙ sym (append-nil c.failures)
Noted-Adds r e c c' (some reason_shutting_down) h = ap (λ k. k.failures) h
Noted-Adds r e c c' (some _) h = ap (λ k. k.failures) h ∙ sym (append-nil c.failures)

admission_result-Adds :
    (id : Text) (index : ℕ) (entry : PipelineModel) (a : Admitted) (c : LifecycleCollector)
    → let (r, c') = admission_result id index entry a c in
      Adds r c c' × (place r ≡ (index, entry.id, entry.model_id))
unfolding admission_result
admission_result-Adds id index entry (admitted i) c = (sym (append-nil c.failures), refl)
admission_result-Adds id index entry (not_admitted e) c =
    let (r, c') = admission_result id index entry (not_admitted e) c in
    (
      Noted-Adds r e c c' r.error
          (refused_entry-Noted id e c (add_failure (shutdown_failure index entry) (some e) c)),
      refl,
    )

module _ {W : Type 0} (sup : SupervisorCalls W) where
  start_entry-Adds :
      (id : Text) (index : ℕ) (entry : PipelineModel) (c : LifecycleCollector) (w : W)
      → let (r, c', w') = start_entry sup id index entry c w in
        Adds r c c' × (place r ≡ (index, entry.id, entry.model_id))
  unfolding start_entry
  start_entry-Adds id index entry c w =
      elim (Option-cases (get_model entry.model_id (sup.repository w))) [
        | inl n ↦ rw (n, start_entry) (sym (append-nil c.failures), refl)
        | inr (me, n) ↦ elim (Option-cases (get_runtime me.runtime_id (sup.repository w))) [
          | inl m ↦ rw (n, start_entry, m) (sym (append-nil c.failures), refl)
          | inr (rte, m) ↦
              rw (n, start_entry, m)
                (admission_result-Adds id index entry
                  (sup.admit_and_start (model_of_entry id entry me) (runtime_to_domain rte)
                    (pipeline_owner id entry.id) w).0
                  c)
        ]
      ]

  -- The start phase adds to the collector the failures that its results show, and gives one result
  -- for each entry, in order.
  pub start_entries-Adds :
      (id : Text) (index : ℕ) (l : List PipelineModel) (c : LifecycleCollector) (w : W)
      → let (results, c', w') = start_entries sup id index l c w in
        (c'.failures ≡ c.failures ++ shutdown_failures results)
        × (places results ≡ numbered index l)
  unfolding start_entries
  start_entries-Adds id index [] c w = (sym (append-nil c.failures), refl)
  start_entries-Adds id index (e ∷ l) c w =
      let (r, c', w') = start_entry sup id index e c w in
      let (one, at) = start_entry-Adds id index e c w in
      let (rest, in_order) = start_entries-Adds id (index + 1) l c' w' in
      (
        rest ∙ rw one (append_assoc c.failures (refused_by_shutdown r r.error) _),
        rw in_order (ap (λ p. p ∷ numbered (index + 1) l) at),
      )
