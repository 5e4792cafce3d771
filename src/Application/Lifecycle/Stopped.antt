-- ===== src/Application/Lifecycle/Stopped.antt =====
-- A group stop as the sequence of the calls of Supervisor.Stop that it makes
-- (internal/application/pipeline_service.go).
use goal_starter.Prelude.{
  ℕ, ◌+◌, ◌≡◌, refl, ap, sym, ◌∙◌, inl, inr, Option, none, some, Option-cases, List, [], ◌∷◌, ◌++◌,
  map, Text,
}
use mathlib.Core.List.{append_assoc, append-nil}
use goal_starter.Domain.Entries.{PipelineModel}
use goal_starter.Process.ErrorTree.{GoError}
use goal_starter.Application.Failures.{
  FailureReason, PipelineFailure, LifecycleCollector, add_failure, classify_stop_failure,
}
use goal_starter.Application.Lifecycle.{SupervisorCalls, PipelineEntryStop}
use goal_starter.Application.Lifecycle.Phases.{
  nothing_stopped, stop_failure, with_stopped, with_failed, stop_targets_of, stop_entry,
  stop_entries,
}

-- A call of Stop: the instance and the error.
abbrev pub Attempt : Type 0
Attempt = Text × Option GoError

abbrev pub succeeded : List Attempt → List Text
succeeded [] = []
succeeded ((id, none) ∷ log) = id ∷ succeeded log
succeeded ((id, some e) ∷ log) = succeeded log

-- The calls that failed, with the class of the error.
abbrev pub failed : List Attempt → List (Text × FailureReason)
failed [] = []
failed ((id, none) ∷ log) = failed log
failed ((id, some e) ∷ log) = (id, classify_stop_failure e) ∷ failed log

abbrev pub errors : List Attempt → List GoError
errors [] = []
errors ((id, none) ∷ log) = errors log
errors ((id, some e) ∷ log) = e ∷ errors log

abbrev failure_of : PipelineFailure → Text × FailureReason
failure_of f = (f.instance_id, f.reason)

abbrev pub failures_of : List PipelineFailure → List (Text × FailureReason)
failures_of l = map failure_of l

abbrev pub stopped_ids : List PipelineEntryStop → List Text
stopped_ids [] = []
stopped_ids (r ∷ l) = r.stopped_instance_ids ++ stopped_ids l

-- The targets in the order in which a group stop takes them: the last entry's first.
abbrev pub stop_order : List (PipelineModel × List Text) → List Text
stop_order [] = []
stop_order ((e, ids) ∷ l) = stop_order l ++ ids

-- What a log adds to the stopped instances and to the collector.
abbrev pub Accounts :
    List Attempt → List Text → List Text → LifecycleCollector → LifecycleCollector → Type 0
Accounts log ids ids' c c' =
    (ids' ≡ ids ++ succeeded log)
    × (failures_of c'.failures ≡ failures_of c.failures ++ failed log)
    × (c'.errs ≡ c.errs ++ errors log)

failures-add :
    (fs : List PipelineFailure) (f : PipelineFailure) (l : List (Text × FailureReason))
    → failures_of (fs ++ f ∷ []) ++ l ≡ failures_of fs ++ failure_of f ∷ l
failures-add [] f l = refl
failures-add (g ∷ fs) f l = ap (λ k. failure_of g ∷ k) (failures-add fs f l)

succeeded-append : (a b : List Attempt) → succeeded (a ++ b) ≡ succeeded a ++ succeeded b
succeeded-append [] b = refl
succeeded-append ((id, none) ∷ a) b = ap (λ l. id ∷ l) (succeeded-append a b)
succeeded-append ((id, some e) ∷ a) b = succeeded-append a b

failed-append : (a b : List Attempt) → failed (a ++ b) ≡ failed a ++ failed b
failed-append [] b = refl
failed-append ((id, none) ∷ a) b = failed-append a b
failed-append ((id, some e) ∷ a) b = ap (λ l. (id, classify_stop_failure e) ∷ l) (failed-append a b)

errors-append : (a b : List Attempt) → errors (a ++ b) ≡ errors a ++ errors b
errors-append [] b = refl
errors-append ((id, none) ∷ a) b = errors-append a b
errors-append ((id, some e) ∷ a) b = ap (λ l. e ∷ l) (errors-append a b)

stopped_ids-append :
    (a : List PipelineEntryStop) (r : PipelineEntryStop)
    → stopped_ids (a ++ r ∷ []) ≡ stopped_ids a ++ r.stopped_instance_ids
stopped_ids-append [] r = append-nil r.stopped_instance_ids
stopped_ids-append (x ∷ a) r =
    ap (λ l. x.stopped_instance_ids ++ l) (stopped_ids-append a r)
    ∙ sym (append_assoc x.stopped_instance_ids (stopped_ids a) r.stopped_instance_ids)

-- Two logs, one after the other.
Accounts-append :
    (log log' : List Attempt) (ids ids' ids'' : List Text) (c c' c'' : LifecycleCollector)
    → Accounts log ids ids' c c'
    → Accounts log' ids' ids'' c' c''
    → Accounts (log ++ log') ids ids'' c c''
Accounts-append log log' ids ids' ids'' c c' c'' h k = (
  k.0 ∙ rw (h.0, succeeded-append log log') (append_assoc ids (succeeded log) (succeeded log')),
  k.1
      ∙ rw (h.1, failed-append log log')
          (append_assoc (failures_of c.failures) (failed log) (failed log')),
  k.2 ∙ rw (h.2, errors-append log log') (append_assoc c.errs (errors log) (errors log')),
)

module _ {W : Type 0} (sup : SupervisorCalls W) where
  -- Stop is called on each instance, whatever the calls before it returned.
  unfoldable pub attempts : List Text → W → List Attempt × W
  attempts [] w = ([], w)
  attempts (id ∷ l) w =
      let (error, w') = sup.stop id w in let (log, w'') = attempts l w' in ((id, error) ∷ log, w'')

  stop_targets_of-attempts :
      (index : ℕ) (entry : PipelineModel) (ids : List Text) (out : PipelineEntryStop)
      (c : LifecycleCollector) (w : W)
      → let (out', c', w') = stop_targets_of sup index entry ids out c w in
        let (log, v) = attempts ids w in
        (w' ≡ v) × Accounts log out.stopped_instance_ids out'.stopped_instance_ids c c'
  unfolding stop_targets_of attempts add_failure
  stop_targets_of-attempts index entry [] out c w =
      (refl, (sym (append-nil _), sym (append-nil _), sym (append-nil _)))
  stop_targets_of-attempts index entry (id ∷ l) out c w = elim (Option-cases (sup.stop id w).0) [
    | inl n ↦
        let (world, (stopped, failures, errs)) =
          stop_targets_of-attempts index entry l (with_stopped id out) c (sup.stop id w).1 in
        rw (n, stop_targets_of)
          (world, (stopped ∙ append_assoc out.stopped_instance_ids (id ∷ []) _, failures, errs))
    | inr (e, n) ↦
        let failure = stop_failure index entry id (classify_stop_failure e) in
        let (world, (stopped, failures, errs)) =
          stop_targets_of-attempts index entry l (with_failed (classify_stop_failure e) out)
            (add_failure failure (some e) c) (sup.stop id w).1 in
        rw (n, stop_targets_of)
          (
            world,
            (
              stopped,
              failures ∙ failures-add c.failures failure _,
              errs ∙ append_assoc c.errs (e ∷ []) _,
            ),
          )
  ]

  attempts-append :
      (a b : List Text) (w : W)
      → let (log, w') = attempts a w in
        let (log', w'') = attempts b w' in attempts (a ++ b) w ≡ (log ++ log', w'')
  unfolding attempts
  attempts-append [] b w = refl
  attempts-append (id ∷ a) b w =
      ap (λ (p : List Attempt × W). ((id, (sup.stop id w).0) ∷ p.0, p.1))
        (attempts-append a b (sup.stop id w).1)

  -- The stop phase makes the calls of `attempts` in the order of `stop_order`.
  pub stop_entries-attempts :
      (index : ℕ) (l : List (PipelineModel × List Text)) (c : LifecycleCollector) (w : W)
      → let (results, c', w') = stop_entries sup index l c w in
        let (log, v) = attempts (stop_order l) w in
        (w' ≡ v) × Accounts log [] (stopped_ids results) c c'
  unfolding stop_entries stop_entry attempts
  stop_entries-attempts index [] c w = (refl, (refl, sym (append-nil _), sym (append-nil _)))
  stop_entries-attempts index ((e, ids) ∷ l) c w =
      let (results, c', w') = stop_entries sup (index + 1) l c w in
      let (result, c'', w'') = stop_entry sup index e ids c' w' in
      let (before, v) = attempts (stop_order l) w in
      let (world, (stopped, failures, errs)) = stop_entries-attempts (index + 1) l c w in
      let (world', (stopped', failures', errs')) =
        stop_targets_of-attempts index e ids (nothing_stopped index e) c' w' in
      let joined : attempts (stop_order l ++ ids) w
          ≡ (before ++ (attempts ids w').0, (attempts ids w').1) =
        attempts-append (stop_order l) ids w
        ∙ ap (λ u. (before ++ (attempts ids u).0, (attempts ids u).1)) (sym world) in
      let (stopped'', failures'', errs'') =
        Accounts-append before (attempts ids w').0 [] (stopped_ids results)
          (stopped_ids results ++ result.stopped_instance_ids) c c' c'' (stopped, failures, errs)
          (ap (λ k. stopped_ids results ++ k) stopped', failures', errs') in
      rw joined (world', (stopped_ids-append results result ∙ stopped'', failures'', errs''))
