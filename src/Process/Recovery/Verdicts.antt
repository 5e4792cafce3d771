-- ===== src/Process/Recovery/Verdicts.antt =====
-- The verdicts of the recovery and what they rest on (internal/process/supervisor.go).
use goal_starter.Prelude.{
  ℕ, ◌+◌, ◌≡◌, refl, ap, sym, ◌∙◌, subst, true, false, inl, inr, ◌⊎◌, Bool-cases, some,
  Option-cases, List, [], ◌∷◌, All,
}
use goal_starter.Domain.Instance.{
  LaunchInstance, LaunchInstanceEntry, InstanceState, is_in_flight, stale, orphan, Time, to_domain,
  to_storage_entry,
}
use goal_starter.Domain.Instance.States.{update_state_lem}
use goal_starter.Storage.Collection.Unique.{Unique}
use goal_starter.Storage.Repository.{save_failed, Call, Repository}
use goal_starter.Storage.Repository.Instances.{instance_id}
use goal_starter.Process.Recovery.{
  Host, Prober, ProcessIdentity, verify_identity, no_pid, Verdict, verdict_of,
  classify_for_recovery, recovered, recover,
}
use goal_starter.Process.Recovery.Exact.{
  is_written, recovered_at, recovered_from, write_errors, recover-exact,
}

-- A live process has the instance's PID, and its identity is the instance's.
abbrev pub IsConfirmed : Host → LaunchInstance → Type 0
IsConfirmed host inst =
    (no_pid inst.pid ≡ false)
    × (p : Prober) × (id : ProcessIdentity) × (host.prober ≡ some p)
    × (p.is_process_alive inst.pid ≡ some true)
    × (p.get_process_identity inst.pid ≡ some id)
    × (verify_identity host inst id ≡ true)

abbrev IsJudged : Host → LaunchInstance → InstanceState → Type 0
IsJudged host inst s = (s ≡ stale) ⊎ ((s ≡ orphan) × IsConfirmed host inst)

alive_case :
    (host : Host) (inst : LaunchInstance) (p : Prober) (id : ProcessIdentity)
    → no_pid inst.pid ≡ false
    → host.prober ≡ some p
    → p.is_process_alive inst.pid ≡ some true
    → p.get_process_identity inst.pid ≡ some id
    → IsJudged host inst (verdict_of host inst (some id)).0
unfolding verdict_of
alive_case host inst p id n h a i = elim (Bool-cases (verify_identity host inst id)) [
  | inl v ↦ rw v (inr (refl, (n, p, id, h, a, i, v)))
  | inr v ↦ rw v (inl refl)
]

-- classifyForRecovery gives orphan only to an instance that is confirmed, and stale to all others.
classify-IsJudged :
    (host : Host) (inst : LaunchInstance) → IsJudged host inst (classify_for_recovery host inst).0
unfolding classify_for_recovery
classify-IsJudged host inst = elim (Bool-cases (no_pid inst.pid)) [
  | inl n ↦ rw n (inl refl)
  | inr n ↦ elim (Option-cases host.prober) [
    | inl h ↦ rw (n, h, classify_for_recovery) (inl refl)
    | inr (p, h) ↦ elim (Option-cases (p.is_process_alive inst.pid)) [
      | inl a ↦ rw (n, h, classify_for_recovery, a) (inl refl)
      | inr (false, a) ↦ rw (n, h, classify_for_recovery, a) (inl refl)
      | inr (true, a) ↦ elim (Option-cases (p.get_process_identity inst.pid)) [
        | inl i ↦ rw (n, h, classify_for_recovery, a, i) (inl refl)
        | inr (id, i) ↦
            let same : classify_for_recovery host inst ≡ verdict_of host inst (some id) =
              rw (n, h, classify_for_recovery, a, i) refl in
            subst (λ (v : Verdict). IsJudged host inst v.0) (sym same)
              (alive_case host inst p id n h a i)
      ]
    ]
  ]
]

not_in_flight :
    (host : Host) (inst : LaunchInstance) (s : InstanceState)
    → IsJudged host inst s
    → is_in_flight s ≡ false
not_in_flight host inst s (inl e) = rw e refl
not_in_flight host inst s (inr (e, c)) = rw e refl

-- An entry before and after the recovery: as it was, or the same launch, which was in flight and is
-- now stale or, confirmed, an orphan.
abbrev pub IsRecovery : Host → LaunchInstanceEntry → LaunchInstanceEntry → Type 0
IsRecovery host old new =
    (new ≡ old)
    ⊎ ((is_in_flight old.state ≡ true)
        × (new.id ≡ old.id)
        × (new.model_id ≡ old.model_id)
        × (new.pipeline_id ≡ old.pipeline_id)
        × (new.pipeline_entry_id ≡ old.pipeline_entry_id)
        × ((new.state ≡ stale) ⊎ ((new.state ≡ orphan) × IsConfirmed host (to_domain old))))

recovered-IsJudged :
    (host : Host) (now later : Time) (e : LaunchInstanceEntry)
    → IsJudged host (to_domain e) (recovered host now later e).state
unfolding recovered to_storage_entry
recovered-IsJudged host now later e =
    let (s, why) = classify_for_recovery host (to_domain e) in
    subst (λ k. IsJudged host (to_domain e) k) (sym (update_state_lem s now later (to_domain e)).0)
      (classify-IsJudged host (to_domain e))

module _ (host : Host) (calls : ℕ → Call) (later : ℕ → Time) where
  settled :
      (n : ℕ) (l : List LaunchInstanceEntry)
      → write_errors host calls later n l ≡ []
      → All
          (λ (e : LaunchInstanceEntry). is_in_flight e.state ≡ false)
          (recovered_from host calls later n l)
  settled n [] h = tt
  settled n (e ∷ l) h = elim (Bool-cases (is_in_flight e.state)) [
    | inr f ↦
        let same : recovered_at host calls later n e ≡ e = rw f refl in
        (
          ap (λ (k : LaunchInstanceEntry). is_in_flight k.state) same ∙ f,
          settled (n + 1) l (rw f at h),
        )
    | inl f ↦ elim (Bool-cases (is_written (calls n).write)) [
      | inl w ↦
          let state = recovered-IsJudged host (calls n).now (later n) e in
          let same : recovered_at host calls later n e ≡ recovered host (calls n).now (later n) e =
            rw (f, w) refl in
          (
            ap (λ (k : LaunchInstanceEntry). is_in_flight k.state) same
                ∙ not_in_flight host (to_domain e) _ state,
            settled (n + 1) l (rw (f, w) at h),
          )
      | inr w ↦
          let no : save_failed ∷ write_errors host calls later (n + 1) l ≡ [] = rw (f, w) at h in
          absurd cc
    ]
  ]

  -- When Recover returns no error, no instance of the repository is in flight. No two entries have
  -- one ID.
  pub recover-settled :
      (r : Repository)
      → Unique instance_id r.contents.instances
      → (recover host calls later r).0 ≡ []
      → All
          (λ (e : LaunchInstanceEntry). is_in_flight e.state ≡ false)
          (recover host calls later r).1.contents.instances
  recover-settled r u h =
      let (errors, contents) = recover-exact host calls later r u in
      rw contents (settled 0 r.contents.instances (sym errors ∙ h))
