-- ===== src/Storage/Operations/Cleanup.antt =====
-- What DeleteTerminalInstances deletes and what it counts.
use goal_starter.Prelude.{
  sym, none, ℕ, ◌≡◌, refl, ap, Bool, true, false, not, Bool-cases, inl, inr, List, [], ◌∷◌, select,
  length, arith, Text, ◌==◌, ◌⊎◌, ◌↔◌, ◌≢◌, ◌<◌, ◌==ᵗ◌, text_eq_iff,
}
use goal_starter.Domain.Instance.{InstanceState, exited, failed, stale, LaunchInstanceEntry, Time}
use goal_starter.Storage.Repository.{
  written, write_failed, sync_failed, Call, Repository, replace_contents, counted,
}
use goal_starter.Storage.Repository.Instances.{
  CleanupMode, all_terminal, older_than_7d, older_than_30d, selected, other_mode, is_terminal_entry,
  among, stopped_before, in_mode, should_delete, delete_matching, delete_terminal_instances,
}

-- The entries that are not terminal.
abbrev pub not_terminal : LaunchInstanceEntry → Bool
not_terminal e = not (is_terminal_entry e.state)

select-select :
    (p q : LaunchInstanceEntry → Bool) (l : List LaunchInstanceEntry)
    → ((e : LaunchInstanceEntry) → q e ≡ true → p e ≡ true)
    → select q (select p l) ≡ select q l
unfolding select
select-select p q [] h = refl
select-select p q (e ∷ l) h = elim (Bool-cases (p e)) [
  | inl f ↦ elim (Bool-cases (q e)) [
    | inl g ↦ rw (f, g) (ap (λ m. e ∷ m) (select-select p q l h))
    | inr g ↦ rw (f, g) (select-select p q l h)
  ]
  | inr f ↦ elim (Bool-cases (q e)) [
    | inl g ↦ absurd (cc (h e g, f))
    | inr g ↦ rw (f, g) (select-select p q l h)
  ]
]

matching_kept :
    (c : Call) (p q : LaunchInstanceEntry → Bool) (r : Repository)
    → ((e : LaunchInstanceEntry) → q e ≡ true → p e ≡ false)
    → let s = (delete_matching c p r).1 in
      select q s.contents.instances ≡ select q r.contents.instances
unfolding delete_matching replace_contents
matching_kept c p q r h = elim (Bool-cases (length (select p r.contents.instances) == 0)) [
  | inl e ↦ rw e refl
  | inr e ↦
      rw e
        (elim c.write
          as (λ w.
            select q
              (counted (length (select p r.contents.instances)) (
                replace_contents w
                  (record r.contents { instances = select (λ e. not (p e)) r.contents.instances })
                  r)).1.contents.instances
            ≡ select q r.contents.instances) [
              | written ↦
                  select-select (λ e. not (p e)) q r.contents.instances (λ x g. rw (h x g) refl)
              | write_failed ↦ refl
              | sync_failed ↦ refl
            ])
]

should_delete-terminal :
    (mode : CleanupMode) (ids : List Text) (cutoff : Time) (e : LaunchInstanceEntry)
    → not_terminal e ≡ true
    → should_delete mode ids cutoff e ≡ false
unfolding should_delete
should_delete-terminal mode ids cutoff e h = ground arith

-- Whatever the mode, the IDs, the cutoff and the outcome of the write: the instances that are not
-- exited, failed or stale are after a clean-up the ones before it, in their order.
delete_terminal_instances-kept :
    (c : Call) (mode : CleanupMode) (ids : List Text) (cutoff : Time) (r : Repository)
    → select not_terminal (delete_terminal_instances c mode ids cutoff r).1.contents.instances
      ≡ select not_terminal r.contents.instances
unfolding delete_terminal_instances
delete_terminal_instances-kept c (other_mode m) ids cutoff r = refl
delete_terminal_instances-kept c all_terminal ids cutoff r =
    matching_kept c _ not_terminal r (should_delete-terminal all_terminal ids cutoff)
delete_terminal_instances-kept c older_than_7d ids cutoff r =
    matching_kept c _ not_terminal r (should_delete-terminal older_than_7d ids cutoff)
delete_terminal_instances-kept c older_than_30d ids cutoff r =
    matching_kept c _ not_terminal r (should_delete-terminal older_than_30d ids cutoff)
delete_terminal_instances-kept c selected ids cutoff r =
    matching_kept c _ not_terminal r (should_delete-terminal selected ids cutoff)

none_selected :
    (p : LaunchInstanceEntry → Bool) (l : List LaunchInstanceEntry)
    → length (select p l) ≡ 0
    → select (λ e. not (p e)) l ≡ l
unfolding select
none_selected p [] h = refl
none_selected p (e ∷ l) h = elim (Bool-cases (p e)) [
  | inl f ↦ absurd (omega (arith, rw f at h))
  | inr f ↦ rw f (ap (λ m. e ∷ m) (none_selected p l (rw f at h)))
]

matching_deleted :
    (c : Call) (p : LaunchInstanceEntry → Bool) (r : Repository) {n : ℕ}
    → (delete_matching c p r).0 ≡ (n, none)
    → ((delete_matching c p r).1.contents.instances ≡ select (λ e. not (p e)) r.contents.instances)
      × (n ≡ length (select p r.contents.instances))
unfolding delete_matching replace_contents
matching_deleted c p r {n} h = elim (Bool-cases (length (select p r.contents.instances) == 0)) [
  | inl e ↦ rw e (sym (none_selected p r.contents.instances (ground arith)), ground arith)
  | inr e ↦ ground arith
]

-- An instance that has ended.
abbrev pub Ended : InstanceState → Type 0
Ended s = (s ≡ exited) ⊎ (s ≡ failed) ⊎ (s ≡ stale)

abbrev pub Listed : Text → List Text → Type 0
Listed id [] = ⊥
Listed id (x ∷ l) = (x ≡ id) ⊎ Listed id l

among-Listed : (id : Text) (l : List Text) → (among id l ≡ true) ↔ Listed id l
among-Listed id [] = ((λ h. absurd cc), (λ h. absurd h))
among-Listed id (x ∷ l) =
    let rest = among-Listed id l in
    elim (Bool-cases (x ==ᵗ id)) [
      | inl e ↦ ((λ h. inl ((text_eq_iff x id).0 e)), (λ h. rw e refl))
      | inr e ↦ (
        (λ h. inr (rest.0 (rw e at h))),
        (λ (h : Listed id (x ∷ l)). elim h [
          | inl q ↦ absurd (cc (e, (text_eq_iff x id).1 q))
          | inr q ↦ rw e (rest.1 q)
        ]),
      )
    ]

-- What a mode asks of an ended instance.
abbrev pub Matches : CleanupMode → List Text → Time → LaunchInstanceEntry → Type 0
Matches all_terminal ids cutoff e = Unit
Matches older_than_7d ids cutoff e = (e.stopped_at ≢ 0) × (e.stopped_at < cutoff)
Matches older_than_30d ids cutoff e = (e.stopped_at ≢ 0) × (e.stopped_at < cutoff)
Matches selected ids cutoff e = Listed e.id ids
Matches (other_mode m) ids cutoff e = ⊥

-- A test that passes just the ended instances that match.
abbrev pub Picks : (LaunchInstanceEntry → Bool) → CleanupMode → List Text → Time → Type 0
Picks d mode ids cutoff =
    (e : LaunchInstanceEntry) → (d e ≡ true) ↔ (Ended e.state × Matches mode ids cutoff e)

is_terminal-Ended : (s : InstanceState) → (is_terminal_entry s ≡ true) ↔ Ended s
is_terminal-Ended exited = ((λ h. inl refl), (λ h. refl))
is_terminal-Ended failed = ((λ h. inr (inl refl)), (λ h. refl))
is_terminal-Ended stale = ((λ h. inr (inr refl)), (λ h. refl))
is_terminal-Ended _ = (λ h. absurd cc, λ h. ground arith)

stopped_before_lem : (cutoff t : Time) → (stopped_before cutoff t ≡ true) ↔ ((t ≢ 0) × (t < cutoff))
stopped_before_lem cutoff t = (λ h. (ground arith, ground arith), λ h. ground arith)

in_mode-Matches :
    (mode : CleanupMode) (ids : List Text) (cutoff : Time) (e : LaunchInstanceEntry)
    → (in_mode mode ids cutoff e ≡ true) ↔ Matches mode ids cutoff e
in_mode-Matches all_terminal ids cutoff e = (λ h. tt, λ h. refl)
in_mode-Matches older_than_7d ids cutoff e = stopped_before_lem cutoff e.stopped_at
in_mode-Matches older_than_30d ids cutoff e = stopped_before_lem cutoff e.stopped_at
in_mode-Matches selected ids cutoff e = among-Listed e.id ids
in_mode-Matches (other_mode m) ids cutoff e = (λ h. absurd cc, λ h. absurd h)

should_delete-Picks :
    (mode : CleanupMode) (ids : List Text) (cutoff : Time)
    → Picks (should_delete mode ids cutoff) mode ids cutoff
unfolding should_delete
should_delete-Picks mode ids cutoff e =
    let ended = is_terminal-Ended e.state in
    let matches = in_mode-Matches mode ids cutoff e in
    (
      λ h. (ended.0 (ground arith), matches.0 (ground arith)),
      λ h. rw (ended.1 h.0, matches.1 h.1) refl,
    )

delete_matching-Picks :
    (c : Call) (p : LaunchInstanceEntry → Bool) (mode : CleanupMode) (ids : List Text)
    (cutoff : Time) (r : Repository) {n : ℕ}
    → Picks p mode ids cutoff
    → (delete_matching c p r).0 ≡ (n, none)
    → (d : LaunchInstanceEntry → Bool) × Picks d mode ids cutoff
      × ((delete_matching c p r).1.contents.instances
          ≡ select (λ e. not (d e)) r.contents.instances)
      × (n ≡ length (select d r.contents.instances))
delete_matching-Picks c p mode ids cutoff r picks h =
    let (kept, count) = matching_deleted c p r h in (p, picks, kept, count)

-- A clean-up that returns no error has deleted exactly the instances that are exited, failed or
-- stale and match the mode: all of them, those with a stop time before the cutoff, or those whose ID
-- is among the selected. It returns their number and keeps the order of the others.
pub delete_terminal_instances-deleted :
    (c : Call) (mode : CleanupMode) (ids : List Text) (cutoff : Time) (r : Repository) {n : ℕ}
    → (delete_terminal_instances c mode ids cutoff r).0 ≡ (n, none)
    → (d : LaunchInstanceEntry → Bool) × Picks d mode ids cutoff
      × ((delete_terminal_instances c mode ids cutoff r).1.contents.instances
          ≡ select (λ e. not (d e)) r.contents.instances)
      × (n ≡ length (select d r.contents.instances))
unfolding delete_terminal_instances
delete_terminal_instances-deleted c (other_mode m) ids cutoff r h = cc
delete_terminal_instances-deleted c all_terminal ids cutoff r h =
    delete_matching-Picks c _ all_terminal ids cutoff r
      (should_delete-Picks all_terminal ids cutoff) h
delete_terminal_instances-deleted c older_than_7d ids cutoff r h =
    delete_matching-Picks c _ older_than_7d ids cutoff r
      (should_delete-Picks older_than_7d ids cutoff) h
delete_terminal_instances-deleted c older_than_30d ids cutoff r h =
    delete_matching-Picks c _ older_than_30d ids cutoff r
      (should_delete-Picks older_than_30d ids cutoff) h
delete_terminal_instances-deleted c selected ids cutoff r h =
    delete_matching-Picks c _ selected ids cutoff r (should_delete-Picks selected ids cutoff) h
