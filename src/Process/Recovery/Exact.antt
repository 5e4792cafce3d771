-- ===== src/Process/Recovery/Exact.antt =====
-- What Recover leaves in the repository, entry by entry (internal/process/supervisor.go).
use goal_starter.Prelude.{
  ℕ, ◌+◌, ◌≡◌, refl, ap, sym, ◌∙◌, subst, Bool, true, false, not, ◌&&◌, inl, inr, Bool-cases, none,
  some, List, [], ◌∷◌, ◌++◌, ◌==ᵗ◌, text_eq_iff, text_eq_refl, if◌then◌else◌, arith,
}
use mathlib.Core.List.{append_assoc}
use goal_starter.Domain.Instance.{
  LaunchInstanceEntry, is_in_flight, Time, to_domain, to_storage_entry,
}
use goal_starter.Domain.Instance.States.{update_state-SameLaunch}
use goal_starter.Storage.Collection.{has, replace_first}
use goal_starter.Storage.Collection.Unique.{Unique, has-append, replace_first-Unique}
use goal_starter.Storage.Repository.{
  StoreError, save_failed, Write, written, write_failed, sync_failed, Call, Contents, Repository,
  replace_contents,
}
use goal_starter.Storage.Repository.Instances.{instance_id, update_instance}
use goal_starter.Process.Recovery.{
  Host, classify_for_recovery, recovered, cons_error, recover_entry, recover_entries, recover,
}

abbrev pub is_written : Write → Bool
is_written written = true
is_written _ = false

module _ (host : Host) (calls : ℕ → Call) (later : ℕ → Time) where
  -- The entry at `n` afterwards, and the errors: in flight and written, or as it was.
  abbrev pub recovered_at : ℕ → LaunchInstanceEntry → LaunchInstanceEntry
  recovered_at n e =
      if is_in_flight e.state && is_written (calls n).write
      then recovered host (calls n).now (later n) e
      else e

  abbrev pub recovered_from : ℕ → List LaunchInstanceEntry → List LaunchInstanceEntry
  recovered_from n [] = []
  recovered_from n (e ∷ l) = recovered_at n e ∷ recovered_from (n + 1) l

  abbrev pub write_errors : ℕ → List LaunchInstanceEntry → List StoreError
  write_errors n [] = []
  write_errors n (e ∷ l) =
      if is_in_flight e.state && not (is_written (calls n).write)
      then save_failed ∷ write_errors (n + 1) l
      else write_errors (n + 1) l

has-middle :
    (l m : List LaunchInstanceEntry) (e : LaunchInstanceEntry)
    → Unique instance_id (l ++ e ∷ m)
    → has instance_id e.id l ≡ false
unfolding has
has-middle [] m e u = refl
has-middle (x ∷ l) m e u = ground (
  arith,
  has-middle l m e u.1,
  has-append instance_id x.id l (e ∷ m),
  u.0,
  text_eq_iff e.id x.id,
  text_eq_iff x.id e.id,
)

replace_first-middle :
    (l m : List LaunchInstanceEntry) (x e : LaunchInstanceEntry)
    → e.id ≡ x.id
    → has instance_id x.id l ≡ false
    → replace_first instance_id e.id e (l ++ x ∷ m) ≡ l ++ e ∷ m
unfolding has replace_first
replace_first-middle [] m x e h n = rw (h, text_eq_refl x.id) refl
replace_first-middle (y ∷ l) m x e h n =
    let other : (y.id ==ᵗ e.id) ≡ false = rw h (ground arith) in
    let rest : has instance_id x.id l ≡ false = ground arith in
    rw other (ap (λ k. y ∷ k) (replace_first-middle l m x e h rest))

has-found :
    (l m : List LaunchInstanceEntry) (x : LaunchInstanceEntry)
    → has instance_id x.id (l ++ x ∷ m) ≡ true
unfolding has
has-found [] m x = rw (text_eq_refl x.id) refl
has-found (y ∷ l) m x = ground (arith, has-found l m x)

recovered-id :
    (host : Host) (now later : Time) (e : LaunchInstanceEntry)
    → (recovered host now later e).id ≡ e.id
unfolding recovered to_storage_entry to_domain
recovered-id host now later e =
    (update_state-SameLaunch (classify_for_recovery host (to_domain e)).0 now later
      (to_domain e)).same_id

written_by :
    (w : Write) (l m : List LaunchInstanceEntry) (x e : LaunchInstanceEntry) (r : Repository)
    → r.contents.instances ≡ l ++ x ∷ m
    → let (error, r') = replace_contents w (record r.contents { instances = l ++ e ∷ m }) r in
      (error ≡ (if is_written w then none else some save_failed))
      × (r'.contents ≡ record r.contents { instances = l ++ (if is_written w then e else x) ∷ m })
unfolding replace_contents
written_by written l m x e r h = (refl, refl)
written_by write_failed l m x e r h = (refl, ap (λ k. record r.contents { instances = k }) h)
written_by sync_failed l m x e r h = (refl, ap (λ k. record r.contents { instances = k }) h)

-- What one write of the entry `x` does, where the entries of `l` are before it and those of `m` after.
written_at :
    (c : Call) (l m : List LaunchInstanceEntry) (x e : LaunchInstanceEntry) (r : Repository)
    → r.contents.instances ≡ l ++ x ∷ m
    → Unique instance_id (l ++ x ∷ m)
    → e.id ≡ x.id
    → ((update_instance c e r).0 ≡ (if is_written c.write then none else some save_failed))
      × ((update_instance c e r).1.contents
          ≡ record r.contents { instances = l ++ (if is_written c.write then e else x) ∷ m })
unfolding update_instance replace_contents
written_at c l m x e r h u same =
    let found : has instance_id e.id r.contents.instances ≡ true = rw (h, same) (has-found l m x) in
    let next : replace_first instance_id e.id e r.contents.instances ≡ l ++ e ∷ m =
      rw h (replace_first-middle l m x e same (has-middle l m x u)) in
    rw (found, next) (written_by c.write l m x e r h)

flip : {A : Type 0} (b : Bool) (x y : A) → (if b then x else y) ≡ (if not b then y else x)
flip true x y = refl
flip false x y = refl

cons_error-if :
    (b : Bool) (e : StoreError) (l : List StoreError)
    → cons_error (if b then some e else none) l ≡ (if b then e ∷ l else l)
cons_error-if true e l = refl
cons_error-if false e l = refl

replaced-Unique :
    (l m : List LaunchInstanceEntry) (x e : LaunchInstanceEntry)
    → e.id ≡ x.id
    → Unique instance_id (l ++ x ∷ m)
    → Unique instance_id (l ++ e ∷ m)
replaced-Unique l m x e h u =
    subst (λ k. Unique instance_id k) (replace_first-middle l m x e h (has-middle l m x u))
      (replace_first-Unique instance_id e.id e (l ++ x ∷ m) refl u)

module _ (host : Host) (calls : ℕ → Call) (later : ℕ → Time) where
  recovered_at-id :
      (n : ℕ) (e : LaunchInstanceEntry) → (recovered_at host calls later n e).id ≡ e.id
  recovered_at-id n e = elim (Bool-cases (is_in_flight e.state && is_written (calls n).write)) [
    | inl b ↦ rw b (recovered-id host (calls n).now (later n) e)
    | inr b ↦ rw b refl
  ]

  recover_entry-exact :
      (n : ℕ) (l m : List LaunchInstanceEntry) (x : LaunchInstanceEntry) (r : Repository)
      → r.contents.instances ≡ l ++ x ∷ m
      → Unique instance_id (l ++ x ∷ m)
      → ((recover_entry host calls later n x r).0 ≡ (
          if is_in_flight x.state && not (is_written (calls n).write)
          then some save_failed
          else none))
        × ((recover_entry host calls later n x r).1.contents
            ≡ record r.contents { instances = l ++ recovered_at host calls later n x ∷ m })
  unfolding recover_entry
  recover_entry-exact n l m x r h u = elim (Bool-cases (is_in_flight x.state)) [
    | inr f ↦ rw f (refl, ap (λ k. record r.contents { instances = k }) h)
    | inl f ↦
        let (error, contents) =
          written_at (calls n) l m x (recovered host (calls n).now (later n) x) r h u
            (recovered-id host (calls n).now (later n) x) in
        rw f (error ∙ flip (is_written (calls n).write) none (some save_failed), contents)
  ]

  recover_entries-exact :
      (n : ℕ) (l m : List LaunchInstanceEntry) (r : Repository)
      → r.contents.instances ≡ l ++ m
      → Unique instance_id (l ++ m)
      → let (errors, r') = recover_entries host calls later n m r in
        (errors ≡ write_errors host calls later n m)
        × (r'.contents ≡ record r.contents { instances = l ++ recovered_from host calls later n m })
  unfolding recover_entries
  recover_entries-exact n l [] r h u = (refl, ap (λ k. record r.contents { instances = k }) h)
  recover_entries-exact n l (x ∷ m) r h u =
      let x' = recovered_at host calls later n x in
      let (error, r') = recover_entry host calls later n x r in
      let (error_is, contents) = recover_entry-exact n l m x r h u in
      let (errors_are, contents') =
        recover_entries-exact (n + 1) (l ++ x' ∷ []) m r'
          (ap (λ k. k.instances) contents ∙ sym (append_assoc l (x' ∷ []) m))
          (rw (append_assoc l (x' ∷ []) m) (replaced-Unique l m x x' (recovered_at-id n x) u)) in
      (
        rw (error_is, errors_are)
            (cons_error-if (is_in_flight x.state && not (is_written (calls n).write)) save_failed
              _),
        contents'
            ∙ ap
                (λ (k : Contents). record k {
                  instances = (l ++ x' ∷ []) ++ recovered_from host calls later (n + 1) m;
                })
                contents
            ∙ ap (λ k. record r.contents { instances = k }) (append_assoc l (x' ∷ []) _),
      )

  -- Recover goes on past writes that fail. It leaves each entry that is in flight and whose write
  -- succeeds in the state that the recovery gives it, and every other entry and every other part of
  -- the repository as it was; its error joins one error for each write that failed. No two entries
  -- have one ID.
  pub recover-exact :
      (r : Repository)
      → Unique instance_id r.contents.instances
      → let (errors, r') = recover host calls later r in
        (errors ≡ write_errors host calls later 0 r.contents.instances)
        × (r'.contents ≡ record r.contents {
          instances = recovered_from host calls later 0 r.contents.instances;
        })
  unfolding recover
  recover-exact r u = recover_entries-exact 0 [] r.contents.instances r refl u
