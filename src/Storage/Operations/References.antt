-- ===== src/Storage/Operations/References.antt =====
-- Models and the runtimes they name: what ReplaceRuntimeAndDelete and CascadeDeleteRuntimeAndModels
-- keep of ValidateCrossReferences.
use goal_starter.Prelude.{
  ℕ, ◌≡◌, ◌≢◌, refl, ap, sym, ◌∙◌, true, false, not, Bool-cases, inl, inr, none, List, [], ◌∷◌, map,
  select, arith, Text, ◌==ᵗ◌, text_eq_iff, All, if◌then◌else◌,
}
use goal_starter.Domain.Instance.{Time}
use goal_starter.Domain.Entries.{RuntimeEntry, ModelEntry}
use goal_starter.Storage.Collection.{has, remove_last}
use goal_starter.Storage.Collection.Unique.{Unique}
use goal_starter.Storage.Repository.{
  Write, written, write_failed, sync_failed, Call, Contents, Repository, replace_contents, counted,
}
use goal_starter.Storage.Repository.Runtimes.{runtime_id}
use goal_starter.Storage.Repository.Integrity.{
  references, rebind, replace_runtime_and_delete, cascade_delete_runtime_and_models,
  validate_cross_references,
}

abbrev Refers : List RuntimeEntry → ModelEntry → Type 0
Refers runtimes m = has runtime_id m.runtime_id runtimes ≡ true

-- ValidateCrossReferences finds no fault.
abbrev pub IsReferenced : Contents → Type 0
IsReferenced k = validate_cross_references k.runtimes k.models ≡ none

referenced-All :
    (rs : List RuntimeEntry) (ms : List ModelEntry)
    → validate_cross_references rs ms ≡ none
    → All (Refers rs) ms
unfolding validate_cross_references
referenced-All rs [] h = tt
referenced-All rs (m ∷ ms) h = elim (Bool-cases (has runtime_id m.runtime_id rs)) [
  | inl e ↦ (e, referenced-All rs ms (rw e at h))
  | inr e ↦ absurd (ground arith)
]

All-referenced :
    (rs : List RuntimeEntry) (ms : List ModelEntry)
    → All (Refers rs) ms
    → validate_cross_references rs ms ≡ none
unfolding validate_cross_references
All-referenced rs [] h = refl
All-referenced rs (m ∷ ms) h = rw h.0 (All-referenced rs ms h.1)

has-remove_last_other :
    (k old : Text) (l : List RuntimeEntry)
    → k ≢ old
    → has runtime_id k (remove_last runtime_id old l) ≡ has runtime_id k l
unfolding has remove_last
has-remove_last_other k old [] n = refl
has-remove_last_other k old (x ∷ l) n =
    ground (arith, has-remove_last_other k old l, text_eq_iff x.id k, text_eq_iff x.id old)

rebind-runtime_id :
    (now : Time) (old new : Text) (m : ModelEntry)
    → (rebind now old new m).runtime_id ≡ (if m.runtime_id ==ᵗ old then new else m.runtime_id)
unfolding rebind
rebind-runtime_id now old new m = ground arith

rebind-Refers :
    (now : Time) (old new : Text) (rs : List RuntimeEntry) (m : ModelEntry)
    → old ≢ new
    → has runtime_id new rs ≡ true
    → Refers rs m
    → Refers (remove_last runtime_id old rs) (rebind now old new m)
rebind-Refers now old new rs m n h r =
    rw (rebind-runtime_id now old new m) (elim (Bool-cases (m.runtime_id ==ᵗ old)) [
      | inl e ↦ rw e (has-remove_last_other new old rs (λ p. n (sym p)) ∙ h)
      | inr e ↦ rw e (
          has-remove_last_other m.runtime_id old rs
            (λ p. ground (arith, text_eq_iff m.runtime_id old))
          ∙ r)
    ])

map-rebind-Refers :
    (now : Time) (old new : Text) (rs : List RuntimeEntry) (ms : List ModelEntry)
    → old ≢ new
    → has runtime_id new rs ≡ true
    → All (Refers rs) ms
    → All (Refers (remove_last runtime_id old rs)) (map (rebind now old new) ms)
map-rebind-Refers now old new rs [] n h r = tt
map-rebind-Refers now old new rs (m ∷ ms) n h r =
    (rebind-Refers now old new rs m n h r.0, map-rebind-Refers now old new rs ms n h r.1)

-- Either the next contents or the previous ones are in memory.
counted-IsReferenced :
    (w : Write) (n : ℕ) (next : Contents) (r : Repository)
    → IsReferenced next
    → IsReferenced r.contents
    → IsReferenced (counted n (replace_contents w next r)).1.contents
unfolding replace_contents
counted-IsReferenced written n next r a b = a
counted-IsReferenced write_failed n next r a b = b
counted-IsReferenced sync_failed n next r a b = b

-- With two different runtimes, ReplaceRuntimeAndDelete leaves no model without its runtime, if there
-- was none before, whatever becomes of the write.
pub replace_runtime_and_delete-IsReferenced :
    (c : Call) (old new : Text) (r : Repository)
    → old ≢ new
    → IsReferenced r.contents
    → IsReferenced (replace_runtime_and_delete c old new r).1.contents
unfolding replace_runtime_and_delete
replace_runtime_and_delete-IsReferenced c old new r n h =
    let rs = r.contents.runtimes in
    elim (Bool-cases (has runtime_id old rs)) [
      | inr e ↦ rw e h
      | inl e ↦ elim (Bool-cases (has runtime_id new rs)) [
        | inr f ↦ rw (e, f) h
        | inl f ↦
            rw (e, f)
              (counted-IsReferenced c.write _ _ r
                (All-referenced (remove_last runtime_id old rs)
                  (map (rebind c.now old new) r.contents.models)
                  (map-rebind-Refers c.now old new rs r.contents.models n f
                    (referenced-All rs r.contents.models h)))
                h)
      ]
    ]

has-kept :
    (id k : Text) (rs : List RuntimeEntry)
    → k ≢ id
    → has runtime_id k (select (λ (e : RuntimeEntry). not (e.id ==ᵗ id)) rs) ≡ has runtime_id k rs
unfolding has select
has-kept id k [] n = refl
has-kept id k (x ∷ rs) n = ground (arith, has-kept id k rs, text_eq_iff x.id k, text_eq_iff x.id id)

kept-Refers :
    (id : Text) (rs : List RuntimeEntry) (ms : List ModelEntry)
    → All (Refers rs) ms
    → All
        (Refers (select (λ (e : RuntimeEntry). not (e.id ==ᵗ id)) rs))
        (select (λ m. not (references id m)) ms)
unfolding select
kept-Refers id rs [] h = tt
kept-Refers id rs (m ∷ ms) h = elim (Bool-cases (m.runtime_id ==ᵗ id)) [
  | inl e ↦ rw e (kept-Refers id rs ms h.1)
  | inr e ↦ rw e (
    has-kept id m.runtime_id rs (λ p. ground (arith, text_eq_iff m.runtime_id id)) ∙ h.0,
    kept-Refers id rs ms h.1,
  )
]

-- CascadeDeleteRuntimeAndModels leaves no model without its runtime, if there was none before,
-- whatever becomes of the write.
cascade_delete-IsReferenced :
    (c : Call) (id : Text) (r : Repository)
    → IsReferenced r.contents
    → IsReferenced (cascade_delete_runtime_and_models c id r).1.contents
unfolding cascade_delete_runtime_and_models
cascade_delete-IsReferenced c id r h =
    let rs = r.contents.runtimes in
    elim (Bool-cases (has runtime_id id rs)) [
      | inr e ↦ rw e h
      | inl e ↦ rw e (
          counted-IsReferenced c.write _ _ r
            (All-referenced _ _
              (kept-Refers id rs r.contents.models (referenced-All rs r.contents.models h)))
            h)
    ]

has-remove_last_same :
    (id : Text) (l : List RuntimeEntry)
    → Unique runtime_id l
    → has runtime_id id (remove_last runtime_id id l) ≡ false
unfolding has remove_last
has-remove_last_same id [] u = refl
has-remove_last_same id (x ∷ l) u =
    ground (arith, has-remove_last_same id l u.1, text_eq_iff x.id id)

dangling :
    (id : Text) (rs : List RuntimeEntry) (ms : List ModelEntry) (f : ModelEntry → ModelEntry)
    → has runtime_id id rs ≡ false
    → ((m : ModelEntry) → m.runtime_id ≡ id → (f m).runtime_id ≡ id)
    → select (references id) ms ≢ []
    → validate_cross_references rs (map f ms) ≢ none
unfolding select validate_cross_references
dangling id rs [] f h g n = λ e. n refl
dangling id rs (m ∷ ms) f h g n = elim (Bool-cases (has runtime_id (f m).runtime_id rs)) [
  | inr e ↦ rw e (λ p. cc)
  | inl e ↦ elim (Bool-cases (m.runtime_id ==ᵗ id)) [
    | inl k ↦
        absurd (cc (h, e, ap (λ t. has runtime_id t rs) (g m ((text_eq_iff m.runtime_id id).0 k))))
    | inr k ↦ rw e (dangling id rs ms f h g (rw k at n))
  ]
]

-- ReplaceRuntimeAndDelete does not guard against two equal IDs: it reports success, deletes the
-- runtime and leaves its models without one, if the runtime has models, its ID is not repeated and
-- the file is written.
pub replace_runtime_and_delete-same :
    (c : Call) (id : Text) (r : Repository)
    → c.write ≡ written
    → Unique runtime_id r.contents.runtimes
    → has runtime_id id r.contents.runtimes ≡ true
    → select (references id) r.contents.models ≢ []
    → ((replace_runtime_and_delete c id id r).0.1 ≡ none)
      × (has runtime_id id (replace_runtime_and_delete c id id r).1.contents.runtimes ≡ false)
      × ¬ IsReferenced (replace_runtime_and_delete c id id r).1.contents
unfolding replace_runtime_and_delete replace_contents
replace_runtime_and_delete-same c id r w u h n =
    let gone = has-remove_last_same id r.contents.runtimes u in
    rw (h, w)
      (
        refl,
        gone,
        dangling id (remove_last runtime_id id r.contents.runtimes) r.contents.models
            (rebind c.now id id) gone (λ m e. rebind-runtime_id c.now id id m ∙ ground (arith)) n,
      )
