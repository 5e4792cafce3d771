-- ===== src/Storage/Import/Kept.antt =====
-- The parts of a runtime that a bundle does not restore, as updates are put in place.
use mathlib.Core.Option
use goal_starter.Prelude.{
  ◌⊎◌, ◌≡◌, refl, ap, sym, ◌∙◌, true, false, Bool-cases, inl, inr, Option, none, some, Option-cases,
  List, [], ◌∷◌, map, Text, Dict, All, arith, ◌==ᵗ◌,
}
use goal_starter.Domain.Instance.{Time}
use goal_starter.Domain.Entries.{RuntimeEntry}
use goal_starter.Storage.Collection.{has}
use goal_starter.Storage.Repository.Runtimes.{runtime_id}
use goal_starter.Storage.Import.Names.{find_last}
use goal_starter.Storage.Import.Graph.{placed, place_all, replace_last}
use goal_starter.Storage.Import.Placed.{placed-injective}

-- The ID of a runtime, and what an import must not touch.
pub record Kept : Type 0 where
  pub id : Text
  pub environment : Option (Dict Text)
  pub created_at : Time

abbrev pub kept : RuntimeEntry → Kept
kept e = record { id = e.id; environment = e.environment; created_at = e.created_at }

abbrev pub kept_id : Kept → Text
kept_id k = k.id

some_inj : (a b : Kept) → some a ≡ some b → a ≡ b
some_inj a b h = cc

none-some : (a : Kept) → ¬ (none ≡ some a)
none-some a h = cc

absent :
    (id : Text) (l : List RuntimeEntry)
    → find_last runtime_id id l ≡ none
    → find_last kept_id id (map kept l) ≡ none
unfolding find_last
absent id [] h = refl
absent id (x ∷ l) h = elim (Option-cases (find_last runtime_id id l)) [
  | inr (y, f) ↦ absurd (ground (arith, f, h))
  | inl f ↦ rw (absent id l f) (ground (arith, f, h))
]

pub find_last-map :
    (id : Text) (l : List RuntimeEntry) {e : RuntimeEntry}
    → find_last runtime_id id l ≡ some e
    → find_last kept_id id (map kept l) ≡ some (kept e)
unfolding find_last
find_last-map id [] h = absurd (ground arith)
find_last-map id (x ∷ l) {e} h = elim (Option-cases (find_last runtime_id id l)) [
  | inr (y, f) ↦
      let same : some y ≡ some e = (rw f at h) in
      rw (find_last-map id l f) (ap (Option.map kept) same)
  | inl f ↦ elim (Bool-cases (x.id ==ᵗ id)) [
    | inl b ↦ rw (absent id l f, b) (ap (Option.map kept) (rw (f, b) at h))
    | inr b ↦ absurd (ground (arith, f, b, h))
  ]
]

-- A runtime that may take the place of the one with its ID.
abbrev pub Fits : List Kept → RuntimeEntry → Type 0
Fits s e = find_last kept_id e.id s ≡ some (kept e)

-- An ID that is not there, or that is found.
has-cases :
    (id : Text) (l : List RuntimeEntry)
    → ((has runtime_id id l ≡ false) × (find_last kept_id id (map kept l) ≡ none))
      ⊎ ((has runtime_id id l ≡ true) × (k : Kept) × (find_last kept_id id (map kept l) ≡ some k))
unfolding has find_last
has-cases id [] = inl (refl, refl)
has-cases id (x ∷ l) = elim (has-cases id l) [
  | inr (h, k, f) ↦ inr (ground (arith, h), k, rw f refl)
  | inl (h, f) ↦ elim (Bool-cases (x.id ==ᵗ id)) [
    | inl e ↦ inr (rw e refl, kept x, rw (f, e) refl)
    | inr e ↦ inl (rw (e, h) refl, rw (f, e) refl)
  ]
]

map-replace_last :
    (e : RuntimeEntry) (l : List RuntimeEntry)
    → Fits (map kept l) e
    → map kept (replace_last runtime_id e l) ≡ map kept l
unfolding replace_last find_last
map-replace_last e [] h = refl
map-replace_last e (x ∷ l) h = elim (has-cases e.id l) [
  | inr (b, k, f) ↦
      let found : Fits (map kept l) e = f ∙ (rw f at h) in
      rw b (ap (λ t. kept x ∷ t) (map-replace_last e l found))
  | inl (b, f) ↦ elim (Bool-cases (x.id ==ᵗ e.id)) [
    | inl c ↦
        rw (b, c) (ap (λ t. t ∷ map kept l) (some_inj (kept e) (kept x) (sym (rw (f, c) at h))))
    | inr c ↦ absurd (none-some (kept e) (rw (f, c) at h))
  ]
]

pub map-place_all :
    (es l l' : List RuntimeEntry)
    → place_all runtime_id es l ≡ placed l'
    → All (Fits (map kept l)) es
    → map kept l' ≡ map kept l
unfolding place_all
map-place_all [] l l' h f = ap (map kept) (sym (placed-injective l l' h))
map-place_all (e ∷ es) l l' h f = elim (Bool-cases (has runtime_id e.id l)) [
  | inr b ↦ absurd (ground (arith, b, h))
  | inl b ↦
      let same = map-replace_last e l f.0 in
      map-place_all es (replace_last runtime_id e l) l' (rw b at h) (rw same f.1) ∙ same
]
