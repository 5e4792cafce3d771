-- ===== src/Storage/Import/Placed.antt =====
-- What the composition of the next contents of an import keeps.
use goal_starter.Prelude.{
  ℕ, ◌+◌, ◌≡◌, refl, ap, sym, subst, ◌∙◌, true, ◌||◌, Bool-cases, inl, inr, List, [], ◌∷◌, ◌++◌,
  map, Text, text_eq_iff, All, All-append, arith, ◌==ᵗ◌,
}
use goal_starter.Domain.Entries.{PipelineModel, PipelineEntry}
use goal_starter.Storage.Collection.{has}
use goal_starter.Storage.Collection.Unique.{has-append}
use goal_starter.Storage.Repository.Pipelines.{with_entry_ids}
use goal_starter.Storage.Import.Graph.{
  placed, place_all, replace_last, with_ids, with_allocated_entry_ids, allocated,
}

pub placed-injective : {A : Type 0} (l k : List A) → placed l ≡ placed k → l ≡ k
placed-injective l k e = cc

module _ {A : Type 0} (id_of : A → Text) where
  has-replace_last :
      (k : Text) (e : A) (l : List A)
      → has id_of (id_of e) l ≡ true
      → has id_of k (replace_last id_of e l) ≡ has id_of k l
  unfolding has replace_last
  has-replace_last k e [] h = refl
  has-replace_last k e (x ∷ l) h = elim (Bool-cases (has id_of (id_of e) l)) [
    | inl b ↦ rw (b, has-replace_last k e l b) refl
    | inr b ↦
        let same : (id_of x ==ᵗ id_of e) ≡ true = ground (arith, b, h) in
        rw (b, same)
          (ap (λ t. (t ==ᵗ k) || has id_of k l) (sym ((text_eq_iff (id_of x) (id_of e)).0 same)))
  ]

  All-replace_last :
      (P : A → Type 0) (e : A) (l : List A) → P e → All P l → All P (replace_last id_of e l)
  unfolding replace_last
  All-replace_last P e [] here h = tt
  All-replace_last P e (x ∷ l) here h = elim (Bool-cases (has id_of (id_of e) l)) [
    | inl b ↦ rw b (h.0, All-replace_last P e l here h.1)
    | inr b ↦ elim (Bool-cases (id_of x ==ᵗ id_of e)) [
      | inl c ↦ rw (b, c) (here, h.1)
      | inr c ↦ rw (b, c) (h.0, All-replace_last P e l here h.1)
    ]
  ]

  has-place_all :
      (k : Text) (es l l' : List A)
      → place_all id_of es l ≡ placed l'
      → has id_of k l' ≡ has id_of k l
  unfolding place_all
  has-place_all k [] l l' h = ap (has id_of k) (sym (placed-injective l l' h))
  has-place_all k (e ∷ es) l l' h = elim (Bool-cases (has id_of (id_of e) l)) [
    | inl b ↦ has-place_all k es (replace_last id_of e l) l' (rw b at h) ∙ has-replace_last k e l b
    | inr b ↦ absurd (ground (arith, b, h))
  ]

  All-place_all :
      (P : A → Type 0) (es l l' : List A)
      → place_all id_of es l ≡ placed l'
      → All P es
      → All P l
      → All P l'
  unfolding place_all
  All-place_all P [] l l' h he hl = subst (All P) (placed-injective l l' h) hl
  All-place_all P (e ∷ es) l l' h he hl = elim (Bool-cases (has id_of (id_of e) l)) [
    | inl b ↦
        All-place_all P es (replace_last id_of e l) l' (rw b at h) he.1
          (All-replace_last P e l he.0 hl)
    | inr b ↦ absurd (ground (arith, b, h))
  ]

has-map_same :
    {A : Type 0} (id_of : A → Text) (f : A → A) (k : Text) (l : List A)
    → ((x : A) → id_of (f x) ≡ id_of x)
    → has id_of k (map f l) ≡ has id_of k l
unfolding has
has-map_same id_of f k [] h = refl
has-map_same id_of f k (x ∷ l) h = rw (h x, has-map_same id_of f k l h) refl

pub All-map :
    {A B : Type 0} (P : B → Type 0) (f : A → B) (l : List A)
    → All (λ x. P (f x)) l
    → All P (map f l)
All-map P f [] h = tt
All-map P f (x ∷ l) h = (h.0, All-map P f l h.1)

module _ (Q : Text → Type 0) where
  entries_kept :
      (ids : ℕ → Text) (n : ℕ) (l : List PipelineModel)
      → All (λ (e : PipelineModel). Q e.model_id) l
      → All (λ (e : PipelineModel). Q e.model_id) (with_entry_ids ids n l)
  unfolding with_entry_ids
  entries_kept ids n [] h = tt
  entries_kept ids n (e ∷ l) h = elim (Bool-cases (e.id ==ᵗ [])) [
    | inl b ↦ rw b (h.0, entries_kept ids (n + 1) l h.1)
    | inr b ↦ rw b (h.0, entries_kept ids n l h.1)
  ]

  pub with_ids_kept :
      (ids : ℕ → Text) (n : ℕ) (l : List PipelineEntry)
      → All (λ (p : PipelineEntry). All (λ (e : PipelineModel). Q e.model_id) p.models) l
      → All
          (λ (p : PipelineEntry). All (λ (e : PipelineModel). Q e.model_id) p.models)
          (with_ids ids n l)
  unfolding with_ids with_allocated_entry_ids
  with_ids_kept ids n [] h = tt
  with_ids_kept ids n (p ∷ l) h =
      (entries_kept ids n p.models h.0, with_ids_kept ids (n + allocated (p ∷ [])) l h.1)

-- An ID is among the next entries if it is there before or is created.
module _ {A : Type 0} (id_of : A → Text) (update create : A → A)
    (same : (x : A) → id_of (create x) ≡ id_of x) where
  pub has-next :
      (updates creates l l' : List A) (k : Text)
      → place_all id_of (map update updates) l ≡ placed l'
      → has id_of k (l' ++ map create creates) ≡ (has id_of k l || has id_of k creates)
  has-next updates creates l l' k h =
      rw
        (
          has-append id_of k l' (map create creates),
          has-place_all id_of k (map update updates) l l' h,
          has-map_same id_of create k creates same,
        )
        refl

  pub All-next :
      (P : A → Type 0) (updates creates l l' : List A)
      → place_all id_of (map update updates) l ≡ placed l'
      → All P l
      → All (λ x. P (update x)) updates
      → All (λ x. P (create x)) creates
      → All P (l' ++ map create creates)
  All-next P updates creates l l' h old new_ones created_ones =
      All-append P l' (map create creates)
        (All-place_all id_of P (map update updates) l l' h (All-map P update updates new_ones) old)
        (All-map P create creates created_ones)
