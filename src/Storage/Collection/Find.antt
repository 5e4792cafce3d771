-- ===== src/Storage/Collection/Find.antt =====
-- What a look-up by ID finds after the loops over a slice (internal/storage/repository.go).
use goal_starter.Prelude.{
  All, ◌≡◌, ◌≢◌, refl, true, inl, inr, Bool-cases, some, List, [], ◌∷◌, ◌++◌, Text, ◌==ᵗ◌,
  text_eq_iff, text_eq_refl, arith,
}
use goal_starter.Storage.Collection.{has, find, replace_first, remove_first}

module _ {A : Type 0} (id_of : A → Text) where
  pub find-append :
      (k : Text) (l m : List A) {x : A} → find id_of k l ≡ some x → find id_of k (l ++ m) ≡ some x
  unfolding find
  find-append k [] m h = absurd cc
  find-append k (y ∷ l) m h = elim (Bool-cases (id_of y ==ᵗ k)) [
    | inl e ↦ rw e (rw e at h)
    | inr e ↦ rw e (find-append k l m (rw e at h))
  ]

  pub find-replace_first_other :
      (id k : Text) (e : A) (l : List A)
      → id_of e ≡ id
      → id ≢ k
      → find id_of k (replace_first id_of id e l) ≡ find id_of k l
  unfolding find replace_first
  find-replace_first_other id k e [] h n = refl
  find-replace_first_other id k e (x ∷ l) h n = ground (
    arith,
    find-replace_first_other id k e l h n,
    text_eq_iff (id_of x) id,
    text_eq_iff (id_of x) k,
    text_eq_iff (id_of e) k,
  )

  pub find-replace_first_same :
      (id : Text) (e : A) (l : List A) {x : A}
      → id_of e ≡ id
      → find id_of id l ≡ some x
      → find id_of id (replace_first id_of id e l) ≡ some e
  unfolding find replace_first
  find-replace_first_same id e [] h f = absurd cc
  find-replace_first_same id e (x ∷ l) h f = elim (Bool-cases (id_of x ==ᵗ id)) [
    | inl p ↦ rw (p, h, text_eq_refl id) refl
    | inr p ↦ rw (p, p) (find-replace_first_same id e l h (rw p at f))
  ]

  pub find-remove_first_other :
      (id k : Text) (l : List A) → id ≢ k → find id_of k (remove_first id_of id l) ≡ find id_of k l
  unfolding find remove_first
  find-remove_first_other id k [] n = refl
  find-remove_first_other id k (x ∷ l) n =
      ground
        (arith, find-remove_first_other id k l n, text_eq_iff (id_of x) id, text_eq_iff (id_of x) k)

  pub find-has : (k : Text) (l : List A) {x : A} → find id_of k l ≡ some x → has id_of k l ≡ true
  unfolding find has
  find-has k [] h = absurd cc
  find-has k (y ∷ l) {x = x} h = ground (arith, find-has k l {x = x})

  module _ (P : A → Type 0) where
    pub replace_first-All :
        (id : Text) (e : A) (l : List A) → P e → All P l → All P (replace_first id_of id e l)
    unfolding replace_first
    replace_first-All id e [] h a = tt
    replace_first-All id e (x ∷ l) h a = elim (Bool-cases (id_of x ==ᵗ id)) [
      | inl p ↦ rw p (h, a.1)
      | inr p ↦ rw p (a.0, replace_first-All id e l h a.1)
    ]

    pub remove_first-All : (id : Text) (l : List A) → All P l → All P (remove_first id_of id l)
    unfolding remove_first
    remove_first-All id [] a = tt
    remove_first-All id (x ∷ l) a = elim (Bool-cases (id_of x ==ᵗ id)) [
      | inl p ↦ rw p a.1
      | inr p ↦ rw p (a.0, remove_first-All id l a.1)
    ]
