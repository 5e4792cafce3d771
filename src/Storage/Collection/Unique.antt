-- ===== src/Storage/Collection/Unique.antt =====
-- Collections in which no two entries have one ID, and what the loops keep of that.
use goal_starter.Prelude.{
  ◌≡◌, refl, ap, ◌∙◌, sym, Bool, false, ◌||◌, Bool-cases, inl, inr, List, [], ◌∷◌, ◌++◌, map, arith,
  Text, ◌==ᵗ◌, text_eq_iff, select,
}
use goal_starter.Storage.Collection.{has, replace_first, remove_first, remove_last}

module _ {A : Type 0} (id_of : A → Text) where
  abbrev pub Unique : List A → Type 0
  Unique [] = Unit
  Unique (x ∷ l) = (has id_of (id_of x) l ≡ false) × Unique l

  pub has-append :
      (id : Text) (l m : List A) → has id_of id (l ++ m) ≡ (has id_of id l || has id_of id m)
  unfolding has
  has-append id [] m = refl
  has-append id (x ∷ l) m = ground (arith, has-append id l m)

  pub append-Unique :
      (l : List A) (e : A) → has id_of (id_of e) l ≡ false → Unique l → Unique (l ++ e ∷ [])
  unfolding has
  append-Unique [] e h u = (refl, tt)
  append-Unique (x ∷ l) e h u = (
    has-append (id_of x) l (e ∷ [])
        ∙ ground (arith, u.0, text_eq_iff (id_of e) (id_of x), text_eq_iff (id_of x) (id_of e)),
    append-Unique l e (ground arith) u.1,
  )

  pub has-replace_first :
      (id k : Text) (e : A) (l : List A)
      → id_of e ≡ id
      → has id_of k (replace_first id_of id e l) ≡ has id_of k l
  unfolding has replace_first
  has-replace_first id k e [] h = refl
  has-replace_first id k e (x ∷ l) h = elim (Bool-cases (id_of x ==ᵗ id)) [
    | inl p ↦ rw p (ap (λ t. (t ==ᵗ k) || has id_of k l) (h ∙ sym ((text_eq_iff (id_of x) id).0 p)))
    | inr p ↦ rw (p, has-replace_first id k e l h) refl
  ]

  pub replace_first-Unique :
      (id : Text) (e : A) (l : List A)
      → id_of e ≡ id
      → Unique l
      → Unique (replace_first id_of id e l)
  unfolding replace_first
  replace_first-Unique id e [] h u = tt
  replace_first-Unique id e (x ∷ l) h u = elim (Bool-cases (id_of x ==ᵗ id)) [
    | inl p ↦ rw p (ap (λ t. has id_of t l) (h ∙ sym ((text_eq_iff (id_of x) id).0 p)) ∙ u.0, u.1)
    | inr p ↦ rw p (has-replace_first id (id_of x) e l h ∙ u.0, replace_first-Unique id e l h u.1)
  ]

  pub has-remove_first :
      (id k : Text) (l : List A)
      → has id_of k l ≡ false
      → has id_of k (remove_first id_of id l) ≡ false
  unfolding has remove_first
  has-remove_first id k [] h = refl
  has-remove_first id k (x ∷ l) h = ground (arith, has-remove_first id k l)

  pub remove_first-Unique : (id : Text) (l : List A) → Unique l → Unique (remove_first id_of id l)
  unfolding remove_first
  remove_first-Unique id [] u = tt
  remove_first-Unique id (x ∷ l) u = elim (Bool-cases (id_of x ==ᵗ id)) [
    | inl p ↦ rw p u.1
    | inr p ↦ rw p (has-remove_first id (id_of x) l u.0, remove_first-Unique id l u.1)
  ]

  pub has-remove_last :
      (id k : Text) (l : List A)
      → has id_of k l ≡ false
      → has id_of k (remove_last id_of id l) ≡ false
  unfolding has remove_last
  has-remove_last id k [] h = refl
  has-remove_last id k (x ∷ l) h = ground (arith, has-remove_last id k l)

  pub remove_last-Unique : (id : Text) (l : List A) → Unique l → Unique (remove_last id_of id l)
  unfolding remove_last
  remove_last-Unique id [] u = tt
  remove_last-Unique id (x ∷ l) u =
      let kept : Unique (x ∷ remove_last id_of id l) =
        (has-remove_last id (id_of x) l u.0, remove_last-Unique id l u.1) in
      elim (Bool-cases (has id_of id l)) [
        | inl p ↦ rw p kept
        | inr p ↦ elim (Bool-cases (id_of x ==ᵗ id)) [
          | inl q ↦ rw (p, q) u.1
          | inr q ↦ rw (p, q) kept
        ]
      ]

  pub has-select :
      (p : A → Bool) (k : Text) (l : List A)
      → has id_of k l ≡ false
      → has id_of k (select p l) ≡ false
  unfolding has select
  has-select p k [] h = refl
  has-select p k (x ∷ l) h = ground (arith, has-select p k l)

  pub select-Unique : (p : A → Bool) (l : List A) → Unique l → Unique (select p l)
  unfolding select
  select-Unique p [] u = tt
  select-Unique p (x ∷ l) u = elim (Bool-cases (p x)) [
    | inl e ↦ rw e (has-select p (id_of x) l u.0, select-Unique p l u.1)
    | inr e ↦ rw e (select-Unique p l u.1)
  ]

  pub has-map :
      (f : A → A) (k : Text) (l : List A)
      → ((x : A) → id_of (f x) ≡ id_of x)
      → has id_of k (map f l) ≡ has id_of k l
  unfolding has
  has-map f k [] h = refl
  has-map f k (x ∷ l) h = rw (h x, has-map f k l h) refl

  pub map-Unique :
      (f : A → A) (l : List A) → ((x : A) → id_of (f x) ≡ id_of x) → Unique l → Unique (map f l)
  map-Unique f [] h u = tt
  map-Unique f (x ∷ l) h u = (rw (h x) (has-map f (id_of x) l h ∙ u.0), map-Unique f l h u.1)
