-- ===== src/Storage/Collection.antt =====
-- The loops over one of the repository's slices (internal/storage/repository.go): entries are found
-- by ID, the first match first.
pub mod Unique
pub mod Find
use goal_starter.Prelude.{
  Bool, true, false, ◌||◌, Option, none, some, List, [], ◌∷◌, Text, ◌==ᵗ◌, if◌then◌else◌,
}

module _ {A : Type 0} (id_of : A → Text) where
  -- An entry has the ID.
  unfoldable pub has : Text → List A → Bool
  has id [] = false
  has id (x ∷ l) = (id_of x ==ᵗ id) || has id l

  unfoldable pub find : Text → List A → Option A
  find id [] = none
  find id (x ∷ l) = if id_of x ==ᵗ id then some x else find id l

  -- l[i] = e at the first index with the ID
  unfoldable pub replace_first : Text → A → List A → List A
  replace_first id e [] = []
  replace_first id e (x ∷ l) = if id_of x ==ᵗ id then e ∷ l else x ∷ replace_first id e l

  -- append(l[:i], l[i+1:]...) at the first index with the ID
  unfoldable pub remove_first : Text → List A → List A
  remove_first id [] = []
  remove_first id (x ∷ l) = if id_of x ==ᵗ id then l else x ∷ remove_first id l

  -- The list without the last index with the ID.
  unfoldable pub remove_last : Text → List A → List A
  remove_last id [] = []
  remove_last id (x ∷ l) =
      let rest = remove_last id l in
      if has id l then x ∷ rest else if id_of x ==ᵗ id then l else x ∷ rest
