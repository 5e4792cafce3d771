-- ===== src/Storage/Repository/Integrity.antt =====
-- internal/storage/repository.go: the operations that keep models and runtimes together.
use goal_starter.Prelude.{
  ℕ, Bool, not, Option, none, some, List, [], ◌∷◌, map, Text, length, select, ◌==ᵗ◌, if◌then◌else◌,
}
use goal_starter.Domain.Instance.{Time}
use goal_starter.Domain.Entries.{RuntimeEntry, ModelEntry}
use goal_starter.Storage.Collection.{has, remove_last}
use goal_starter.Storage.Repository.{
  StoreError, not_found, Call, Repository, counted, replace_contents,
}
use goal_starter.Storage.Repository.Runtimes.{runtime_id}

-- One model of ReplaceRuntimeAndDelete.
unfoldable pub rebind : Time → Text → Text → ModelEntry → ModelEntry
rebind now old new m =
    if m.runtime_id ==ᵗ old then record m { runtime_id = new; updated_at = now } else m

abbrev pub references : Text → ModelEntry → Bool
references id m = m.runtime_id ==ᵗ id

unfoldable pub replace_runtime_and_delete :
    Call → Text → Text → Repository → (ℕ × Option StoreError) × Repository
replace_runtime_and_delete c old new r =
    if not (has runtime_id old r.contents.runtimes)
    then ((0, some (not_found old)), r)
    else if not (has runtime_id new r.contents.runtimes)
    then ((0, some (not_found new)), r)
    else counted (length (select (references old) r.contents.models)) (
        replace_contents c.write
          (record r.contents {
            models = map (rebind c.now old new) r.contents.models;
            runtimes = remove_last runtime_id old r.contents.runtimes;
          })
          r)

unfoldable pub cascade_delete_runtime_and_models :
    Call → Text → Repository → (ℕ × Option StoreError) × Repository
cascade_delete_runtime_and_models c id r =
    if not (has runtime_id id r.contents.runtimes)
    then ((0, some (not_found id)), r)
    else counted (length (select (references id) r.contents.models)) (
        replace_contents c.write
          (record r.contents {
            models = select (λ m. not (references id m)) r.contents.models;
            runtimes = select (λ (e : RuntimeEntry). not (e.id ==ᵗ id)) r.contents.runtimes;
          })
          r)

-- ValidateCrossReferences: the first model whose runtime is missing, and that runtime.
unfoldable pub validate_cross_references :
    List RuntimeEntry → List ModelEntry → Option (Text × Text)
validate_cross_references runtimes [] = none
validate_cross_references runtimes (m ∷ l) =
    if has runtime_id m.runtime_id runtimes
    then validate_cross_references runtimes l
    else some (m.id, m.runtime_id)
