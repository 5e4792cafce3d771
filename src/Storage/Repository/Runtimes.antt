-- ===== src/Storage/Repository/Runtimes.antt =====
-- internal/storage/repository.go: the runtimes.
use goal_starter.Prelude.{Option, none, some, List, [], ◌∷◌, ◌++◌, Text, Dict, ◌==ᵗ◌, if◌then◌else◌}
use goal_starter.Domain.EnvPatch.{EnvPatchOp, apply_env_patch}
use goal_starter.Domain.Entries.{RuntimeEntry}
use goal_starter.Storage.Collection.{has, find, replace_first, remove_first}
use goal_starter.Storage.Repository.{
  StoreError, already_exists, not_found, Call, Repository, replace_contents,
}

abbrev pub runtime_id : RuntimeEntry → Text
runtime_id e = e.id

-- The ID that CreateRuntime gives: idGenerator() if the entry has none.
abbrev pub new_runtime_id : Call → RuntimeEntry → Text
new_runtime_id c e = if e.id ==ᵗ [] then c.ids 0 else e.id

unfoldable pub new_runtime : Call → RuntimeEntry → RuntimeEntry
new_runtime c e = record e { id = new_runtime_id c e; created_at = c.now; updated_at = c.now }

unfoldable pub create_runtime : Call → RuntimeEntry → Repository → Option StoreError × Repository
create_runtime c e r =
    if has runtime_id (new_runtime_id c e) r.contents.runtimes
    then (some (already_exists (new_runtime_id c e)), r)
    else replace_contents c.write
        (record r.contents { runtimes = r.contents.runtimes ++ new_runtime c e ∷ [] }) r

unfoldable pub update_runtime : Call → RuntimeEntry → Repository → Option StoreError × Repository
update_runtime c e r =
    if has runtime_id e.id r.contents.runtimes
    then replace_contents c.write
        (record r.contents {
          runtimes =
              replace_first runtime_id e.id (record e { updated_at = c.now }) r.contents.runtimes;
        })
        r
    else (some (not_found e.id), r)

unfoldable pub get_runtime : Text → Repository → Option RuntimeEntry
get_runtime id r = find runtime_id id r.contents.runtimes

unfoldable pub delete_runtime : Call → Text → Repository → Option StoreError × Repository
delete_runtime c id r =
    if has runtime_id id r.contents.runtimes
    then replace_contents c.write
        (record r.contents { runtimes = remove_first runtime_id id r.contents.runtimes }) r
    else (some (not_found id), r)

pub record RuntimePatch : Type 0 where
  pub name : Option Text
  pub executable : Option Text
  pub working_directory : Option Text
  pub environment : Option (List EnvPatchOp)

-- `if p.F != nil { updated.F = *p.F }`
abbrev pub patch_field : {A : Type 0} → Option A → A → A
patch_field none old = old
patch_field (some new) old = new

abbrev pub patch_environment : Option (List EnvPatchOp) → Option (Dict Text) → Option (Dict Text)
patch_environment none env = env
patch_environment (some ops) env = apply_env_patch env ops

unfoldable pub patched_runtime : Call → RuntimePatch → RuntimeEntry → RuntimeEntry
patched_runtime c p x = record x {
  name = patch_field p.name x.name;
  executable = patch_field p.executable x.executable;
  working_directory = patch_field p.working_directory x.working_directory;
  environment = patch_environment p.environment x.environment;
  updated_at = c.now;
}

unfoldable pub patch_runtime :
    Call → Text → RuntimePatch → Repository → Option StoreError × Repository
patch_runtime c id p r = elim (find runtime_id id r.contents.runtimes) [
  | none ↦ (some (not_found id), r)
  | some x ↦
      replace_contents c.write
        (record r.contents {
          runtimes = replace_first runtime_id id (patched_runtime c p x) r.contents.runtimes;
        })
        r
]
