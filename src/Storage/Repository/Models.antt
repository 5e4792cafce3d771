-- ===== src/Storage/Repository/Models.antt =====
-- internal/storage/repository.go: the models.
use goal_starter.Prelude.{
  Bool, Option, none, some, List, [], ◌∷◌, ◌++◌, Text, ℤ, ◌==ᵗ◌, if◌then◌else◌,
}
use goal_starter.Domain.EnvPatch.{EnvPatchOp}
use goal_starter.Domain.Entries.{ModelEntry}
use goal_starter.Storage.Collection.{has, find, replace_first, remove_first}
use goal_starter.Storage.Repository.{
  StoreError, already_exists, not_found, Call, Repository, replace_contents,
}
use goal_starter.Storage.Repository.Runtimes.{patch_field, patch_environment}

abbrev pub model_id : ModelEntry → Text
model_id e = e.id

-- The ID that CreateModel gives: idGenerator() if the entry has none.
abbrev pub new_model_id : Call → ModelEntry → Text
new_model_id c e = if e.id ==ᵗ [] then c.ids 0 else e.id

unfoldable pub new_model : Call → ModelEntry → ModelEntry
new_model c e = record e { id = new_model_id c e; created_at = c.now; updated_at = c.now }

unfoldable pub create_model : Call → ModelEntry → Repository → Option StoreError × Repository
create_model c e r =
    if has model_id (new_model_id c e) r.contents.models
    then (some (already_exists (new_model_id c e)), r)
    else replace_contents c.write
        (record r.contents { models = r.contents.models ++ new_model c e ∷ [] }) r

unfoldable pub update_model : Call → ModelEntry → Repository → Option StoreError × Repository
update_model c e r =
    if has model_id e.id r.contents.models
    then replace_contents c.write
        (record r.contents {
          models = replace_first model_id e.id (record e { updated_at = c.now }) r.contents.models;
        })
        r
    else (some (not_found e.id), r)

unfoldable pub get_model : Text → Repository → Option ModelEntry
get_model id r = find model_id id r.contents.models

unfoldable pub delete_model : Call → Text → Repository → Option StoreError × Repository
delete_model c id r =
    if has model_id id r.contents.models
    then replace_contents c.write
        (record r.contents { models = remove_first model_id id r.contents.models }) r
    else (some (not_found id), r)

pub record ModelPatch : Type 0 where
  pub name : Option Text
  pub runtime_id : Option Text
  pub args : Option (List Text)
  pub active : Option Bool
  pub autostart_delay : Option ℤ
  pub environment : Option (List EnvPatchOp)

unfoldable pub patched_model : Call → ModelPatch → ModelEntry → ModelEntry
patched_model c p x = record x {
  name = patch_field p.name x.name;
  runtime_id = patch_field p.runtime_id x.runtime_id;
  args = patch_field p.args x.args;
  active = patch_field p.active x.active;
  autostart_delay = patch_field p.autostart_delay x.autostart_delay;
  environment = patch_environment p.environment x.environment;
  updated_at = c.now;
}

unfoldable pub patch_model : Call → Text → ModelPatch → Repository → Option StoreError × Repository
patch_model c id p r = elim (find model_id id r.contents.models) [
  | none ↦ (some (not_found id), r)
  | some x ↦
      replace_contents c.write
        (record r.contents {
          models = replace_first model_id id (patched_model c p x) r.contents.models;
        })
        r
]
