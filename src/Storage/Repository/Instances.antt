-- ===== src/Storage/Repository/Instances.antt =====
-- internal/storage/repository.go: the launch instances.
use goal_starter.Prelude.{
  ℕ, Bool, true, false, not, ◌&&◌, ◌||◌, Option, none, some, List, [], ◌∷◌, ◌++◌, Text, length,
  select, ltb, ◌==◌, ◌==ᵗ◌, if◌then◌else◌,
}
use goal_starter.Domain.Instance.{
  LaunchInstanceEntry, InstanceState, is_in_flight, exited, failed, stale, Time,
}
use goal_starter.Storage.Collection.{has, find, replace_first, remove_first}
use goal_starter.Storage.Repository.{
  StoreError, already_exists, not_found, invalid_mode, Call, Repository, counted, replace_contents,
}

abbrev pub instance_id : LaunchInstanceEntry → Text
instance_id e = e.id

-- The ID that Create gives: idGenerator() if the entry has none.
abbrev pub new_instance_id : Call → LaunchInstanceEntry → Text
new_instance_id c e = if e.id ==ᵗ [] then c.ids 0 else e.id

-- CreateLaunchInstance
unfoldable pub create_launch_instance :
    Call → LaunchInstanceEntry → Repository → Option StoreError × Repository
create_launch_instance c e r =
    let e' = record e { id = new_instance_id c e; created_at = c.now; updated_at = c.now } in
    if has instance_id (new_instance_id c e) r.contents.instances
    then (some (already_exists (new_instance_id c e)), r)
    else replace_contents c.write
        (record r.contents { instances = r.contents.instances ++ e' ∷ [] }) r

-- Create: an entry with the ID is replaced, otherwise it is added.
unfoldable pub create : Call → LaunchInstanceEntry → Repository → Option StoreError × Repository
create c e r =
    let id = new_instance_id c e in
    let e' = record e { id = id } in
    let instances = r.contents.instances in
    replace_contents c.write
      (record r.contents {
        instances =
            if has instance_id id instances
            then replace_first instance_id id e' instances
            else instances ++ e' ∷ [];
      })
      r

-- UpdateInstance, which stamps nothing.
unfoldable pub update_instance :
    Call → LaunchInstanceEntry → Repository → Option StoreError × Repository
update_instance c e r =
    if has instance_id e.id r.contents.instances
    then replace_contents c.write
        (record r.contents { instances = replace_first instance_id e.id e r.contents.instances }) r
    else (some (not_found e.id), r)

unfoldable pub get_instance : Text → Repository → Option LaunchInstanceEntry
get_instance id r = find instance_id id r.contents.instances

unfoldable pub delete_instance : Call → Text → Repository → Option StoreError × Repository
delete_instance c id r =
    if has instance_id id r.contents.instances
    then replace_contents c.write
        (record r.contents { instances = remove_first instance_id id r.contents.instances }) r
    else (some (not_found id), r)

unfoldable pub list_by_model_id : Text → Repository → List LaunchInstanceEntry
list_by_model_id model_id r =
    select (λ (e : LaunchInstanceEntry). e.model_id ==ᵗ model_id) r.contents.instances

unfoldable pub count_active_instances : Repository → ℕ
count_active_instances r =
    length (select (λ (e : LaunchInstanceEntry). is_in_flight e.state) r.contents.instances)

pub data CleanupMode : Type 0 where
  all_terminal older_than_7d older_than_30d selected : CleanupMode
  other_mode : Text → CleanupMode

abbrev pub is_terminal_entry : InstanceState → Bool
is_terminal_entry exited = true
is_terminal_entry failed = true
is_terminal_entry stale = true
is_terminal_entry _ = false

abbrev pub among : Text → List Text → Bool
among id [] = false
among id (x ∷ l) = (x ==ᵗ id) || among id l

-- A stop time that is set and before the cutoff.
abbrev pub stopped_before : Time → Time → Bool
stopped_before cutoff stopped_at = not (stopped_at == 0) && ltb stopped_at cutoff

abbrev pub in_mode : CleanupMode → List Text → Time → LaunchInstanceEntry → Bool
in_mode all_terminal ids cutoff e = true
in_mode older_than_7d ids cutoff e = stopped_before cutoff e.stopped_at
in_mode older_than_30d ids cutoff e = stopped_before cutoff e.stopped_at
in_mode selected ids cutoff e = among e.id ids
in_mode (other_mode m) ids cutoff e = false

unfoldable pub should_delete : CleanupMode → List Text → Time → LaunchInstanceEntry → Bool
should_delete mode ids cutoff e = is_terminal_entry e.state && in_mode mode ids cutoff e

-- The clean-up in a valid mode, with the number of the entries that it deletes.
unfoldable pub delete_matching :
    Call → (LaunchInstanceEntry → Bool) → Repository → (ℕ × Option StoreError) × Repository
delete_matching c p r =
    let deleted = length (select p r.contents.instances) in
    let kept = record r.contents { instances = select (λ e. not (p e)) r.contents.instances } in
    if deleted == 0 then ((0, none), r) else counted deleted (replace_contents c.write kept r)

unfoldable pub delete_terminal_instances :
    Call → CleanupMode → List Text → Time → Repository → (ℕ × Option StoreError) × Repository
delete_terminal_instances c (other_mode m) ids cutoff r = ((0, some (invalid_mode m)), r)
delete_terminal_instances c mode ids cutoff r = delete_matching c (should_delete mode ids cutoff) r
