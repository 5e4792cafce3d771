-- ===== src/Domain/Instance/Stored.antt =====
-- What storing an instance and loading it again keeps.
use goal_starter.Prelude.{◌≡◌, Option, none, some, [], ℤ, arith, is_zero, if◌then◌else◌}
use goal_starter.Domain.Instance.{LaunchInstance, LaunchInstanceEntry, to_storage_entry, to_domain}

-- A recorded exit code of 0 is not told from none.
abbrev pub drop_zero : Option ℤ → Option ℤ
drop_zero none = none
drop_zero (some code) = if is_zero code then none else some code

-- An instance that is stored and loaded again is the same, but for its environment, which is gone,
-- and an exit code of 0, which becomes none.
pub to_domain-to_storage_entry :
    (i : LaunchInstance)
    → to_domain (to_storage_entry i)
      ≡ record i { environment = []; exit_code = drop_zero i.exit_code }
unfolding to_domain to_storage_entry
to_domain-to_storage_entry i = ground arith

-- An entry that is loaded and stored again is the same, but for its environment.
to_storage_entry-to_domain :
    (e : LaunchInstanceEntry) → to_storage_entry (to_domain e) ≡ record e { environment = [] }
unfolding to_domain to_storage_entry
to_storage_entry-to_domain e = ground arith
