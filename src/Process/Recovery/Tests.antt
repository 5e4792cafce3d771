-- ===== src/Process/Recovery/Tests.antt =====
-- The recovery at concrete inputs (internal/process/supervisor.go).
use goal_starter.Prelude.{
  ℕ, ◌^◌, ◌+◌, ◌≡◌, refl, true, false, some, [], ◌∷◌, Text, lit, pos, All, map, ◌==ᵗ◌, ℤ,
}
use goal_starter.Domain.Instance.{
  LaunchInstanceEntry, InstanceState, running, exited, orphan, stale, pending, to_storage_entry,
  to_domain, unset, is_in_flight,
}
use goal_starter.Storage.Collection.{has}
use goal_starter.Storage.Collection.Unique.{Unique}
use goal_starter.Storage.Repository.{
  save_failed, written, write_failed, Write, Call, Contents, Repository,
}
use goal_starter.Storage.Repository.Instances.{instance_id}
use goal_starter.Process.Recovery.{
  Host, Prober, recover, times_approximately_equal, classify_for_recovery, recovered,
}
use goal_starter.Process.Recovery.Exact.{recovered_from, recover-exact}
use goal_starter.Process.Recovery.Verdicts.{recover-settled}

abbrev entry : Text → InstanceState → ℤ → LaunchInstanceEntry
entry id state pid = record {
  id = id;
  model_id = lit "m";
  model_name = [];
  runtime_id = lit "r";
  pipeline_id = [];
  pipeline_entry_id = [];
  executable = lit "/bin/r";
  args = [];
  working_directory = [];
  environment = [];
  state = state;
  pid = pid;
  exit_code = pos 0;
  exit_class = unset;
  last_error = [];
  started_at = 100;
  stopped_at = 0;
  created_at = 1;
  updated_at = 1;
  recovery_reason = [];
}

-- Every process is alive.
abbrev prober : Prober
prober = record {
  is_process_alive = λ p. some true;
  get_process_identity = λ p.
      some (record { executable_path = lit "/bin/r"; start_time = 200; has_start_time = true });
}

abbrev host : Host
host = record { prober = some prober; windows = false; to_lower = λ t. t }

abbrev contents : Contents
contents = record {
  runtimes = [];
  models = [];
  instances =
      entry (lit "a") running (pos 7)
      ∷ entry (lit "b") pending (pos 0)
      ∷ entry (lit "c") exited (pos 7)
      ∷ [];
  pipelines = [];
}

abbrev repository : Repository
repository = record { contents = contents; file = contents }

abbrev calls : Write → ℕ → Call
calls w n = record { now = 300 + n; ids = λ k. []; write = w }

distinct : Unique instance_id contents.instances
unfolding ◌==ᵗ◌ has
distinct = (refl, (refl, (refl, tt)))

recover-exact_example :
    let (errors, r') = recover host (calls write_failed) (λ n. 400) repository in
    (errors ≡ save_failed ∷ save_failed ∷ []) × (r'.contents ≡ contents)
recover-exact_example = recover-exact host (calls write_failed) (λ n. 400) repository distinct

recover-settled_example :
    All
      (λ (e : LaunchInstanceEntry). is_in_flight e.state ≡ false)
      (recover host (calls written) (λ n. 400) repository).1.contents.instances
recover-settled_example =
    recover-settled host (calls written) (λ n. 400) repository distinct
      (recover-exact host (calls written) (λ n. 400) repository distinct).0

states :
    map
      (λ (e : LaunchInstanceEntry). e.state)
      (recovered_from host (calls written) (λ n. 400) 0 contents.instances)
    ≡ orphan ∷ stale ∷ exited ∷ []
unfolding recovered classify_for_recovery ◌==ᵗ◌ to_storage_entry to_domain
states = refl

-- A start more than 292 years before the process's counts as within five seconds.
saturated : times_approximately_equal 1 (2 ^ 63 + 1) ≡ true
unfolding times_approximately_equal
saturated = refl
