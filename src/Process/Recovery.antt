-- ===== src/Process/Recovery.antt =====
-- internal/process/supervisor.go: Recover and DismissOrphan, at the start of the program, over the
-- repository as the instance store. What the platform says of processes is the record Host.
pub mod Exact
pub mod Verdicts
mod Tests
use goal_starter.Prelude.{
  ℕ, zero, suc, ◌+◌, ◌-◌, ◌*◌, ◌^◌, Bool, true, false, not, ◌&&◌, ◌||◌, Option, none, some, List,
  [], ◌∷◌, ◌++◌, Text, lit, ℤ, pos, negsuc, leb, ltb, ◌==◌, ◌==ᵗ◌, if◌then◌else◌,
}
use goal_starter.Domain.Instance.{
  LaunchInstance, LaunchInstanceEntry, InstanceState, is_in_flight, stale, orphan, Time,
  update_state, to_domain, to_storage_entry,
}
use goal_starter.Storage.Repository.{StoreError, Call, Repository}
use goal_starter.Storage.Repository.Instances.{get_instance, update_instance}

-- platform.ProcessIdentity
pub record ProcessIdentity : Type 0 where
  pub executable_path : Text
  pub start_time : Time
  pub has_start_time : Bool

-- platform.RecoveryProber; `none` is an error.
pub record Prober : Type 0 where
  pub is_process_alive : ℤ → Option Bool
  pub get_process_identity : ℤ → Option ProcessIdentity

-- The supervisor's prober, runtime.GOOS == "windows" and strings.ToLower.
pub record Host : Type 0 where
  pub prober : Option Prober
  pub windows : Bool
  pub to_lower : Text → Text

abbrev pub exe_suffix : Text
exe_suffix = lit ".exe"

-- Equality with the optional extension `.exe` on one side.
abbrev pub equal_but_exe : Text → Text → Bool
equal_but_exe a b = (a ==ᵗ b) || (b ==ᵗ (a ++ exe_suffix)) || (a ==ᵗ (b ++ exe_suffix))

unfoldable pub paths_equal : Host → Text → Text → Bool
paths_equal host a b =
    (a ==ᵗ b) || (host.windows && equal_but_exe (host.to_lower a) (host.to_lower b))

-- 5 * time.Second
abbrev pub five_seconds : ℕ
five_seconds = 5000000000

abbrev at_most : ℕ → ℕ → ℕ
at_most bound n = if leb n bound then n else bound

-- a.Sub(b) is a Duration of 64 bits, and saturates. The negation of the least one is itself.
unfoldable pub times_approximately_equal : Time → Time → Bool
times_approximately_equal a b =
    if leb b a
    then leb (at_most (2 ^ 63 - 1) (a - b)) five_seconds
    else (let size = at_most (2 ^ 63) (b - a) in (size == 2 ^ 63) || leb size five_seconds)

unfoldable pub verify_identity : Host → LaunchInstance → ProcessIdentity → Bool
unfolding paths_equal times_approximately_equal
verify_identity host inst id =
    if id.executable_path ==ᵗ []
    then false
    else if inst.executable ==ᵗ []
    then false
    else if not (paths_equal host inst.executable id.executable_path)
    then false
    else if id.has_start_time && not (inst.started_at == 0)
    then times_approximately_equal inst.started_at id.start_time
    else true

-- PID <= 0
abbrev pub no_pid : ℤ → Bool
no_pid (pos zero) = true
no_pid (pos (suc n)) = false
no_pid (negsuc n) = true

abbrev pub Verdict : Type 0
Verdict = InstanceState × Text

abbrev pub pid_not_found : Verdict
pid_not_found = (stale, lit "pid-not-found")

abbrev pub identity_unconfirmed : Verdict
identity_unconfirmed = (stale, lit "identity-unconfirmed")

unfoldable pub verdict_of : Host → LaunchInstance → Option ProcessIdentity → Verdict
unfolding verify_identity
verdict_of host inst none = identity_unconfirmed
verdict_of host inst (some id) =
    if verify_identity host inst id then (orphan, []) else identity_unconfirmed

unfoldable pub classify_for_recovery : Host → LaunchInstance → Verdict
unfolding verdict_of
classify_for_recovery host inst = if no_pid inst.pid then pid_not_found else elim host.prober [
  | none ↦ identity_unconfirmed
  | some p ↦ elim (p.is_process_alive inst.pid) [
    | none ↦ pid_not_found
    | some false ↦ pid_not_found
    | some true ↦ verdict_of host inst (p.get_process_identity inst.pid)
  ]
]

-- The instance that Recover writes back; `later` is the second time.Now() of UpdateState.
unfoldable pub recovered : Host → Time → Time → LaunchInstanceEntry → LaunchInstanceEntry
unfolding classify_for_recovery update_state
recovered host now later entry =
    let inst = to_domain entry in
    let (state, why) = classify_for_recovery host inst in
    to_storage_entry (record (update_state state now later inst) { recovery_reason = why })

-- append(persistErrs, err) when there is one; the entry's error comes first.
abbrev pub cons_error : Option StoreError → List StoreError → List StoreError
cons_error none l = l
cons_error (some e) l = e ∷ l

module _ (host : Host) (calls : ℕ → Call) (later : ℕ → Time) where
  -- The switch on the state of one entry; the call `n` is the one for the entry at `n`.
  unfoldable pub recover_entry :
      ℕ → LaunchInstanceEntry → Repository → Option StoreError × Repository
  unfolding recovered
  recover_entry n entry r =
      if is_in_flight entry.state
      then update_instance (calls n) (recovered host (calls n).now (later n) entry) r
      else (none, r)

  -- The loop over the listed entries, with the errors of the writes.
  unfoldable pub recover_entries :
      ℕ → List LaunchInstanceEntry → Repository → List StoreError × Repository
  unfolding recover_entry
  recover_entries n [] r = ([], r)
  recover_entries n (entry ∷ l) r =
      let (error, r') = recover_entry n entry r in
      let (errors, r'') = recover_entries (n + 1) l r' in (cons_error error errors, r'')

  unfoldable pub recover : Repository → List StoreError × Repository
  unfolding recover_entries
  recover r = recover_entries 0 r.contents.instances r

pub data DismissError : Type 0 where
  instance_missing : Text → DismissError
  not_in_orphan_state : Text → InstanceState → DismissError
  dismiss_not_persisted : Text → StoreError → DismissError

abbrev is_orphan_state : InstanceState → Bool
is_orphan_state orphan = true
is_orphan_state _ = false

unfoldable pub dismissed : Time → Time → LaunchInstanceEntry → LaunchInstanceEntry
unfolding update_state
dismissed now later entry =
    to_storage_entry (record (update_state stale now later (to_domain entry)) {
      recovery_reason = lit "reconciled-by-user";
    })

abbrev dismissal : Text → Option StoreError × Repository → Option DismissError × Repository
dismissal id (none, r) = (none, r)
dismissal id (some e, r) = (some (dismiss_not_persisted id e), r)

unfoldable pub dismiss_orphan : Call → Time → Text → Repository → Option DismissError × Repository
unfolding dismissed
dismiss_orphan c later id r = elim (get_instance id r) [
  | none ↦ (some (instance_missing id), r)
  | some entry ↦
      if is_orphan_state entry.state
      then dismissal id (update_instance c (dismissed c.now later entry) r)
      else (some (not_in_orphan_state id entry.state), r)
]
