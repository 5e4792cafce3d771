-- ===== src/Process/System/Drain.antt =====
-- The shutdown drain: the count of launches between admission and commit is exact, and the drain's
-- signal is given exactly when it is due.
use goal_starter.Prelude.{ℕ, ◌+◌, ◌≡◌, ◌↔◌, refl, subst, ap, sym, true, false, inl, arith}
use goal_starter.Domain.Instance.{Time}
use goal_starter.Process.Controller.{
  set_launch_fields_locked, InstanceController, new_controller, publish_locked, set_state_locked,
  set_terminal_locked, fail_locked, set_error_locked, set_last_error_locked, set_run_locked,
  set_operation_locked, clear_operation_locked,
}
use goal_starter.Process.Controller.Views.{Mutation, mutate, release}
use goal_starter.Process.Arbitration.{Supervisor, new_admission_claimant}
use goal_starter.Process.Commit.{
  signal_pre_spawn_zero_locked, begin_drain, release_launch_operation, abort_terminalize,
  abort_spend,
}
use goal_starter.Process.System.{
  Step, Held, admit, restart_target, commit, abort, give_back, release_operation, drain,
  end_lifecycle, work, forget, Reach, here, next, IsFresh,
}
use goal_starter.Process.System.Exclusion.{drain-instances, clear-id, mutate-id}
use goal_starter.Process.System.Registry.{IsMap}
use goal_starter.Process.System.Tokens.{
  tokens, Accounts, tokens-nil, kept-Accounts, spent-Accounts, forget-Accounts,
}
use goal_starter.Process.System.Admission.{arbitrate-Accounts, restart-Accounts, commit-Accounts}

clear-token :
    (op_id : ℕ) (ic : InstanceController)
    → (clear_operation_locked op_id ic).pre_spawn_token ≡ ic.pre_spawn_token
unfolding clear_operation_locked publish_locked
clear-token op_id ic = ground arith

-- No mutation of a controller touches its token.
mutate-token :
    (m : Mutation) (ic : InstanceController) → (mutate m ic).pre_spawn_token ≡ ic.pre_spawn_token
unfolding set_state_locked set_terminal_locked fail_locked set_error_locked set_last_error_locked
    set_launch_fields_locked set_run_locked set_operation_locked
mutate-token (release op) ic = clear-token op ic
mutate-token _ ic = refl

drain-departed : (s : Supervisor) → (begin_drain s).departed ≡ s.departed
unfolding begin_drain signal_pre_spawn_zero_locked
drain-departed s = ground arith

drain-Accounts : (s : Supervisor) → Accounts 0 s → Accounts 0 (begin_drain s)
unfolding begin_drain signal_pre_spawn_zero_locked
drain-Accounts s h = record {
  is_map = subst (λ l. IsMap l) (sym (drain-instances s)) h.is_map;
  counted = ground (arith, h.counted, ap tokens (drain-departed s), ap tokens (drain-instances s));
  signalled = ground (arith, h.signalled);
  honest = ground (arith, h.honest);
}

abort-Accounts :
    (now : Time) (ic : InstanceController) (s : Supervisor)
    → Held ic s
    → Accounts 0 s
    → Accounts 0 (abort_terminalize now ic s)
unfolding abort_terminalize fail_locked publish_locked
abort-Accounts now ic s r h =
    kept-Accounts ic _ _ r refl refl (record {
      is_map = h.is_map;
      counted = h.counted;
      signalled = h.signalled;
      honest = h.honest;
    })

pub Step-Accounts : {s t : Supervisor} → Step s t → Accounts 0 s → Accounts 0 t
unfolding new_admission_claimant new_controller abort_spend release_launch_operation
Step-Accounts {s} (admit inst owner o fresh) h = arbitrate-Accounts _ s (inl (refl, fresh)) h
Step-Accounts {s} (restart_target snap ic r l) h = restart-Accounts snap ic s r h
Step-Accounts {s} (commit now later claim ic r) h = commit-Accounts now later claim ic s r h
Step-Accounts {s} (abort now ic r) h = abort-Accounts now ic s r h
Step-Accounts {s} (give_back ic r) h =
    spent-Accounts ic (record ic { pre_spawn_token = false }) s r refl refl h
Step-Accounts {s} (forget id) h = forget-Accounts id s h
Step-Accounts {s} (release_operation op ic r) h =
    kept-Accounts ic (clear_operation_locked op ic) s r (clear-id op ic) (clear-token op ic) h
Step-Accounts {s} drain h = drain-Accounts s h
Step-Accounts {s} end_lifecycle h = record {
  is_map = h.is_map;
  counted = h.counted;
  signalled = h.signalled;
  honest = h.honest;
}
Step-Accounts {s} (work m ic r a) h =
    kept-Accounts ic (mutate m ic) s r (mutate-id m ic) (mutate-token m ic) h

Reach-Accounts : {s t : Supervisor} → Accounts 0 s → Reach s t → Accounts 0 t
Reach-Accounts h here = h
Reach-Accounts h (next r st) = Step-Accounts st (Reach-Accounts h r)

fresh-Accounts : (s : Supervisor) → IsFresh s → Accounts 0 s
fresh-Accounts s f = record {
  is_map = subst (λ l. IsMap l) (sym f.no_instances) tt;
  counted =
      omega
        (arith, f.none_pre_spawn, ap tokens f.no_instances, ap tokens f.none_departed, tokens-nil);
  signalled = λ d. absurd (cc (d, f.not_draining));
  honest = λ z. absurd (cc (z, f.zero_open));
}

-- From a supervisor with no instances, after any steps in any order: the count of launches between
-- admission and commit is the number of controllers that hold a pre-spawn token, in the registry or
-- already deleted from it; and the signal that ends a shutdown's wait is given exactly when a drain
-- has begun and no controller, in the registry or out of it, holds a token.
pub drain_signal :
    {s t : Supervisor}
    → IsFresh s
    → Reach s t
    → (t.pre_spawn_in_flight ≡ tokens t.departed + tokens t.instances)
      × ((t.zero_closed ≡ true)
          ↔ ((t.draining ≡ true) × (tokens t.departed ≡ 0) × (tokens t.instances ≡ 0)))
drain_signal {s} {t} f r =
    let h = Reach-Accounts (fresh-Accounts s f) r in
    (
      omega (arith, h.counted),
      (
        (λ z. (
          (h.honest z).0,
          omega (arith, h.counted, (h.honest z).1),
          omega (arith, h.counted, (h.honest z).1),
        )),
        (λ d. h.signalled d.0 (omega (arith, h.counted, d.1, d.2))),
      ),
    )
