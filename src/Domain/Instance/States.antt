-- ===== src/Domain/Instance/States.antt =====
-- The classes of states, and what a transition leaves behind.
use goal_starter.Prelude.{◌≡◌, refl, Bool, true, false, none, [], ◌||◌, ◌&&◌, not, arith}
use goal_starter.Domain.Instance.{
  InstanceState, pending, orphan, is_live, is_in_flight, is_running_or_starting, is_terminal,
  LaunchInstance, unset, Time, zero_time, update_state,
}

abbrev pub is_pending : InstanceState → Bool
is_pending pending = true
is_pending _ = false

-- The state classes: in flight is pending or live, launched states are live, and no state in flight
-- is terminal.
state_classes :
    (s : InstanceState)
    → (is_in_flight s ≡ (is_pending s || is_live s))
      × (is_running_or_starting s && not (is_live s) ≡ false)
      × (is_in_flight s && is_terminal s ≡ false)
state_classes pending = (refl, refl, refl)
state_classes _ = (refl, refl, refl)

-- Details of how an instance ended.
abbrev pub HasNoEnd : LaunchInstance → Type 0
HasNoEnd i =
    (i.stopped_at ≡ zero_time) × (i.exit_code ≡ none) × (i.exit_class ≡ unset) × (i.last_error ≡ [])

abbrev pub is_orphan : InstanceState → Bool
is_orphan orphan = true
is_orphan _ = false

-- After UpdateState an instance is in the state asked for; if that is live or orphan, no detail of an
-- earlier end is left; if it is terminal, the stop time is the second reading of the clock and the
-- details recorded before are kept.
pub update_state_lem :
    (s : InstanceState) (now later : Time) (i : LaunchInstance)
    → let u = update_state s now later i in
      (u.state ≡ s)
      × (u.updated_at ≡ now)
      × (is_live s || is_orphan s ≡ true → HasNoEnd u)
      × (is_terminal s ≡ true
          → (u.stopped_at ≡ later)
            × (u.exit_code ≡ i.exit_code)
            × (u.exit_class ≡ i.exit_class)
            × (u.last_error ≡ i.last_error))
unfolding update_state
update_state_lem pending now later i = ground arith
update_state_lem _ now later i = ground arith

-- What identifies an instance and its launch stays as it was.
pub record SameLaunch (a b : LaunchInstance) : Type 0 where
  pub same_id : b.id ≡ a.id
  pub same_model : b.model_id ≡ a.model_id
  pub same_pipeline : b.pipeline_id ≡ a.pipeline_id
  pub same_entry : b.pipeline_entry_id ≡ a.pipeline_entry_id

pub update_state-SameLaunch :
    (s : InstanceState) (now later : Time) (i : LaunchInstance)
    → SameLaunch i (update_state s now later i)
unfolding update_state
update_state-SameLaunch pending now later i = record {
  same_id = refl;
  same_model = refl;
  same_pipeline = refl;
  same_entry = refl;
}
update_state-SameLaunch _ now later i = record {
  same_id = refl;
  same_model = refl;
  same_pipeline = refl;
  same_entry = refl;
}
