-- ===== src/Process/Errors.antt =====
-- internal/process/errors.go: why a lifecycle operation is refused.
use goal_starter.Prelude.{Text}

pub data RejectionReason : Type 0 where
  in_flight orphan_record shutting_down : RejectionReason

pub record AdmissionRejection : Type 0 where
  pub reason : RejectionReason
  pub model_id : Text
  pub conflict_id : Text
  pub pipeline_id : Text
  pub entry_id : Text

-- The reason that `consumeSpawnClaimLocked` gives.
pub data ClaimFault : Type 0 where
  no_claim other_supervisor other_model other_instance no_operation other_generation
        other_operation :
      ClaimFault
  other_owner already_consumed : ClaimFault

-- An error of the package, told apart by the sentinel that it wraps; the text is the instance ID.
pub data ProcessError : Type 0 where
  rejected : AdmissionRejection → ProcessError
  launch_in_flight not_restartable instance_not_found : Text → ProcessError
  claim_rejected : Text → ClaimFault → ProcessError
  aborted_by_shutdown : ProcessError

pub data Result {ℓ} (A : Type ℓ) : Type ℓ where
  err : ProcessError → Result A
  ok : A → Result A
