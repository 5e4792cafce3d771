-- ===== src/Domain/Owner.antt =====
-- internal/domain/launch_owner.go: who initiates a launch.
use goal_starter.Prelude.{Bool, true, false, ◌&&◌, ◌≡◌, arith, Text, [], ◌==ᵗ◌, text_eq_iff}

pub data OwnerKind : Type 0 where
  manual pipeline : OwnerKind

pub record LaunchOwner : Type 0 where
  pub kind : OwnerKind
  pub pipeline_id : Text
  pub pipeline_entry_id : Text

abbrev pub manual_owner : LaunchOwner
manual_owner = record { kind = manual; pipeline_id = []; pipeline_entry_id = [] }

abbrev pub pipeline_owner : Text → Text → LaunchOwner
pipeline_owner pipeline_id entry_id = record {
  kind = pipeline;
  pipeline_id = pipeline_id;
  pipeline_entry_id = entry_id;
}

abbrev same_kind : OwnerKind → OwnerKind → Bool
same_kind manual manual = true
same_kind pipeline pipeline = true
same_kind _ _ = false

-- `a == b` on owners
unfoldable pub owner_eq : LaunchOwner → LaunchOwner → Bool
owner_eq a b =
    same_kind a.kind b.kind
    && (a.pipeline_id ==ᵗ b.pipeline_id)
    && (a.pipeline_entry_id ==ᵗ b.pipeline_entry_id)

pub owner_eq_refl : (a : LaunchOwner) → owner_eq a a ≡ true
unfolding owner_eq
owner_eq_refl a = ground (
  arith,
  text_eq_iff a.pipeline_id a.pipeline_id,
  text_eq_iff a.pipeline_entry_id a.pipeline_entry_id,
)
