-- ===== src/Domain/EnvPatch.antt =====
-- internal/domain/model_entry.go: patches of an environment. A Go map that may be nil is an Option.
use goal_starter.Prelude.{
  Option, none, some, List, [], ◌∷◌, ◌≡◌, ◌≢◌, refl, ap, ◌∙◌, Text, Dict, lookup, insert, remove,
  lookup-insert, lookup-remove, ◌==ᵗ◌, if◌then◌else◌,
}

pub data PatchAction : Type 0 where
  set delete : PatchAction
  other_action : Text → PatchAction

pub record EnvPatchOp : Type 0 where
  pub key : Text
  pub action : PatchAction
  pub value : Option Text

-- op.Value, or "" if that is nil
abbrev pub value_or_empty : Option Text → Text
value_or_empty none = []
value_or_empty (some v) = v

apply_action : PatchAction → Text → Option Text → Dict Text → Dict Text
apply_action set key value env = insert key (value_or_empty value) env
apply_action delete key value env = remove key env
apply_action (other_action a) key value env = env

pub apply_ops : List EnvPatchOp → Dict Text → Dict Text
unfolding apply_action
apply_ops [] env = env
apply_ops (op ∷ ops) env = apply_ops ops (apply_action op.action op.key op.value env)

abbrev nil_if_empty : Dict Text → Option (Dict Text)
nil_if_empty [] = none
nil_if_empty (e ∷ env) = some (e ∷ env)

abbrev pub entries : Option (Dict Text) → Dict Text
entries none = []
entries (some env) = env

unfoldable pub apply_env_patch : Option (Dict Text) → List EnvPatchOp → Option (Dict Text)
unfolding apply_ops
apply_env_patch existing [] = existing
apply_env_patch existing (op ∷ ops) = nil_if_empty (apply_ops (op ∷ ops) (entries existing))

-- What one operation makes of the value of key `k`.
effect_on : Text → PatchAction → Text → Option Text → Option Text → Option Text
effect_on k set key value old = if key ==ᵗ k then some (value_or_empty value) else old
effect_on k delete key value old = if key ==ᵗ k then none else old
effect_on k (other_action a) key value old = old

-- The value of one key after all operations, in order.
pub patched : Text → List EnvPatchOp → Option Text → Option Text
unfolding effect_on
patched k [] old = old
patched k (op ∷ ops) old = patched k ops (effect_on k op.action op.key op.value old)

lookup-apply_action :
    (k : Text) (a : PatchAction) (key : Text) (value : Option Text) (env : Dict Text)
    → lookup k (apply_action a key value env) ≡ effect_on k a key value (lookup k env)
unfolding apply_action effect_on
lookup-apply_action k set key value env = lookup-insert key k (value_or_empty value) env
lookup-apply_action k delete key value env = lookup-remove key k env
lookup-apply_action k (other_action a) key value env = refl

lookup-apply_ops :
    (k : Text) (ops : List EnvPatchOp) (env : Dict Text)
    → lookup k (apply_ops ops env) ≡ patched k ops (lookup k env)
unfolding apply_ops patched
lookup-apply_ops k [] env = refl
lookup-apply_ops k (op ∷ ops) env =
    rw (← lookup-apply_action k op.action op.key op.value env)
      (lookup-apply_ops k ops (apply_action op.action op.key op.value env))

entries-nil_if_empty : (env : Dict Text) → entries (nil_if_empty env) ≡ env
entries-nil_if_empty [] = refl
entries-nil_if_empty (e ∷ env) = refl

nil_if_empty-ne : (env : Dict Text) → nil_if_empty env ≢ some []
nil_if_empty-ne [] h = cc
nil_if_empty-ne (e ∷ env) h = cc

-- Each key of the patched environment has the value that the operations on it leave, in order,
-- whatever they do to other keys.
lookup-apply_env_patch :
    (existing : Option (Dict Text)) (ops : List EnvPatchOp) (k : Text)
    → lookup k (entries (apply_env_patch existing ops))
      ≡ patched k ops (lookup k (entries existing))
unfolding apply_env_patch patched
lookup-apply_env_patch existing [] k = refl
lookup-apply_env_patch existing (op ∷ ops) k =
    ap (lookup k) (entries-nil_if_empty (apply_ops (op ∷ ops) (entries existing)))
    ∙ lookup-apply_ops k (op ∷ ops) (entries existing)

-- A patch with an operation never leaves an empty map that is not nil.
apply_env_patch-ne-empty :
    (existing : Option (Dict Text)) (op : EnvPatchOp) (ops : List EnvPatchOp)
    → apply_env_patch existing (op ∷ ops) ≢ some []
unfolding apply_env_patch
apply_env_patch-ne-empty existing op ops = nil_if_empty-ne (apply_ops (op ∷ ops) (entries existing))
