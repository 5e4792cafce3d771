-- ===== src/Domain/Command/Layers.antt =====
-- Which layer of the environment a variable of a command comes from.
use goal_starter.Prelude.{
  ◌≡◌, refl, ap, ◌∙◌, Option, none, some, [], ◌∷◌, Text, Dict, lookup, insert, lookup-insert, ◌==ᵗ◌,
  if◌then◌else◌,
}
use goal_starter.Domain.Command.{Host, normalize_key, overlay, environ_entries, command_environment}

-- The value that a layer gives a variable: that of its last entry under the name, else the older one.
pub layer_value : Host → Dict Text → Text → Option Text → Option Text
layer_value h [] k old = old
layer_value h ((j, v) ∷ layer) k old =
    layer_value h layer k (if normalize_key h j ==ᵗ k then some v else old)

lookup-overlay :
    (h : Host) (layer env : Dict Text) (k : Text)
    → lookup k (overlay h layer env) ≡ layer_value h layer k (lookup k env)
unfolding overlay layer_value
lookup-overlay h [] env k = refl
lookup-overlay h ((j, v) ∷ layer) env k =
    lookup-overlay h layer (insert (normalize_key h j) v env) k
    ∙ ap (layer_value h layer k) (lookup-insert (normalize_key h j) k v env)

-- A variable of a command has the value of the last layer that sets it, in the order process
-- environment, runtime, model, caller; names are compared in their normal form.
pub lookup-command_environment :
    (h : Host) (rt_env model_env cust_env : Dict Text) (k : Text)
    → lookup k (command_environment h rt_env model_env cust_env)
      ≡ layer_value h cust_env k (
          layer_value h model_env k
            (layer_value h rt_env k (layer_value h (environ_entries h.environ) k none)))
unfolding command_environment lookup
lookup-command_environment h rt_env model_env cust_env k =
    let own = overlay h (environ_entries h.environ) [] in
    lookup-overlay h cust_env _ k
    ∙ ap (layer_value h cust_env k) (
        lookup-overlay h model_env _ k
        ∙ ap (layer_value h model_env k) (
            lookup-overlay h rt_env own k
            ∙ ap (layer_value h rt_env k) (lookup-overlay h (environ_entries h.environ) [] k)))
