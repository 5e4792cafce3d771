-- ===== src/Domain/Command/Resolved.antt =====
-- What a resolved command holds.
use goal_starter.Prelude.{
  ◌≡◌, refl, subst, false, Bool-cases, inl, inr, some, List, [], ◌∷◌, ◌++◌, Text, lit, Dict,
  Pointwise, arith, ◌==ᵗ◌, ◌≢◌, true, none, lookup, text_eq_iff,
}
use goal_starter.Domain.VarResolve.{Result, ok, err, new_variable_source}
use goal_starter.Domain.VarResolve.Fields.{
  ResolvesTo, ResolvesAt, chain_ok, field_cases, resolve_args-Pointwise,
  resolve_env_values-Pointwise,
}
use goal_starter.Domain.Command.Layers.{layer_value, lookup-command_environment}
use goal_starter.Domain.Command.{
  environ_entries, Host, Model, Runtime, CommandSpec, resolved, from_result,
  resolve_executable_path, command_environment, to_env_list, resolve_fields, resolve,
}

-- Where an executable is run from: an absolute one, and any without a working directory, as it is; a
-- relative one from the working directory.
pub record IsLocated (h : Host) (exe directory executable : Text) : Type 0 where
  pub absolute : h.is_abs exe ≡ true → executable ≡ exe
  pub nowhere : directory ≡ [] → executable ≡ exe
  pub relative : h.is_abs exe ≡ false → directory ≢ [] → executable ≡ h.join directory exe

resolve_executable_path-IsLocated :
    (h : Host) (exe directory : Text)
    → IsLocated h exe directory (resolve_executable_path h exe directory)
unfolding resolve_executable_path
resolve_executable_path-IsLocated h exe directory = record {
  absolute = λ a. rw a refl;
  nowhere = λ e. ground (arith, text_eq_iff directory []);
  relative = λ a n. ground (arith, text_eq_iff directory []);
}

-- The parts of a command, each the resolution of its field.
pub record Parts (h : Host) (model : Model) (runtime : Runtime) (args : List Text) (env : Dict Text)
    (spec : CommandSpec) : Type 0 where
  pub exe : Text
  pub exe_resolved : ResolvesTo (new_variable_source h.lookup_env h.data_dir) runtime.executable exe
  pub located : IsLocated h exe spec.working_directory spec.executable
  pub directory :
      ResolvesTo
        (new_variable_source h.lookup_env h.data_dir)
        runtime.working_directory
        spec.working_directory
  pub arguments :
      Pointwise
        (ResolvesTo (new_variable_source h.lookup_env h.data_dir))
        (model.args ++ args)
        spec.args
  pub rt_env : Dict Text
  pub model_env : Dict Text
  pub cust_env : Dict Text
  pub rt_resolved :
      Pointwise
        (ResolvesAt (new_variable_source h.lookup_env h.data_dir))
        runtime.environment
        rt_env
  pub model_resolved :
      Pointwise
        (ResolvesAt (new_variable_source h.lookup_env h.data_dir))
        model.environment
        model_env
  pub cust_resolved :
      Pointwise (ResolvesAt (new_variable_source h.lookup_env h.data_dir)) env cust_env
  pub variables : Dict Text
  pub printed : spec.environment ≡ to_env_list variables
  pub layered :
      (k : Text)
      → lookup k variables
        ≡ layer_value h cust_env k (
            layer_value h model_env k
              (layer_value h rt_env k (layer_value h (environ_entries h.environ) k none)))

Pointwise-append :
    (R : Text → Text → Type 0) (a b c d : List Text)
    → Pointwise R a b
    → Pointwise R c d
    → Pointwise R (a ++ c) (b ++ d)
Pointwise-append R [] [] c d p q = q
Pointwise-append R [] (y ∷ b) c d p q = absurd p
Pointwise-append R (x ∷ a) [] c d p q = absurd p
Pointwise-append R (x ∷ a) (y ∷ b) c d p q = (p.0, Pointwise-append R a b c d p.1 q)

ok_spec : {a b : CommandSpec} → ok a ≡ ok b → a ≡ b
ok_spec h = cc

fields-Parts :
    (h : Host) (model : Model) (runtime : Runtime) (args : List Text) (env : Dict Text)
    (spec : CommandSpec)
    → resolve_fields h model runtime args env ≡ ok spec
    → Parts h model runtime args env spec
unfolding resolve_fields
fields-Parts h model runtime args env spec e =
    let src = new_variable_source h.lookup_env h.data_dir in
    let (exe, got_exe, e1) = chain_ok _ _ e in
    let (wd, got_wd, e2) = chain_ok _ _ e1 in
    let (rt_env, got_rt, e3) = chain_ok _ _ e2 in
    let (model_args, got_args, e4) = chain_ok _ _ e3 in
    let (cust_args, got_cust, e5) = chain_ok _ _ e4 in
    let (model_env, got_menv, e6) = chain_ok _ _ e5 in
    let (cust_env, got_cenv, e7) = chain_ok _ _ e6 in
    subst (λ s. Parts h model runtime args env s) (ok_spec e7)
      (record {
        exe = exe;
        exe_resolved = field_cases runtime.executable (lit "runtime.executable") src exe got_exe;
        located = resolve_executable_path-IsLocated h exe wd;
        directory =
            field_cases runtime.working_directory (lit "runtime.working_directory") src wd got_wd;
        arguments =
            Pointwise-append (ResolvesTo src) model.args model_args args cust_args
              (resolve_args-Pointwise (lit "model.args") src model.args model_args got_args)
              (resolve_args-Pointwise (lit "custom.args") src args cust_args got_cust);
        rt_env = rt_env;
        model_env = model_env;
        cust_env = cust_env;
        rt_resolved =
            resolve_env_values-Pointwise (lit "runtime.environment") src runtime.environment rt_env
              got_rt;
        model_resolved =
            resolve_env_values-Pointwise (lit "model.environment") src model.environment model_env
              got_menv;
        cust_resolved =
            resolve_env_values-Pointwise (lit "custom.environment") src env cust_env got_cenv;
        variables = command_environment h rt_env model_env cust_env;
        printed = refl;
        layered = λ k. lookup-command_environment h rt_env model_env cust_env k;
      })

from_resolved :
    (r : Result CommandSpec) {spec : CommandSpec} → from_result r ≡ resolved spec → r ≡ ok spec
from_resolved (err e) h = cc
from_resolved (ok s) h = cc

-- A command that Resolve returns is made of the resolved fields: the executable is that of the
-- runtime, joined to the working directory just if it is relative and there is one; the arguments are
-- the model's and then the caller's, one by one; the environment prints a map in which a variable has
-- the value of the last of the resolved layers that sets it, in the order process environment,
-- runtime, model, caller; and the runtime names an executable.
pub resolve-Parts :
    (h : Host) (model : Model) (runtime : Runtime) (args : List Text) (env : Dict Text)
    {spec : CommandSpec}
    → resolve h (some model) (some runtime) args env ≡ resolved spec
    → Parts h model runtime args env spec × ((runtime.executable ==ᵗ []) ≡ false)
unfolding resolve
resolve-Parts h model runtime args env {spec} e = elim (Bool-cases (runtime.executable ==ᵗ [])) [
  | inl p ↦ absurd (ground arith)
  | inr p ↦ (fields-Parts h model runtime args env spec (from_resolved _ (rw p at e)), p)
]
