-- ===== src/Domain/VarResolve/Fields.antt =====
-- Resolution of argument lists and environments, element by element, and the combined source.
use goal_starter.Prelude.{
  ℕ, ◌+◌, ◌≡◌, refl, subst, ◌∙◌, false, some, List, [], ◌∷◌, ◌++◌, arith, Text, lit, itoa, lookup,
  Dict, contains, Pointwise, Bool-cases, inl, inr, if◌then◌else◌, ◌==ᵗ◌,
}
use goal_starter.Domain.VarResolve.{
  Source, Result, ok, err, dollar, ◌>>=◌, resolve_string, resolve_string_field, any_dollar,
  resolve_args_loop, resolve_args, any_value_dollar, resolve_env_loop, resolve_env_values,
  builtin_source, combined_source, new_variable_source,
}

abbrev pub ResolvesTo : Source → Text → Text → Type 0
ResolvesTo source a b = resolve_string a source ≡ ok b

-- Two entries of an environment: one key, and the second value is what the first resolves to.
abbrev pub ResolvesAt : Source → Text × Text → Text × Text → Type 0
ResolvesAt source a b = (a.0 ≡ b.0) × ResolvesTo source a.1 b.1

-- A chain that succeeds: its first part returned a value, on which the rest succeeded.
pub chain_ok :
    {A : Type 0} {B : Type 0} (first : Result A) (rest : A → Result B) {out : B}
    → (first >>= rest) ≡ ok out
    → (value : A) × (first ≡ ok value) × (rest value ≡ ok out)
chain_ok (err e) rest returned = cc
chain_ok (ok value) rest returned = (value, refl, returned)

ok_inj : {A : Type 0} {a b : A} → ok a ≡ ok b → a ≡ b
ok_inj h = cc

-- What a field resolves to, and with which field an error is reported.
pub field_cases :
    (raw field : Text) (source : Source) (out : Text)
    → resolve_string_field raw field source ≡ ok out
    → resolve_string raw source ≡ ok out
unfolding resolve_string_field
field_cases raw field source out h = ground arith

no_dollar : (raw : Text) (source : Source) → contains dollar raw ≡ false → ResolvesTo source raw raw
unfolding resolve_string
no_dollar raw source h = rw h

-- One element: resolved if it has a '$', else kept.
one_element :
    (raw field : Text) (source : Source) (out : Text)
    → (if contains dollar raw then resolve_string_field raw field source else ok raw) ≡ ok out
    → ResolvesTo source raw out
one_element raw field source out h = elim (Bool-cases (contains dollar raw)) [
  | inl e ↦ field_cases raw field source out (rw e at h)
  | inr e ↦ no_dollar raw source e ∙ (rw e at h)
]

module _ (prefix : Text) (source : Source) where
  args_loop-Pointwise :
      (i : ℕ) (args out : List Text)
      → resolve_args_loop prefix source i args ≡ ok out
      → Pointwise (ResolvesTo source) args out
  unfolding resolve_args_loop
  args_loop-Pointwise i [] [] h = tt
  args_loop-Pointwise i [] (b ∷ out) h = cc
  args_loop-Pointwise i (a ∷ args) out h =
      let (b, first, h') = chain_ok _ _ h in
      let (rest, others, e) = chain_ok _ _ h' in
      subst (λ (l : List Text). Pointwise (ResolvesTo source) (a ∷ args) l) {x = b ∷ rest}
        (ok_inj e)
        (
          one_element a (prefix ++ lit "[" ++ itoa i ++ lit "]") source b first,
          args_loop-Pointwise (i + 1) args rest others,
        )

  no_dollar-Pointwise :
      (args : List Text) → any_dollar args ≡ false → Pointwise (ResolvesTo source) args args
  unfolding any_dollar
  no_dollar-Pointwise [] h = tt
  no_dollar-Pointwise (a ∷ args) h =
      (no_dollar a source (ground arith), no_dollar-Pointwise args (ground arith))

  -- When ResolveArgs succeeds, the result is as long as the input and holds at each index what
  -- ResolveString makes of the argument there.
  pub resolve_args-Pointwise :
      (args out : List Text)
      → resolve_args args prefix source ≡ ok out
      → Pointwise (ResolvesTo source) args out
  unfolding resolve_args
  resolve_args-Pointwise args out h = elim (Bool-cases (any_dollar args)) [
    | inl e ↦ args_loop-Pointwise 0 args out (rw e at h)
    | inr e ↦
        subst (λ (l : List Text). Pointwise (ResolvesTo source) args l) (ok_inj (rw e at h))
          (no_dollar-Pointwise args e)
  ]

  env_loop-Pointwise :
      (env out : Dict Text)
      → resolve_env_loop prefix source env ≡ ok out
      → Pointwise (ResolvesAt source) env out
  unfolding resolve_env_loop
  env_loop-Pointwise [] [] h = tt
  env_loop-Pointwise [] (b ∷ out) h = cc
  env_loop-Pointwise ((k, v) ∷ env) out h =
      let (b, first, h') = chain_ok _ _ h in
      let (rest, others, e) = chain_ok _ _ h' in
      subst (λ (l : Dict Text). Pointwise (ResolvesAt source) ((k, v) ∷ env) l) {x = (k, b) ∷ rest}
        (ok_inj e)
        (
          (refl, one_element v (prefix ++ lit "." ++ k) source b first),
          env_loop-Pointwise env rest others,
        )

  no_dollar_env-Pointwise :
      (env : Dict Text) → any_value_dollar env ≡ false → Pointwise (ResolvesAt source) env env
  unfolding any_value_dollar
  no_dollar_env-Pointwise [] h = tt
  no_dollar_env-Pointwise ((k, v) ∷ env) h =
      ((refl, no_dollar v source (ground arith)), no_dollar_env-Pointwise env (ground arith))

  -- When ResolveEnvValues succeeds, the result has the same keys, and at each what ResolveString
  -- makes of the value there.
  pub resolve_env_values-Pointwise :
      (env out : Dict Text)
      → resolve_env_values env prefix source ≡ ok out
      → Pointwise (ResolvesAt source) env out
  unfolding resolve_env_values
  resolve_env_values-Pointwise env out h = elim (Bool-cases (any_value_dollar env)) [
    | inl e ↦ env_loop-Pointwise env out (rw e at h)
    | inr e ↦
        subst (λ (l : Dict Text). Pointwise (ResolvesAt source) env l) (ok_inj (rw e at h))
          (no_dollar_env-Pointwise env e)
  ]

-- With a data directory, GOAL_DATA is that directory whatever the environment holds, and any other
-- name is the environment's; with none the environment alone answers.
new_variable_source_lem :
    (env : Source) (data_dir name : Text)
    → new_variable_source env data_dir name ≡ (
        if data_dir ==ᵗ []
        then env name
        else if lit "GOAL_DATA" ==ᵗ name
        then some data_dir
        else env name)
unfolding new_variable_source combined_source builtin_source lookup ◌==ᵗ◌
new_variable_source_lem env data_dir name = elim (Bool-cases (data_dir ==ᵗ [])) [
  | inl e ↦ rw e
  | inr e ↦ rw e (elim (Bool-cases (lit "GOAL_DATA" ==ᵗ name)) [ inl p ↦ rw p | inr p ↦ rw p ])
]
