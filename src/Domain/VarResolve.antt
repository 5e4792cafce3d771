-- ===== src/Domain/VarResolve.antt =====
-- internal/domain/varresolve.go: ${NAME} substitution in launch fields.
-- A source is the function `Lookup`; `none` is its `false`. os.LookupEnv is the parameter `env`.
pub mod Loop
pub mod Template
pub mod Fields
use goal_starter.Prelude.{
  ℕ, zero, suc, ◌+◌, Bool, true, false, ◌&&◌, ◌||◌, not, Option, none, some, List, [], ◌∷◌, ◌++◌,
  Text, lit, contains, cut, itoa, length, Dict, lookup, leb, ◌==◌, ◌==ᵗ◌, if◌then◌else◌,
}

abbrev pub Source : Type 0
Source = Text → Option Text

-- UndefinedVariableError{Name, Field} and InvalidVariableReferenceError{Raw, Field};
-- `out_of_fuel` is no error of the code.
pub data VarError : Type 0 where
  undefined invalid : Text → Text → VarError
  out_of_fuel : VarError

pub data Result {ℓ} (A : Type ℓ) : Type ℓ where
  err : VarError → Result A
  ok : A → Result A

-- `if err != nil { return nil, err }`
infixl 5 ◌>>=◌
abbrev pub ◌>>=◌ {ℓ κ} :
    {A : Type ℓ} {B : Type κ} (first : Result A) (rest : A → Result B) → Result B
err e >>= rest = err e
ok value >>= rest = rest value

abbrev pub dollar : ℕ
dollar = 36

abbrev pub open_brace : ℕ
open_brace = 123

abbrev pub close_brace : ℕ
close_brace = 125

unfoldable pub is_letter : ℕ → Bool
is_letter c = (leb 65 c && leb c 90) || (leb 97 c && leb c 122) || (c == 95)

unfoldable pub is_word : ℕ → Bool
unfolding is_letter
is_word c = is_letter c || (leb 48 c && leb c 57)

unfoldable pub all_word : Text → Bool
unfolding is_word
all_word [] = true
all_word (c ∷ s) = is_word c && all_word s

-- The code walks runes: a rune outside ASCII and its bytes are refused alike.
unfoldable pub is_valid_var_name : Text → Bool
unfolding is_letter all_word
is_valid_var_name [] = false
is_valid_var_name (c ∷ s) = is_letter c && all_word s

-- The value that Lookup returned, or its refusal.
abbrev pub found : {A : Type 0} → Text → Option Text → (Text → Result A) → Result A
found name none use_value = err (undefined name [])
found name (some value) use_value = use_value value

-- The case raw[i:] = "${" + s: `rest` is the loop at the text behind the brace.
unfoldable pub reference : Source → Text → (Text → Text → Result Text) → Text → Result Text
reference source s rest out = elim (cut close_brace s) [
  | none ↦ err (invalid (dollar ∷ open_brace ∷ s) [])
  | some (name, behind) ↦
      if is_valid_var_name name
      then found name (source name) (λ value. rest behind (out ++ value))
      else err (invalid (dollar ∷ open_brace ∷ (name ++ close_brace ∷ [])) [])
]

-- The loop of ResolveString, over raw[i:] and what the builder holds.
unfoldable pub resolve_loop : Source → ℕ → Text → Text → Result Text
resolve_loop source fuel [] out = ok out
resolve_loop source zero (c ∷ s) out = err out_of_fuel
resolve_loop source (suc fuel) (c ∷ []) out = ok (out ++ c ∷ [])
resolve_loop source (suc fuel) (c ∷ d ∷ s) out =
    let plain = resolve_loop source fuel (d ∷ s) (out ++ c ∷ []) in
    let escaped = resolve_loop source fuel s (out ++ dollar ∷ []) in
    if c == dollar
    then (if d == dollar
        then escaped
        else if d == open_brace
        then reference source s (resolve_loop source fuel) out
        else plain)
    else plain

unfoldable pub resolve_string : Text → Source → Result Text
unfolding resolve_loop reference
resolve_string raw source =
    if contains dollar raw then resolve_loop source (length raw) raw [] else ok raw

-- The error with its Field set.
in_field : Text → VarError → VarError
in_field field (undefined name f) = undefined name field
in_field field (invalid raw f) = invalid raw field
in_field field out_of_fuel = out_of_fuel

unfoldable pub resolve_string_field : Text → Text → Source → Result Text
unfolding in_field
resolve_string_field raw field source = elim (resolve_string raw source) [
  | ok out ↦ ok out
  | err e ↦ err (in_field field e)
]

unfoldable pub any_dollar : List Text → Bool
any_dollar [] = false
any_dollar (a ∷ l) = contains dollar a || any_dollar l

-- The loop of ResolveArgs from index `i` on.
unfoldable pub resolve_args_loop : Text → Source → ℕ → List Text → Result (List Text)
resolve_args_loop prefix source i [] = ok []
resolve_args_loop prefix source i (a ∷ l) = do
  resolved ←
      if contains dollar a
      then resolve_string_field a (prefix ++ lit "[" ++ itoa i ++ lit "]") source
      else ok a
  others ← resolve_args_loop prefix source (i + 1) l
  ok (resolved ∷ others)

unfoldable pub resolve_args : List Text → Text → Source → Result (List Text)
unfolding any_dollar resolve_args_loop
resolve_args args prefix source =
    if any_dollar args then resolve_args_loop prefix source 0 args else ok args

unfoldable pub any_value_dollar : Dict Text → Bool
any_value_dollar [] = false
any_value_dollar ((k, v) ∷ m) = contains dollar v || any_value_dollar m

-- The loop of ResolveEnvValues, in the order in which the map is walked.
unfoldable pub resolve_env_loop : Text → Source → Dict Text → Result (Dict Text)
resolve_env_loop prefix source [] = ok []
resolve_env_loop prefix source ((k, v) ∷ m) = do
  resolved ←
      if contains dollar v then resolve_string_field v (prefix ++ lit "." ++ k) source else ok v
  others ← resolve_env_loop prefix source m
  ok ((k, resolved) ∷ others)

unfoldable pub resolve_env_values : Dict Text → Text → Source → Result (Dict Text)
unfolding any_value_dollar resolve_env_loop
resolve_env_values env prefix source =
    if any_value_dollar env then resolve_env_loop prefix source env else ok env

unfoldable pub builtin_source : Dict Text → Source
builtin_source vars name = lookup name vars

unfoldable pub combined_source : Source → Source → Source
combined_source primary secondary name = elim (primary name) [
  | some v ↦ some v
  | none ↦ secondary name
]

unfoldable pub new_variable_source : Source → Text → Source
unfolding builtin_source combined_source
new_variable_source env data_dir =
    if data_dir ==ᵗ []
    then env
    else combined_source (builtin_source ((lit "GOAL_DATA", data_dir) ∷ [])) env
