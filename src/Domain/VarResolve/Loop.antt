-- ===== src/Domain/VarResolve/Loop.antt =====
-- The loop of ResolveString step by step: it ends, and its fast path changes nothing.
use goal_starter.Prelude.{
  ℕ, zero, suc, ◌≤◌, ◌≡◌, ◌≢◌, refl, ap, sym, Bool, true, false, some, [], ◌∷◌, ◌++◌, arith, Text,
  contains, cut, length, Bool-cases, ◌∙◌, inl, inr, Option-cases, if◌then◌else◌, ◌==◌,
}
use mathlib.Core.List.{append-nil, append_assoc}
use goal_starter.Domain.VarResolve.{
  Source, Result, ok, err, out_of_fuel, dollar, open_brace, close_brace, is_valid_var_name,
  reference, resolve_loop, resolve_string,
}

pub length-cut : (c : ℕ) (s name rest : Text) → cut c s ≡ some (name, rest) → length rest ≤ length s
unfolding cut
length-cut c [] name rest h = cc
length-cut c (x ∷ s) name rest h = elim (Option-cases (cut c s)) [
  | inl e ↦ ground arith
  | inr (p, e) ↦ ground (arith, length-cut c s p.0 p.1)
]

module _ (source : Source) (fuel : ℕ) where
  pub loop_plain :
      (c : ℕ) (s out : Text)
      → c ≢ dollar
      → resolve_loop source (suc fuel) (c ∷ s) out ≡ resolve_loop source fuel s (out ++ c ∷ [])
  unfolding resolve_loop
  loop_plain c [] out h = refl
  loop_plain c (d ∷ s) out h = ground arith

  pub loop_escape :
      (s out : Text)
      → resolve_loop source (suc fuel) (dollar ∷ dollar ∷ s) out
        ≡ resolve_loop source fuel s (out ++ dollar ∷ [])
  unfolding resolve_loop
  loop_escape s out = refl

  pub loop_reference :
      (s out : Text)
      → resolve_loop source (suc fuel) (dollar ∷ open_brace ∷ s) out
        ≡ reference source s (resolve_loop source fuel) out
  unfolding resolve_loop
  loop_reference s out = refl

-- Text without '$' is copied.
pub loop_no_dollar :
    (source : Source) (s out : Text)
    → contains dollar s ≡ false
    → resolve_loop source (length s) s out ≡ ok (out ++ s)
unfolding contains resolve_loop
loop_no_dollar source [] out h = rw append-nil
loop_no_dollar source (c ∷ s) out h = elim (Bool-cases (c == dollar)) [
  | inl e ↦ ground arith
  | inr e ↦
      rw (loop_plain source (length s) c s out (ground arith)) (
        loop_no_dollar source s (out ++ c ∷ []) (ground arith)
        ∙ ap ok (append_assoc out (c ∷ []) s))
]

-- The fast path of ResolveString is an optimisation: the loop alone gives the same result.
pub resolve_string-eq-loop :
    (raw : Text) (source : Source)
    → resolve_string raw source ≡ resolve_loop source (length raw) raw []
unfolding resolve_string
resolve_string-eq-loop raw source = elim (Bool-cases (contains dollar raw)) [
  | inl e ↦ rw e
  | inr e ↦ rw (e, loop_no_dollar source raw [] e)
]

reference-ne-out_of_fuel :
    (source : Source) (s : Text) (rest : Text → Text → Result Text) (out : Text)
    → ((t o : Text) → length t ≤ length s → rest t o ≢ err out_of_fuel)
    → reference source s rest out ≢ err out_of_fuel
unfolding reference
reference-ne-out_of_fuel source s rest out h = elim (Option-cases (cut close_brace s)) [
  | inl e ↦ rw (e, reference) (λ p. cc)
  | inr ((name, t), e) ↦ elim (Bool-cases (is_valid_var_name name)) [
    | inl v ↦ elim (Option-cases (source name)) [
      | inl u ↦ rw (e, reference, v, u) (λ p. cc)
      | inr (value, u) ↦
          rw (e, reference, v, u) (h t (out ++ value) (length-cut close_brace s name t e))
    ]
    | inr v ↦ rw (e, reference, v) (λ p. cc)
  ]
]

branches_ne :
    (a b c : Bool) {x p q r : Result Text}
    → p ≢ x
    → q ≢ x
    → r ≢ x
    → (if a then (if b then q else if c then r else p) else p) ≢ x
branches_ne true true c hp hq hr = hq
branches_ne true false true hp hq hr = hr
branches_ne true false false hp hq hr = hp
branches_ne false b c hp hq hr = hp

-- With fuel for every byte the loop never runs out.
pub loop-ne-out_of_fuel :
    (source : Source) (fuel : ℕ) (s out : Text)
    → length s ≤ fuel
    → resolve_loop source fuel s out ≢ err out_of_fuel
unfolding resolve_loop
loop-ne-out_of_fuel source zero [] out h e = cc
loop-ne-out_of_fuel source zero (c ∷ s) out h e = omega arith
loop-ne-out_of_fuel source (suc fuel) [] out h e = cc
loop-ne-out_of_fuel source (suc fuel) (c ∷ []) out h e = cc
loop-ne-out_of_fuel source (suc fuel) (c ∷ d ∷ s) out h e =
    let plain = loop-ne-out_of_fuel source fuel (d ∷ s) (out ++ c ∷ []) (omega arith) in
    let escaped = loop-ne-out_of_fuel source fuel s (out ++ dollar ∷ []) (omega arith) in
    let named =
      reference-ne-out_of_fuel source s (resolve_loop source fuel) out
        (λ t o le. loop-ne-out_of_fuel source fuel t o (omega arith)) in
    branches_ne (c == dollar) (d == dollar) (d == open_brace) plain escaped named e

-- ResolveString returns on every text and source: its loop always comes to an end of the text or to
-- one of the code's two errors.
pub resolve_string-ne-out_of_fuel :
    (raw : Text) (source : Source) → resolve_string raw source ≢ err out_of_fuel
resolve_string-ne-out_of_fuel raw source e =
    loop-ne-out_of_fuel source (length raw) raw [] (omega arith)
      (sym (resolve_string-eq-loop raw source) ∙ e)
