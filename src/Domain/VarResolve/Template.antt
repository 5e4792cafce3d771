-- ===== src/Domain/VarResolve/Template.antt =====
-- What ResolveString does to a template: text, escapes `$$` and references `${NAME}`, each once and
-- from left to right, with no second look at what was substituted.
use goal_starter.Prelude.{
  ℕ, zero, suc, ◌≤◌, ◌≡◌, ◌≢◌, refl, ap, ◌∙◌, sym, true, false, Option, none, some, List, [], ◌∷◌,
  ◌++◌, arith, Text, cut, length, length-append, Bool-cases, All, inl, inr, if◌then◌else◌, ==_iff,
  ◌==◌,
}
use mathlib.Core.List.{append_assoc, append-nil}
use goal_starter.Domain.VarResolve.{
  Source, Result, ok, err, invalid, dollar, open_brace, close_brace, found, is_letter, is_word,
  all_word, is_valid_var_name, reference, resolve_loop, resolve_string,
}
use goal_starter.Domain.VarResolve.Loop.{
  loop_plain, loop_escape, loop_reference, resolve_string-eq-loop,
}

pub data Token : Type 0 where
  plain : ℕ → Token
  escaped_dollar : Token
  ref : Text → Token

abbrev pub IsToken : Token → Type 0
IsToken (plain c) = c ≢ dollar
IsToken escaped_dollar = Unit
IsToken (ref name) = is_valid_var_name name ≡ true

-- The template's text.
unfoldable pub print : List Token → Text
print [] = []
print (plain c ∷ ts) = c ∷ print ts
print (escaped_dollar ∷ ts) = dollar ∷ dollar ∷ print ts
print (ref name ∷ ts) = dollar ∷ open_brace ∷ (name ++ close_brace ∷ print ts)

-- Its meaning, after `out`: the first undefined reference is the error.
unfoldable pub eval : Source → List Token → Text → Result Text
eval source [] out = ok out
eval source (plain c ∷ ts) out = eval source ts (out ++ c ∷ [])
eval source (escaped_dollar ∷ ts) out = eval source ts (out ++ dollar ∷ [])
eval source (ref name ∷ ts) out = found name (source name) (λ value. eval source ts (out ++ value))

found_cong :
    (name : Text) (o : Option Text) (f g : Text → Result Text)
    → ((value : Text) → f value ≡ g value)
    → found name o f ≡ found name o g
found_cong name none f g h = refl
found_cong name (some value) f g h = h value

found_ok :
    (name : Text) {r : Text} (o : Option Text) {f : Text → Result Text} {g : Text → Result Text}
    {x : Result Text}
    → found name o f ≡ ok r
    → ((value : Text) → f value ≡ ok r → g value ≡ x)
    → found name o g ≡ x
found_ok name none h k = cc
found_ok name (some value) h k = k value h

word-ne-close_brace : (c : ℕ) → is_word c ≡ true → (c == close_brace) ≡ false
unfolding is_word is_letter
word-ne-close_brace c h = ground arith

cut_word :
    (name rest : Text)
    → all_word name ≡ true
    → cut close_brace (name ++ close_brace ∷ rest) ≡ some (name, rest)
unfolding cut all_word
cut_word [] rest h = refl
cut_word (c ∷ name) rest h = ground (arith, cut_word name rest, word-ne-close_brace c)

all_word_of_valid : (name : Text) → is_valid_var_name name ≡ true → all_word name ≡ true
unfolding is_valid_var_name all_word is_word
all_word_of_valid [] h = cc
all_word_of_valid (c ∷ name) h = ground arith

-- A reference to a valid name, whatever follows it.
pub reference_lem :
    (source : Source) (name rest out : Text) (continue_with : Text → Text → Result Text)
    → is_valid_var_name name ≡ true
    → reference source (name ++ close_brace ∷ rest) continue_with out
      ≡ found name (source name) (λ value. continue_with rest (out ++ value))
unfolding reference
reference_lem source name rest out k v =
    rw (cut_word name rest (all_word_of_valid name v), reference, v)

module _ (source : Source) where
  pub loop-print :
      (ts : List Token) (fuel : ℕ) (out : Text)
      → All IsToken ts
      → length (print ts) ≤ fuel
      → resolve_loop source fuel (print ts) out ≡ eval source ts out
  unfolding print eval resolve_loop
  loop-print [] fuel out h le = refl
  loop-print (plain c ∷ ts) zero out h le = absurd (omega arith)
  loop-print (escaped_dollar ∷ ts) zero out h le = absurd (omega arith)
  loop-print (ref name ∷ ts) zero out h le = absurd (omega arith)
  loop-print (plain c ∷ ts) (suc fuel) out h le =
      loop_plain source fuel c (print ts) out h.0
      ∙ loop-print ts fuel (out ++ c ∷ []) h.1 (omega arith)
  loop-print (escaped_dollar ∷ ts) (suc fuel) out h le =
      loop_escape source fuel (print ts) out
      ∙ loop-print ts fuel (out ++ dollar ∷ []) h.1 (omega arith)
  loop-print (ref name ∷ ts) (suc fuel) out h le =
      loop_reference source fuel (name ++ close_brace ∷ print ts) out
      ∙ reference_lem source name (print ts) out (resolve_loop source fuel) h.0
      ∙ found_cong name (source name) _ _ (λ value.
        loop-print ts fuel (out ++ value) h.1
          (omega (arith, length-append name (close_brace ∷ print ts))))

  -- A template of plain bytes, `$$` and references to valid names resolves to its meaning: bytes
  -- are copied, `$$` becomes `$`, each reference becomes its value, which is not read again, and the
  -- first name that the source does not know is the error.
  pub resolve_string-print :
      (ts : List Token) → All IsToken ts → resolve_string (print ts) source ≡ eval source ts []
  resolve_string-print ts h =
      resolve_string-eq-loop (print ts) source
      ∙ loop-print ts (length (print ts)) [] h (omega arith)

  loop-print-unterminated :
      (ts : List Token) (fuel : ℕ) (s out out' : Text)
      → All IsToken ts
      → eval source ts out ≡ ok out'
      → cut close_brace s ≡ none
      → length (print ts ++ dollar ∷ open_brace ∷ s) ≤ fuel
      → resolve_loop source fuel (print ts ++ dollar ∷ open_brace ∷ s) out
        ≡ err (invalid (dollar ∷ open_brace ∷ s) [])
  unfolding print eval reference
  loop-print-unterminated [] zero s out out' h e u le = absurd (omega arith)
  loop-print-unterminated [] (suc fuel) s out out' h e u le =
      loop_reference source fuel s out ∙ rw (u, reference) refl
  loop-print-unterminated (plain c ∷ ts) zero s out out' h e u le = absurd (omega arith)
  loop-print-unterminated (escaped_dollar ∷ ts) zero s out out' h e u le = absurd (omega arith)
  loop-print-unterminated (ref name ∷ ts) zero s out out' h e u le = absurd (omega arith)
  loop-print-unterminated (plain c ∷ ts) (suc fuel) s out out' h e u le =
      loop_plain source fuel c (print ts ++ dollar ∷ open_brace ∷ s) out h.0
      ∙ loop-print-unterminated ts fuel s (out ++ c ∷ []) out' h.1 e u (omega arith)
  loop-print-unterminated (escaped_dollar ∷ ts) (suc fuel) s out out' h e u le =
      loop_escape source fuel (print ts ++ dollar ∷ open_brace ∷ s) out
      ∙ loop-print-unterminated ts fuel s (out ++ dollar ∷ []) out' h.1 e u (omega arith)
  loop-print-unterminated (ref name ∷ ts) (suc fuel) s out out' h e u le =
      let tail = dollar ∷ open_brace ∷ s in
      rw (append_assoc name (close_brace ∷ print ts) tail) (
        loop_reference source fuel (name ++ close_brace ∷ (print ts ++ tail)) out
        ∙ reference_lem source name (print ts ++ tail) out (resolve_loop source fuel) h.0
        ∙ found_ok name (source name) e (λ value e'.
          loop-print-unterminated ts fuel s (out ++ value) out' h.1 e' u (
            omega (
              arith,
              length-append name (close_brace ∷ (print ts ++ tail)),
              ap length (append_assoc name (close_brace ∷ print ts) tail),
            ))))

  -- A "${" with no brace behind it is reported with the text from it on, when what stands before it
  -- is a template that resolves.
  resolve_string-unterminated :
      (ts : List Token) (s out : Text)
      → All IsToken ts
      → eval source ts [] ≡ ok out
      → cut close_brace s ≡ none
      → resolve_string (print ts ++ dollar ∷ open_brace ∷ s) source
        ≡ err (invalid (dollar ∷ open_brace ∷ s) [])
  resolve_string-unterminated ts s out h e u =
      let raw = print ts ++ dollar ∷ open_brace ∷ s in
      resolve_string-eq-loop raw source
      ∙ loop-print-unterminated ts (length raw) s [] out h e u (omega arith)

-- The text with every '$' doubled.
unfoldable pub escape : Text → List Token
escape [] = []
escape (c ∷ s) = (if c == dollar then escaped_dollar else plain c) ∷ escape s

escape-IsToken : (s : Text) → All IsToken (escape s)
unfolding escape
escape-IsToken [] = tt
escape-IsToken (c ∷ s) = elim (Bool-cases (c == dollar)) [
  | inl e ↦ rw e (tt, escape-IsToken s)
  | inr e ↦ rw e ((λ p. ground arith), escape-IsToken s)
]

append_assoc_ok : (out s : Text) {c d : ℕ} → c ≡ d → ok (out ++ d ∷ [] ++ s) ≡ ok (out ++ c ∷ s)
append_assoc_ok out s {c} {d} e =
    ap ok (append_assoc out (d ∷ []) s ∙ ap (λ x. out ++ x ∷ s) (sym e))

eval-escape : (source : Source) (s out : Text) → eval source (escape s) out ≡ ok (out ++ s)
unfolding escape eval
eval-escape source [] out = rw append-nil
eval-escape source (c ∷ s) out = elim (Bool-cases (c == dollar)) [
  | inl e ↦
      rw e
        (eval-escape source s (out ++ dollar ∷ []) ∙ append_assoc_ok out s ((==_iff c dollar).0 e))
  | inr e ↦ rw e (eval-escape source s (out ++ c ∷ []) ∙ ap ok (append_assoc out (c ∷ []) s))
]

-- Any text survives resolution once its '$' are doubled, whatever the source holds.
resolve_string-escape :
    (source : Source) (s : Text) → resolve_string (print (escape s)) source ≡ ok s
resolve_string-escape source s =
    resolve_string-print source (escape s) (escape-IsToken s) ∙ eval-escape source s []
