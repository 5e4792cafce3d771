-- ===== src/Prelude/Strings.antt =====
-- A Go string is its bytes.
use Prim.Native.Nat.{ℕ, zero, suc, ◌+◌, ◌/◌, ◌%◌}
use Prim.Native.Char.{code}
use Prim.Native.String.{String}
use mathlib.Core.Path.{◌≡◌, refl}
use mathlib.Core.Logic.{◌↔◌}
use mathlib.Core.Bool.{Bool, true, false, ◌&&◌, ◌||◌}
use mathlib.Core.Option
use mathlib.Core.Option.{Option, none, some}
use mathlib.Core.List.{List, [], ◌∷◌}
use native.Mathlib.Omega.{arith}
use goal_starter.Prelude.Tests.{◌==◌, ltb, if◌then◌else◌}

abbrev pub Text : Type 0
Text = List ℕ

-- A literal of ASCII characters.
abbrev pub lit : String → Text
lit String.[] = []
lit (String.◌∷◌ c s) = code c ∷ lit s

-- `a == b` on Go strings.
infix 50 ◌==ᵗ◌
unfoldable pub ◌==ᵗ◌ : Text → Text → Bool
[] ==ᵗ [] = true
[] ==ᵗ (b ∷ t) = false
(a ∷ s) ==ᵗ [] = false
(a ∷ s) ==ᵗ (b ∷ t) = (a == b) && (s ==ᵗ t)

pub text_eq_sound : (a b : Text) → (a ==ᵗ b) ≡ true → a ≡ b
unfolding ◌==ᵗ◌
text_eq_sound [] [] h = refl
text_eq_sound [] (y ∷ b) h = cc
text_eq_sound (x ∷ a) [] h = cc
text_eq_sound (x ∷ a) (y ∷ b) h = ground (arith, text_eq_sound a b)

pub text_eq_refl : (a : Text) → (a ==ᵗ a) ≡ true
unfolding ◌==ᵗ◌
text_eq_refl [] = refl
text_eq_refl (x ∷ a) = ground (arith, text_eq_refl a)

pub text_eq_iff : (a b : Text) → ((a ==ᵗ b) ≡ true) ↔ (a ≡ b)
text_eq_iff a b = (text_eq_sound a b, λ e. rw e (text_eq_refl b))

-- strings.ContainsRune(s, c) and strings.IndexByte(s, c) != -1, for an ASCII character c
unfoldable pub contains : ℕ → Text → Bool
contains c [] = false
contains c (x ∷ s) = (x == c) || contains c s

-- The text before the first `c` and the text behind it: s[:i] and s[i+1:] for i = IndexByte(s, c).
unfoldable pub cut : ℕ → Text → Option (Text × Text)
cut c [] = none
cut c (x ∷ s) =
    let rest = Option.map (λ (p : Text × Text). (x ∷ p.0, p.1)) (cut c s) in
    if x == c then some ([], s) else rest

-- strconv.Itoa on the digits left, with the digits already found; the fuel bounds the digits.
itoa_digits : ℕ → ℕ → Text → Text
itoa_digits zero n out = out
itoa_digits (suc fuel) n out =
    let rest = itoa_digits fuel (n / 10) ((48 + n % 10) ∷ out) in
    if ltb n 10 then (48 + n) ∷ out else rest

unfoldable pub itoa : ℕ → Text
unfolding itoa_digits
itoa n = itoa_digits (n + 1) n []
