-- ===== src/Prelude/Selects.antt =====
-- Selections from one list by several tests.
use mathlib.Core.Path.{◌≡◌, refl, ap, sym, ◌∙◌}
use mathlib.Core.Logic.{inl, inr}
use mathlib.Core.Bool.{Bool, true, false, ◌&&◌, ◌||◌}
use mathlib.Core.List.{List, [], ◌∷◌, ◌++◌, map, Perm, perm_middle}
use mathlib.Core.List.Perm
use native.Mathlib.Omega.{arith}
use goal_starter.Prelude.Tests.{Bool-cases, if◌then◌else◌}
use goal_starter.Prelude.Lists.{select}

module _ {A B : Type 0} (f : A → B) where
  -- The images of the elements that pass a test.
  abbrev pub chosen : (A → Bool) → List A → List B
  chosen p xs = map f (select p xs)

  pub chosen-ext :
      (p q : A → Bool) (xs : List A) → ((x : A) → p x ≡ q x) → chosen p xs ≡ chosen q xs
  unfolding select
  chosen-ext p q [] h = refl
  chosen-ext p q (x ∷ xs) h = elim (Bool-cases (q x)) [
    | inl e ↦ rw (h x, e) (ap (λ l. f x ∷ l) (chosen-ext p q xs h))
    | inr e ↦ rw (h x, e) (chosen-ext p q xs h)
  ]

  pub chosen-none : (xs : List A) → chosen (λ x. false) xs ≡ []
  unfolding select
  chosen-none [] = refl
  chosen-none (x ∷ xs) = chosen-none xs

  pub chosen-when :
      (b : Bool) (p : A → Bool) (xs : List A)
      → (if b then chosen p xs else []) ≡ chosen (λ x. p x && b) xs
  chosen-when true p xs = chosen-ext p (λ x. p x && true) xs (λ x. ground arith)
  chosen-when false p xs =
      sym (chosen-ext (λ x. p x && false) (λ x. false) xs (λ x. ground arith) ∙ chosen-none xs)

  -- Two tests that no element passes both choose what their disjunction chooses.
  pub chosen-or :
      (p q : A → Bool) (xs : List A)
      → ((x : A) → (p x && q x) ≡ false)
      → Perm (chosen p xs ++ chosen q xs) (chosen (λ x. p x || q x) xs)
  unfolding select
  chosen-or p q [] h = Perm.nil
  chosen-or p q (x ∷ xs) h = elim (Bool-cases (p x)) [
    | inl e ↦
        let n : q x ≡ false = ground (arith, h x) in
        rw (e, n) (Perm.cons (f x) (chosen-or p q xs h))
    | inr e ↦ elim (Bool-cases (q x)) [
      | inl n ↦
          rw (e, n)
            (Perm.trans (perm_middle (chosen p xs) (chosen q xs))
              (Perm.cons (f x) (chosen-or p q xs h)))
      | inr n ↦ rw (e, n) (chosen-or p q xs h)
    ]
  ]
