-- ===== src/Process/Logs/Order.antt =====
-- The order in which aggregated log entries are returned.
use goal_starter.Prelude.{
  ℕ, ◌≡◌, ◌↔◌, refl, Bool, true, false, not, [], ◌∷◌, arith, Text, ltb, ◌==◌, ◌==ᵗ◌, text_eq_iff,
  text_eq_refl, if◌then◌else◌,
}
use goal_starter.Process.Logs.{AggregatedLogEntry, text_lt, entry_before}

text_lt-irreflexive : (a : Text) → text_lt a a ≡ false
unfolding text_lt
text_lt-irreflexive [] = refl
text_lt-irreflexive (x ∷ a) = ground (arith, text_lt-irreflexive a)

text_lt-asymmetric : (a b : Text) → text_lt a b ≡ true → text_lt b a ≡ false
unfolding text_lt
text_lt-asymmetric [] [] h = refl
text_lt-asymmetric [] (y ∷ b) h = refl
text_lt-asymmetric (x ∷ a) [] h = absurd (ground arith)
text_lt-asymmetric (x ∷ a) (y ∷ b) h = ground (arith, text_lt-asymmetric a b)

text_lt_trans : (a b c : Text) → text_lt a b ≡ true → text_lt b c ≡ true → text_lt a c ≡ true
unfolding text_lt
text_lt_trans [] [] c h k = k
text_lt_trans [] (y ∷ b) [] h k = absurd (ground arith)
text_lt_trans [] (y ∷ b) (z ∷ c) h k = refl
text_lt_trans (x ∷ a) [] c h k = absurd (ground arith)
text_lt_trans (x ∷ a) (y ∷ b) [] h k = absurd (ground arith)
text_lt_trans (x ∷ a) (y ∷ b) (z ∷ c) h k = ground (arith, text_lt_trans a b c)

text_lt-total : (a b : Text) → text_lt a b ≡ false → text_lt b a ≡ false → a ≡ b
unfolding text_lt
text_lt-total [] [] h k = refl
text_lt-total [] (y ∷ b) h k = absurd (ground arith)
text_lt-total (x ∷ a) [] h k = absurd (ground arith)
text_lt-total (x ∷ a) (y ∷ b) h k =
    let same : x ≡ y = ground arith in
    let rest : a ≡ b = text_lt-total a b (ground (arith, same)) (ground (arith, same)) in
    rw (same, rest) refl

-- One level of a comparison: by these keys, or by what follows if they are equal.
module _ {K : Type 0} (eq lt : K → K → Bool) where
  abbrev step : K → K → Bool → Bool
  step x y p = if not (eq x y) then lt x y else p

  module _ (eq_iff : (x y : K) → (eq x y ≡ true) ↔ (x ≡ y))
      (lt_trans : (x y z : K) → lt x y ≡ true → lt y z ≡ true → lt x z ≡ true)
      (lt_irreflexive : (x : K) → lt x x ≡ false)
      (lt_total : (x y : K) → lt x y ≡ false → lt y x ≡ false → x ≡ y) where
    step_trans :
        (x y z : K) (p q r : Bool)
        → (p ≡ true → q ≡ true → r ≡ true)
        → step x y p ≡ true
        → step y z q ≡ true
        → step x z r ≡ true
    step_trans x y z p q r f h k = grind (
      arith,
      eq_iff x y,
      eq_iff y z,
      eq_iff x z,
      lt_trans x y z,
      lt_irreflexive x,
      lt_irreflexive y,
      lt_irreflexive z,
    )

    step-total :
        (x y : K) (p q : Bool)
        → step x y p ≡ false
        → step y x q ≡ false
        → (x ≡ y) × (p ≡ false) × (q ≡ false)
    step-total x y p q h k = ground (arith, eq_iff x y, eq_iff y x, lt_total x y)

text_trans :
    (x y z : Text) (p q r : Bool)
    → (p ≡ true → q ≡ true → r ≡ true)
    → step ◌==ᵗ◌ text_lt x y p ≡ true
    → step ◌==ᵗ◌ text_lt y z q ≡ true
    → step ◌==ᵗ◌ text_lt x z r ≡ true
text_trans = step_trans ◌==ᵗ◌ text_lt text_eq_iff text_lt_trans text_lt-irreflexive text_lt-total

text_total :
    (x y : Text) (p q : Bool)
    → step ◌==ᵗ◌ text_lt x y p ≡ false
    → step ◌==ᵗ◌ text_lt y x q ≡ false
    → (x ≡ y) × (p ≡ false) × (q ≡ false)
text_total = step-total ◌==ᵗ◌ text_lt text_eq_iff text_lt_trans text_lt-irreflexive text_lt-total

-- The larger number is first.
abbrev larger : ℕ → ℕ → Bool
larger x y = ltb y x

number_trans :
    (x y z : ℕ) (p q r : Bool)
    → (p ≡ true → q ≡ true → r ≡ true)
    → step ◌==◌ larger x y p ≡ true
    → step ◌==◌ larger y z q ≡ true
    → step ◌==◌ larger x z r ≡ true
number_trans x y z p q r f h k = ground arith

number_total :
    (x y : ℕ) (p q : Bool)
    → step ◌==◌ larger x y p ≡ false
    → step ◌==◌ larger y x q ≡ false
    → (x ≡ y) × (p ≡ false) × (q ≡ false)
number_total x y p q h k = ground arith

before-irreflexive : (a : AggregatedLogEntry) → entry_before a a ≡ false
unfolding entry_before
before-irreflexive a =
    let t : (a.timestamp == a.timestamp) ≡ true = ground arith in
    let n : (a.sequence == a.sequence) ≡ true = ground arith in
    rw (t, text_eq_refl a.instance_id, n, text_eq_refl a.stream) (text_lt-irreflexive a.message)

-- The comparison behind each key.
abbrev by_message : AggregatedLogEntry → AggregatedLogEntry → Bool
by_message a b = text_lt a.message b.message

abbrev by_stream : AggregatedLogEntry → AggregatedLogEntry → Bool
by_stream a b = step ◌==ᵗ◌ text_lt a.stream b.stream (by_message a b)

abbrev by_number : AggregatedLogEntry → AggregatedLogEntry → Bool
by_number a b = step ◌==◌ larger a.sequence b.sequence (by_stream a b)

abbrev by_instance : AggregatedLogEntry → AggregatedLogEntry → Bool
by_instance a b = step ◌==ᵗ◌ text_lt a.instance_id b.instance_id (by_number a b)

before_trans :
    (a b c : AggregatedLogEntry)
    → entry_before a b ≡ true
    → entry_before b c ≡ true
    → entry_before a c ≡ true
unfolding entry_before
before_trans a b c =
    number_trans a.timestamp b.timestamp c.timestamp (by_instance a b) (by_instance b c)
      (by_instance a c)
      (text_trans a.instance_id b.instance_id c.instance_id (by_number a b) (by_number b c)
        (by_number a c)
        (number_trans a.sequence b.sequence c.sequence (by_stream a b) (by_stream b c)
          (by_stream a c)
          (text_trans a.stream b.stream c.stream (by_message a b) (by_message b c) (by_message a c)
            (text_lt_trans a.message b.message c.message))))

before-total :
    (a b : AggregatedLogEntry) → entry_before a b ≡ false → entry_before b a ≡ false → a ≡ b
unfolding entry_before
before-total a b h k =
    let (times, h1, k1) =
      number_total a.timestamp b.timestamp (by_instance a b) (by_instance b a) h k in
    let (ids, h2, k2) =
      text_total a.instance_id b.instance_id (by_number a b) (by_number b a) h1 k1 in
    let (numbers, h3, k3) =
      number_total a.sequence b.sequence (by_stream a b) (by_stream b a) h2 k2 in
    let (streams, h4, k4) = text_total a.stream b.stream (by_message a b) (by_message b a) h3 k3 in
    let messages = text_lt-total a.message b.message h4 k4 in
    λ i. record {
      sequence = numbers i;
      instance_id = ids i;
      timestamp = times i;
      stream = streams i;
      message = messages i;
    }

-- The comparison of aggregated entries is a strict total order: no entry is before itself, it is
-- transitive, and two entries with neither before the other are the same entry.
pub entry_before_lem :
    (a b c : AggregatedLogEntry)
    → (entry_before a a ≡ false)
      × (entry_before a b ≡ true → entry_before b c ≡ true → entry_before a c ≡ true)
      × (entry_before a b ≡ false → entry_before b a ≡ false → a ≡ b)
entry_before_lem a b c = (before-irreflexive a, before_trans a b c, before-total a b)
