-- ===== src/Process/Logs/Retained.antt =====
-- The events that a log store keeps, against the whole log.
use mathlib.Core.List.{append-nil, append_assoc}
use goal_starter.Prelude.{
  ℕ, zero, suc, ◌+◌, ◌-◌, ◌%◌, ◌^◌, ◌≤◌, ◌≡◌, refl, ap, sym, ◌∙◌, Bool-cases, inl, inr, List, [],
  ◌∷◌, ◌++◌, arith, ℤ, pos, negsuc, length, length-append, length-drop, drop, drop-nil, drop-drop,
  drop-append, ltb, if◌then◌else◌,
}
use goal_starter.Process.Logs.{LogEvent, LogStore, new_log_store, add, count}

pub add_all : List LogEvent → LogStore → LogStore
add_all [] s = s
add_all (e ∷ es) s = add_all es (add e s)

-- The whole log: the events in order, each with the number after that of the one before.
pub stamped : ℕ → List LogEvent → List LogEvent
stamped n [] = []
stamped n (e ∷ es) = record e { sequence = (n + 1) % 2 ^ 64 } ∷ stamped ((n + 1) % 2 ^ 64) es

-- The last `n` of a list, or all of it.
abbrev pub last {ℓ} : {A : Type ℓ} → ℕ → List A → List A
last n l = drop (length l - n) l

last-snoc :
    (m : ℕ) (all : List LogEvent) (e : LogEvent)
    → let k = last m all ++ e ∷ [] in
      (if ltb m (length k) then drop (length k - m) k else k) ≡ last m (all ++ e ∷ [])
last-snoc m all e =
    let k = last m all ++ e ∷ [] in
    let n = length all - m in
    let inside : n ≤ length all = omega arith in
    let long : length k ≡ (length all - n) + 1 =
      omega (arith, length-append (last m all) (e ∷ []), length-drop n all) in
    let longer : length (all ++ e ∷ []) ≡ length all + 1 =
      omega (arith, length-append all (e ∷ [])) in
    let joined : k ≡ drop n (all ++ e ∷ []) = sym (drop-append n all (e ∷ []) inside) in
    elim (Bool-cases (ltb m (length k))) [
      | inl full ↦
          let d : n + (length k - m) ≡ length (all ++ e ∷ []) - m = ground (arith, long, longer) in
          rw full (
            ap (drop (length k - m)) joined
            ∙ drop-drop (length k - m) n (all ++ e ∷ [])
            ∙ ap (λ (i : ℕ). drop i (all ++ e ∷ [])) d)
      | inr free ↦
          let d : n ≡ length (all ++ e ∷ []) - m = ground (arith, long, longer) in
          rw free (joined ∙ ap (λ (i : ℕ). drop i (all ++ e ∷ [])) d)
    ]

-- The store holds the end of the log so far.
record Holds (all : List LogEvent) (n : ℕ) (s : LogStore) : Type 0 where
  held : s.events ≡ last s.max_size all
  number : s.sequence ≡ n

add-Holds :
    (all : List LogEvent) (n : ℕ) (e : LogEvent) (s : LogStore)
    → Holds all n s
    → Holds (all ++ record e { sequence = (n + 1) % 2 ^ 64 } ∷ []) ((n + 1) % 2 ^ 64) (add e s)
unfolding add
add-Holds all n e s h = record {
  held =
      simp (h.held, h.number) (last-snoc s.max_size all (record e { sequence = (n + 1) % 2 ^ 64 }));
  number = ap (λ (k : ℕ). (k + 1) % 2 ^ 64) h.number;
}

add_all-events :
    (es all : List LogEvent) (n : ℕ) (s : LogStore)
    → Holds all n s
    → ((add_all es s).events ≡ last s.max_size (all ++ stamped n es))
      × ((add_all es s).max_size ≡ s.max_size)
unfolding add_all stamped add
add_all-events [] all n s h = (simp (append-nil) h.held, refl)
add_all-events (e ∷ es) all n s h =
    let e' = record e { sequence = (n + 1) % 2 ^ 64 } in
    let (held, size) =
      add_all-events es (all ++ e' ∷ []) ((n + 1) % 2 ^ 64) (add e s) (add-Holds all n e s h) in
    (held ∙ ap (last s.max_size) (append_assoc all (e' ∷ []) (stamped ((n + 1) % 2 ^ 64) es)), size)

empty-Holds : (m : ℕ) → Holds [] 0 (record { events = []; max_size = m; sequence = 0 })
empty-Holds m = record { held = sym (drop-nil (0 - m)); number = refl }

new-Holds : (size : ℤ) → Holds [] 0 (new_log_store size)
unfolding new_log_store
new-Holds (pos zero) = empty-Holds 10000
new-Holds (pos (suc n)) = empty-Holds (suc n)
new-Holds (negsuc n) = empty-Holds 10000

new-positive : (size : ℤ) → 1 ≤ (new_log_store size).max_size
unfolding new_log_store
new-positive (pos zero) = omega arith
new-positive (pos (suc n)) = omega arith
new-positive (negsuc n) = omega arith

-- A log store implements the log that keeps everything, up to its size: after any events it holds the
-- last ones of that log, in order and with the numbers they have there, at most `max_size` of them,
-- and its size is positive whatever was asked for.
pub add_all-new_log_store :
    (size : ℤ) (es : List LogEvent)
    → let s = add_all es (new_log_store size) in
      let m = (new_log_store size).max_size in
      (s.events ≡ last m (stamped 0 es)) × (count s ≤ m) × (1 ≤ m)
add_all-new_log_store size es =
    let m = (new_log_store size).max_size in
    let (held, same) = add_all-events es [] 0 (new_log_store size) (new-Holds size) in
    (
      held,
      omega (arith, ap length held, length-drop (length (stamped 0 es) - m) (stamped 0 es)),
      new-positive size,
    )
