-- ===== src/Process/Logs/Insertion.antt =====
-- An insertion sort of log entries, for runs of the queries.
use mathlib.Core.List.{Perm}
use mathlib.Core.List.Perm
use goal_starter.Prelude.{
  ◌≡◌, Bool, true, false, Bool-cases, inl, inr, List, [], ◌∷◌, All, All-imp, if◌then◌else◌, arith,
}
use goal_starter.Process.Logs.{AggregatedLogEntry, Sort, entry_before}
use goal_starter.Process.Logs.Order.{entry_before_lem}
use goal_starter.Process.Logs.Unordered.{Sorted, Sorts}

insert_entry :
    (AggregatedLogEntry → AggregatedLogEntry → Bool)
    → AggregatedLogEntry
    → List AggregatedLogEntry
    → List AggregatedLogEntry
insert_entry lt x [] = x ∷ []
insert_entry lt x (y ∷ l) = let rest = insert_entry lt x l in if lt y x then y ∷ rest else x ∷ y ∷ l

pub insertion_sort : Sort
insertion_sort lt [] = []
insertion_sort lt (x ∷ l) = insert_entry lt x (insertion_sort lt l)

insert_entry-Perm :
    (lt : AggregatedLogEntry → AggregatedLogEntry → Bool) (x : AggregatedLogEntry)
    (l : List AggregatedLogEntry)
    → Perm (insert_entry lt x l) (x ∷ l)
unfolding insert_entry
insert_entry-Perm lt x [] = Perm.rfl
insert_entry-Perm lt x (y ∷ l) =
    elim (lt y x) as (λ b. Perm (if b then y ∷ insert_entry lt x l else x ∷ y ∷ l) (x ∷ y ∷ l)) [
      | true ↦ Perm.trans (Perm.cons y (insert_entry-Perm lt x l)) (Perm.swap x y l)
      | false ↦ Perm.rfl
    ]

insertion_sort-Perm : (l : List AggregatedLogEntry) → Perm (insertion_sort entry_before l) l
unfolding insertion_sort
insertion_sort-Perm [] = Perm.rfl
insertion_sort-Perm (x ∷ l) =
    Perm.trans (insert_entry-Perm entry_before x (insertion_sort entry_before l))
      (Perm.cons x (insertion_sort-Perm l))

asymmetric : (a b : AggregatedLogEntry) → entry_before a b ≡ true → entry_before b a ≡ false
asymmetric a b h = grind (arith, (entry_before_lem a b a).0, (entry_before_lem a b a).1)

negative_trans :
    (a b c : AggregatedLogEntry)
    → entry_before a b ≡ false
    → entry_before b c ≡ false
    → entry_before a c ≡ false
negative_trans a b c h k = elim (Bool-cases (entry_before b a)) [
  | inl e ↦ grind (arith, (entry_before_lem b a c).1)
  | inr e ↦ let same = (entry_before_lem a b c).2 h e in rw same k
]

All-insert_entry :
    (P : AggregatedLogEntry → Type 0) (x : AggregatedLogEntry) (l : List AggregatedLogEntry)
    → P x
    → All P l
    → All P (insert_entry entry_before x l)
unfolding insert_entry
All-insert_entry P x [] here h = (here, tt)
All-insert_entry P x (y ∷ l) here h =
    elim (entry_before y x)
      as (λ b. All P (if b then y ∷ insert_entry entry_before x l else x ∷ y ∷ l)) [
        | true ↦ (h.0, All-insert_entry P x l here h.1)
        | false ↦ (here, h)
      ]

insert_entry-Sorted :
    (x : AggregatedLogEntry) (l : List AggregatedLogEntry)
    → Sorted l
    → Sorted (insert_entry entry_before x l)
unfolding insert_entry
insert_entry-Sorted x [] h = (tt, tt)
insert_entry-Sorted x (y ∷ l) h = elim (Bool-cases (entry_before y x)) [
  | inl e ↦ rw e (
    All-insert_entry (λ z. entry_before z y ≡ false) x l (asymmetric y x e) h.0,
    insert_entry-Sorted x l h.1,
  )
  | inr e ↦ rw e (
    (
      e,
      All-imp (λ z. entry_before z y ≡ false) (λ z. entry_before z x ≡ false) l
          (λ z k. negative_trans z y x k e) h.0,
    ),
    h,
  )
]

insertion_sort-Sorted : (l : List AggregatedLogEntry) → Sorted (insertion_sort entry_before l)
unfolding insertion_sort
insertion_sort-Sorted [] = tt
insertion_sort-Sorted (x ∷ l) =
    insert_entry-Sorted x (insertion_sort entry_before l) (insertion_sort-Sorted l)

pub insertion_sort-Sorts : Sorts insertion_sort
insertion_sort-Sorts l = (insertion_sort-Perm l, insertion_sort-Sorted l)
