-- ===== src/Process/Logs/Unordered.antt =====
-- Queries over the log stores, which are read in Go's order of a map.
use mathlib.Core.Bool.{Bool-set}
use mathlib.Core.Logic.Or
use mathlib.Core.Logic.{∥∥₁_map, ite}
use mathlib.Core.List.{
  Permᴰ, Perm, Mem, not-mem-nil, mem-cons_self, eq-or-mem_of_mem-cons, append_assoc, filter,
}
use mathlib.Core.List.Perm
use mathlib.Core.List.Permᴰ
use goal_starter.Prelude.{
  ◌≡◌, refl, ap, sym, ◌∙◌, Bool, true, false, List, [], ◌∷◌, ◌++◌, All, select, Text, if◌then◌else◌,
  ◌==ᵗ◌,
}
use goal_starter.Process.Logs.{
  AggregatedLogEntry, LogQuery, LogStore, TextTools, Sort, entry_before, passes, paginate, map_page,
  as_event, collect, collect_all_with_instance_id, bound_of, nonzero, query_aggregated_logs,
  query_logs,
}
use goal_starter.Process.Logs.Order.{entry_before_lem}

-- No entry is before one that stands to its left.
abbrev pub Sorted : List AggregatedLogEntry → Type 0
Sorted [] = Unit
Sorted (x ∷ l) = All (λ y. entry_before y x ≡ false) l × Sorted l

-- What sort.SliceStable does to the list, for the comparison of entries.
abbrev pub Sorts : Sort → Type 0
Sorts sort =
    (l : List AggregatedLogEntry) → Perm (sort entry_before l) l × Sorted (sort entry_before l)

All-mem :
    {x : AggregatedLogEntry} (y : AggregatedLogEntry) (l : List AggregatedLogEntry)
    → All (λ z. entry_before z y ≡ false) l
    → Mem x l
    → entry_before x y ≡ false
All-mem y [] h m = absurd (not-mem-nil m)
All-mem {x} y (z ∷ l) h m =
    Or.elim (Bool-set (entry_before x y) false) (eq-or-mem_of_mem-cons m)
      (λ e. ap (λ w. entry_before w y) e ∙ h.0) (All-mem y l h.1)

head_least :
    {x : AggregatedLogEntry} (y : AggregatedLogEntry) (l : List AggregatedLogEntry)
    → Sorted (y ∷ l)
    → Mem x (y ∷ l)
    → entry_before x y ≡ false
head_least {x} y l h m =
    Or.elim (Bool-set (entry_before x y) false) (eq-or-mem_of_mem-cons m)
      (λ e. ap (λ w. entry_before w y) e ∙ (entry_before_lem y y y).0) (All-mem y l h.0)

Sorted-unique : (l k : List AggregatedLogEntry) → Perm l k → Sorted l → Sorted k → l ≡ k
Sorted-unique [] k p hl hk = sym (Perm.eq-nil (Perm.symm p))
Sorted-unique (x ∷ l) [] p hl hk = Perm.eq-nil p
Sorted-unique (x ∷ l) (y ∷ k) p hl hk =
    let here : x ≡ y =
      (entry_before_lem x y y).2 (head_least y k hk ((Perm.mem_iff p).0 mem-cons_self))
        (head_least x l hl ((Perm.mem_iff p).1 mem-cons_self)) in
    let rest : Perm l k = Perm.cons_inv (Perm.trans p (Perm.cons' (sym here) Perm.rfl)) in
    rw (here, Sorted-unique l k rest hl.1 hk.1) refl

truth : (b : Bool) → Dec (b ≡ true)
truth true = yes refl
truth false = no (λ e. cc)

select-filter : {A : Type 0} (p : A → Bool) (l : List A) → select p l ≡ filter (λ x. truth (p x)) l
unfolding select truth
select-filter p [] = refl
select-filter p (x ∷ l) =
    elim (p x)
      as (λ b.
        (if b then x ∷ select p l else select p l)
        ≡ ite (truth b) (x ∷ filter (λ y. truth (p y)) l) (filter (λ y. truth (p y)) l)) [
          | true ↦ ap (λ k. x ∷ k) (select-filter p l)
          | false ↦ select-filter p l
        ]

select-Perm : {A : Type 0} (p : A → Bool) {l k : List A} → Perm l k → Perm (select p l) (select p k)
select-Perm p {l} {k} d =
    rw (select-filter p l, select-filter p k) (Perm.filter (λ x. truth (p x)) d)

abbrev entries_of : Text × LogStore → List AggregatedLogEntry
entries_of (id, s) = collect_all_with_instance_id id s

front_swap : {A : Type 0} (a b c : List A) → Permᴰ (a ++ (b ++ c)) (b ++ (a ++ c))
front_swap a b c =
    rw (sym (append_assoc a b c), sym (append_assoc b a c))
      (Permᴰ.append_right c (Permᴰ.append_comm a b))

collect-Permᴰ : {l k : List (Text × LogStore)} → Permᴰ l k → Permᴰ (collect l) (collect k)
unfolding collect
collect-Permᴰ Permᴰ.nil = Permᴰ.nil
collect-Permᴰ (Permᴰ.cons {b = b} e d) = rw e (Permᴰ.append_left (entries_of b) (collect-Permᴰ d))
collect-Permᴰ (Permᴰ.swap {a' = a} {b' = b} {l = l} e f) =
    rw (e, f) (front_swap (entries_of b) (entries_of a) (collect l))
collect-Permᴰ (Permᴰ.trans d e) = Permᴰ.trans (collect-Permᴰ d) (collect-Permᴰ e)

query_aggregated_logs-Perm :
    (tools : TextTools) (sort : Sort) (q : LogQuery) {l k : List AggregatedLogEntry}
    → Sorts sort
    → Perm l k
    → query_aggregated_logs tools sort q l ≡ query_aggregated_logs tools sort q k
unfolding query_aggregated_logs
query_aggregated_logs-Perm tools sort q {l} {k} sorts d =
    let from = nonzero (bound_of tools q.from) in
    let to = nonzero (bound_of tools q.to) in
    let kept = λ (e : AggregatedLogEntry). passes tools q from to e.timestamp e.stream e.message in
    let (same_l, in_order_l) = sorts (select kept l) in
    let (same_k, in_order_k) = sorts (select kept k) in
    let same = Perm.trans (Perm.trans same_l (select-Perm kept d)) (Perm.symm same_k) in
    ap (λ items. map_page as_event (paginate q.page q.page_size items))
      (Sorted-unique (sort entry_before (select kept l)) (sort entry_before (select kept k)) same
        in_order_l in_order_k)

-- A query over the logs has the same result whatever order the stores are read in, when sort puts
-- entries in the order of the comparison.
pub query_logs-order :
    (tools : TextTools) (sort : Sort) (q : LogQuery) (id : Text)
    {stores stores' : List (Text × LogStore)}
    → Sorts sort
    → Perm stores stores'
    → query_logs tools sort q id stores ≡ query_logs tools sort q id stores'
unfolding query_logs
query_logs-order tools sort q id {stores} {stores'} sorts d =
    let all : Perm (collect stores) (collect stores') =
      ∥∥₁_map {B = Permᴰ (collect stores) (collect stores')} d collect-Permᴰ in
    elim (id ==ᵗ [])
      as (λ b.
        query_aggregated_logs tools sort q
          (if b then collect stores else select (λ e. e.instance_id ==ᵗ id) (collect stores))
        ≡ query_aggregated_logs tools sort q
            (if b then collect stores' else select (λ e. e.instance_id ==ᵗ id) (collect stores'))) [
              | true ↦ query_aggregated_logs-Perm tools sort q sorts all
              | false ↦
                  query_aggregated_logs-Perm tools sort q sorts
                    (select-Perm (λ e. e.instance_id ==ᵗ id) all)
            ]
