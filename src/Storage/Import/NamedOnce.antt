-- ===== src/Storage/Import/NamedOnce.antt =====
-- The names of the runtimes after an import, and the conflicts that an import reports.
use mathlib.Core.List.{Memᴰ}
use goal_starter.Prelude.{
  ◌≢◌, Option, ◌≡◌, ◌⊎◌, refl, ap, sym, subst, ◌∙◌, true, Bool-cases, inl, inr, none, some, List,
  [], ◌∷◌, ◌++◌, map, Text, text_eq_iff, All, All-imp, length, ltb, arith,
}
use goal_starter.Domain.Entries.{RuntimeEntry, ModelEntry, PipelineEntry}
use goal_starter.Storage.Repository.{
  StoreError, Write, written, write_failed, sync_failed, Call, Contents, Repository,
  replace_contents,
}
use goal_starter.Storage.Repository.Runtimes.{runtime_id}
use goal_starter.Storage.Repository.Models.{model_id}
use goal_starter.Storage.Repository.Pipelines.{pipeline_id}
use goal_starter.Storage.Import.{ImportTools, ImportGraphPlan, has_blocked, will_mutate}
use goal_starter.Storage.Import.Names.{Holders, member, local_holders, intents}
use goal_starter.Storage.Import.Conflicts.{ImportConflict, runtime_name_conflicts}
use goal_starter.Storage.Import.Graph.{
  imported, conflict, placed, place_all, updated_runtime, created_runtime, updated_model,
  updated_entry, with_ids, after_save, graph_contents, write_graph, apply_plan, import_graph,
}
use goal_starter.Storage.Import.Applied.{
  Placed-cases, plan_of, after_save-same, import_graph-Applied,
}
use goal_starter.Storage.Import.Placed.{All-next}
use goal_starter.Storage.Import.Held.{Held, IsFree, local_holders-Held, bundle_holders-more}
use goal_starter.Storage.Import.Claimed.{planning_holders, plan_graph_import-IsPlanned}
use goal_starter.Storage.Import.Unique.{Agree, IsNamedOnce, SortsNothing, no_name_conflict}

All-at : {A : Type 0} (P : A → Type 0) {x : A} (l : List A) → All P l → Memᴰ x l → P x
All-at P [] h m = elim m [ ]
All-at P (y ∷ l) h (Memᴰ.head e) = subst P (sym e) h.0
All-at P (y ∷ l) h (Memᴰ.tail m) = All-at P l h.1 m

All-in : {A : Type 0} (Q : A → Type 0) (l : List A) → ((x : A) → Memᴰ x l → Q x) → All Q l
All-in Q [] f = tt
All-in Q (x ∷ l) f = (f x (Memᴰ.head refl), All-in Q l (λ y m. f y (Memᴰ.tail m)))

-- A set of fewer than two members.
short_same :
    (l : List Text) (x y : Text)
    → ltb (length l) 2 ≡ true
    → member x l ≡ true
    → member y l ≡ true
    → x ≡ y
unfolding member
short_same [] x y s hx hy = absurd (ground arith)
short_same (a ∷ []) x y s hx hy = ground (arith, text_eq_iff a x, text_eq_iff a y)
short_same (a ∷ b ∷ l) x y s hx hy = absurd (ground arith)

module _ (tools : ImportTools) (locals : List RuntimeEntry) (h : Holders) where
  -- An entry of the repository, or one that holds its name alone.
  abbrev Standing : RuntimeEntry → Type 0
  Standing e = Held tools h e × (IsFree tools h e ⊎ Memᴰ e locals)

  free-Agree :
      (a b : RuntimeEntry) → Held tools h a → Held tools h b → IsFree tools h a → Agree tools a b
  free-Agree a b ha hb f e = short_same (h (tools.to_lower a.name)) a.id b.id f ha (rw e hb)

  Standing-Agree :
      IsNamedOnce tools locals → (a b : RuntimeEntry) → Standing a → Standing b → Agree tools a b
  Standing-Agree once a b (ha, inl fa) (hb, k) e = free-Agree a b ha hb fa e
  Standing-Agree once a b (ha, inr ma) (hb, inl fb) e = sym (free-Agree b a hb ha fb (sym e))
  Standing-Agree once a b (ha, inr ma) (hb, inr mb) e =
      All-at (Agree tools a) locals (All-at (λ x. All (Agree tools x) locals) locals once ma) mb e

  Standing-IsNamedOnce :
      (l : List RuntimeEntry) → IsNamedOnce tools locals → All Standing l → IsNamedOnce tools l
  Standing-IsNamedOnce l once s =
      All-imp Standing (λ a. All (Agree tools a) l) l
        (λ a sa. All-imp Standing (Agree tools a) l (λ b sb. Standing-Agree once a b sa sb) s) s

next-IsNamedOnce :
    (tools : ImportTools) (c : Call) (rs : List RuntimeEntry) (ms : List ModelEntry)
    (ps : List PipelineEntry) (r : Repository) (next : List RuntimeEntry)
    → IsNamedOnce tools r.contents.runtimes
    → place_all runtime_id
        (map (updated_runtime c.now) (plan_of tools rs ms ps r).update_runtimes)
        r.contents.runtimes
      ≡ placed next
    → IsNamedOnce tools
        (next ++ map (created_runtime c.now) (plan_of tools rs ms ps r).create_runtimes)
next-IsNamedOnce tools c rs ms ps r next once er =
    let p = plan_of tools rs ms ps r in
    let k = r.contents in
    let h : Holders = planning_holders tools k.runtimes rs in
    let (cr, ur) = plan_graph_import-IsPlanned tools k.runtimes k.models k.pipelines rs ms ps in
    let P : RuntimeEntry → Type 0 = Standing tools k.runtimes h in
    let Alone : RuntimeEntry → Type 0 = λ e. Held tools h e × IsFree tools h e in
    Standing-IsNamedOnce tools k.runtimes h _ once (
      All-next runtime_id (updated_runtime c.now) (created_runtime c.now) (λ x. refl) P
        p.update_runtimes p.create_runtimes k.runtimes next er
        (All-in P k.runtimes (λ e m. (
          bundle_holders-more tools (intents k.runtimes [] rs)
              (local_holders tools k.runtimes (λ name. [])) (tools.to_lower e.name) e.id
              (All-at (Held tools (local_holders tools k.runtimes (λ name. []))) k.runtimes
                (local_holders-Held tools k.runtimes (λ name. [])) m),
          inr m,
        )))
        (All-imp Alone (λ e. P (updated_runtime c.now e)) p.update_runtimes (λ e a. (a.0, inl a.1))
          ur)
        (All-imp Alone (λ e. P (created_runtime c.now e)) p.create_runtimes (λ e a. (a.0, inl a.1))
          cr))

after_save-ne :
    (p q : ImportGraphPlan) (l : List ImportConflict) (x : Option StoreError × Repository)
    → (after_save p x).0 ≢ conflict q l
after_save-ne p q l (none, s) e = cc
after_save-ne p q l (some x, s) e = cc

imported-ne : (p q : ImportGraphPlan) (l : List ImportConflict) → imported p ≢ conflict q l
imported-ne p q l e = cc

apply_plan-ne :
    (tools : ImportTools) (c : Call) (p q : ImportGraphPlan) (l : List ImportConflict)
    (r : Repository)
    → ((rs : List RuntimeEntry)
        → place_all runtime_id (map (updated_runtime c.now) p.update_runtimes) r.contents.runtimes
          ≡ placed rs
        → runtime_name_conflicts tools (rs ++ map (created_runtime c.now) p.create_runtimes) ≡ [])
    → (apply_plan tools c p r).0 ≢ conflict q l
unfolding graph_contents apply_plan write_graph
apply_plan-ne tools c p q l r free =
    let k = r.contents in
    elim (Placed-cases
      (place_all runtime_id (map (updated_runtime c.now) p.update_runtimes) k.runtimes)) [
        | inr (id, e) ↦ rw (apply_plan, e) (λ h. cc)
        | inl (rs, e) ↦
            elim (Placed-cases
              (place_all model_id (map (updated_model c.now) p.update_models) k.models)) [
                | inr (id, f) ↦ rw (apply_plan, e, f) (λ h. cc)
                | inl (ms, f) ↦
                    elim (Placed-cases (
                      place_all pipeline_id
                        (map (updated_entry c.now) (with_ids c.ids 0 p.update_pipelines))
                        k.pipelines)) [
                          | inr (id, g) ↦ rw (apply_plan, e, f, g) (λ h. cc)
                          | inl (ps, g) ↦
                              rw (apply_plan, e, f, g, write_graph, free rs e)
                                (after_save-ne p q l
                                  (replace_contents c.write (graph_contents c p k rs ms ps) r))
                        ]
              ]
      ]

-- Every conflict of an import is one that its plan reports: if no two runtimes of the repository have
-- one name but for case, the check of the names that comes before the write finds nothing.
pub import_graph-conflict :
    (tools : ImportTools) (c : Call) (rs : List RuntimeEntry) (ms : List ModelEntry)
    (ps : List PipelineEntry) (r : Repository) {q : ImportGraphPlan} {l : List ImportConflict}
    → SortsNothing tools
    → IsNamedOnce tools r.contents.runtimes
    → (import_graph tools c rs ms ps r).0 ≡ conflict q l
    → has_blocked (plan_of tools rs ms ps r) ≡ true
unfolding import_graph
import_graph-conflict tools c rs ms ps r {q} {l} nothing once h =
    let p = plan_of tools rs ms ps r in
    elim (Bool-cases (has_blocked p)) [
      | inl e ↦ e
      | inr e ↦ elim (Bool-cases (will_mutate p)) [
        | inr f ↦
            let same : (import_graph tools c rs ms ps r).0 ≡ imported p =
              rw (import_graph, e, f) refl in
            absurd (imported-ne p q l (sym same ∙ h))
        | inl f ↦
            let same : (import_graph tools c rs ms ps r).0 ≡ (apply_plan tools c p r).0 =
              rw (import_graph, e, f) refl in
            absurd (
              apply_plan-ne tools c p q l r
                (λ next er.
                  no_name_conflict tools _ nothing
                    (next-IsNamedOnce tools c rs ms ps r next once er))
                (sym same ∙ h))
      ]
    ]

either-IsNamedOnce :
    (tools : ImportTools) (w : Write) (next : Contents) (r : Repository)
    → IsNamedOnce tools next.runtimes
    → IsNamedOnce tools r.contents.runtimes
    → IsNamedOnce tools (replace_contents w next r).1.contents.runtimes
unfolding replace_contents
either-IsNamedOnce tools written next r n h = n
either-IsNamedOnce tools write_failed next r n h = h
either-IsNamedOnce tools sync_failed next r n h = h

-- An import keeps the names of the runtimes apart: if no two runtimes have one name but for case, none
-- have it afterwards, whatever is imported and whatever becomes of the write.
import_graph-IsNamedOnce :
    (tools : ImportTools) (c : Call) (rs : List RuntimeEntry) (ms : List ModelEntry)
    (ps : List PipelineEntry) (r : Repository)
    → IsNamedOnce tools r.contents.runtimes
    → IsNamedOnce tools (import_graph tools c rs ms ps r).1.contents.runtimes
unfolding graph_contents
import_graph-IsNamedOnce tools c rs ms ps r h = elim (import_graph-Applied tools c rs ms ps r) [
  | inl same ↦ rw same h
  | inr (unblocked, a) ↦
      let p = plan_of tools rs ms ps r in
      let next = graph_contents c p r.contents a.runtimes a.models a.pipelines in
      let end = ap (λ o. o.1) a.same ∙ (after_save-same p (replace_contents c.write next r)).0 in
      rw end (
        either-IsNamedOnce tools c.write next r
          (next-IsNamedOnce tools c rs ms ps r a.runtimes h a.placed_runtimes) h)
]
