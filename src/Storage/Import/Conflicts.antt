-- ===== src/Storage/Import/Conflicts.antt =====
-- internal/storage/repository.go: the conflicts of an import, and the check of the runtimes' names that
-- comes before the write (runtimeNameConflicts, addEscapedBlock).
use goal_starter.Prelude.{
  Bool, true, false, not, ◌&&◌, Option, none, some, List, [], ◌∷◌, ◌++◌, map, Text, length, select,
  ltb, ◌==ᵗ◌, if◌then◌else◌,
}
use goal_starter.Domain.Entries.{RuntimeEntry}
use goal_starter.Storage.Collection.{find}
use goal_starter.Storage.Repository.Runtimes.{runtime_id}
use goal_starter.Storage.Import.{
  ImportTools, EntityType, runtime_type, model_type, pipeline_type, ImportStatus, import_new,
  import_update, import_unchanged, import_blocked, BlockReason, runtime_name_taken,
  ImportEntityClassification, ImportGraphPlan, decrement,
}
use goal_starter.Storage.Import.Names.{set_add, smallest_other}

pub record ImportConflict : Type 0 where
  pub entity : EntityType
  pub id : Text
  pub reason : BlockReason
  pub name : Text
  pub related_id : Text

abbrev pub as_conflict : ImportEntityClassification → ImportConflict
as_conflict c = record {
  entity = c.entity;
  id = c.id;
  reason = c.reason;
  name = c.name;
  related_id = c.related_id;
}

unfoldable pub plan_conflicts : ImportGraphPlan → List ImportConflict
plan_conflicts p = map as_conflict p.blocked

-- The set of the texts of a list.
unfoldable pub distinct : List Text → List Text
distinct [] = []
distinct (x ∷ l) = set_add x (distinct l)

-- The runtimes of one name, in lower case.
unfoldable pub group : ImportTools → List RuntimeEntry → Text → List RuntimeEntry
group tools runtimes k = select (λ (e : RuntimeEntry). tools.to_lower e.name ==ᵗ k) runtimes

abbrev pub group_ids : ImportTools → List RuntimeEntry → Text → List Text
group_ids tools runtimes k = distinct (map runtime_id (group tools runtimes k))

-- The name under which the group has the ID first.
abbrev pub name_in : List RuntimeEntry → Text → Text
name_in l id = elim (find runtime_id id l) [ some e ↦ e.name | none ↦ [] ]

unfoldable pub name_conflict : ImportTools → List RuntimeEntry → Text → Text → ImportConflict
name_conflict tools runtimes k id = record {
  entity = runtime_type;
  id = id;
  reason = runtime_name_taken;
  name = name_in (group tools runtimes k) id;
  related_id = smallest_other tools (group_ids tools runtimes k) id;
}

unfoldable pub group_conflicts : ImportTools → List RuntimeEntry → List Text → List ImportConflict
group_conflicts tools runtimes [] = []
group_conflicts tools runtimes (k ∷ ks) =
    map (name_conflict tools runtimes k) (tools.sort_strings (group_ids tools runtimes k))
    ++ group_conflicts tools runtimes ks

unfoldable pub runtime_name_conflicts : ImportTools → List RuntimeEntry → List ImportConflict
runtime_name_conflicts tools runtimes = group_conflicts tools runtimes (
    tools.sort_strings (
      select (λ k. not (ltb (length (group_ids tools runtimes k)) 2))
        (distinct (map (λ (e : RuntimeEntry). tools.to_lower e.name) runtimes))))

abbrev pub type_eq : EntityType → EntityType → Bool
type_eq runtime_type runtime_type = true
type_eq model_type model_type = true
type_eq pipeline_type pipeline_type = true
type_eq _ _ = false

abbrev pub is_blocked : ImportStatus → Bool
is_blocked import_blocked = true
is_blocked _ = false

abbrev pub blocks : ImportConflict → ImportEntityClassification → Bool
blocks c x = type_eq x.entity c.entity && (x.id ==ᵗ c.id) && not (is_blocked x.status)

abbrev pub blocked_as : ImportConflict → ImportEntityClassification → ImportEntityClassification
blocked_as c x = record x { status = import_blocked; reason = c.reason; related_id = c.related_id }

-- The counts without one entity of the status.
unfoldable pub uncounted : ImportStatus → EntityType → ImportGraphPlan → ImportGraphPlan
uncounted import_new t p = record p { created = decrement t p.created }
uncounted import_update t p = record p { updated = decrement t p.updated }
uncounted import_unchanged t p = record p { unchanged = decrement t p.unchanged }
uncounted import_blocked t p = p

abbrev pub behind : {A B : Type 0} → A → Option (B × List A) → Option (B × List A)
behind x none = none
behind x (some (y, l)) = some (y, x ∷ l)

-- The classifications with the first match blocked, and that match as it was.
unfoldable pub block_first :
    ImportConflict
    → List ImportEntityClassification
    → Option (ImportEntityClassification × List ImportEntityClassification)
block_first c [] = none
block_first c (x ∷ l) =
    let rest = behind x (block_first c l) in
    if blocks c x then some (x, blocked_as c x ∷ l) else rest

-- markBlocked; `none` is false.
unfoldable pub mark_blocked : ImportConflict → ImportGraphPlan → Option ImportGraphPlan
mark_blocked c p = elim (block_first c p.classifications) [
  | none ↦ none
  | some (x, l) ↦ some (record (uncounted x.status x.entity p) {
    classifications = l;
    blocked = p.blocked ++ blocked_as c x ∷ [];
  })
]

unfoldable pub add_escaped_block : ImportConflict → ImportGraphPlan → ImportGraphPlan
add_escaped_block c p = elim (mark_blocked c p) [
  | some q ↦ q
  | none ↦ record p {
    blocked =
        p.blocked
        ++ record {
          entity = c.entity;
          id = c.id;
          name = c.name;
          status = import_blocked;
          reason = c.reason;
          related_id = c.related_id;
        }
          ∷ [];
  }
]

unfoldable pub add_escaped_blocks : List ImportConflict → ImportGraphPlan → ImportGraphPlan
add_escaped_blocks [] p = p
add_escaped_blocks (c ∷ l) p = add_escaped_blocks l (add_escaped_block c p)
