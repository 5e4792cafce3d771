-- ===== src/Storage/Import/Names.antt =====
-- internal/storage/import_plan.go: the part of PlanGraphImport that decides what each runtime would
-- do and who holds its name.
use goal_starter.Prelude.{
  Bool, true, false, not, ◌||◌, Option, none, some, List, [], ◌∷◌, Text, length, select, ltb, ◌==ᵗ◌,
  if◌then◌else◌,
}
use goal_starter.Domain.Entries.{RuntimeEntry}
use goal_starter.Storage.Repository.Runtimes.{runtime_id}
use goal_starter.Storage.Import.{ImportTools, runtime_projection_equal}

-- A map from the entries' IDs to the entries: the last one with an ID stands.
unfoldable pub find_last : {A : Type 0} → (A → Text) → Text → List A → Option A
find_last id_of id [] = none
find_last id_of id (x ∷ l) = elim (find_last id_of id l) [
  | some y ↦ some y
  | none ↦ if id_of x ==ᵗ id then some x else none
]

unfoldable pub member : Text → List Text → Bool
member t [] = false
member t (x ∷ l) = (x ==ᵗ t) || member t l

unfoldable pub set_add : Text → List Text → List Text
set_add t l = if member t l then l else t ∷ l

-- nameHolders: the IDs that hold a name, by the name in lower case.
abbrev pub Holders : Type 0
Holders = Text → List Text

unfoldable pub add_holder : ImportTools → Text → Text → Holders → Holders
add_holder tools name id h k = if tools.to_lower name ==ᵗ k then set_add id (h k) else h k

unfoldable pub smallest_other : ImportTools → List Text → Text → Text
smallest_other tools holders id = elim (tools.sort_strings (select (λ h. not (h ==ᵗ id)) holders)) [
  | [] ↦ []
  | x ∷ l ↦ x
]

-- The other holder of the name, if there is more than one.
unfoldable pub contested : ImportTools → Holders → Text → Text → Option Text
contested tools h name id =
    if ltb (length (h (tools.to_lower name))) 2
    then none
    else some (smallest_other tools (h (tools.to_lower name)) id)

-- rtRestore carries the entry it restores.
pub data Intent : Type 0 where
  rt_create rt_no_write : Intent
  rt_restore : RuntimeEntry → Intent

-- The intent of a runtime, given the IDs that the bundle has claimed before.
unfoldable pub intent_of : Option RuntimeEntry → List Text → RuntimeEntry → Intent
intent_of none seen rt = if member rt.id seen then rt_no_write else rt_create
intent_of (some local) seen rt =
    if runtime_projection_equal rt local then rt_no_write else rt_restore local

unfoldable pub writes : Intent → Bool
writes rt_no_write = false
writes rt_create = true
writes (rt_restore local) = true

-- The loop over the bundle's runtimes that decides the intents.
unfoldable pub intents :
    List RuntimeEntry → List Text → List RuntimeEntry → List (RuntimeEntry × Intent)
intents locals seen [] = []
intents locals seen (rt ∷ rts) =
    let i = intent_of (find_last runtime_id rt.id locals) seen rt in
    (rt, i) ∷ intents locals (elim i [ rt_create ↦ rt.id ∷ seen | _ ↦ seen ]) rts

unfoldable pub local_holders : ImportTools → List RuntimeEntry → Holders → Holders
local_holders tools [] h = h
local_holders tools (e ∷ l) h = local_holders tools l (add_holder tools e.name e.id h)

unfoldable pub bundle_holders : ImportTools → List (RuntimeEntry × Intent) → Holders → Holders
bundle_holders tools [] h = h
bundle_holders tools ((rt, i) ∷ l) h =
    bundle_holders tools l (if writes i then add_holder tools rt.name rt.id h else h)
