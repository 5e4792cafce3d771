-- ===== src/Storage/Import/Coherent.antt =====
-- The counts of an import plan: what a classification adds to them.
use goal_starter.Prelude.{ℕ, ◌+◌, ◌≡◌, refl, List, [], ◌∷◌, ◌++◌, Text, length, arith}
use goal_starter.Storage.Import.{
  ImportCounts, import_unchanged, import_blocked, BlockReason, EntityType, runtime_type, model_type,
  pipeline_type, ImportEntityClassification, ImportGraphPlan, empty_plan, classify, counted_status,
  increment,
}

-- How many of the entities are of the type.
abbrev pub is_type : EntityType → EntityType → ℕ
is_type runtime_type runtime_type = 1
is_type model_type model_type = 1
is_type pipeline_type pipeline_type = 1
is_type _ _ = 0

pub number_of : EntityType → List ImportEntityClassification → ℕ
number_of t [] = 0
number_of t (c ∷ l) = is_type t c.entity + number_of t l

number_of-append :
    (t : EntityType) (l : List ImportEntityClassification) (c : ImportEntityClassification)
    → number_of t (l ++ c ∷ []) ≡ number_of t l + is_type t c.entity
unfolding number_of
number_of-append t [] c = omega arith
number_of-append t (x ∷ l) c = omega (arith, number_of-append t l c)

abbrev pub count_at : EntityType → ImportCounts → ℕ
count_at runtime_type c = c.runtimes
count_at model_type c = c.models
count_at pipeline_type c = c.pipelines

-- How many entities of the type are to be created, and how many updated.
abbrev pub creates_at : EntityType → ImportGraphPlan → ℕ
creates_at runtime_type p = length p.create_runtimes
creates_at model_type p = length p.create_models
creates_at pipeline_type p = length p.create_pipelines

abbrev pub updates_at : EntityType → ImportGraphPlan → ℕ
updates_at runtime_type p = length p.update_runtimes
updates_at model_type p = length p.update_models
updates_at pipeline_type p = length p.update_pipelines

-- For each type the counts of the four statuses add up to the total, and the lists to write are as
-- long as the counts say.
abbrev pub IsCoherent : ImportGraphPlan → Type 0
IsCoherent p =
    (t : EntityType)
    → (count_at t p.total
        ≡ count_at t p.created
          + count_at t p.updated
          + count_at t p.unchanged
          + number_of t p.blocked)
      × (creates_at t p ≡ count_at t p.created)
      × (updates_at t p ≡ count_at t p.updated)

count_at-increment :
    (t e : EntityType) (c : ImportCounts) → count_at t (increment e c) ≡ count_at t c + is_type t e
unfolding increment
count_at-increment runtime_type runtime_type c = omega arith
count_at-increment runtime_type model_type c = omega arith
count_at-increment runtime_type pipeline_type c = omega arith
count_at-increment model_type runtime_type c = omega arith
count_at-increment model_type model_type c = omega arith
count_at-increment model_type pipeline_type c = omega arith
count_at-increment pipeline_type runtime_type c = omega arith
count_at-increment pipeline_type model_type c = omega arith
count_at-increment pipeline_type pipeline_type c = omega arith

pub unchanged-IsCoherent :
    (e : EntityType) (id name : Text) (why : BlockReason) (related : Text) (p : ImportGraphPlan)
    → IsCoherent p
    → IsCoherent (
        classify
          (record {
            entity = e;
            id = id;
            name = name;
            status = import_unchanged;
            reason = why;
            related_id = related;
          })
          p)
unfolding classify counted_status
unchanged-IsCoherent e id name why related p h runtime_type =
    let k = h runtime_type in
    (
      omega (
        arith,
        k.0,
        count_at-increment runtime_type e p.total,
        count_at-increment runtime_type e p.unchanged,
      ),
      k.1,
      k.2,
    )
unchanged-IsCoherent e id name why related p h model_type =
    let k = h model_type in
    (
      omega (
        arith,
        k.0,
        count_at-increment model_type e p.total,
        count_at-increment model_type e p.unchanged,
      ),
      k.1,
      k.2,
    )
unchanged-IsCoherent e id name why related p h pipeline_type =
    let k = h pipeline_type in
    (
      omega (
        arith,
        k.0,
        count_at-increment pipeline_type e p.total,
        count_at-increment pipeline_type e p.unchanged,
      ),
      k.1,
      k.2,
    )

abbrev blocked_classification :
    EntityType → Text → Text → BlockReason → Text → ImportEntityClassification
blocked_classification e id name why related = record {
  entity = e;
  id = id;
  name = name;
  status = import_blocked;
  reason = why;
  related_id = related;
}

pub blocked-IsCoherent :
    (e : EntityType) (id name : Text) (why : BlockReason) (related : Text) (p : ImportGraphPlan)
    → IsCoherent p
    → IsCoherent (
        classify
          (record {
            entity = e;
            id = id;
            name = name;
            status = import_blocked;
            reason = why;
            related_id = related;
          })
          p)
unfolding classify counted_status
blocked-IsCoherent e id name why related p h runtime_type =
    let k = h runtime_type in
    (
      omega (
        arith,
        k.0,
        count_at-increment runtime_type e p.total,
        number_of-append runtime_type p.blocked (blocked_classification e id name why related),
      ),
      k.1,
      k.2,
    )
blocked-IsCoherent e id name why related p h model_type =
    let k = h model_type in
    (
      omega (
        arith,
        k.0,
        count_at-increment model_type e p.total,
        number_of-append model_type p.blocked (blocked_classification e id name why related),
      ),
      k.1,
      k.2,
    )
blocked-IsCoherent e id name why related p h pipeline_type =
    let k = h pipeline_type in
    (
      omega (
        arith,
        k.0,
        count_at-increment pipeline_type e p.total,
        number_of-append pipeline_type p.blocked (blocked_classification e id name why related),
      ),
      k.1,
      k.2,
    )

pub empty-IsCoherent : IsCoherent empty_plan
unfolding number_of
empty-IsCoherent runtime_type = (refl, refl, refl)
empty-IsCoherent model_type = (refl, refl, refl)
empty-IsCoherent pipeline_type = (refl, refl, refl)
