-- ===== src/Storage/Operations/Outcome.antt =====
-- Each writing operation either changes nothing or puts next contents in place through the one
-- durable write, and the next contents have no repeated IDs.
use goal_starter.Prelude.{
  ◌≡◌, ◌⊎◌, refl, Bool, true, false, Bool-cases, inl, inr, Option, some, Option-cases, List, [],
  ◌∷◌, arith, Text, ◌==ᵗ◌, text_eq_iff, if◌then◌else◌,
}
use goal_starter.Domain.Instance.{LaunchInstanceEntry}
use goal_starter.Domain.Entries.{RuntimeEntry, ModelEntry, PipelineEntry}
use goal_starter.Storage.Collection.{find}
use goal_starter.Storage.Collection.Unique.{Unique, replace_first-Unique}
use goal_starter.Storage.Repository.{
  StoreError, Call, Write, Contents, Repository, replace_contents,
}
use goal_starter.Storage.Repository.Runtimes.{
  RuntimePatch, runtime_id, patch_runtime, patched_runtime,
}
use goal_starter.Storage.Repository.Models.{ModelPatch, model_id, patch_model, patched_model}
use goal_starter.Storage.Repository.Pipelines.{pipeline_id}
use goal_starter.Storage.Repository.Instances.{instance_id}

-- No two entries of one kind have one ID.
pub record IsKeyed (k : Contents) : Type 0 where
  pub runtimes : Unique runtime_id k.runtimes
  pub models : Unique model_id k.models
  pub instances : Unique instance_id k.instances
  pub pipelines : Unique pipeline_id k.pipelines

-- Nothing is changed, or next contents go through the write.
abbrev pub Outcome : Write → Repository → Option StoreError × Repository → Type 0
Outcome w r p =
    (p.1 ≡ r)
    ⊎ ((next : Contents) × (p ≡ replace_contents w next r) × (IsKeyed r.contents → IsKeyed next))

-- An operation that is guarded by a test and changes nothing when the test fails.
pub guarded :
    (w : Write) (r : Repository) (b : Bool) (next : Contents) (e : Option StoreError)
    → (b ≡ true → IsKeyed r.contents → IsKeyed next)
    → Outcome w r (if b then replace_contents w next r else (e, r))
guarded w r true next e h = inr (next, refl, h refl)
guarded w r false next e h = inl refl

pub refused :
    (w : Write) (r : Repository) (b : Bool) (next : Contents) (e : Option StoreError)
    → (b ≡ false → IsKeyed r.contents → IsKeyed next)
    → Outcome w r (if b then (e, r) else replace_contents w next r)
refused w r true next e h = inl refl
refused w r false next e h = inr (next, refl, h refl)

pub with_runtimes :
    (k : Contents) (l : List RuntimeEntry)
    → Unique runtime_id l
    → IsKeyed k
    → IsKeyed (record k { runtimes = l })
with_runtimes k l u h = record {
  runtimes = u;
  models = h.models;
  instances = h.instances;
  pipelines = h.pipelines;
}

pub with_models :
    (k : Contents) (l : List ModelEntry)
    → Unique model_id l
    → IsKeyed k
    → IsKeyed (record k { models = l })
with_models k l u h = record {
  runtimes = h.runtimes;
  models = u;
  instances = h.instances;
  pipelines = h.pipelines;
}

pub with_instances :
    (k : Contents) (l : List LaunchInstanceEntry)
    → Unique instance_id l
    → IsKeyed k
    → IsKeyed (record k { instances = l })
with_instances k l u h = record {
  runtimes = h.runtimes;
  models = h.models;
  instances = u;
  pipelines = h.pipelines;
}

pub with_pipelines :
    (k : Contents) (l : List PipelineEntry)
    → Unique pipeline_id l
    → IsKeyed k
    → IsKeyed (record k { pipelines = l })
with_pipelines k l u h = record {
  runtimes = h.runtimes;
  models = h.models;
  instances = h.instances;
  pipelines = u;
}

module _ {A : Type 0} (id_of : A → Text) where
  pub find-id : (id : Text) (l : List A) {x : A} → find id_of id l ≡ some x → id_of x ≡ id
  unfolding find
  find-id id [] h = cc
  find-id id (y ∷ l) h = elim (Bool-cases (id_of y ==ᵗ id)) [
    | inl e ↦ ground (arith, text_eq_iff (id_of y) id)
    | inr e ↦ find-id id l (rw e at h)
  ]

pub patch_runtime-Outcome :
    (c : Call) (id : Text) (p : RuntimePatch) (r : Repository)
    → Outcome c.write r (patch_runtime c id p r)
unfolding patch_runtime patched_runtime
patch_runtime-Outcome c id p r = elim (Option-cases (find runtime_id id r.contents.runtimes)) [
  | inl e ↦ rw (e, patch_runtime) (inl refl)
  | inr (x, e) ↦
      rw (e, patch_runtime)
        (inr (
          _,
          refl,
          λ h.
              with_runtimes r.contents _
                (replace_first-Unique runtime_id id (patched_runtime c p x) r.contents.runtimes
                  (find-id runtime_id id r.contents.runtimes e) h.runtimes)
                h,
        ))
]

pub patch_model-Outcome :
    (c : Call) (id : Text) (p : ModelPatch) (r : Repository)
    → Outcome c.write r (patch_model c id p r)
unfolding patch_model patched_model
patch_model-Outcome c id p r = elim (Option-cases (find model_id id r.contents.models)) [
  | inl e ↦ rw (e, patch_model) (inl refl)
  | inr (x, e) ↦
      rw (e, patch_model)
        (inr (
          _,
          refl,
          λ h.
              with_models r.contents _
                (replace_first-Unique model_id id (patched_model c p x) r.contents.models
                  (find-id model_id id r.contents.models e) h.models)
                h,
        ))
]
