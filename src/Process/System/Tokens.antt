-- ===== src/Process/System/Tokens.antt =====
-- The pre-spawn tokens of the registry, and the operations on one controller that keep their count.
use goal_starter.Prelude.{
  ℕ, ◌+◌, ◌≡◌, refl, subst, ap, sym, ◌∙◌, Option-cases, Bool, true, false, Bool-cases, inl, inr,
  none, some, List, [], ◌∷◌, arith, Text, All, select, ◌==ᵗ◌, text_eq_iff, some_inj,
}
use goal_starter.Process.Controller.{InstanceController}
use goal_starter.Process.Arbitration.{
  Supervisor, controller_at, without, put, replace_held, set_controller,
}
use goal_starter.Process.Commit.{signal_pre_spawn_zero_locked, take_token, forget_controller}
use goal_starter.Process.Arbitration.Registered.{
  set_controller-Framed, set_controller-in_flight, set_controller_cases,
}
use goal_starter.Process.System.{Held}
use goal_starter.Process.System.Exclusion.{take_token-instances}
use goal_starter.Process.System.Registry.{
  IsMap, without-of_absent, without-IsMap, put-IsMap, controller_at-none,
}

abbrev pub weight : Bool → ℕ
weight true = 1
weight false = 0

-- How many controllers hold a pre-spawn token.
pub tokens : List InstanceController → ℕ
tokens [] = 0
tokens (c ∷ l) = weight c.pre_spawn_token + tokens l

pub tokens-without :
    (a : InstanceController) (id : Text) (l : List InstanceController)
    → controller_at id l ≡ some a
    → IsMap l
    → tokens l ≡ weight a.pre_spawn_token + tokens (without id l)
unfolding tokens controller_at without select
tokens-without a id [] r m = cc
tokens-without a id (d ∷ l) r m = elim (Bool-cases (d.instance_id ==ᵗ id)) [
  | inl t ↦
      let absent =
        subst (λ (k : Text). All (λ e. (e.instance_id ==ᵗ k) ≡ false) l)
          ((text_eq_iff d.instance_id id).0 t) m.0 in
      rw t (
        omega (
          arith,
          ap tokens (without-of_absent id l absent),
          ap (λ (o : InstanceController). weight o.pre_spawn_token)
              (some_inj d a (rw (t, controller_at) at r)),
        ))
  | inr t ↦ rw t (omega (arith, tokens-without a id l (rw (t, controller_at) at r) m.1))
]

-- A supervisor whose count stands for the tokens in and out of the registry and `held` more, and whose signal
-- is given just when a drain has begun and the count is zero.
pub record Accounts (held : ℕ) (s : Supervisor) : Type 0 where
  pub is_map : IsMap s.instances
  pub counted : s.pre_spawn_in_flight ≡ held + (tokens s.departed + tokens s.instances)
  pub signalled : s.draining ≡ true → s.pre_spawn_in_flight ≡ 0 → s.zero_closed ≡ true
  pub honest : s.zero_closed ≡ true → (s.draining ≡ true) × (s.pre_spawn_in_flight ≡ 0)

take_token-departed : (b : Bool) (s : Supervisor) → (take_token b s).departed ≡ s.departed
unfolding take_token signal_pre_spawn_zero_locked
take_token-departed true s = ground arith
take_token-departed false s = refl

pub take_token-Accounts :
    (b : Bool) (s : Supervisor) → Accounts (weight b) s → Accounts 0 (take_token b s)
unfolding take_token signal_pre_spawn_zero_locked
take_token-Accounts false s h = h
take_token-Accounts true s h = record {
  is_map = subst (λ l. IsMap l) (sym (take_token-instances true s)) h.is_map;
  counted = ground (
    arith,
    h.counted,
    ap tokens (take_token-departed true s),
    ap tokens (take_token-instances true s),
  );
  signalled = ground (arith, h.counted);
  honest = ground (arith, h.counted, h.honest);
}

-- A controller in place of the registered one, with its ID and token.
pub put-tokens :
    (a b : InstanceController) (l : List InstanceController)
    → controller_at a.instance_id l ≡ some a
    → b.instance_id ≡ a.instance_id
    → b.pre_spawn_token ≡ a.pre_spawn_token
    → IsMap l
    → tokens (put b l) ≡ tokens l
unfolding put tokens
put-tokens a b l r id tok m = omega (
  arith,
  tokens-without a a.instance_id l r m,
  ap weight tok,
  ap (λ (i : Text). tokens (without i l)) id,
)

tokens-replace_held :
    (a b : InstanceController) (l : List InstanceController)
    → controller_at a.instance_id l ≡ some a
    → b.instance_id ≡ a.instance_id
    → tokens (replace_held b l) + weight a.pre_spawn_token ≡ tokens l + weight b.pre_spawn_token
unfolding tokens controller_at replace_held
tokens-replace_held a b [] r id = cc
tokens-replace_held a b (d ∷ l) r id = elim (Bool-cases (d.instance_id ==ᵗ a.instance_id)) [
  | inl t ↦
      let same : d ≡ a = some_inj d a (rw (t, controller_at) at r) in
      rw (id, t) (omega (arith, ap (λ (o : InstanceController). weight o.pre_spawn_token) same))
  | inr t ↦
      let rest = tokens-replace_held a b l (rw (t, controller_at) at r) id in
      rw (id, t) (omega (arith, rest))
]

set_controller-tokens :
    (a b : InstanceController) (s : Supervisor)
    → Held a s
    → b.instance_id ≡ a.instance_id
    → IsMap s.instances
    → tokens (set_controller b s).departed
        + tokens (set_controller b s).instances
        + weight a.pre_spawn_token
      ≡ tokens s.departed + tokens s.instances + weight b.pre_spawn_token
unfolding set_controller put tokens
set_controller-tokens a b s (inl r) id m =
    let there : controller_at b.instance_id s.instances ≡ some a =
      ap (λ (i : Text). controller_at i s.instances) id ∙ r in
    rw (there, set_controller) (omega (arith, tokens-without a b.instance_id s.instances there m))
set_controller-tokens a b s (inr r) id m =
    let gone : controller_at b.instance_id s.instances ≡ none =
      ap (λ (i : Text). controller_at i s.instances) id ∙ r.0 in
    rw (gone, set_controller) (omega (arith, tokens-replace_held a b s.departed r.1 id))

-- A change of a controller that somebody holds, by which `n` tokens get in hand.
pub set_controller-Accounts :
    (n : ℕ) (a b : InstanceController) (s : Supervisor)
    → Held a s
    → b.instance_id ≡ a.instance_id
    → weight a.pre_spawn_token ≡ n + weight b.pre_spawn_token
    → Accounts 0 s
    → Accounts n (set_controller b s)
set_controller-Accounts n a b s r id w h =
    let framed = set_controller-Framed b s in
    let count = set_controller-in_flight b s in
    record {
      is_map = set_controller_cases (λ l. IsMap l) b s (put-IsMap b s.instances h.is_map) h.is_map;
      counted = omega (arith, h.counted, count, w, set_controller-tokens a b s r id h.is_map);
      signalled =
          λ e f. framed.same_closed ∙ h.signalled (sym framed.same_draining ∙ e) (sym count ∙ f);
      honest = λ e.
          let (d, z) = h.honest (sym framed.same_closed ∙ e) in
          (framed.same_draining ∙ d, count ∙ z);
    }

-- A change of a controller that keeps its token.
pub kept-Accounts :
    (a b : InstanceController) (s : Supervisor)
    → Held a s
    → b.instance_id ≡ a.instance_id
    → b.pre_spawn_token ≡ a.pre_spawn_token
    → Accounts 0 s
    → Accounts 0 (set_controller b s)
kept-Accounts a b s r id tok h =
    set_controller-Accounts 0 a b s r id (omega (arith, ap weight tok)) h

-- The controller gives its token away: it is in the hand of `take_token`.
pub spent-Accounts :
    (a b : InstanceController) (s : Supervisor)
    → Held a s
    → b.instance_id ≡ a.instance_id
    → b.pre_spawn_token ≡ false
    → Accounts 0 s
    → Accounts 0 (take_token a.pre_spawn_token (set_controller b s))
spent-Accounts a b s r id tok h =
    take_token-Accounts a.pre_spawn_token _ (
      set_controller-Accounts (weight a.pre_spawn_token) a b s r id (omega (arith, ap weight tok))
        h)

pub forget-Accounts :
    (id : Text) (s : Supervisor) → Accounts 0 s → Accounts 0 (forget_controller id s)
unfolding forget_controller tokens
forget-Accounts id s h = elim (Option-cases (controller_at id s.instances)) [
  | inl e ↦ rw (e, forget_controller) h
  | inr (ic, e) ↦
      rw (e, forget_controller)
        (record {
          is_map = without-IsMap id s.instances h.is_map;
          counted = omega (arith, h.counted, tokens-without ic id s.instances e h.is_map);
          signalled = h.signalled;
          honest = h.honest;
        })
]

-- A controller under a new ID adds its token.
pub put-tokens_new :
    (b : InstanceController) (l : List InstanceController)
    → controller_at b.instance_id l ≡ none
    → tokens (put b l) ≡ weight b.pre_spawn_token + tokens l
unfolding put tokens
put-tokens_new b l fresh = omega (
  arith,
  ap tokens (without-of_absent b.instance_id l (controller_at-none b.instance_id l fresh)),
)

pub tokens-nil : tokens [] ≡ 0
unfolding tokens
tokens-nil = refl
