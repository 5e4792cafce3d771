-- ===== src/Process/Logs/Broker/Sends.antt =====
-- The sends to a subscriber that are due, and the steps that keep a closed subscriber silent
-- (internal/process/log_store.go).
use mathlib.Core.List.{append_assoc}
use goal_starter.Prelude.{
  some_inj, ℕ, ◌+◌, ◌≡◌, ◌≤◌, refl, ap, sym, ◌∙◌, subst, true, false, inl, inr, Bool-cases, Option,
  some, List, [], ◌∷◌, ◌++◌, map, length, length-append, ◌==◌, if◌then◌else◌, arith,
}
use goal_starter.Process.Logs.Broker.{
  LogStreamEvent, LogSubscriber, LogBroker, Publication, Progress, sending, offering, subscriber_at,
  push_at, offer, progressed, receive_at, receive, without_first, optional, wants, has_room,
}

-- How many calls of Publish are past their tests on a subscriber and before their send to it.
abbrev pub due : ℕ → Progress → ℕ
due address (offering a rest) = if a == address then 1 else 0
due address _ = 0

abbrev pub sends_due : ℕ → List Publication → ℕ
sends_due address [] = 0
sends_due address (p ∷ l) = due address p.progress + sends_due address l

-- A closed subscriber later on: still closed; what its holder has taken since and what its channel
-- holds are together what the channel held and then the events that came late; and these are not more
-- than the sends that were due and are not due any more.
pub record IsSilent (address : ℕ) (s : LogSubscriber) (sends : ℕ) (b : LogBroker) : Type 0 where
  pub now : LogSubscriber
  pub taken : List LogStreamEvent
  pub late : List LogStreamEvent
  pub found : subscriber_at address b.subscribers ≡ some now
  pub closed : now.closed ≡ true
  pub events : s.ch ++ late ≡ taken ++ now.ch
  pub few : length late + sends_due address b.publications ≤ sends

pub subscriber_at-map :
    (f : LogSubscriber → LogSubscriber) (address : ℕ) (l : List LogSubscriber) {s : LogSubscriber}
    → ((t : LogSubscriber) → (f t).address ≡ t.address)
    → subscriber_at address l ≡ some s
    → subscriber_at address (map f l) ≡ some (f s)
subscriber_at-map f address [] h e = absurd cc
subscriber_at-map f address (t ∷ l) h e = elim (Bool-cases (t.address == address)) [
  | inl q ↦
      let there : ((f t).address == address) ≡ true = ap (λ a. a == address) (h t) ∙ q in
      rw there (ap (λ o. some (f o)) (some_inj t _ (rw q at e)))
  | inr q ↦
      let other : ((f t).address == address) ≡ false = ap (λ a. a == address) (h t) ∙ q in
      rw other (subscriber_at-map f address l h (rw q at e))
]

pub subscriber_at-append :
    (address : ℕ) (l m : List LogSubscriber) {s : LogSubscriber}
    → subscriber_at address l ≡ some s
    → subscriber_at address (l ++ m) ≡ some s
subscriber_at-append address [] m e = absurd cc
subscriber_at-append address (t ∷ l) m e = elim (Bool-cases (t.address == address)) [
  | inl q ↦ rw q (rw q at e)
  | inr q ↦ rw q (subscriber_at-append address l m (rw q at e))
]

pub subscriber_at-address :
    (address : ℕ) (l : List LogSubscriber) {s : LogSubscriber}
    → subscriber_at address l ≡ some s
    → (s.address == address) ≡ true
subscriber_at-address address [] h = absurd cc
subscriber_at-address address (t ∷ l) h = elim (Bool-cases (t.address == address)) [
  | inl q ↦
      subst (λ (k : LogSubscriber). (k.address == address) ≡ true) (some_inj t _ (rw q at h)) q
  | inr q ↦ subscriber_at-address address l (rw q at h)
]

sends_due-append :
    (address : ℕ) (l m : List Publication)
    → sends_due address (l ++ m) ≡ sends_due address l + sends_due address m
sends_due-append address [] m = omega arith
sends_due-append address (p ∷ l) m = omega (arith, sends_due-append address l m)

-- A step that maps the subscribers, keeps the closed one closed and its channel, and adds no send.
pub kept-IsSilent :
    (f : LogSubscriber → LogSubscriber) (address : ℕ) (s : LogSubscriber) (n : ℕ) (b c : LogBroker)
    → ((t : LogSubscriber) → (f t).address ≡ t.address)
    → ((t : LogSubscriber) → t.closed ≡ true → (f t).closed ≡ true)
    → ((t : LogSubscriber) → (t.address == address) ≡ true → (f t).ch ≡ t.ch)
    → c.subscribers ≡ map f b.subscribers
    → sends_due address c.publications ≤ sends_due address b.publications
    → IsSilent address s n b
    → IsSilent address s n c
kept-IsSilent f address s n b c same shut ch e few h =
    let there = subscriber_at-address address b.subscribers h.found in
    record {
      now = f h.now;
      taken = h.taken;
      late = h.late;
      found = ap (subscriber_at address) e ∙ subscriber_at-map f address b.subscribers same h.found;
      closed = shut h.now h.closed;
      events = h.events ∙ ap (λ l. h.taken ++ l) (sym (ch h.now there));
      few = omega (arith, h.few, few);
    }

-- A step that leaves the subscribers alone and adds no send.
pub idle-IsSilent :
    (address : ℕ) (s : LogSubscriber) (n : ℕ) (b c : LogBroker)
    → c.subscribers ≡ b.subscribers
    → sends_due address c.publications ≤ sends_due address b.publications
    → IsSilent address s n b
    → IsSilent address s n c
idle-IsSilent address s n b c e few h = record {
  now = h.now;
  taken = h.taken;
  late = h.late;
  found = ap (subscriber_at address) e ∙ h.found;
  closed = h.closed;
  events = h.events;
  few = omega (arith, h.few, few);
}

taken_first :
    (l : List LogStreamEvent) → (first : List LogStreamEvent) × (l ≡ first ++ without_first l)
taken_first [] = ([], refl)
taken_first (ev ∷ l) = (ev ∷ [], refl)

-- The holder takes an event.
pub receive-IsSilent :
    (a address : ℕ) (s : LogSubscriber) (n : ℕ) (b : LogBroker)
    → IsSilent address s n b
    → IsSilent address s n (receive a b)
unfolding receive receive_at
receive-IsSilent a address s n b h = elim (Bool-cases (h.now.address == a)) [
  | inl e ↦
      let (first, split) = taken_first h.now.ch in
      record {
        now = record h.now { ch = without_first h.now.ch };
        taken = h.taken ++ first;
        late = h.late;
        found =
            subscriber_at-map (receive_at a) address b.subscribers (λ t. ground arith) h.found
            ∙ rw e refl;
        closed = h.closed;
        events =
            h.events
            ∙ ap (λ l. h.taken ++ l) split
            ∙ sym (append_assoc h.taken first (without_first h.now.ch));
        few = h.few;
      }
  | inr e ↦ record {
    now = h.now;
    taken = h.taken;
    late = h.late;
    found =
        subscriber_at-map (receive_at a) address b.subscribers (λ t. ground arith) h.found
        ∙ rw e refl;
    closed = h.closed;
    events = h.events;
    few = h.few;
  }
]

-- What a call of Publish that goes on leaves due, and `k` sends that it has made.
pub replaced-due :
    (address k : ℕ) (p : Publication) (o : Option Publication) (before after : List Publication)
    (b : LogBroker)
    → b.publications ≡ before ++ p ∷ after
    → sends_due address (optional o) + k ≤ due address p.progress
    → sends_due address (before ++ optional o ++ after) + k ≤ sends_due address b.publications
replaced-due address k p o before after b e h = omega (
  arith,
  h,
  ap (sends_due address) e,
  sends_due-append address (before ++ optional o) after,
  sends_due-append address before (optional o),
  sends_due-append address before (p ∷ after),
)

-- A closed subscriber passes no test, so no send to it becomes due.
pub tested-due :
    (a address : ℕ) (rest : List ℕ) (p : Publication) (s : LogSubscriber) (n : ℕ) (b : LogBroker)
    → IsSilent address s n b
    → sends_due address (optional (progressed (record p { progress = sending (a ∷ rest) }) b)) + 0
      ≤ 0
unfolding progressed
tested-due a address rest p s n b h = elim (Bool-cases (a == address)) [
  | inl e ↦
      let same : a ≡ address = ground arith in
      let shut : wants p.event (subscriber_at a b.subscribers) ≡ false =
        rw (same, h.found, h.closed) refl in
      rw shut (omega arith)
  | inr e ↦ elim (Bool-cases (wants p.event (subscriber_at a b.subscribers))) [
    | inl w ↦ rw (w, e) (omega arith)
    | inr w ↦ rw w (omega arith)
  ]
]

-- The send to a subscriber.
pub send-IsSilent :
    (a : ℕ) (ev : LogStreamEvent) (address : ℕ) (s : LogSubscriber) (n : ℕ) (b : LogBroker)
    (l : List Publication)
    → sends_due address l + due address (offering a []) ≤ sends_due address b.publications
    → IsSilent address s n b
    → IsSilent address s n (record (offer a ev b) { publications = l })
unfolding offer push_at
send-IsSilent a ev address s n b l few h =
    elim (Bool-cases (has_room b.buffer_size (subscriber_at a b.subscribers))) [
      | inr r ↦ rw r (idle-IsSilent address s n b _ refl (omega (arith, few)) h)
      | inl r ↦ rw r (elim (Bool-cases (a == address)) [
        | inr e ↦
            kept-IsSilent (push_at a ev) address s n b _ (λ t. ground arith) (λ t c. ground arith)
              (λ t c. ground arith) refl (omega (arith, few)) h
        | inl e ↦
            let at : (h.now.address == a) ≡ true =
              ground (arith, subscriber_at-address address b.subscribers h.found) in
            record {
              now = record h.now { ch = h.now.ch ++ ev ∷ [] };
              taken = h.taken;
              late = h.late ++ ev ∷ [];
              found =
                  subscriber_at-map (push_at a ev) address b.subscribers (λ t. ground arith) h.found
                  ∙ rw at refl;
              closed = h.closed;
              events =
                  sym (append_assoc s.ch h.late (ev ∷ []))
                  ∙ ap (λ k. k ++ ev ∷ []) h.events
                  ∙ append_assoc h.taken h.now.ch (ev ∷ []);
              few = omega (arith, h.few, length-append h.late (ev ∷ []), rw e at few);
            }
      ])
    ]
