-- ===== src/Process/Logs/Broker/Silent.antt =====
-- A subscriber of the broker after it is closed (internal/process/log_store.go).
use mathlib.Core.List.{append-nil}
use goal_starter.Prelude.{ℕ, ◌≡◌, refl, ◌∙◌, true, none, some, List, [], ◌∷◌, ◌++◌, arith}
use goal_starter.Process.Logs.Broker.{
  LogSubscriber, LogBroker, Publication, Progress, numbered, sending, offering, subscriber_at,
  subscribe, publish, progressed, advanced, close_at, unlist_at, cancel_delete, cancel_close,
  shutdown_clear, optional, Step, subscribed, published, advance, deleted, closed_one, received,
  cleared, Run, here, next,
}
use goal_starter.Process.Logs.Broker.Sends.{
  due, sends_due, IsSilent, subscriber_at-map, subscriber_at-append, subscriber_at-address,
  kept-IsSilent, idle-IsSilent, receive-IsSilent, replaced-due, tested-due, send-IsSilent,
}

-- One call of Publish goes on: what it had due it has not any more.
advance-IsSilent :
    (q : Progress) (p : Publication) (before after : List Publication) (address : ℕ)
    (s : LogSubscriber) (n : ℕ) (b : LogBroker)
    → b.publications ≡ before ++ record p { progress = q } ∷ after
    → IsSilent address s n b
    → IsSilent address s n (record (advanced (record p { progress = q }) b) {
      publications = before ++ optional (progressed (record p { progress = q }) b) ++ after;
    })
unfolding advanced progressed
advance-IsSilent numbered p before after address s n b e h =
    let few =
      replaced-due address 0 (record p { progress = numbered })
        (progressed (record p { progress = numbered }) b) before after b e (omega arith) in
    idle-IsSilent address s n b _ refl (omega (arith, few)) h
advance-IsSilent (sending []) p before after address s n b e h =
    let few =
      replaced-due address 0 (record p { progress = sending [] }) none before after b e
        (omega arith) in
    idle-IsSilent address s n b _ refl (omega (arith, few)) h
advance-IsSilent (sending (a ∷ rest)) p before after address s n b e h =
    let few =
      replaced-due address 0 (record p { progress = sending (a ∷ rest) })
        (progressed (record p { progress = sending (a ∷ rest) }) b) before after b e
        (tested-due a address rest p s n b h) in
    idle-IsSilent address s n b _ refl (omega (arith, few)) h
advance-IsSilent (offering a rest) p before after address s n b e h =
    send-IsSilent a p.event address s n b _
      (replaced-due address (due address (offering a [])) (record p { progress = offering a rest })
        (some _) before after b e (omega arith))
      h

Step-IsSilent :
    (address : ℕ) (s : LogSubscriber) (n : ℕ) {b c : LogBroker}
    → Step b c
    → IsSilent address s n b
    → IsSilent address s n c
unfolding subscribe publish cancel_delete cancel_close shutdown_clear close_at unlist_at
Step-IsSilent address s n {b} (subscribed a id fresh) h = record {
  now = h.now;
  taken = h.taken;
  late = h.late;
  found = subscriber_at-append address b.subscribers _ h.found;
  closed = h.closed;
  events = h.events;
  few = h.few;
}
Step-IsSilent address s n {b} (published ev) h = idle-IsSilent address s n b _ refl (omega arith) h
Step-IsSilent address s n {b} (advance p before after e) h =
    advance-IsSilent p.progress p before after address s n b e h
Step-IsSilent address s n {b} (deleted a) h =
    kept-IsSilent (unlist_at a) address s n b _ (λ t. ground arith) (λ t c. ground arith)
      (λ t c. ground arith) refl (omega arith) h
Step-IsSilent address s n {b} (closed_one a) h =
    kept-IsSilent (close_at a) address s n b _ (λ t. ground arith) (λ t c. ground arith)
      (λ t c. ground arith) refl (omega arith) h
Step-IsSilent address s n {b} (received a) h = receive-IsSilent a address s n b h
Step-IsSilent address s n {b} cleared h =
    kept-IsSilent _ address s n b _ (λ t. refl) (λ t c. c) (λ t c. refl) refl (omega arith) h

Run-IsSilent :
    (address : ℕ) (s : LogSubscriber) (n : ℕ) {b c : LogBroker}
    → IsSilent address s n b
    → Run b c
    → IsSilent address s n c
Run-IsSilent address s n h here = h
Run-IsSilent address s n h (next r st) = Step-IsSilent address s n st (Run-IsSilent address s n h r)

-- Once a subscriber is closed, by Cancel or by Shutdown, and whatever steps other calls take: its
-- holder takes and its channel holds what the channel held then, and after it at most one event for
-- each call of Publish that was at that moment past its tests on the subscriber. A call that comes to
-- the subscriber later, with a snapshot old or new, sends it nothing.
pub cancel_close-IsSilent :
    (address : ℕ) (s : LogSubscriber) (b : LogBroker) {c : LogBroker}
    → subscriber_at address b.subscribers ≡ some s
    → Run (cancel_close address b) c
    → IsSilent address s (sends_due address b.publications) c
unfolding cancel_close close_at
cancel_close-IsSilent address s b h r =
    let there = subscriber_at-address address b.subscribers h in
    Run-IsSilent address s (sends_due address b.publications)
      (record {
        now = record s { closed = true };
        taken = [];
        late = [];
        found =
            subscriber_at-map (close_at address) address b.subscribers (λ t. ground arith) h
            ∙ rw there refl;
        closed = refl;
        events = append-nil s.ch;
        few = omega arith;
      })
      r
