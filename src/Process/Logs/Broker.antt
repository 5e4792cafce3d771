-- ===== src/Process/Logs/Broker.antt =====
-- internal/process/log_store.go: LogBroker and its subscriptions. A step is what a goroutine does at
-- once: under the broker's mutex, with one atomic, or with one operation on a channel; the steps of
-- calls that run side by side interleave. The broker's map is the mark `listed` of a subscriber.
pub mod Sends
pub mod Silent
use goal_starter.Prelude.{
  ℕ, suc, zero, ◌+◌, ◌%◌, ◌^◌, ◌≡◌, Bool, true, false, not, ◌&&◌, ◌||◌, Option, none, some, List,
  [], ◌∷◌, ◌++◌, map, select, Text, length, ltb, ℤ, pos, negsuc, ◌==◌, ◌==ᵗ◌, if◌then◌else◌,
}
use goal_starter.Domain.Instance.{Time}

pub data LogStream : Type 0 where
  stream_stdout stream_stderr stream_system : LogStream

pub record LogStreamEvent : Type 0 where
  pub sequence : ℕ
  pub timestamp : Time
  pub instance_id : Text
  pub model_id : Text
  pub stream : LogStream
  pub message : Text

-- logSubscriber: `ch` is what the channel holds, `listed` whether the broker's map has it, `closed`
-- whether `done` is closed. It is passed by pointer: `address` is its identity.
pub record LogSubscriber : Type 0 where
  pub address : ℕ
  pub instance_id : Text
  pub ch : List LogStreamEvent
  pub closed : Bool
  pub listed : Bool

-- Where a call of Publish is: it has its number; or its snapshot, of which these are still to come; or
-- it is past the tests on a subscriber, with these to come after the send.
pub data Progress : Type 0 where
  numbered : Progress
  sending : List ℕ → Progress
  offering : ℕ → List ℕ → Progress

-- A running call of Publish; `drops` is its variable dropped.
pub record Publication : Type 0 where
  pub event : LogStreamEvent
  pub progress : Progress
  pub drops : ℕ

-- Every subscriber that the broker has made is kept, since its holder may read on.
pub record LogBroker : Type 0 where
  pub subscribers : List LogSubscriber
  pub publications : List Publication
  pub seq : ℕ
  pub dropped : ℕ
  pub buffer_size : ℕ

abbrev sized : ℤ → ℕ
sized (pos zero) = 4096
sized (pos (suc n)) = suc n
sized (negsuc n) = 4096

unfoldable pub new_log_broker : ℤ → LogBroker
new_log_broker size = record {
  subscribers = [];
  publications = [];
  seq = 0;
  dropped = 0;
  buffer_size = sized size;
}

unfoldable pub subscribe : ℕ → Text → LogBroker → LogBroker
subscribe address instance_id b = record b {
  subscribers =
      b.subscribers
      ++ record {
        address = address;
        instance_id = instance_id;
        ch = [];
        closed = false;
        listed = true;
      }
        ∷ [];
}

abbrev pub subscriber_at : ℕ → List LogSubscriber → Option LogSubscriber
subscriber_at address [] = none
subscriber_at address (s ∷ l) = if s.address == address then some s else subscriber_at address l

-- Publish takes a number; the counters are uint64.
unfoldable pub publish : LogStreamEvent → LogBroker → LogBroker
publish ev b =
    let seq = (b.seq + 1) % 2 ^ 64 in
    record b {
      seq = seq;
      publications =
          record { event = record ev { sequence = seq }; progress = numbered; drops = 0 }
          ∷ b.publications;
    }

-- What the snapshot under the read lock takes down.
abbrev listed_addresses : List LogSubscriber → List ℕ
listed_addresses [] = []
listed_addresses (s ∷ l) =
    let rest = listed_addresses l in if s.listed then s.address ∷ rest else rest

-- The tests on a subscriber before the send: it is open, and has no filter or the event's ID.
abbrev pub wants : LogStreamEvent → Option LogSubscriber → Bool
wants ev none = false
wants ev (some s) = not s.closed && ((s.instance_id ==ᵗ []) || (ev.instance_id ==ᵗ s.instance_id))

abbrev pub has_room : ℕ → Option LogSubscriber → Bool
has_room size none = false
has_room size (some s) = ltb (length s.ch) size

unfoldable pub push_at : ℕ → LogStreamEvent → LogSubscriber → LogSubscriber
push_at address ev s = if s.address == address then record s { ch = s.ch ++ ev ∷ [] } else s

-- The non-blocking send.
unfoldable pub offer : ℕ → LogStreamEvent → LogBroker → LogBroker
unfolding push_at
offer address ev b =
    if has_room b.buffer_size (subscriber_at address b.subscribers)
    then record b { subscribers = map (push_at address ev) b.subscribers }
    else b

-- Whether the send finds the buffer full.
abbrev refused : ℕ → LogBroker → ℕ
refused address b = if has_room b.buffer_size (subscriber_at address b.subscribers) then 0 else 1

-- The next thing that a call of Publish does to itself; `none` is its end.
unfoldable pub progressed : Publication → LogBroker → Option Publication
progressed p b = elim p.progress [
  | numbered ↦ some (record p { progress = sending (listed_addresses b.subscribers) })
  | sending todo ↦ elim todo [
    | [] ↦ none
    | address ∷ rest ↦
        if wants p.event (subscriber_at address b.subscribers)
        then some (record p { progress = offering address rest })
        else some (record p { progress = sending rest })
  ]
  | offering address rest ↦
      some (record p { progress = sending rest; drops = p.drops + refused address b })
]

-- And to the broker.
unfoldable pub advanced : Publication → LogBroker → LogBroker
unfolding offer
advanced p b = elim p.progress [
  | numbered ↦ b
  | sending todo ↦ elim todo [
    | [] ↦ record b { dropped = (b.dropped + p.drops) % 2 ^ 64 }
    | address ∷ rest ↦ b
  ]
  | offering address rest ↦ offer address p.event b
]

-- close(), which takes effect once.
unfoldable pub close_at : ℕ → LogSubscriber → LogSubscriber
close_at address s = if s.address == address then record s { closed = true } else s

unfoldable pub unlist_at : ℕ → LogSubscriber → LogSubscriber
unlist_at address s = if s.address == address then record s { listed = false } else s

-- Cancel deletes the subscriber from the map, and then, out of the lock, closes it.
unfoldable pub cancel_delete : ℕ → LogBroker → LogBroker
unfolding unlist_at
cancel_delete address b = record b { subscribers = map (unlist_at address) b.subscribers }

unfoldable pub cancel_close : ℕ → LogBroker → LogBroker
unfolding close_at
cancel_close address b = record b { subscribers = map (close_at address) b.subscribers }

-- Shutdown clears the map, and then closes the subscribers one by one as Cancel does.
abbrev unlist : LogSubscriber → LogSubscriber
unlist s = record s { listed = false }

unfoldable pub shutdown_clear : LogBroker → LogBroker
shutdown_clear b = record b { subscribers = map unlist b.subscribers }

abbrev pub without_first : List LogStreamEvent → List LogStreamEvent
without_first [] = []
without_first (ev ∷ l) = l

-- The holder of the subscription takes an event from the channel.
unfoldable pub receive_at : ℕ → LogSubscriber → LogSubscriber
receive_at address s = if s.address == address then record s { ch = without_first s.ch } else s

unfoldable pub receive : ℕ → LogBroker → LogBroker
unfolding receive_at
receive address b = record b { subscribers = map (receive_at address) b.subscribers }

abbrev pub optional : Option Publication → List Publication
optional none = []
optional (some p) = p ∷ []

-- One step of one of the calls that run.
pub data Step (b : LogBroker) : LogBroker → Type 0 where
  subscribed :
      (address : ℕ) (instance_id : Text)
      → subscriber_at address b.subscribers ≡ none
      → Step b (subscribe address instance_id b)
  published : (ev : LogStreamEvent) → Step b (publish ev b)
  advance :
      (p : Publication) (before after : List Publication)
      → b.publications ≡ before ++ p ∷ after
      → Step b
          (record (advanced p b) { publications = before ++ optional (progressed p b) ++ after })
  deleted : (address : ℕ) → Step b (cancel_delete address b)
  closed_one : (address : ℕ) → Step b (cancel_close address b)
  received : (address : ℕ) → Step b (receive address b)
  cleared : Step b (shutdown_clear b)

pub data Run (b : LogBroker) : LogBroker → Type 0 where
  here : Run b b
  next : {c d : LogBroker} → Run b c → Step c d → Run b d
