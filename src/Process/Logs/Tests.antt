-- ===== src/Process/Logs/Tests.antt =====
-- Runs of the log stores and of the queries at concrete inputs.
use goal_starter.Process.Logs.Broker.{
  LogStreamEvent, stream_stdout, LogBroker, LogSubscriber, Publication, numbered, sending, offering,
  new_log_broker, subscribe, cancel_close, close_at, advanced, progressed, offer, push_at, optional,
  advance, here, next,
}
use goal_starter.Process.Logs.Broker.Sends.{IsSilent, sends_due}
use goal_starter.Process.Logs.Broker.Silent.{cancel_close-IsSilent}
use mathlib.Core.List.Perm
use goal_starter.Prelude.{
  ◌==ᵗ◌, ◌++◌, some, true, refl, ◌≡◌, ◌≤◌, ◌^◌, arith, false, none, List, [], ◌∷◌, Text, lit, pos,
}
use goal_starter.Process.Logs.{
  LogEvent, LogStore, LogQuery, TextTools, panics, new_log_store, add, count, paginate, query_logs,
}
use goal_starter.Process.Logs.Retained.{add_all, last, stamped, add_all-new_log_store}
use goal_starter.Process.Logs.Pages.{gather, pages-cover, paginate-panics}
use goal_starter.Process.Logs.Unordered.{query_logs-order}
use goal_starter.Process.Logs.Insertion.{insertion_sort, insertion_sort-Sorts}

abbrev event : Text → LogEvent
event message = record { sequence = 0; time = 5; stream = lit "stdout"; message = message }

abbrev events : List LogEvent
events = event (lit "a") ∷ event (lit "b") ∷ event (lit "c") ∷ []

add_all-new_log_store_example :
    let s = add_all events (new_log_store (pos 2)) in
    let m = (new_log_store (pos 2)).max_size in
    (s.events ≡ last m (stamped 0 events)) × (count s ≤ m) × (1 ≤ m)
add_all-new_log_store_example = add_all-new_log_store (pos 2) events

pages-cover_example : gather 2 (pos 2) events ≡ events
pages-cover_example = pages-cover 2 (pos 2) events (omega arith) (omega arith)

-- A page number whose offset is negative in 64 bits.
overflow : paginate (pos (2 ^ 62)) (pos 3) events ≡ panics
overflow = paginate-panics (pos (2 ^ 62)) (pos 3) events (omega arith) (omega arith)

-- A reader of times that knows none, on texts that are in lower case.
abbrev tools : TextTools
tools = record { parse_time = λ t. none; to_lower = λ t. t; has_part = λ t part. false }

abbrev everything : LogQuery
everything = record {
  stream = [];
  search = [];
  from = [];
  to = [];
  page = pos 1;
  page_size = pos 10;
}

abbrev store : LogStore
store = add (event (lit "a")) (new_log_store (pos 2))

query_logs-order_example :
    query_logs tools insertion_sort everything [] ((lit "i", store) ∷ (lit "j", store) ∷ [])
    ≡ query_logs tools insertion_sort everything [] ((lit "j", store) ∷ (lit "i", store) ∷ [])
query_logs-order_example =
    query_logs-order tools insertion_sort everything [] insertion_sort-Sorts
      (Perm.swap (lit "j", store) (lit "i", store) [])

abbrev line : Text → LogStreamEvent
line message = record {
  sequence = 0;
  timestamp = 1;
  instance_id = lit "i";
  model_id = lit "m";
  stream = stream_stdout;
  message = message;
}

abbrev waiting : LogSubscriber
waiting = record { address = 1; instance_id = lit "i"; ch = []; closed = false; listed = true }

abbrev past_its_tests : Publication
past_its_tests = record { event = line (lit "a"); progress = offering 1 []; drops = 0 }

-- A call of Publish that is about to send to the one subscriber.
abbrev about_to_send : LogBroker
about_to_send = record {
  subscribers = waiting ∷ [];
  publications = past_its_tests ∷ [];
  seq = 1;
  dropped = 0;
  buffer_size = 1;
}

-- It sends after the subscriber has been closed.
abbrev sent_late : LogBroker
sent_late =
    let closed = cancel_close 1 about_to_send in
    record (advanced past_its_tests closed) {
      publications = [] ++ optional (progressed past_its_tests closed) ++ [];
    }

cancel_close-IsSilent_example :
    IsSilent 1 waiting (sends_due 1 about_to_send.publications) sent_late
unfolding cancel_close
cancel_close-IsSilent_example =
    cancel_close-IsSilent 1 waiting about_to_send refl
      (next here (advance past_its_tests [] [] refl))

late_event : sent_late.subscribers ≡ record waiting { ch = line (lit "a") ∷ []; closed = true } ∷ []
unfolding cancel_close close_at advanced offer push_at
late_event = refl

-- A whole call of Publish: its number, its snapshot, the test, a send that finds the buffer full.
abbrev subscribed_broker : LogBroker
subscribed_broker = subscribe 1 (lit "i") (new_log_broker (pos 1))

snapshot_taken :
    progressed (record { event = line (lit "a"); progress = numbered; drops = 0 }) subscribed_broker
    ≡ some (record { event = line (lit "a"); progress = sending (1 ∷ []); drops = 0 })
unfolding progressed subscribe new_log_broker
snapshot_taken = refl

test_passed :
    progressed
      (record { event = line (lit "a"); progress = sending (1 ∷ []); drops = 0 })
      subscribed_broker
    ≡ some past_its_tests
unfolding progressed subscribe new_log_broker ◌==ᵗ◌
test_passed = refl
