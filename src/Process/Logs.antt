-- ===== src/Process/Logs.antt =====
-- internal/process/log_store.go: the bounded store of a process's log, and queries over the logs.
-- time.Parse, strings.ToLower and strings.Contains are the record TextTools; sort.SliceStable is an
-- argument. A page number or a size is an int of 64 bits.
pub mod Retained
pub mod Pages
pub mod Order
pub mod Broker
pub mod Unordered
pub mod Insertion
mod Tests
use goal_starter.Prelude.{
  ℕ, zero, suc, ◌+◌, ◌-◌, ◌*◌, ◌%◌, ◌^◌, Bool, true, false, not, ◌&&◌, ◌||◌, Option, none, some,
  List, [], ◌∷◌, ◌++◌, map, Text, ℤ, pos, negsuc, length, select, take, drop, ltb, leb, ◌==◌, ◌==ᵗ◌,
  if◌then◌else◌,
}
use goal_starter.Domain.Instance.{Time}

-- LogEvent, of manager.go
pub record LogEvent : Type 0 where
  pub sequence : ℕ
  pub time : Time
  pub stream : Text
  pub message : Text

pub record LogStore : Type 0 where
  pub events : List LogEvent
  pub max_size : ℕ
  pub sequence : ℕ  -- uint64

-- A size that is not positive is replaced by the default.
unfoldable pub new_log_store : ℤ → LogStore
new_log_store (pos (suc n)) = record { events = []; max_size = suc n; sequence = 0 }
new_log_store _ = record { events = []; max_size = 10000; sequence = 0 }

unfoldable pub add : LogEvent → LogStore → LogStore
add event s =
    let sequence = (s.sequence + 1) % 2 ^ 64 in
    let events = s.events ++ record event { sequence = sequence } ∷ [] in
    record s {
      sequence = sequence;
      events =
          if ltb s.max_size (length events)
          then drop (length events - s.max_size) events
          else events;
    }

abbrev pub count : LogStore → ℕ
count s = length s.events

unfoldable pub clear : LogStore → LogStore
clear s = record s { events = [] }

pub record LogQuery : Type 0 where
  pub stream : Text
  pub search : Text
  pub from : Text
  pub to : Text
  pub page : ℤ
  pub page_size : ℤ

pub record TextTools : Type 0 where
  pub parse_time : Text → Option Time
  pub to_lower : Text → Text
  pub has_part : Text → Text → Bool

-- An entry of the aggregated log.
pub record AggregatedLogEntry : Type 0 where
  pub sequence : ℕ
  pub instance_id : Text
  pub timestamp : Time
  pub stream : Text
  pub message : Text

unfoldable pub collect_all_with_instance_id : Text → LogStore → List AggregatedLogEntry
collect_all_with_instance_id id s =
    map
      (λ (e : LogEvent). record {
        sequence = e.sequence;
        instance_id = id;
        timestamp = e.time;
        stream = e.stream;
        message = e.message;
      })
      s.events

-- A bound of the query: none if the text is empty or does not parse.
abbrev pub bound_of : TextTools → Text → Option Time
bound_of tools [] = none
bound_of tools (c ∷ s) = tools.parse_time (c ∷ s)

abbrev not_before : Option Time → Time → Bool
not_before none t = true
not_before (some from) t = leb from t

abbrev not_after : Option Time → Time → Bool
not_after none t = true
not_after (some to) t = leb t to

-- A time that is Go's zero time is no bound, in the query of aggregated entries only.
abbrev pub nonzero : Option Time → Option Time
nonzero none = none
nonzero (some t) = if t == 0 then none else some t

-- The test of the filters on the parts of an event.
unfoldable pub passes : TextTools → LogQuery → Option Time → Option Time → Time → Text → Text → Bool
passes tools q from to time stream message =
    ((q.stream ==ᵗ []) || (stream ==ᵗ q.stream))
    && not_before from time
    && not_after to time
    && ((q.search ==ᵗ []) || tools.has_part (tools.to_lower message) (tools.to_lower q.search))

abbrev pub page_size_of : ℤ → ℕ
page_size_of (negsuc n) = 50
page_size_of (pos zero) = 50
page_size_of (pos (suc n)) = if ltb 500 (suc n) then 500 else suc n

abbrev pub page_of : ℤ → ℕ
page_of (pos (suc n)) = suc n
page_of _ = 1

pub data Paged (A : Type 0) : Type 0 where
  page : ℕ → ℕ → ℕ → List A → Paged A  -- total, page, size, items
  panics : Paged A  -- a slice expression with a negative index

-- (page - 1) * pageSize in 64 bits; from 2^63 on it is negative.
unfoldable pub paginate : ℤ → ℤ → {A : Type 0} → List A → Paged A
paginate wanted wanted_size l =
    let size = page_size_of wanted_size in
    let number = page_of wanted in
    let start = ((number - 1) * size) % 2 ^ 64 in
    let total = length l in
    if leb (2 ^ 63) start
    then panics
    else if leb total start
    then page total number size []
    else page total number size
        (take ((if ltb total (start + size) then total else start + size) - start) (drop start l))

unfoldable pub get_logs : TextTools → LogQuery → LogStore → Paged LogEvent
get_logs tools q s =
    let from = bound_of tools q.from in
    let to = bound_of tools q.to in
    paginate q.page q.page_size
      (select (λ (e : LogEvent). passes tools q from to e.time e.stream e.message) s.events)

-- `a < b` on Go strings.
unfoldable pub text_lt : Text → Text → Bool
text_lt [] [] = false
text_lt [] (y ∷ b) = true
text_lt (x ∷ a) [] = false
text_lt (x ∷ a) (y ∷ b) = ltb x y || ((x == y) && text_lt a b)

-- The order of aggregated entries: the comparison given to sort.SliceStable.
unfoldable pub entry_before : AggregatedLogEntry → AggregatedLogEntry → Bool
entry_before a b =
    if not (a.timestamp == b.timestamp)
    then ltb b.timestamp a.timestamp
    else if not (a.instance_id ==ᵗ b.instance_id)
    then text_lt a.instance_id b.instance_id
    else if not (a.sequence == b.sequence)
    then ltb b.sequence a.sequence
    else if not (a.stream ==ᵗ b.stream)
    then text_lt a.stream b.stream
    else text_lt a.message b.message

-- An entry as the query returns it.
abbrev pub as_event : AggregatedLogEntry → LogEvent
as_event e = record {
  sequence = e.sequence;
  time = e.timestamp;
  stream = e.stream;
  message = e.message;
}

abbrev pub map_page : {A B : Type 0} → (A → B) → Paged A → Paged B
map_page f (page total number size items) = page total number size (map f items)
map_page f panics = panics

abbrev pub Sort : Type 0
Sort =
    (AggregatedLogEntry → AggregatedLogEntry → Bool)
    → List AggregatedLogEntry
    → List AggregatedLogEntry

-- QueryAggregatedLogs, with sort.SliceStable as `sort`.
unfoldable pub query_aggregated_logs :
    TextTools → Sort → LogQuery → List AggregatedLogEntry → Paged LogEvent
query_aggregated_logs tools sort q entries =
    let from = nonzero (bound_of tools q.from) in
    let to = nonzero (bound_of tools q.to) in
    map_page as_event (
      paginate q.page q.page_size (
        sort entry_before (
          select (λ (e : AggregatedLogEntry). passes tools q from to e.timestamp e.stream e.message)
            entries)))

unfoldable pub collect : List (Text × LogStore) → List AggregatedLogEntry
collect [] = []
collect ((id, s) ∷ l) = collect_all_with_instance_id id s ++ collect l

-- Supervisor.QueryLogs over the log stores of its instances.
unfoldable pub query_logs :
    TextTools → Sort → LogQuery → Text → List (Text × LogStore) → Paged LogEvent
query_logs tools sort q id_filter stores = query_aggregated_logs tools sort q (
    if id_filter ==ᵗ []
    then collect stores
    else select (λ (e : AggregatedLogEntry). e.instance_id ==ᵗ id_filter) (collect stores))
