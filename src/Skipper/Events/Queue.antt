-- ===== src/Skipper/Events/Queue.antt =====
-- The table of events: the query of `try_send_events` and what the call leaves in the table, new
-- events, and their deletion. A consumer's id stands for its tenant too.
use nfcompose.Shared.{
  String, ℕ, suc, ◌-◌, Bool, true, false, not, ◌&&◌, ◌||◌, Option, none, some, List, [], ◌∷◌, ◌++◌,
  ltb, leb, eqb, ◌==◌, if◌then◌else◌,
}
use nfcompose.Shared.Value.{Value}
use nfcompose.Skipper.Pagination.{take}
use nfcompose.Skipper.Events.{
  Consumer, ConsumerEvent, ConsumerEventType, ConsumerHealthState, ConsumerMode, in_order,
  in_order_non_blocking, new, is_final,
}
use nfcompose.Skipper.Events.Request.{Request}
use nfcompose.Skipper.Events.Drain.{Call, Drained, drain}

-- `~Q(state__in=[FAILED, SUCCESS]), consumer=consumer`
unfoldable pub is_pending : String → ConsumerEvent → Bool
is_pending consumer event = event.consumer == consumer && not (is_final event.state)

unfoldable pub filter_events : (ConsumerEvent → Bool) → List ConsumerEvent → List ConsumerEvent
filter_events test [] = []
filter_events test (row ∷ rows) =
    let rest = filter_events test rows in if test row then row ∷ rest else rest

-- `order_by` of one column before others. The database sorts nulls last.
abbrev pub first_by : ℕ → ℕ → Bool → Bool
first_by a b later = ltb a b || eqb a b && later

abbrev pub leb_nulls_last : Option ℕ → Option ℕ → Bool
leb_nulls_last a none = true
leb_nulls_last none (some b) = false
leb_nulls_last (some a) (some b) = leb a b

unfoldable pub leb_in_order : ConsumerEvent → ConsumerEvent → Bool
leb_in_order a b =
    first_by a.point_in_time b.point_in_time
      (first_by a.id b.id (leb_nulls_last a.sub_clock b.sub_clock))

unfoldable pub leb_of : ConsumerMode → ConsumerEvent → ConsumerEvent → Bool
leb_of in_order a b = leb_in_order a b
leb_of in_order_non_blocking a b = first_by a.retries b.retries (leb_in_order a b)

unfoldable pub insert_ordered :
    (ConsumerEvent → ConsumerEvent → Bool) → ConsumerEvent → List ConsumerEvent → List ConsumerEvent
insert_ordered le a [] = a ∷ []
insert_ordered le a (b ∷ rows) = if le a b then a ∷ b ∷ rows else b ∷ insert_ordered le a rows

unfoldable pub order_by :
    (ConsumerEvent → ConsumerEvent → Bool) → List ConsumerEvent → List ConsumerEvent
order_by le [] = []
order_by le (row ∷ rows) = insert_ordered le row (order_by le rows)

-- `_qs` and `_iterable`: one more than are to be handled, to see whether any are left.
unfoldable pub queue : Consumer → List ConsumerEvent → List ConsumerEvent
queue consumer rows = order_by (leb_of consumer.mode) (filter_events (is_pending consumer.id) rows)

unfoldable pub limited : Option ℕ → List ConsumerEvent → List ConsumerEvent
limited none events = events
limited (some max_events) events = take (suc max_events) events

-- `event.save()`: the row of its id.
unfoldable pub save : ConsumerEvent → List ConsumerEvent → List ConsumerEvent
save event [] = []
save event (row ∷ rows) =
    let rest = save event rows in if eqb row.id event.id then event ∷ rest else row ∷ rest

unfoldable pub save_all : List ConsumerEvent → List ConsumerEvent → List ConsumerEvent
save_all [] rows = rows
save_all (event ∷ events) rows = save_all events (save event rows)

pub record Sent : Type 0 where
  pub rows : List ConsumerEvent
  pub consumer_health : ConsumerHealthState
  pub posted : List Request
  pub more_events : Bool
  pub cnt : ℕ

unfoldable pub drained : Call → List ConsumerEvent → Drained
drained call rows =
    drain call 0 call.consumer.headers call.consumer.health
      (limited call.max_events (queue call.consumer rows))

-- The consumer's health is saved if it has changed, so the saved one is the last one either way.
unfoldable pub try_send_events : Call → List ConsumerEvent → Sent
try_send_events call rows =
    let result = drained call rows in
    record {
      rows = save_all result.saved rows;
      consumer_health = result.health;
      posted = result.posted;
      more_events = result.more_events;
      cnt = result.cnt;
    }

-- `ConsumerEvent.objects.create` for each consumer of the data series, the ids being drawn upwards
-- from `next_id`.
unfoldable pub data_point_event :
    ℕ → ℕ → ℕ → Value → ConsumerEventType → List String → List ConsumerEvent → List ConsumerEvent
data_point_event next_id point_in_time sub_clock payload event_type [] rows = rows
data_point_event next_id point_in_time sub_clock payload event_type (consumer ∷ consumers) rows =
    data_point_event (suc next_id) point_in_time sub_clock payload event_type consumers (
      rows
      ++ (record {
        id = next_id;
        point_in_time = point_in_time;
        sub_clock = some sub_clock;
        backoff_cycles = 0;
        retries_in_cycle = 0;
        handle_at = none;
        retries = 0;
        consumer = consumer;
        payload = payload;
        state = new;
        event_type = event_type;
        response = none;
        response_headers = none;
        status_code = none;
        exception = none;
      })
        ∷ [])

-- `truncate_events`, for the consumers of the data series; `delete_all_events_for_consumer`.
unfoldable pub delete_all_events_for_consumer : String → List ConsumerEvent → List ConsumerEvent
delete_all_events_for_consumer consumer rows =
    filter_events (λ row. not (row.consumer == consumer)) rows

unfoldable pub truncate_events : List String → List ConsumerEvent → List ConsumerEvent
truncate_events [] rows = rows
truncate_events (consumer ∷ consumers) rows =
    truncate_events consumers (delete_all_events_for_consumer consumer rows)

-- 30 days, in microseconds.
abbrev pub retention : ℕ
retention = 2592000000000

-- `now` is at least 30 days after the first time.
unfoldable pub is_old : ℕ → String → ConsumerEvent → Bool
is_old now consumer row =
    is_final row.state && row.consumer == consumer && leb row.point_in_time (now - retention)

unfoldable pub delete_old_events : ℕ → String → List ConsumerEvent → List ConsumerEvent
delete_old_events now consumer rows = filter_events (λ row. not (is_old now consumer row)) rows
