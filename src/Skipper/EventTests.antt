-- ===== src/Skipper/EventTests.antt =====
-- Runs of the sending of consumer events, and the theorems on it at inputs that meet their
-- hypotheses.
use mathlib.Core.List.{Memᴰ, Perm}
use mathlib.Core.List.Memᴰ
use nfcompose.Shared.{
  ℕ, false, zero, suc, ◌≤◌, ◌<◌, ◌≡◌, refl, sym, ap, ◌∙◌, ◌↔◌, ◌⊎◌, true, none, some, List, [], ◌∷◌,
  map, length, arith, eqb, if◌then◌else◌,
}
use mathlib.Core.Path.{subst}
use nfcompose.Shared.{◌≢◌}
use nfcompose.Skipper.Events.Sanitize.{is_trusted_consumer_target}
use nfcompose.Skipper.Events.Trust.{IsTrustedHost}
use nfcompose.Skipper.Events.Kept.{AllKeep, try_send_events-AllKeep}
use nfcompose.Skipper.Events.Ordered.{AllInTurn, queue-AllInTurn}
use nfcompose.Skipper.Events.InOrder.{
  AllSucceeded, AllButLastSucceeded, IsPrefixById, try_send_events-InOrder,
  try_send_events-more_iff,
}
use nfcompose.Shared.Value.{null}
use nfcompose.Skipper.Events.{
  Consumer, is_final, ConsumerEvent, unknown, in_order, new, data_point_changed,
}
use nfcompose.Skipper.Events.Attempt.{Requests, Response, Turn, responded, is_waiting}
use nfcompose.Skipper.Events.Drain.{Call, is_full, is_trusted}
use nfcompose.Skipper.Events.Queue.{
  queue, drained, try_send_events, filter_events, order_by, is_pending, leb_of, leb_in_order,
  insert_ordered,
}
use nfcompose.Skipper.Events.Retries.{WithinRetries}
use nfcompose.Skipper.Events.Table.{HasOwnIds, WasAttempted, try_send_events-WasAttempted}
use nfcompose.Skipper.Events.Progress.{
  AllWithinRetries, total_owed, try_send_events-WithinRetries, try_send_events-progress,
}

abbrev alarm : Consumer
alarm = record {
  id = "alarm";
  name = "Alarm";
  target = "http://example.com/hook";
  headers = some [];
  timeout = null;
  health = unknown;
  mode = in_order;
  retry_backoff_every = 1;
  retry_backoff_delay = 30000000;
  retry_max = 2;
}

abbrev measured : ℕ → ℕ → ConsumerEvent
measured id time = record {
  id = id;
  point_in_time = time;
  sub_clock = none;
  backoff_cycles = 0;
  retries_in_cycle = 0;
  handle_at = none;
  retries = 0;
  consumer = "alarm";
  payload = null;
  state = new;
  event_type = data_point_changed;
  response = none;
  response_headers = none;
  status_code = none;
  exception = none;
}

abbrev events : List ConsumerEvent
events = measured 1 5 ∷ measured 2 3 ∷ []

abbrev requests : Requests
requests = record {
  get_header = λ name response. none;
  int = λ text. none;
  raise_for_status = λ response. if eqb response.status_code 200 then none else some "refused";
}

-- The first request is answered with 200, all others with 429.
abbrev turns : ℕ → Turn
turns zero = record {
  checked_at = 100;
  agent = "agent";
  answered_at = 101;
  failed_at = 101;
  reply = responded (record { text = "ok"; status_code = 200; headers = [] });
}
turns (suc n) = record {
  checked_at = 102;
  agent = "other";
  answered_at = 103;
  failed_at = 104;
  reply = responded (record { text = "busy"; status_code = 429; headers = [] });
}

abbrev call : Call
call = record {
  requests = requests;
  isoformat = λ time. "2024-01-01T00:00:00";
  target = record { netloc = "example.com"; hostname = some "example.com" };
  proxy_url = none;
  tenant_name = "tenant";
  max_events = some 1;
  consumer = alarm;
  turns = turns;
}

events-queue : queue alarm events ≡ measured 2 3 ∷ measured 1 5 ∷ []
unfolding queue order_by filter_events is_pending insert_ordered leb_of leb_in_order
events-queue = refl

abbrev number : ConsumerEvent → ℕ
number event = event.id

different : {a b : ConsumerEvent} → a ≡ measured 1 5 → b ≡ measured 2 3 → a.id ≢ b.id
different e f h = ground (arith, ap number e, ap number f, h)

events-HasOwnIds : HasOwnIds events
events-HasOwnIds a b (Memᴰ.tail (Memᴰ.tail m)) n h = absurd (Memᴰ.not-nil m)
events-HasOwnIds a b m (Memᴰ.tail (Memᴰ.tail n)) h = absurd (Memᴰ.not-nil n)
events-HasOwnIds a b (Memᴰ.head e) (Memᴰ.head f) h = e ∙ sym f
events-HasOwnIds a b (Memᴰ.head e) (Memᴰ.tail (Memᴰ.head f)) h = absurd (different e f h)
events-HasOwnIds a b (Memᴰ.tail (Memᴰ.head e)) (Memᴰ.head f) h = absurd (different f e (sym h))
events-HasOwnIds a b (Memᴰ.tail (Memᴰ.head e)) (Memᴰ.tail (Memᴰ.head f)) h = e ∙ sym f

fresh-WithinRetries : (id time : ℕ) → WithinRetries alarm (measured id time)
fresh-WithinRetries id time = ground arith

events-AllWithinRetries : AllWithinRetries alarm events
events-AllWithinRetries row (Memᴰ.head e) mine =
    subst (WithinRetries alarm) (sym e) (fresh-WithinRetries 1 5)
events-AllWithinRetries row (Memᴰ.tail (Memᴰ.head e)) mine =
    subst (WithinRetries alarm) (sym e) (fresh-WithinRetries 2 3)
events-AllWithinRetries row (Memᴰ.tail (Memᴰ.tail m)) mine = absurd (Memᴰ.not-nil m)

try_send_events-AllKeep_example :
    ((is_trusted call ≡ true) ↔ IsTrustedHost "example.com")
    × AllKeep call 0 (drained call events).saved
try_send_events-AllKeep_example = try_send_events-AllKeep call events

queue-AllInTurn_example :
    AllInTurn in_order (queue alarm events)
    × Perm (queue alarm events) (filter_events (is_pending "alarm") events)
    × ((row : ConsumerEvent)
        → Memᴰ row (queue alarm events)
          ↔ (Memᴰ row events × (row.consumer ≡ "alarm") × (is_final row.state ≡ false)))
queue-AllInTurn_example = queue-AllInTurn alarm events

try_send_events-WasAttempted_example :
    (after : ConsumerEvent → ConsumerEvent) × ((try_send_events call events).rows
      ≡ map after events)
    × ((row : ConsumerEvent)
        → Memᴰ row events
        → (after row ≡ row) ⊎ WasAttempted alarm row (after row))
try_send_events-WasAttempted_example = try_send_events-WasAttempted call events events-HasOwnIds

try_send_events-WithinRetries_example : AllWithinRetries alarm (try_send_events call events).rows
try_send_events-WithinRetries_example =
    try_send_events-WithinRetries call events events-HasOwnIds events-AllWithinRetries

try_send_events-progress_example :
    total_owed alarm (try_send_events call events).rows < total_owed alarm events
unfolding is_waiting
try_send_events-progress_example =
    try_send_events-progress call events (measured 2 3) (measured 1 5 ∷ []) events-HasOwnIds
      events-AllWithinRetries (omega arith) events-queue refl refl

try_send_events-InOrder_example :
    IsPrefixById (drained call events).saved (queue alarm events)
    × AllButLastSucceeded (drained call events).saved
    × (length (try_send_events call events).posted ≡ length (drained call events).saved)
    × (length (drained call events).saved ≤ (try_send_events call events).cnt)
    × ((try_send_events call events).cnt ≤ suc (length (drained call events).saved))
try_send_events-InOrder_example = try_send_events-InOrder call events

try_send_events-more_iff_example : ((try_send_events call events).more_events ≡ true) ↔ (
    AllSucceeded (drained call events).saved
    × (length (drained call events).saved ≡ 1)
    × (1 < length (queue alarm events)))
try_send_events-more_iff_example = try_send_events-more_iff call events 1 refl

-- One event is sent, and another one is left.
more_events_left : (try_send_events call events).more_events ≡ true
unfolding try_send_events drained nfcompose.Skipper.Events.Drain.drain
    nfcompose.Skipper.Events.Queue.limited nfcompose.Skipper.Pagination.take queue order_by
    filter_events is_pending insert_ordered leb_of leb_in_order is_waiting
    nfcompose.Skipper.Events.Attempt.handle nfcompose.Skipper.Events.Attempt.handle_reply
    nfcompose.Skipper.Events.Attempt.handle_response
more_events_left = refl

-- The first dot of the pattern stands for any character, and so does the one before `local`.
other_host_trusted : is_trusted_consumer_target "evillocal:80" ≡ true
unfolding is_trusted_consumer_target nfcompose.Skipper.Events.Sanitize.is_port_after
    nfcompose.Skipper.Events.Sanitize.is_digits
other_host_trusted = refl
