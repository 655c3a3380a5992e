-- ===== src/Skipper/Events/Drain.antt =====
-- The loop of `try_send_events` over the events that the query returned.
use nfcompose.Shared.{
  String, ℕ, suc, Bool, true, false, Option, none, some, List, [], ◌∷◌, leb, if◌then◌else◌,
}
use nfcompose.Shared.Dict.{Dict}
use nfcompose.Shared.Value.{Value}
use nfcompose.Skipper.Events.{Consumer, ConsumerEvent, ConsumerHealthState}
use nfcompose.Skipper.Events.Sanitize.{is_trusted_consumer_target}
use nfcompose.Skipper.Events.Attempt.{Requests, Turn, is_waiting, handle}
use nfcompose.Skipper.Events.Request.{Request, SplitUrl, request_of, headers_left}

-- What the call is made with, and what it finds out before the loop.
pub record Call : Type 0 where
  pub requests : Requests
  pub isoformat : ℕ → String
  pub target : SplitUrl
  pub proxy_url : Option String
  pub tenant_name : String
  pub max_events : Option ℕ
  pub consumer : Consumer
  pub turns : ℕ → Turn

-- Whether the responses are kept as they are.
unfoldable pub is_trusted : Call → Bool
is_trusted call = is_trusted_consumer_target call.target.netloc

-- The state of the loop: the events saved and the requests made so far, `consumer.headers`, the
-- health, and the two results.
pub record Drained : Type 0 where
  pub saved : List ConsumerEvent
  pub posted : List Request
  pub headers : Option (Dict Value)
  pub health : ConsumerHealthState
  pub more_events : Bool
  pub cnt : ℕ

-- `max_events is not None and cnt >= max_events`
abbrev pub is_full : Option ℕ → ℕ → Bool
is_full none cnt = false
is_full (some max_events) cnt = leb max_events cnt

-- The break on an event that is left for the next call.
abbrev pub leave : Option (Dict Value) → ConsumerHealthState → Bool → ℕ → Drained
leave headers health more_events cnt = record {
  saved = [];
  posted = [];
  headers = headers;
  health = health;
  more_events = more_events;
  cnt = cnt;
}

-- An event that was sent and saved, before those of the rest of the loop.
abbrev pub after_saving : ConsumerEvent → Request → Drained → Drained
after_saving event request rest = record rest {
  saved = event ∷ rest.saved;
  posted = request ∷ rest.posted;
}

-- `cnt` events have been looked at.
unfoldable pub drain :
    Call → ℕ → Option (Dict Value) → ConsumerHealthState → List ConsumerEvent → Drained
drain call cnt headers health [] = leave headers health false cnt
drain call cnt headers health (event ∷ events) =
    let turn = call.turns cnt in
    let handled = handle call.requests (is_trusted call) call.consumer turn event in
    let request =
      request_of call.isoformat call.target call.proxy_url call.tenant_name call.consumer turn.agent
        headers event in
    let left = headers_left turn.agent headers in
    let rest = drain call (suc cnt) left handled.health events in
    if is_full call.max_events cnt
    then leave headers health true cnt
    else if is_waiting turn.checked_at event
    then leave headers health false (suc cnt)
    else after_saving handled.event request
        (if handled.failed then leave left handled.health false (suc cnt) else rest)
