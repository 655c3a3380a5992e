-- ===== src/Skipper/Events/Attempt.antt =====
-- One attempt to send an event: the body of the loop of `try_send_events`, and
-- `retry_at_from_response`. The requests library and `int()` are parameters.
use nfcompose.Shared.{
  String, ℕ, suc, ◌+◌, ◌-◌, ◌*◌, Bool, true, false, ◌&&◌, Option, none, some, ltb, leb, eqb,
  if◌then◌else◌,
}
use nfcompose.Shared.Dict.{Dict}
use nfcompose.Shared.Value.{ℤ, pos, negsuc}
use nfcompose.Skipper.Events.{
  Consumer, ConsumerEvent, ConsumerHealthState, unhealthy, healthy, rate_limit, retry, failed,
  success,
}
use nfcompose.Skipper.Events.Sanitize.{sanitize_response_untrusted, sanitize_headers_untrusted}

pub record Response : Type 0 where
  pub text : String
  pub status_code : ℕ
  pub headers : Dict String

-- `requests.post` raises, with this traceback, or returns a response.
pub data Reply : Type 0 where
  raised : String → Reply
  responded : Response → Reply

-- What the world does during an attempt: what the clock says when `handle_at` is looked at, in
-- `retry_at_from_response` and where the delay is added, what `fake_agent` draws, and the reply.
pub record Turn : Type 0 where
  pub checked_at : ℕ
  pub agent : String
  pub answered_at : ℕ
  pub failed_at : ℕ
  pub reply : Reply

-- `get_header` finds a header whatever the case of its name, `int` is none where it raises, and
-- `raise_for_status` gives the traceback where it raises.
pub record Requests : Type 0 where
  pub get_header : String → Response → Option String
  pub int : String → Option ℤ
  pub raise_for_status : Response → Option String

abbrev pub microseconds : ℕ
microseconds = 1000000

-- `datetime.max`
abbrev pub max_datetime : ℕ
max_datetime = 315537897599999999

-- `now + timedelta(seconds=s)`, which raises beyond the first and the last time.
unfoldable pub plus_seconds : ℕ → ℤ → Option ℕ
plus_seconds now (pos s) =
    if leb (now + s * microseconds) max_datetime then some (now + s * microseconds) else none
plus_seconds now (negsuc s) =
    if leb (suc s * microseconds) now then some (now - suc s * microseconds) else none

unfoldable pub retry_at_from_response : Requests → ℕ → Response → Option ℕ
retry_at_from_response requests now response = elim (requests.get_header "Retry-After" response) [
  | none ↦ none
  | some text ↦ elim (requests.int text) [ none ↦ none | some s ↦ plus_seconds now s ]
]

-- The event is not to be handled yet.
unfoldable pub is_waiting : ℕ → ConsumerEvent → Bool
is_waiting now event = elim event.handle_at [ none ↦ false | some at ↦ ltb now at ]

-- An event whose time has come starts a new cycle, if it used up the last one.
unfoldable pub start_cycle : Consumer → ConsumerEvent → ConsumerEvent
start_cycle consumer event = elim event.handle_at [
  | none ↦ event
  | some at ↦
      if leb consumer.retry_backoff_every event.retries_in_cycle
      then record event { backoff_cycles = backoff_cycles + 1; retries_in_cycle = 0 }
      else event
]
  where
    open event use {backoff_cycles}

-- The response is kept, sanitized unless the target is trusted.
unfoldable pub keep_response : Bool → Response → ConsumerEvent → ConsumerEvent
keep_response trusted response event = record event {
  response = some (if trusted then response.text else sanitize_response_untrusted response.text);
  status_code = some response.status_code;
  response_headers =
      some (if trusted then response.headers else sanitize_headers_untrusted response.headers);
}

unfoldable pub clear_response : ConsumerEvent → ConsumerEvent
clear_response event = record event { response = none; status_code = none; response_headers = none }

unfoldable pub succeed : ConsumerEvent → ConsumerEvent
succeed event = record event { exception = none; state = success }

unfoldable pub is_too_many_requests : Option Response → Bool
is_too_many_requests none = false
is_too_many_requests (some response) = eqb response.status_code 429

unfoldable pub unhealthy_state : Option Response → ConsumerHealthState
unhealthy_state response = if is_too_many_requests response then rate_limit else unhealthy

-- `retry_at_from_response(_resp) or timezone.now() + consumer.retry_backoff_delay`
abbrev pub or_default : Option ℕ → ℕ → ℕ
or_default none at = at
or_default (some at) default = at

abbrev pub asked_at : Requests → Turn → Option Response → Option ℕ
asked_at requests turn none = none
asked_at requests turn (some response) = retry_at_from_response requests turn.answered_at response

-- `handle_at` of an event whose counters are those after the failure.
unfoldable pub next_handle_at :
    Requests → Consumer → Turn → Option Response → ConsumerEvent → Option ℕ
next_handle_at requests consumer turn response event =
    let delayed = turn.failed_at + consumer.retry_backoff_delay in
    if is_too_many_requests response
    then some (or_default (asked_at requests turn response) delayed)
    else if leb consumer.retry_backoff_every event.retries_in_cycle
    then some delayed
    else event.handle_at

-- `consumer.retry_max > 0 and event.retries > consumer.retry_max`
unfoldable pub is_given_up : Consumer → ℕ → Bool
is_given_up consumer retries = ltb 0 consumer.retry_max && ltb consumer.retry_max retries

-- The handler of `except`, after the response has been kept or cleared.
unfoldable pub fail :
    Requests → Consumer → Turn → Option Response → String → ConsumerEvent → ConsumerEvent
fail requests consumer turn response traceback event =
    let counted = record event {
      exception = some traceback;
      retries = retries + 1;
      retries_in_cycle = retries_in_cycle + 1;
    } in
    record counted {
      handle_at = next_handle_at requests consumer turn response counted;
      state = if is_given_up consumer (retries + 1) then failed else retry;
    }
  where
    open event use {retries, retries_in_cycle}

-- The event as it is saved, the health of the consumer, and `failed`.
pub record Handled : Type 0 where
  pub event : ConsumerEvent
  pub health : ConsumerHealthState
  pub failed : Bool

unfoldable pub handle_response :
    Requests → Bool → Consumer → Turn → Response → ConsumerEvent → Handled
handle_response requests trusted consumer turn response event =
    let kept = keep_response trusted response event in
    elim (requests.raise_for_status response) [
      | none ↦ record { event = succeed kept; health = healthy; failed = false }
      | some traceback ↦ record {
        event = fail requests consumer turn (some response) traceback kept;
        health = unhealthy_state (some response);
        failed = true;
      }
    ]

unfoldable pub handle_reply : Requests → Bool → Consumer → Turn → Reply → ConsumerEvent → Handled
handle_reply requests trusted consumer turn (raised traceback) event = record {
  event = fail requests consumer turn none traceback (clear_response event);
  health = unhealthy_state none;
  failed = true;
}
handle_reply requests trusted consumer turn (responded response) event =
    handle_response requests trusted consumer turn response event

unfoldable pub handle : Requests → Bool → Consumer → Turn → ConsumerEvent → Handled
handle requests trusted consumer turn event =
    handle_reply requests trusted consumer turn turn.reply (start_cycle consumer event)
