-- ===== src/Skipper/Events/Request.antt =====
-- The request that `try_send_events` makes of an event. `isoformat` and `urlsplit` are parameters.
use nfcompose.Shared.{
  String, ℕ, Bool, false, not, zero, suc, Option, none, some, [], ◌∷◌, ◌==◌, if◌then◌else◌,
}
use nfcompose.Shared.Dict.{Dict, has, insert}
use nfcompose.Shared.Value.{Value, null, int, str, pos}
use nfcompose.Skipper.Events.{
  Consumer, ConsumerEvent, ConsumerEventType, data_point_changed, data_point_deleted,
  data_series_truncated,
}

pub record Request : Type 0 where
  pub url : String
  pub headers : Dict Value
  pub json : Dict Value
  pub timeout : Value

-- The parts of `urlsplit(consumer.target)` that are used.
pub record SplitUrl : Type 0 where
  pub netloc : String
  pub hostname : Option String

unfoldable pub event_type_value : ConsumerEventType → String
event_type_value data_point_changed = "DATA_POINT_CHANGED"
event_type_value data_point_deleted = "DATA_POINT_DELETED"
event_type_value data_series_truncated = "DATA_SERIES_TRUNCATED"

-- `if event.sub_clock: body['sub_clock'] = event.sub_clock`
unfoldable pub with_sub_clock : Option ℕ → Dict Value → Dict Value
with_sub_clock none body = body
with_sub_clock (some zero) body = body
with_sub_clock (some (suc n)) body = insert "sub_clock" (int (pos (suc n))) body

unfoldable pub body_of : (ℕ → String) → String → ConsumerEvent → Dict Value
body_of isoformat tenant_name event = with_sub_clock event.sub_clock (
    ("point_in_time", str (isoformat event.point_in_time))
    ∷ ("event_type", str (event_type_value event.event_type))
    ∷ ("tenant", str tenant_name)
    ∷ ("payload", event.payload)
    ∷ [])

-- The consumer's headers with a `User-Agent`. A dictionary that the consumer has is changed in
-- place, so the agent that is drawn for the first event of a call stays for the others.
unfoldable pub with_agent : String → Dict Value → Dict Value
with_agent agent headers =
    if has headers "User-Agent" then headers else insert "User-Agent" (str agent) headers

abbrev pub or_empty : Option (Dict Value) → Dict Value
or_empty none = []
or_empty (some headers) = headers

unfoldable pub headers_left : String → Option (Dict Value) → Option (Dict Value)
headers_left agent none = none
headers_left agent (some headers) = some (with_agent agent headers)

abbrev pub or_null : Option String → Value
or_null none = null
or_null (some text) = str text

abbrev pub is_given : Option String → Bool
is_given none = false
is_given (some text) = not (text == "")

-- The proxy is told the real target in two headers.
unfoldable pub proxied : SplitUrl → String → Dict Value → Dict Value
proxied target url headers =
    insert "x-skipper-proxied-url" (str url)
      (insert "x-skipper-proxied-host" (or_null target.hostname) headers)

abbrev pub destination : Option String → String → String
destination none url = url
destination (some proxy_url) url = if proxy_url == "" then url else proxy_url

-- `headers` are those of the consumer before the event.
unfoldable pub request_of :
    (ℕ → String)
    → SplitUrl
    → Option String
    → String
    → Consumer
    → String
    → Option (Dict Value)
    → ConsumerEvent
    → Request
request_of isoformat target proxy_url tenant_name consumer agent headers event =
    let sent = with_agent agent (or_empty headers) in
    record {
      url = destination proxy_url consumer.target;
      headers = if is_given proxy_url then proxied target consumer.target sent else sent;
      json = body_of isoformat tenant_name event;
      timeout = consumer.timeout;
    }
