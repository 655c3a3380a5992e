-- ===== src/Skipper/Events.antt =====
-- Consumers and the events that are to be posted to them: skipper/skipper/dataseries/models/event.py
-- and models/metamodel/consumer.py. Times and delays are numbers of microseconds since datetime.min.
pub mod Sanitize
pub mod Attempt
pub mod Request
pub mod Drain
pub mod Queue
pub mod Lifecycle
pub mod Retries
pub mod Turns
pub mod Members
pub mod Ordered
pub mod Table
pub mod Progress
pub mod InOrder
pub mod Trust
pub mod Kept
use nfcompose.Shared.{String, ℕ, Bool, true, false, Option}
use nfcompose.Shared.Dict.{Dict}
use nfcompose.Shared.Value.{Value}

pub data ConsumerHealthState : Type 0 where
  unknown unhealthy healthy rate_limit : ConsumerHealthState

pub data ConsumerMode : Type 0 where
  in_order in_order_non_blocking : ConsumerMode

-- Negative numbers in these integer fields act like 0.
pub record Consumer : Type 0 where
  pub id : String
  pub name : String
  pub target : String
  pub headers : Option (Dict Value)
  pub timeout : Value
  pub health : ConsumerHealthState
  pub mode : ConsumerMode
  pub retry_backoff_every : ℕ
  pub retry_backoff_delay : ℕ
  pub retry_max : ℕ

pub data ConsumerEventState : Type 0 where
  new retry failed success : ConsumerEventState

pub data ConsumerEventType : Type 0 where
  data_point_changed data_point_deleted data_series_truncated : ConsumerEventType

pub record ConsumerEvent : Type 0 where
  pub id : ℕ
  pub point_in_time : ℕ
  pub sub_clock : Option ℕ
  pub backoff_cycles : ℕ
  pub retries_in_cycle : ℕ
  pub handle_at : Option ℕ
  pub retries : ℕ
  pub consumer : String
  pub payload : Value
  pub state : ConsumerEventState
  pub event_type : ConsumerEventType
  pub response : Option String
  pub response_headers : Option (Dict String)
  pub status_code : Option ℕ
  pub exception : Option String

-- `state in [FAILED, SUCCESS]`
abbrev pub is_final : ConsumerEventState → Bool
is_final new = false
is_final retry = false
is_final failed = true
is_final success = true
