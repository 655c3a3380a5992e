-- ===== src/Skipper/Events/Lifecycle.antt =====
-- What an attempt makes of an event.
use nfcompose.Shared.{
  String, suc, ◌≡◌, refl, ap, ◌≢◌, ◌⊎◌, inl, inr, Bool, true, false, Option, none, some, arith,
  is_some, if◌then◌else◌, Option-cases,
}
use nfcompose.Skipper.Events.{Consumer, ConsumerEvent, healthy, retry, failed, success}
use nfcompose.Skipper.Events.Attempt.{
  Requests, Turn, Reply, raised, responded, Response, Handled, start_cycle, keep_response,
  clear_response, succeed, is_given_up, fail, handle_response, handle, unhealthy_state,
  handle_reply,
}

-- What identifies an event and what is sent of it.
pub record IsSameEvent (a b : ConsumerEvent) : Type 0 where
  pub same_id : b.id ≡ a.id
  pub same_consumer : b.consumer ≡ a.consumer
  pub same_payload : b.payload ≡ a.payload
  pub same_time : b.point_in_time ≡ a.point_in_time
  pub same_clock : b.sub_clock ≡ a.sub_clock
  pub same_type : b.event_type ≡ a.event_type

-- An attempt that succeeded, and one that failed.
pub record IsDelivered (a b : ConsumerEvent) : Type 0 where
  pub is_success : b.state ≡ success
  pub same_retries : b.retries ≡ a.retries
  pub no_exception : b.exception ≡ none
  pub answered : is_some b.response ≡ true

pub record IsRefused (consumer : Consumer) (a b : ConsumerEvent) : Type 0 where
  pub next_state : b.state ≡ (if is_given_up consumer b.retries then failed else retry)
  pub one_more : b.retries ≡ suc a.retries
  pub has_exception : is_some b.exception ≡ true

pub data Attempted (consumer : Consumer) (a b : ConsumerEvent) : Type 0 where
  delivered : IsDelivered a b → Attempted consumer a b
  refused : IsRefused consumer a b → Attempted consumer a b

started-IsSameEvent :
    (consumer : Consumer) (event : ConsumerEvent) → IsSameEvent event (start_cycle consumer event)
unfolding start_cycle
started-IsSameEvent consumer event = ground arith

handle_reply-IsSameEvent :
    (requests : Requests) (trusted : Bool) (consumer : Consumer) (turn : Turn) (reply : Reply)
    (event : ConsumerEvent)
    → IsSameEvent event (handle_reply requests trusted consumer turn reply event).event
unfolding handle_reply handle_response keep_response clear_response succeed fail
handle_reply-IsSameEvent requests trusted consumer turn reply event = ground arith

pub handle-IsSameEvent :
    (requests : Requests) (trusted : Bool) (consumer : Consumer) (turn : Turn)
    (event : ConsumerEvent)
    → IsSameEvent event (handle requests trusted consumer turn event).event
unfolding handle
handle-IsSameEvent requests trusted consumer turn event = ground (
  arith,
  started-IsSameEvent consumer event,
  handle_reply-IsSameEvent requests trusted consumer turn turn.reply (start_cycle consumer event),
)

started_retries :
    (consumer : Consumer) (event : ConsumerEvent)
    → (start_cycle consumer event).retries ≡ event.retries
unfolding start_cycle
started_retries consumer event = ground arith

-- The event, the health and `failed` agree.
abbrev pub Outcome : Consumer → ConsumerEvent → Handled → Type 0
Outcome consumer event handled =
    (IsDelivered event handled.event × (handled.failed ≡ false) × (handled.health ≡ healthy))
    ⊎ (IsRefused consumer event handled.event
        × (handled.failed ≡ true)
        × (handled.health ≢ healthy))

unhealthy_state-≢-healthy : (response : Option Response) → unhealthy_state response ≢ healthy
unfolding unhealthy_state
unhealthy_state-≢-healthy response e = ground arith

fail-IsRefused :
    (requests : Requests) (consumer : Consumer) (turn : Turn) (response : Option Response)
    (traceback : String) (before event : ConsumerEvent)
    → event.retries ≡ before.retries
    → IsRefused consumer before (fail requests consumer turn response traceback event)
unfolding fail
fail-IsRefused requests consumer turn response traceback before event same = record {
  next_state = ap (λ n. if is_given_up consumer n then failed else retry) (omega arith);
  one_more = omega (arith, same);
  has_exception = refl;
}

handle_response-Outcome :
    (requests : Requests) (trusted : Bool) (consumer : Consumer) (turn : Turn) (response : Response)
    (event : ConsumerEvent)
    → Outcome consumer event (handle_response requests trusted consumer turn response event)
unfolding handle_response keep_response succeed
handle_response-Outcome requests trusted consumer turn response event =
    elim (Option-cases (requests.raise_for_status response)) [
      | inl fine ↦
          rw (fine, handle_response)
            (inl (
              record {
                is_success = refl;
                same_retries = refl;
                no_exception = refl;
                answered = refl;
              },
              refl,
              refl,
            ))
      | inr (traceback, e) ↦
          rw (e, handle_response)
            (inr (
              fail-IsRefused requests consumer turn (some response) traceback event _ refl,
              refl,
              unhealthy_state-≢-healthy _,
            ))
    ]

handle_reply-Outcome :
    (requests : Requests) (trusted : Bool) (consumer : Consumer) (turn : Turn) (reply : Reply)
    (event : ConsumerEvent)
    → Outcome consumer event (handle_reply requests trusted consumer turn reply event)
unfolding handle_reply clear_response
handle_reply-Outcome requests trusted consumer turn (raised traceback) event = inr (
  fail-IsRefused requests consumer turn none traceback event _ refl,
  refl,
  unhealthy_state-≢-healthy none,
)
handle_reply-Outcome requests trusted consumer turn (responded response) event =
    handle_response-Outcome requests trusted consumer turn response event

pub handle-Outcome :
    (requests : Requests) (trusted : Bool) (consumer : Consumer) (turn : Turn)
    (event : ConsumerEvent)
    → Outcome consumer event (handle requests trusted consumer turn event)
unfolding handle
handle-Outcome requests trusted consumer turn event = ground (
  arith,
  started_retries consumer event,
  handle_reply-Outcome requests trusted consumer turn turn.reply (start_cycle consumer event),
)
