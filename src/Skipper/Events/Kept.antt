-- ===== src/Skipper/Events/Kept.antt =====
-- What is kept of the responses to the events that a call of `try_send_events` sends.
use nfcompose.Shared.{
  String, ℕ, zero, suc, ◌≤◌, ◌<◌, ◌≡◌, refl, sym, ap, ◌∙◌, ◌↔◌, ◌⊎◌, inl, inr, Bool, true, false,
  Option, none, some, List, [], ◌∷◌, arith, eq_iff, ltb, if◌then◌else◌, contains, Bool-cases,
  Option-cases,
}
use nfcompose.Shared.Dict.{Dict, lookup}
use nfcompose.Shared.Value.{Value}
use nfcompose.Skipper.Events.{Consumer, ConsumerEvent, ConsumerHealthState}
use nfcompose.Skipper.Events.Sanitize.{
  max_response_length, response_headers_allow_list, first_characters, sanitize_response_untrusted,
  items_in, sanitize_headers_untrusted,
}
use nfcompose.Skipper.Events.Attempt.{
  Requests, Response, Reply, raised, responded, Turn, keep_response, clear_response, fail, succeed,
  handle, handle_reply, handle_response, start_cycle,
}
use nfcompose.Skipper.Events.Drain.{Call, drain, is_trusted}
use nfcompose.Skipper.Events.Trust.{IsTrustedHost, trusted_iff}
use nfcompose.Skipper.Events.Turns.{drain_cases}
use nfcompose.Skipper.Events.Queue.{drained}
use Prim.Native.String.{count, ◌++◌}
use text.Mathlib.TextLemmas.{length-cons, nil-append, cons-append}

-- The text as it is, or its first 1024 characters and three dots, if it is longer.
IsCut : String → String → Type 0
IsCut text kept =
    ((count text ≤ max_response_length) × (kept ≡ text))
    ⊎ ((first rest : String) × (max_response_length < count text)
        × (text ≡ first ++ rest)
        × (count first ≡ max_response_length)
        × (kept ≡ first ++ "..."))

-- The headers of the allow list, with their values, and no others.
IsAllowed : Dict String → Dict String → Type 0
IsAllowed headers kept =
    (k : String)
    → lookup k kept ≡ (if contains response_headers_allow_list k then lookup k headers else none)

IsKept : Bool → Response → String → Dict String → Type 0
IsKept true response text headers = (text ≡ response.text) × (headers ≡ response.headers)
IsKept false response text headers = IsCut response.text text × IsAllowed response.headers headers

-- What an event has of the reply to its last attempt.
pub Keeps : Bool → Reply → ConsumerEvent → Type 0
Keeps trusted (raised traceback) event =
    (event.response ≡ none) × (event.status_code ≡ none) × (event.response_headers ≡ none)
Keeps trusted (responded response) event =
    (text : String) × (headers : Dict String) × (event.response ≡ some text)
    × (event.response_headers ≡ some headers)
    × (event.status_code ≡ some response.status_code)
    × IsKept trusted response text headers

-- The events keep the replies of the turns from one on.
pub AllKeep : Call → ℕ → List ConsumerEvent → Type 0
AllKeep call cnt [] = Unit
AllKeep call cnt (event ∷ events) =
    Keeps (is_trusted call) (call.turns cnt).reply event × AllKeep call (suc cnt) events

first_split :
    (n : ℕ) (x : String)
    → n < count x
    → (rest : String) × (x ≡ first_characters n x ++ rest) × (count (first_characters n x) ≡ n)
unfolding first_characters
first_split zero x h = (x, sym (nil-append x), refl)
first_split (suc n) String.[] h = absurd (omega (arith, h))
first_split (suc n) (String.◌∷◌ c x) h =
    let (rest, e, long) = first_split n x (omega (arith, h, length-cons c x)) in
    (
      rest,
      ap (λ y. String.◌∷◌ c y) e ∙ sym (cons-append c (first_characters n x) rest),
      omega (arith, long, length-cons c (first_characters n x)),
    )

sanitize_response_untrusted-IsCut : (text : String) → IsCut text (sanitize_response_untrusted text)
unfolding IsCut sanitize_response_untrusted
sanitize_response_untrusted-IsCut text = elim (Bool-cases (ltb max_response_length (count text))) [
  | inl longer ↦
      let (rest, e, long) = first_split max_response_length text (ground (arith, longer)) in
      rw (longer) (inr (_, rest, ground (arith, longer), e, long, refl))
  | inr fits ↦ rw (fits) (inl (ground (arith, fits), refl))
]

lookup-items_in :
    (allowed : List String) (x : Dict String) (k : String)
    → lookup k (items_in allowed x) ≡ (if contains allowed k then lookup k x else none)
unfolding items_in lookup
lookup-items_in allowed [] k = ground arith
lookup-items_in allowed ((j, v) ∷ x) k = ground (arith, eq_iff j k, lookup-items_in allowed x k)

sanitize_headers_untrusted-IsAllowed :
    (headers : Dict String) → IsAllowed headers (sanitize_headers_untrusted headers)
unfolding IsAllowed sanitize_headers_untrusted
sanitize_headers_untrusted-IsAllowed headers k =
    lookup-items_in response_headers_allow_list headers k

keep_response-Keeps :
    (trusted : Bool) (response : Response) (event : ConsumerEvent)
    → Keeps trusted (responded response) (keep_response trusted response event)
unfolding Keeps keep_response IsKept
keep_response-Keeps true response event = (_, _, refl, refl, refl, (refl, refl))
keep_response-Keeps false response event = (
  _,
  _,
  refl,
  refl,
  refl,
  (
    sanitize_response_untrusted-IsCut response.text,
    sanitize_headers_untrusted-IsAllowed response.headers,
  ),
)

succeed-Keeps :
    (trusted : Bool) (reply : Reply) (event : ConsumerEvent)
    → Keeps trusted reply event
    → Keeps trusted reply (succeed event)
unfolding Keeps succeed
succeed-Keeps trusted (raised traceback) event kept = kept
succeed-Keeps trusted (responded response) event kept = kept

fail-Keeps :
    (requests : Requests) (trusted : Bool) (consumer : Consumer) (turn : Turn)
    (response : Option Response) (traceback : String) (reply : Reply) (event : ConsumerEvent)
    → Keeps trusted reply event
    → Keeps trusted reply (fail requests consumer turn response traceback event)
unfolding Keeps fail
fail-Keeps requests trusted consumer turn response traceback (raised _) event kept = kept
fail-Keeps requests trusted consumer turn response traceback (responded _) event kept = kept

handle_response-Keeps :
    (requests : Requests) (trusted : Bool) (consumer : Consumer) (turn : Turn) (response : Response)
    (event : ConsumerEvent)
    → Keeps trusted
        (responded response)
        (handle_response requests trusted consumer turn response event).event
unfolding handle_response
handle_response-Keeps requests trusted consumer turn response event =
    let kept = keep_response-Keeps trusted response event in
    elim (Option-cases (requests.raise_for_status response)) [
      | inl fine ↦ rw (fine, handle_response) (succeed-Keeps trusted (responded response) _ kept)
      | inr (traceback, refused) ↦
          rw (refused, handle_response)
            (fail-Keeps requests trusted consumer turn (some response) traceback
              (responded response) _ kept)
    ]

handle_reply-Keeps :
    (requests : Requests) (trusted : Bool) (consumer : Consumer) (turn : Turn) (reply : Reply)
    (event : ConsumerEvent)
    → Keeps trusted reply (handle_reply requests trusted consumer turn reply event).event
unfolding handle_reply Keeps clear_response fail
handle_reply-Keeps requests trusted consumer turn (raised traceback) event = (refl, refl, refl)
handle_reply-Keeps requests trusted consumer turn (responded response) event =
    handle_response-Keeps requests trusted consumer turn response event

handle-Keeps :
    (requests : Requests) (trusted : Bool) (consumer : Consumer) (turn : Turn)
    (event : ConsumerEvent)
    → Keeps trusted turn.reply (handle requests trusted consumer turn event).event
unfolding handle
handle-Keeps requests trusted consumer turn event =
    handle_reply-Keeps requests trusted consumer turn turn.reply (start_cycle consumer event)

drain-AllKeep :
    (call : Call) (cnt : ℕ) (headers : Option (Dict Value)) (current : ConsumerHealthState)
    (events : List ConsumerEvent)
    → AllKeep call cnt (drain call cnt headers current events).saved
unfolding AllKeep drain
drain-AllKeep call cnt headers current [] = tt
drain-AllKeep call cnt headers current (event ∷ events) =
    let kept = handle-Keeps call.requests (is_trusted call) call.consumer (call.turns cnt) event in
    drain_cases (λ d. AllKeep call cnt d.saved) call cnt headers current event events (λ _. tt)
      (λ _ _. tt) (λ _ _. (kept, tt)) λ _ _. (kept, drain-AllKeep call (suc cnt) _ _ events)

-- A target is trusted exactly if its host and port are at least one character with no newline among
-- them, then `local:` and the digits of a port. The events that a call of `try_send_events` saves keep
-- the replies of the turns, the first that of the first turn. Where the request raised, an event
-- keeps no response. Else it keeps the status code, and of a trusted target the text and the headers
-- as they are; of any other target the text as it is if it has at most 1024 characters, and else its
-- first 1024 and three dots, and those headers that are on the allow list, with their values, and no
-- others.
pub try_send_events-AllKeep :
    (call : Call) (rows : List ConsumerEvent)
    → ((is_trusted call ≡ true) ↔ IsTrustedHost call.target.netloc)
      × AllKeep call 0 (drained call rows).saved
unfolding drained is_trusted
try_send_events-AllKeep call rows = (trusted_iff call.target.netloc, drain-AllKeep call 0 _ _ _)
