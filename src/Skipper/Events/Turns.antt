-- ===== src/Skipper/Events/Turns.antt =====
-- The turns of the loop of `try_send_events`, one by one.
use nfcompose.Shared.{ℕ, suc, ◌≡◌, inl, inr, true, false, Option, List, ◌∷◌, Bool-cases}
use nfcompose.Shared.Dict.{Dict}
use nfcompose.Shared.Value.{Value}
use nfcompose.Skipper.Events.{ConsumerEvent, ConsumerHealthState}
use nfcompose.Skipper.Events.Attempt.{Handled, is_waiting, handle}
use nfcompose.Skipper.Events.Request.{Request, request_of, headers_left}
use nfcompose.Skipper.Events.Drain.{Call, Drained, is_trusted, is_full, leave, after_saving, drain}

abbrev pub turn_of : Call → ℕ → ConsumerEvent → Handled
turn_of call cnt event = handle call.requests (is_trusted call) call.consumer (call.turns cnt) event

abbrev pub asked_for : Call → ℕ → Option (Dict Value) → ConsumerEvent → Request
asked_for call cnt headers event =
    request_of call.isoformat call.target call.proxy_url call.tenant_name call.consumer
      (call.turns cnt).agent headers event

abbrev pub headers_after : Call → ℕ → Option (Dict Value) → Option (Dict Value)
headers_after call cnt headers = headers_left (call.turns cnt).agent headers

-- One of four things happens with an event that is there.
pub drain_cases {ℓ} :
    (P : Drained → Type ℓ) (call : Call) (cnt : ℕ) (headers : Option (Dict Value))
    (current : ConsumerHealthState) (event : ConsumerEvent) (events : List ConsumerEvent)
    → (is_full call.max_events cnt ≡ true → P (leave headers current true cnt))
    → (is_full call.max_events cnt ≡ false
        → is_waiting (call.turns cnt).checked_at event ≡ true
        → P (leave headers current false (suc cnt)))
    → (is_full call.max_events cnt ≡ false
        → (turn_of call cnt event).failed ≡ true
        → P (
            after_saving (turn_of call cnt event).event (asked_for call cnt headers event) (
              leave
                (headers_after call cnt headers)
                (turn_of call cnt event).health
                false
                (suc cnt))))
    → (is_full call.max_events cnt ≡ false
        → (turn_of call cnt event).failed ≡ false
        → P (
            after_saving (turn_of call cnt event).event (asked_for call cnt headers event) (
              drain call
                (suc cnt)
                (headers_after call cnt headers)
                (turn_of call cnt event).health
                events)))
    → P (drain call cnt headers current (event ∷ events))
unfolding drain
drain_cases P call cnt headers current event events full waiting failed on =
    elim (Bool-cases (is_full call.max_events cnt)) [
      | inl f ↦ rw (f, drain) (full f)
      | inr n ↦ elim (Bool-cases (is_waiting (call.turns cnt).checked_at event)) [
        | inl w ↦ rw (n, drain) (rw (w) (waiting n w))
        | inr d ↦ elim (Bool-cases (turn_of call cnt event).failed) [
          | inl b ↦ rw (n, drain) (rw (d) (rw (b) (failed n b)))
          | inr g ↦ rw (n, drain) (rw (d) (rw (g) (on n g)))
        ]
      ]
    ]
