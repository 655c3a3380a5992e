-- ===== src/Skipper/Events/InOrder.antt =====
-- The order in which `try_send_events` handles events, and how many.
use nfcompose.Shared.{
  ℕ, zero, suc, ◌+◌, ◌≤◌, ◌<◌, min, ◌≡◌, refl, ap, ◌↔◌, true, false, Option, none, some, List, [],
  ◌∷◌, length, arith, leb,
}
use nfcompose.Shared.Dict.{Dict}
use nfcompose.Shared.Value.{Value}
use nfcompose.Skipper.Pagination.{take}
use nfcompose.Skipper.Pagination.Slices.{length-take}
use nfcompose.Skipper.Events.{ConsumerEvent, ConsumerHealthState, success}
use nfcompose.Skipper.Events.Drain.{Call, Drained, drain, after_saving, is_full, is_trusted}
use nfcompose.Skipper.Events.Request.{Request}
use nfcompose.Skipper.Events.Turns.{turn_of, headers_after, drain_cases}
use nfcompose.Skipper.Events.Lifecycle.{Outcome, handle-Outcome, handle-IsSameEvent}
use nfcompose.Skipper.Events.Queue.{limited, queue, drained, try_send_events}

-- All events succeeded, and all but the last did.
abbrev pub AllSucceeded : List ConsumerEvent → Type 0
AllSucceeded [] = Unit
AllSucceeded (event ∷ events) = (event.state ≡ success) × AllSucceeded events

abbrev pub AllButLastSucceeded : List ConsumerEvent → Type 0
AllButLastSucceeded [] = Unit
AllButLastSucceeded (event ∷ []) = Unit
AllButLastSucceeded (event ∷ next ∷ events) =
    (event.state ≡ success) × AllButLastSucceeded (next ∷ events)

-- The ids of the first list are those of the first events of the second.
abbrev pub IsPrefixById : List ConsumerEvent → List ConsumerEvent → Type 0
IsPrefixById [] events = Unit
IsPrefixById (a ∷ saved) [] = ⊥
IsPrefixById (a ∷ saved) (b ∷ events) = (a.id ≡ b.id) × IsPrefixById saved events

record InOrder (cnt : ℕ) (events : List ConsumerEvent) (result : Drained) : Type 0 where
  pub prefix : IsPrefixById result.saved events
  pub stops : AllButLastSucceeded result.saved
  pub counted : cnt + length result.saved ≤ result.cnt
  pub closely : result.cnt ≤ suc (cnt + length result.saved)
  pub posted : length result.posted ≡ length result.saved

stops_cons :
    (event : ConsumerEvent) (saved : List ConsumerEvent)
    → event.state ≡ success
    → AllButLastSucceeded saved
    → AllButLastSucceeded (event ∷ saved)
stops_cons event [] e h = tt
stops_cons event (next ∷ saved) e h = (e, h)

saving-InOrder :
    (cnt : ℕ) (event after : ConsumerEvent) (request : Request) (events : List ConsumerEvent)
    (rest : Drained)
    → after.id ≡ event.id
    → after.state ≡ success
    → InOrder (suc cnt) events rest
    → InOrder cnt (event ∷ events) (after_saving after request rest)
saving-InOrder cnt event after request events rest same good h = record {
  prefix = (same, h.prefix);
  stops = stops_cons after rest.saved good h.stops;
  counted = omega (arith, h.counted);
  closely = omega (arith, h.closely);
  posted = ap suc h.posted;
}

drain-InOrder :
    (call : Call) (cnt : ℕ) (headers : Option (Dict Value)) (current : ConsumerHealthState)
    (events : List ConsumerEvent)
    → InOrder cnt events (drain call cnt headers current events)
unfolding drain
drain-InOrder call cnt headers current [] = ground arith
drain-InOrder call cnt headers current (event ∷ events) =
    drain_cases (InOrder cnt (event ∷ events)) call cnt headers current event events
      (λ _. ground arith) (λ _ _. ground arith) (λ _ _. ground (arith, same))
      (λ _ good.
        saving-InOrder cnt event _ _ events _ same (went_well good)
          (drain-InOrder call (suc cnt) _ _ events))
  where
    same : (turn_of call cnt event).event.id ≡ event.id
    same = (handle-IsSameEvent call.requests _ call.consumer (call.turns cnt) event).same_id

    went_well :
        (turn_of call cnt event).failed ≡ false → (turn_of call cnt event).event.state ≡ success
    went_well good = ground (
      arith,
      good,
      handle-Outcome call.requests (is_trusted call) call.consumer (call.turns cnt) event,
    )

saving_iff :
    (max_events cnt : ℕ) (event after : ConsumerEvent) (events : List ConsumerEvent)
    (rest : Drained)
    → after.state ≡ success
    → ((rest.more_events ≡ true) ↔ (
        AllSucceeded rest.saved
        × (suc cnt + length rest.saved ≡ max_events)
        × (max_events < suc cnt + length events)))
    → (rest.more_events ≡ true) ↔ (
        AllSucceeded (after ∷ rest.saved)
        × (cnt + length (after ∷ rest.saved) ≡ max_events)
        × (max_events < cnt + length (event ∷ events)))
saving_iff max_events cnt event after events rest good h = (
  λ e. let (a, b, c) = h.0 e in ((good, a), omega (arith, b), omega (arith, c)),
  λ (a, b, c). h.1 (a.1, omega (arith, b), omega (arith, c)),
)

more_iff :
    (call : Call) (max_events cnt : ℕ) (headers : Option (Dict Value))
    (current : ConsumerHealthState) (events : List ConsumerEvent)
    → call.max_events ≡ some max_events
    → cnt ≤ max_events
    → let result = drain call cnt headers current events in
      (result.more_events ≡ true) ↔ (
        AllSucceeded result.saved
        × (cnt + length result.saved ≡ max_events)
        × (max_events < cnt + length events))
unfolding drain
more_iff call max_events cnt headers current [] limit h = ground arith
more_iff call max_events cnt headers current (event ∷ events) limit h =
    drain_cases
      (λ result. (result.more_events ≡ true) ↔ (
        AllSucceeded result.saved
        × (cnt + length result.saved ≡ max_events)
        × (max_events < cnt + length (event ∷ events))))
      call cnt headers current event events (λ full. ground (arith, h, full, tested))
      (λ room _. ground (arith, h, room, tested)) (λ room bad. ground (arith, bad, outcome))
      (λ room good.
        saving_iff max_events cnt event (turn_of call cnt event).event events
          (drain call (suc cnt) (headers_after call cnt headers) (turn_of call cnt event).health
            events)
          (ground (arith, good, outcome))
          (more_iff call max_events (suc cnt) _ _ events limit (ground (arith, h, room, tested))))
  where
    tested : is_full call.max_events cnt ≡ leb max_events cnt
    tested = rw (limit) refl

    outcome : Outcome call.consumer event (turn_of call cnt event)
    outcome = handle-Outcome call.requests (is_trusted call) call.consumer (call.turns cnt) event

prefix-take :
    (n : ℕ) (saved events : List ConsumerEvent)
    → IsPrefixById saved (take n events)
    → IsPrefixById saved events
unfolding take
prefix-take n [] events h = tt
prefix-take zero (a ∷ saved) events h = absurd h
prefix-take (suc n) (a ∷ saved) [] h = absurd h
prefix-take (suc n) (a ∷ saved) (b ∷ events) h = (h.0, prefix-take n saved events h.1)

prefix-limited :
    (max_events : Option ℕ) (saved events : List ConsumerEvent)
    → IsPrefixById saved (limited max_events events)
    → IsPrefixById saved events
unfolding limited
prefix-limited none saved events h = h
prefix-limited (some max_events) saved events h = prefix-take (suc max_events) saved events h

-- A call handles the first events of its queue in the order of the queue, one request for each, and
-- stops at the first that is refused: all but the last of the events that it saves are SUCCESS. The
-- number it returns is that of the saved events, or one more.
pub try_send_events-InOrder :
    (call : Call) (rows : List ConsumerEvent)
    → let saved = (drained call rows).saved in
      let sent = try_send_events call rows in
      IsPrefixById saved (queue call.consumer rows)
      × AllButLastSucceeded saved
      × (length sent.posted ≡ length saved)
      × (length saved ≤ sent.cnt)
      × (sent.cnt ≤ suc (length saved))
unfolding drained try_send_events
try_send_events-InOrder call rows =
    let events = limited call.max_events (queue call.consumer rows) in
    let h = drain-InOrder call 0 call.consumer.headers call.consumer.health events in
    (
      prefix-limited call.max_events _ _ h.prefix,
      h.stops,
      h.posted,
      omega (arith, h.counted),
      omega (arith, h.closely),
    )

limited_room :
    (max_events : Option ℕ) (n : ℕ) (events : List ConsumerEvent)
    → max_events ≡ some n
    → length (limited max_events events) ≡ min (suc n) (length events)
unfolding limited
limited_room max_events n events e = rw (e, limited) (length-take (suc n) events)

-- A call that is to handle at most `max_events` events says that there are more exactly when it has
-- saved so many, all as SUCCESS, and its queue holds another one.
pub try_send_events-more_iff :
    (call : Call) (rows : List ConsumerEvent) (max_events : ℕ)
    → call.max_events ≡ some max_events
    → let saved = (drained call rows).saved in
      ((try_send_events call rows).more_events ≡ true) ↔ (
        AllSucceeded saved
        × (length saved ≡ max_events)
        × (max_events < length (queue call.consumer rows)))
unfolding drained try_send_events limited
try_send_events-more_iff call rows max_events limit =
    let q = queue call.consumer rows in
    let h =
      more_iff call max_events 0 call.consumer.headers call.consumer.health
        (limited call.max_events q) limit (omega arith) in
    let room = limited_room call.max_events max_events q limit in
    (
      λ e. let (a, b, c) = h.0 e in (a, omega (arith, b), ground (arith, c, room)),
      λ (a, b, c). h.1 (a, omega (arith, b), ground (arith, c, room)),
    )
