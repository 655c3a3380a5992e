-- ===== src/Skipper/Events/Progress.antt =====
-- What the calls of `try_send_events` come to: the limit of retries holds, and the events end.
use nfcompose.Shared.{
  String, ℕ, ◌+◌, ◌≤◌, ◌<◌, ◌≡◌, refl, sym, ap, ◌∙◌, inl, inr, true, false, Option, List, [], ◌∷◌,
  map, arith, eqb, none, some, if◌then◌else◌,
}
use mathlib.Core.Path.{subst}
use mathlib.Core.List.{Memᴰ}
use mathlib.Core.List.Memᴰ
use nfcompose.Skipper.Events.{Consumer, ConsumerEvent, ConsumerHealthState}
use nfcompose.Skipper.Events.Lifecycle.{handle-IsSameEvent}
use nfcompose.Skipper.Events.Retries.{
  WithinRetries, Attempted-WithinRetries, remaining, Attempted-remaining,
}
use nfcompose.Skipper.Events.Members.{mem-queue, is_pending_lem}
use nfcompose.Skipper.Events.Table.{
  HasOwnIds, WasAttempted, latest, latest-cases, hit-WasAttempted, rows_map,
  try_send_events-WasAttempted,
}
use nfcompose.Shared.Dict.{Dict}
use nfcompose.Shared.Value.{Value}
use nfcompose.Skipper.Pagination.{take}
use nfcompose.Skipper.Events.Attempt.{is_waiting}
use nfcompose.Skipper.Events.Drain.{Call, is_full, is_trusted, drain}
use nfcompose.Skipper.Events.Turns.{turn_of, drain_cases}
use nfcompose.Skipper.Events.Queue.{is_pending, queue, limited, drained, try_send_events}

-- Each event of the consumer is within its limit.
abbrev pub AllWithinRetries : Consumer → List ConsumerEvent → Type 0
AllWithinRetries consumer rows =
    (row : ConsumerEvent) → Memᴰ row rows → row.consumer ≡ consumer.id → WithinRetries consumer row

mem-map :
    (f : ConsumerEvent → ConsumerEvent) (rows : List ConsumerEvent) (b : ConsumerEvent)
    → Memᴰ b (map f rows)
    → (a : ConsumerEvent) × Memᴰ a rows × (b ≡ f a)
mem-map f [] b m = absurd (Memᴰ.not-nil m)
mem-map f (row ∷ rows) b (Memᴰ.head e) = (row, Memᴰ.head refl, e)
mem-map f (row ∷ rows) b (Memᴰ.tail t) =
    let (a, there, e) = mem-map f rows b t in (a, Memᴰ.tail there, e)

-- Where the rows have different ids, a call keeps the consumer's events within its limit of retries:
-- with a limit, FAILED events have one retry more than it allows, and all others at most as many as
-- it allows; without one no event is FAILED.
pub try_send_events-WithinRetries :
    (call : Call) (rows : List ConsumerEvent)
    → HasOwnIds rows
    → AllWithinRetries call.consumer rows
    → AllWithinRetries call.consumer (try_send_events call rows).rows
try_send_events-WithinRetries call rows own within b m mine =
    let (after, e, each) = try_send_events-WasAttempted call rows own in
    let (a, there, f) = mem-map after rows b (subst (Memᴰ b) e m) in
    subst (WithinRetries call.consumer) (sym f) (elim (each a there) [
      | inl same ↦
          subst (WithinRetries call.consumer) (sym same)
            (within a there (ap consumer_of (sym same ∙ sym f) ∙ mine))
      | inr (his, open_, _, attempted) ↦
          Attempted-WithinRetries call.consumer a (after a) open_ attempted (within a there his)
    ])
  where
    consumer_of : ConsumerEvent → String
    consumer_of x = x.consumer

-- The attempts that the consumer still has for its pending events.
unfoldable pub owed : Consumer → ConsumerEvent → ℕ
owed consumer row = if is_pending consumer.id row then remaining consumer row else 0

unfoldable pub total_owed : Consumer → List ConsumerEvent → ℕ
total_owed consumer [] = 0
total_owed consumer (row ∷ rows) = owed consumer row + total_owed consumer rows

attempted-owed :
    (consumer : Consumer) (a b : ConsumerEvent)
    → 0 < consumer.retry_max
    → WithinRetries consumer a
    → WasAttempted consumer a b
    → owed consumer b < owed consumer a
unfolding owed
attempted-owed consumer a b limit within (his, open_, _, attempted) = ground (
  arith,
  is_pending_lem consumer.id a his open_,
  Attempted-remaining consumer a b limit open_ within attempted,
)

total-le :
    (consumer : Consumer) (f : ConsumerEvent → ConsumerEvent) (rows : List ConsumerEvent)
    → ((row : ConsumerEvent) → Memᴰ row rows → owed consumer (f row) ≤ owed consumer row)
    → total_owed consumer (map f rows) ≤ total_owed consumer rows
unfolding total_owed
total-le consumer f [] h = omega arith
total-le consumer f (row ∷ rows) h =
    omega (arith, h row (Memᴰ.head refl), total-le consumer f rows (λ r m. h r (Memᴰ.tail m)))

total-lt :
    (consumer : Consumer) (f : ConsumerEvent → ConsumerEvent) (rows : List ConsumerEvent)
    (hit : ConsumerEvent)
    → ((row : ConsumerEvent) → Memᴰ row rows → owed consumer (f row) ≤ owed consumer row)
    → Memᴰ hit rows
    → owed consumer (f hit) < owed consumer hit
    → total_owed consumer (map f rows) < total_owed consumer rows
unfolding total_owed
total-lt consumer f [] hit h m less = absurd (Memᴰ.not-nil m)
total-lt consumer f (row ∷ rows) hit h (Memᴰ.head e) less = omega (
  arith,
  subst (λ r. owed consumer (f r) < owed consumer r) e less,
  total-le consumer f rows (λ r m. h r (Memᴰ.tail m)),
)
total-lt consumer f (row ∷ rows) hit h (Memᴰ.tail m) less =
    omega (
      arith,
      h row (Memᴰ.head refl),
      total-lt consumer f rows hit (λ r t. h r (Memᴰ.tail t)) m less,
    )

limited-cons :
    (max_events : Option ℕ) (event : ConsumerEvent) (events : List ConsumerEvent)
    → (rest : List ConsumerEvent) × (limited max_events (event ∷ events) ≡ event ∷ rest)
unfolding limited take
limited-cons none event events = (events, refl)
limited-cons (some max_events) event events = (take max_events events, refl)

-- The first event of the queue is saved, if it need not wait.
first_saved :
    (call : Call) (headers : Option (Dict Value)) (current : ConsumerHealthState)
    (event : ConsumerEvent) (events : List ConsumerEvent)
    → is_full call.max_events 0 ≡ false
    → is_waiting (call.turns 0).checked_at event ≡ false
    → (rest : List ConsumerEvent) × ((drain call 0 headers current (event ∷ events)).saved
        ≡ (turn_of call 0 event).event ∷ rest)
first_saved call headers current event events some_allowed due =
    drain_cases (λ d. (rest : List ConsumerEvent) × (d.saved ≡ (turn_of call 0 event).event ∷ rest))
      call 0 headers current event events (λ full. ground (arith, full, some_allowed))
      (λ _ wait. ground (arith, wait, due)) (λ _ _. (_, refl)) (λ _ _. (_, refl))

latest-hit :
    (saved rest : List ConsumerEvent) (row after : ConsumerEvent)
    → saved ≡ after ∷ rest
    → after.id ≡ row.id
    → Memᴰ (latest saved row) saved × ((latest saved row).id ≡ row.id)
unfolding latest
latest-hit saved rest row after e same =
    subst (λ l. Memᴰ (latest l row) l × ((latest l row).id ≡ row.id)) (sym e)
      (rw (hit, latest)
        (elim (latest-cases rest after) [
          | inl kept ↦ (Memᴰ.head kept, ap id kept ∙ same)
          | inr (found, f) ↦ (Memᴰ.tail found, f ∙ same)
        ]))
  where
    id : ConsumerEvent → ℕ
    id x = x.id

    hit : eqb row.id after.id ≡ true
    hit = ground (arith, same)

queue_saved :
    (call : Call) (rows : List ConsumerEvent) (event : ConsumerEvent) (events : List ConsumerEvent)
    → queue call.consumer rows ≡ event ∷ events
    → is_full call.max_events 0 ≡ false
    → is_waiting (call.turns 0).checked_at event ≡ false
    → (rest : List ConsumerEvent) × ((drained call rows).saved
        ≡ (turn_of call 0 event).event ∷ rest)
unfolding drained
queue_saved call rows event events queued some_allowed due =
    let (rest, e) = limited-cons call.max_events event events in
    subst
      (λ l.
        (rest' : List ConsumerEvent) × ((drain call 0 call.consumer.headers call.consumer.health
            l).saved
          ≡ (turn_of call 0 event).event ∷ rest'))
      (sym (ap (limited call.max_events) queued ∙ e))
      (first_saved call _ _ event rest some_allowed due)

queue_first :
    (consumer : Consumer) (rows : List ConsumerEvent) (event : ConsumerEvent)
    (events : List ConsumerEvent)
    → queue consumer rows ≡ event ∷ events
    → Memᴰ event rows
unfolding limited
queue_first consumer rows event events queued =
    (mem-queue consumer none rows (subst (Memᴰ event) (sym queued) (Memᴰ.head refl))).0

attempted_less :
    (call : Call) (rows : List ConsumerEvent)
    → HasOwnIds rows
    → AllWithinRetries call.consumer rows
    → 0 < call.consumer.retry_max
    → (row after : ConsumerEvent) → Memᴰ row rows
    → WasAttempted call.consumer row after
    → owed call.consumer after < owed call.consumer row
attempted_less call rows own within limit row after there (his, open_, kept, done) =
    attempted-owed call.consumer row after limit (within row there his) (his, open_, kept, done)

-- No row is owed more than before.
owed-latest :
    (call : Call) (rows : List ConsumerEvent)
    → HasOwnIds rows
    → AllWithinRetries call.consumer rows
    → 0 < call.consumer.retry_max
    → (row : ConsumerEvent) → Memᴰ row rows
    → owed call.consumer (latest (drained call rows).saved row) ≤ owed call.consumer row
owed-latest call rows own within limit row there =
    elim (latest-cases (drained call rows).saved row) [
      | inl same ↦
          subst (λ r. owed call.consumer r ≤ owed call.consumer row) (sym same) (omega arith)
      | inr (found, same) ↦ omega (
        arith,
        attempted_less call rows own within limit row _ there
            (hit-WasAttempted call rows row _ own there found same),
      )
    ]

-- With a limit of retries, each call that may send something and whose first event need not wait
-- leaves the consumer fewer attempts to make for its pending events, where the rows have different
-- ids and are within the limit.
pub try_send_events-progress :
    (call : Call) (rows : List ConsumerEvent) (event : ConsumerEvent) (events : List ConsumerEvent)
    → HasOwnIds rows
    → AllWithinRetries call.consumer rows
    → 0 < call.consumer.retry_max
    → queue call.consumer rows ≡ event ∷ events
    → is_full call.max_events 0 ≡ false
    → is_waiting (call.turns 0).checked_at event ≡ false
    → total_owed call.consumer (try_send_events call rows).rows < total_owed call.consumer rows
try_send_events-progress call rows event events own within limit queued some_allowed due =
    let (rest, e) = queue_saved call rows event events queued some_allowed due in
    let there = queue_first call.consumer rows event events queued in
    let identical =
      handle-IsSameEvent call.requests (is_trusted call) call.consumer (call.turns 0) event in
    let (found, same) = latest-hit _ rest event _ e identical.same_id in
    subst (λ l. total_owed call.consumer l < total_owed call.consumer rows)
      (sym (rows_map call rows))
      (total-lt call.consumer _ rows event (owed-latest call rows own within limit) there (
        attempted_less call rows own within limit event _ there
          (hit-WasAttempted call rows event _ own there found same)))
