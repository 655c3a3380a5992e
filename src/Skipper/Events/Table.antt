-- ===== src/Skipper/Events/Table.antt =====
-- What a call of `try_send_events` does to the table of events.
use nfcompose.Shared.{
  ℕ, suc, ◌≡◌, refl, sym, ap, ◌∙◌, ◌⊎◌, inl, inr, true, false, Option, List, [], ◌∷◌, map, arith,
  eqb, Bool-cases, if◌then◌else◌,
}
use mathlib.Core.List.{Memᴰ}
use mathlib.Core.List.Memᴰ
use mathlib.Core.Path.{subst}
use nfcompose.Skipper.Events.{Consumer, ConsumerEvent, ConsumerHealthState, is_final}
use nfcompose.Shared.Dict.{Dict}
use nfcompose.Shared.Value.{Value}
use nfcompose.Skipper.Events.Drain.{Call, drain, is_trusted}
use nfcompose.Skipper.Events.Turns.{turn_of, drain_cases}
use nfcompose.Skipper.Events.Lifecycle.{
  IsSameEvent, Attempted, delivered, refused, handle-IsSameEvent, handle-Outcome,
}
use nfcompose.Skipper.Events.Members.{mem-queue}
use nfcompose.Skipper.Events.Queue.{save, save_all, drained, try_send_events}

-- The row as it is after the events have been saved.
unfoldable pub latest : List ConsumerEvent → ConsumerEvent → ConsumerEvent
latest [] row = row
latest (event ∷ saved) row = latest saved (if eqb row.id event.id then event else row)

save-map :
    (event : ConsumerEvent) (rows : List ConsumerEvent)
    → save event rows ≡ map (λ row. if eqb row.id event.id then event else row) rows
unfolding save
save-map event [] = refl
save-map event (row ∷ rows) = ground (arith, save-map event rows)

map-map :
    (f g : ConsumerEvent → ConsumerEvent) (rows : List ConsumerEvent)
    → map g (map f rows) ≡ map (λ row. g (f row)) rows
map-map f g [] = refl
map-map f g (row ∷ rows) = ap (λ rest. g (f row) ∷ rest) (map-map f g rows)

map_self : (rows : List ConsumerEvent) → map (λ row. row) rows ≡ rows
map_self [] = refl
map_self (row ∷ rows) = ap (λ rest. row ∷ rest) (map_self rows)

pub save_all-map : (saved rows : List ConsumerEvent) → save_all saved rows ≡ map (latest saved) rows
unfolding save_all latest
save_all-map [] rows = sym (map_self rows)
save_all-map (event ∷ saved) rows =
    save_all-map saved (save event rows)
    ∙ (ap (map (latest saved)) (save-map event rows) ∙ map-map _ (latest saved) rows)

-- A row is as it was, or is one of the saved events with its id.
pub latest-cases :
    (saved : List ConsumerEvent) (row : ConsumerEvent)
    → (latest saved row ≡ row) ⊎ (Memᴰ (latest saved row) saved × ((latest saved row).id ≡ row.id))
unfolding latest
latest-cases [] row = inl refl
latest-cases (event ∷ saved) row = elim (Bool-cases (eqb row.id event.id)) [
  | inl mine ↦
      rw (mine, latest)
        (elim (latest-cases saved event) [
          | inl same ↦ inr (Memᴰ.head same, ap id same ∙ sym (same_id row event mine))
          | inr (found, e) ↦ inr (Memᴰ.tail found, e ∙ sym (same_id row event mine))
        ])
  | inr other ↦
      rw (other, latest)
        (elim (latest-cases saved row) [
          | inl same ↦ inl same
          | inr (found, e) ↦ inr (Memᴰ.tail found, e)
        ])
]
  where
    id : ConsumerEvent → ℕ
    id x = x.id

    same_id : (a b : ConsumerEvent) → eqb a.id b.id ≡ true → a.id ≡ b.id
    same_id a b h = ground arith

-- An event that an attempt was made for, with what became of it.
abbrev pub Follows : Consumer → List ConsumerEvent → ConsumerEvent → Type 0
Follows consumer events after =
    (before : ConsumerEvent) × Memᴰ before events
    × IsSameEvent before after
    × Attempted consumer before after

turn-Follows :
    (call : Call) (cnt : ℕ) (event : ConsumerEvent) (events : List ConsumerEvent)
    → Follows call.consumer (event ∷ events) (turn_of call cnt event).event
turn-Follows call cnt event events = (
  event,
  Memᴰ.head refl,
  handle-IsSameEvent _ _ _ _ event,
  elim (handle-Outcome call.requests (is_trusted call) call.consumer (call.turns cnt) event) [
    | inl (d, _, _) ↦ delivered d
    | inr (r, _, _) ↦ refused r
  ],
)

saved-Follows :
    (call : Call) (cnt : ℕ) (headers : Option (Dict Value)) (current : ConsumerHealthState)
    (events : List ConsumerEvent) (after : ConsumerEvent)
    → Memᴰ after (drain call cnt headers current events).saved
    → Follows call.consumer events after
unfolding drain
saved-Follows call cnt headers current [] after found = absurd (Memᴰ.not-nil found)
saved-Follows call cnt headers current (event ∷ events) after found =
    drain_cases (λ d. Memᴰ after d.saved → Follows call.consumer (event ∷ events) after) call cnt
      headers current event events (λ _ m. absurd (Memᴰ.not-nil m))
      (λ _ _ m. absurd (Memᴰ.not-nil m)) (λ _ _ m. first_or m λ t. absurd (Memᴰ.not-nil t))
      (λ _ _ m. first_or m λ t.
        let (before, there, same, done) = saved-Follows call (suc cnt) _ _ events after t in
        (before, Memᴰ.tail there, same, done))
      found
  where
    first_or :
        {rest : List ConsumerEvent}
        → Memᴰ after ((turn_of call cnt event).event ∷ rest)
        → (Memᴰ after rest → Follows call.consumer (event ∷ events) after)
        → Follows call.consumer (event ∷ events) after
    first_or (Memᴰ.head e) k =
        subst (Follows call.consumer (event ∷ events)) (sym e) (turn-Follows call cnt event events)
    first_or (Memᴰ.tail t) k = k t

-- Different rows have different ids.
abbrev pub HasOwnIds : List ConsumerEvent → Type 0
HasOwnIds rows = (a b : ConsumerEvent) → Memᴰ a rows → Memᴰ b rows → a.id ≡ b.id → a ≡ b

-- The row was pending, and an attempt was made for it.
abbrev pub WasAttempted : Consumer → ConsumerEvent → ConsumerEvent → Type 0
WasAttempted consumer before after =
    (before.consumer ≡ consumer.id)
    × (is_final before.state ≡ false)
    × IsSameEvent before after
    × Attempted consumer before after

pub hit-WasAttempted :
    (call : Call) (rows : List ConsumerEvent) (row after : ConsumerEvent)
    → HasOwnIds rows
    → Memᴰ row rows
    → Memᴰ after (drained call rows).saved
    → after.id ≡ row.id
    → WasAttempted call.consumer row after
unfolding drained
hit-WasAttempted call rows row after own there found same =
    let (before, queued, identical, done) = saved-Follows call _ _ _ _ after found in
    let (here, his, open_) = mem-queue call.consumer call.max_events rows queued in
    subst (λ r. WasAttempted call.consumer r after)
      (own before row here there (sym identical.same_id ∙ same)) (his, open_, identical, done)

pub rows_map :
    (call : Call) (rows : List ConsumerEvent)
    → (try_send_events call rows).rows ≡ map (latest (drained call rows).saved) rows
unfolding try_send_events
rows_map call rows = save_all-map (drained call rows).saved rows

-- A call leaves every row of the table in its place, where the rows have different ids. A row is
-- left as it is, or it is one of the consumer's that is neither FAILED nor SUCCESS, keeps what identifies it, and either was
-- delivered (SUCCESS, no exception, as many retries as before) or was refused (one retry more, and
-- FAILED or RETRY by the consumer's limit).
pub try_send_events-WasAttempted :
    (call : Call) (rows : List ConsumerEvent)
    → HasOwnIds rows
    → (after : ConsumerEvent → ConsumerEvent) × ((try_send_events call rows).rows ≡ map after rows)
      × ((row : ConsumerEvent)
          → Memᴰ row rows
          → (after row ≡ row) ⊎ WasAttempted call.consumer row (after row))
try_send_events-WasAttempted call rows own = (
  latest (drained call rows).saved,
  rows_map call rows,
  λ row there. elim (latest-cases (drained call rows).saved row) [
    | inl same ↦ inl same
    | inr (found, same) ↦ inr (hit-WasAttempted call rows row _ own there found same)
  ],
)
