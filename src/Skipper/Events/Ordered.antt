-- ===== src/Skipper/Events/Ordered.antt =====
-- The query of `try_send_events` returns the pending events in the order of the consumer's mode.
use nfcompose.Shared.{
  ℕ, ◌≤◌, ◌<◌, ◌≡◌, sym, ap, ◌∙◌, ◌↔◌, ◌⊎◌, inl, inr, Bool, true, false, Option, none, some, List,
  [], ◌∷◌, arith, Bool-cases, ltb,
}
use mathlib.Core.List.{Memᴰ, Perm}
use mathlib.Core.List.Perm
use nfcompose.Skipper.Events.{
  Consumer, ConsumerEvent, is_final, ConsumerMode, in_order, in_order_non_blocking,
}
use nfcompose.Skipper.Events.Members.{is_pending_lem, mem-queue, mem_swap, mem_under}
use nfcompose.Skipper.Events.Queue.{
  filter_events, is_pending, first_by, leb_nulls_last, insert_ordered, order_by, leb_in_order,
  leb_of, queue, limited,
}

-- The sub clock of an event without one is after all others.
pub data IsSubClockUpTo : Option ℕ → Option ℕ → Type 0 where
  unset : (a : Option ℕ) → IsSubClockUpTo a none
  set : (a b : ℕ) → a ≤ b → IsSubClockUpTo (some a) (some b)

-- The first event is the older one, and of the same time the one that was made first.
pub data IsInTime (a b : ConsumerEvent) : Type 0 where
  earlier : a.point_in_time < b.point_in_time → IsInTime a b
  made_before : a.point_in_time ≡ b.point_in_time → a.id < b.id → IsInTime a b
  by_sub_clock :
      a.point_in_time ≡ b.point_in_time
      → a.id ≡ b.id
      → IsSubClockUpTo a.sub_clock b.sub_clock
      → IsInTime a b

-- Where failures do not block, the event that has failed less often is first.
pub IsInTurn : ConsumerMode → ConsumerEvent → ConsumerEvent → Type 0
IsInTurn in_order a b = IsInTime a b
IsInTurn in_order_non_blocking a b =
    (a.retries < b.retries) ⊎ ((a.retries ≡ b.retries) × IsInTime a b)

-- Each event is in turn with the next one.
pub AllInTurn : ConsumerMode → List ConsumerEvent → Type 0
AllInTurn mode [] = Unit
AllInTurn mode (a ∷ []) = Unit
AllInTurn mode (a ∷ b ∷ rows) = IsInTurn mode a b × AllInTurn mode (b ∷ rows)

first_by-cases :
    (a b : ℕ) (later : Bool) → first_by a b later ≡ true → (a < b) ⊎ ((a ≡ b) × (later ≡ true))
first_by-cases a b later h = elim (Bool-cases (ltb a b)) [
  | inl less ↦ inl (ground (arith, less))
  | inr other ↦ inr (ground (arith, h, other), ground (arith, h, other))
]

leb_nulls_last-IsSubClockUpTo : (a b : Option ℕ) → leb_nulls_last a b ≡ true → IsSubClockUpTo a b
leb_nulls_last-IsSubClockUpTo a none h = unset a
leb_nulls_last-IsSubClockUpTo none (some b) h = absurd (ground (arith, h))
leb_nulls_last-IsSubClockUpTo (some a) (some b) h = set a b (ground (arith, h))

leb_in_order-IsInTime : (a b : ConsumerEvent) → leb_in_order a b ≡ true → IsInTime a b
unfolding leb_in_order
leb_in_order-IsInTime a b h = elim (first_by-cases a.point_in_time b.point_in_time _ h) [
  | inl older ↦ earlier older
  | inr (at_once, more) ↦ elim (first_by-cases a.id b.id _ more) [
    | inl first ↦ made_before at_once first
    | inr (same, last) ↦ by_sub_clock at_once same (leb_nulls_last-IsSubClockUpTo _ _ last)
  ]
]

leb_of-IsInTurn :
    (mode : ConsumerMode) (a b : ConsumerEvent) → leb_of mode a b ≡ true → IsInTurn mode a b
unfolding leb_of IsInTurn
leb_of-IsInTurn in_order a b h = leb_in_order-IsInTime a b h
leb_of-IsInTurn in_order_non_blocking a b h = elim (first_by-cases a.retries b.retries _ h) [
  | inl fewer ↦ inl fewer
  | inr (same, later) ↦ inr (same, leb_in_order-IsInTime a b later)
]

IsOrdered : (ConsumerEvent → ConsumerEvent → Bool) → List ConsumerEvent → Type 0
IsOrdered le [] = Unit
IsOrdered le (a ∷ []) = Unit
IsOrdered le (a ∷ b ∷ rows) = (le a b ≡ true) × IsOrdered le (b ∷ rows)

IsOrdered-AllInTurn :
    (mode : ConsumerMode) (rows : List ConsumerEvent)
    → IsOrdered (leb_of mode) rows
    → AllInTurn mode rows
unfolding AllInTurn IsOrdered
IsOrdered-AllInTurn mode [] h = tt
IsOrdered-AllInTurn mode (a ∷ []) h = tt
IsOrdered-AllInTurn mode (a ∷ b ∷ rows) (h, rest) =
    (leb_of-IsInTurn mode a b h, IsOrdered-AllInTurn mode (b ∷ rows) rest)

leb_in_order_total : (a b : ConsumerEvent) → leb_in_order a b ≡ false → leb_in_order b a ≡ true
unfolding leb_in_order
leb_in_order_total a b h = ground arith

leb_of_total :
    (mode : ConsumerMode) (a b : ConsumerEvent) → leb_of mode a b ≡ false → leb_of mode b a ≡ true
unfolding leb_of
leb_of_total in_order a b h = leb_in_order_total a b h
leb_of_total in_order_non_blocking a b h = ground (arith, h, leb_in_order_total a b)

module _ (le : ConsumerEvent → ConsumerEvent → Bool)
    (total : (a b : ConsumerEvent) → le a b ≡ false → le b a ≡ true) where
  -- Behind an event that is before all others only what was there or the new one can follow.
  insert-IsOrdered :
      (x : ConsumerEvent) (rows : List ConsumerEvent)
      → IsOrdered le rows
      → IsOrdered le (insert_ordered le x rows)
  unfolding insert_ordered IsOrdered
  insert-IsOrdered x [] h = tt
  insert-IsOrdered x (a ∷ []) h = ground (arith, total x a)
  insert-IsOrdered x (a ∷ b ∷ rows) h =
      ground (arith, total x a, total x b, h, insert-IsOrdered x (b ∷ rows))

  order_by-IsOrdered : (rows : List ConsumerEvent) → IsOrdered le (order_by le rows)
  unfolding order_by IsOrdered
  order_by-IsOrdered [] = tt
  order_by-IsOrdered (row ∷ rows) =
      insert-IsOrdered row (order_by le rows) (order_by-IsOrdered rows)

insert-Perm :
    (le : ConsumerEvent → ConsumerEvent → Bool) (x : ConsumerEvent) (rows : List ConsumerEvent)
    → Perm (insert_ordered le x rows) (x ∷ rows)
unfolding insert_ordered
insert-Perm le x [] = Perm.refl (x ∷ [])
insert-Perm le x (row ∷ rows) = elim (Bool-cases (le x row)) [
  | inl first ↦ rw (first, insert_ordered) (Perm.refl (x ∷ row ∷ rows))
  | inr other ↦
      rw (other, insert_ordered)
        (Perm.trans (Perm.cons row (insert-Perm le x rows)) (Perm.swap x row rows))
]

order_by-Perm :
    (le : ConsumerEvent → ConsumerEvent → Bool) (rows : List ConsumerEvent)
    → Perm (order_by le rows) rows
unfolding order_by
order_by-Perm le [] = Perm.refl []
order_by-Perm le (row ∷ rows) =
    Perm.trans (insert-Perm le row (order_by le rows)) (Perm.cons row (order_by-Perm le rows))

module _ {a : ConsumerEvent} where
  insert-mem :
      (le : ConsumerEvent → ConsumerEvent → Bool) (x : ConsumerEvent) (rows : List ConsumerEvent)
      → Memᴰ a (x ∷ rows)
      → Memᴰ a (insert_ordered le x rows)
  unfolding insert_ordered
  insert-mem le x [] m = m
  insert-mem le x (row ∷ rows) m = elim (Bool-cases (le x row)) [
    | inl first ↦ rw (first, insert_ordered) m
    | inr other ↦ rw (other, insert_ordered) (mem_under (insert-mem le x rows) (mem_swap m))
  ]

  order-mem :
      (le : ConsumerEvent → ConsumerEvent → Bool) (rows : List ConsumerEvent)
      → Memᴰ a rows
      → Memᴰ a (order_by le rows)
  unfolding order_by
  order-mem le [] m = m
  order-mem le (row ∷ rows) m =
      insert-mem le row (order_by le rows) (mem_under (order-mem le rows) m)

  filter-mem :
      (test : ConsumerEvent → Bool) (rows : List ConsumerEvent)
      → test a ≡ true
      → Memᴰ a rows
      → Memᴰ a (filter_events test rows)
  unfolding filter_events
  filter-mem test [] h m = m
  filter-mem test (row ∷ rows) h (Memᴰ.head e) =
      rw (sym (ap test e) ∙ h, filter_events) (Memᴰ.head e)
  filter-mem test (row ∷ rows) h (Memᴰ.tail t) = elim (Bool-cases (test row)) [
    | inl taken ↦ rw (taken, filter_events) (Memᴰ.tail (filter-mem test rows h t))
    | inr other ↦ rw (other, filter_events) (filter-mem test rows h t)
  ]

-- The queue of a consumer holds each of its rows that are neither FAILED nor SUCCESS as often as the
-- table does, and no others. An event is never behind one that is younger, or of the same time and
-- made later; where failures do not block the one that has failed less often is first, and only
-- among equals the older one.
pub queue-AllInTurn :
    (consumer : Consumer) (rows : List ConsumerEvent)
    → AllInTurn consumer.mode (queue consumer rows)
      × Perm (queue consumer rows) (filter_events (is_pending consumer.id) rows)
      × ((row : ConsumerEvent)
          → Memᴰ row (queue consumer rows)
            ↔ (Memᴰ row rows × (row.consumer ≡ consumer.id) × (is_final row.state ≡ false)))
unfolding queue limited
queue-AllInTurn consumer rows = (
  IsOrdered-AllInTurn consumer.mode _
      (order_by-IsOrdered (leb_of consumer.mode) (leb_of_total consumer.mode) _),
  order_by-Perm (leb_of consumer.mode) _,
  λ row. (
    λ m. mem-queue consumer none rows m,
    λ (there, his, open_).
        order-mem _ _ (filter-mem _ rows (is_pending_lem consumer.id row his open_) there),
  ),
)
