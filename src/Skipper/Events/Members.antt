-- ===== src/Skipper/Events/Members.antt =====
-- The events of the query of `try_send_events` are pending rows of the table.
use nfcompose.Shared.{
  ℕ, zero, suc, ◌≡◌, refl, ap, ◌∙◌, ◌⊎◌, false, String, arith, eq_iff, inl, inr, Bool, true, Option,
  none, some, List, [], ◌∷◌, Bool-cases,
}
use mathlib.Core.Path.{subst}
use mathlib.Core.List.{Memᴰ}
use mathlib.Core.List.Memᴰ
use nfcompose.Skipper.Pagination.{take}
use nfcompose.Skipper.Events.{Consumer, ConsumerEvent, is_final}
use nfcompose.Skipper.Events.Queue.{
  is_pending, filter_events, insert_ordered, order_by, leb_of, queue, limited,
}

pub pending_open :
    (consumer : String) (row : ConsumerEvent)
    → is_pending consumer row ≡ true
    → (row.consumer ≡ consumer) × (is_final row.state ≡ false)
unfolding is_pending
pending_open consumer row h = ground (arith, eq_iff row.consumer consumer)

pub is_pending_lem :
    (consumer : String) (row : ConsumerEvent)
    → row.consumer ≡ consumer
    → is_final row.state ≡ false
    → is_pending consumer row ≡ true
unfolding is_pending
is_pending_lem consumer row his h = ground (arith, h, eq_iff row.consumer consumer)

module _ {a : ConsumerEvent} where
  mem_cases : {x : ConsumerEvent} {xs : List ConsumerEvent} → Memᴰ a (x ∷ xs) → (a ≡ x) ⊎ Memᴰ a xs
  mem_cases (Memᴰ.head e) = inl e
  mem_cases (Memᴰ.tail t) = inr t

  pub mem_under :
      {x : ConsumerEvent} {xs ys : List ConsumerEvent}
      → (Memᴰ a xs → Memᴰ a ys)
      → Memᴰ a (x ∷ xs)
      → Memᴰ a (x ∷ ys)
  mem_under f (Memᴰ.head e) = Memᴰ.head e
  mem_under f (Memᴰ.tail t) = Memᴰ.tail (f t)

  pub mem_swap :
      {x y : ConsumerEvent} {xs : List ConsumerEvent} → Memᴰ a (x ∷ y ∷ xs) → Memᴰ a (y ∷ x ∷ xs)
  mem_swap (Memᴰ.head e) = Memᴰ.tail (Memᴰ.head e)
  mem_swap (Memᴰ.tail (Memᴰ.head e)) = Memᴰ.head e
  mem_swap (Memᴰ.tail (Memᴰ.tail t)) = Memᴰ.tail (Memᴰ.tail t)

  mem-filter_events :
      (test : ConsumerEvent → Bool) (rows : List ConsumerEvent)
      → Memᴰ a (filter_events test rows)
      → Memᴰ a rows × (test a ≡ true)
  unfolding filter_events
  mem-filter_events test [] m = absurd (Memᴰ.not-nil m)
  mem-filter_events test (row ∷ rows) m = elim (Bool-cases (test row)) [
    | inl kept ↦ elim (mem_cases (subst (Memᴰ a) (rw (kept, filter_events) refl) m)) [
      | inl e ↦ (Memᴰ.head e, ap test e ∙ kept)
      | inr t ↦ let (there, e) = mem-filter_events test rows t in (Memᴰ.tail there, e)
    ]
    | inr other ↦
        let (there, e) =
          mem-filter_events test rows (subst (Memᴰ a) (rw (other, filter_events) refl) m) in
        (Memᴰ.tail there, e)
  ]

  mem-insert_ordered :
      (le : ConsumerEvent → ConsumerEvent → Bool) (x : ConsumerEvent) (rows : List ConsumerEvent)
      → Memᴰ a (insert_ordered le x rows)
      → Memᴰ a (x ∷ rows)
  unfolding insert_ordered
  mem-insert_ordered le x [] m = m
  mem-insert_ordered le x (row ∷ rows) m = elim (Bool-cases (le x row)) [
    | inl kept ↦ subst (Memᴰ a) (rw (kept, insert_ordered) refl) m
    | inr other ↦ mem_swap (
        mem_under (mem-insert_ordered le x rows)
          (subst (Memᴰ a) (rw (other, insert_ordered) refl) m))
  ]

  mem-order_by :
      (le : ConsumerEvent → ConsumerEvent → Bool) (rows : List ConsumerEvent)
      → Memᴰ a (order_by le rows)
      → Memᴰ a rows
  unfolding order_by
  mem-order_by le [] m = m
  mem-order_by le (row ∷ rows) m =
      mem_under (mem-order_by le rows) (mem-insert_ordered le row (order_by le rows) m)

  mem-take : (n : ℕ) (rows : List ConsumerEvent) → Memᴰ a (take n rows) → Memᴰ a rows
  unfolding take
  mem-take zero rows m = absurd (Memᴰ.not-nil m)
  mem-take (suc n) [] m = m
  mem-take (suc n) (row ∷ rows) m = mem_under (mem-take n rows) m

  mem-limited :
      (max_events : Option ℕ) (events : List ConsumerEvent)
      → Memᴰ a (limited max_events events)
      → Memᴰ a events
  unfolding limited
  mem-limited none events m = m
  mem-limited (some max_events) events m = mem-take (suc max_events) events m

  pub mem-queue :
      (consumer : Consumer) (max_events : Option ℕ) (rows : List ConsumerEvent)
      → Memᴰ a (limited max_events (queue consumer rows))
      → Memᴰ a rows × (a.consumer ≡ consumer.id) × (is_final a.state ≡ false)
  unfolding queue
  mem-queue consumer max_events rows m =
      let (there, pending) =
        mem-filter_events (is_pending consumer.id) rows
          (mem-order_by (leb_of consumer.mode) _ (mem-limited max_events _ m)) in
      let (his, open_) = pending_open consumer.id a pending in (there, his, open_)
