-- ===== src/Skipper/SoftDelete.antt =====
-- Rows that are marked as deleted: skipper/skipper/core/models/softdelete.py. A table holds the rows
-- of one model, `A` is the type of what else a row has. A time is a number.
pub mod Once
pub mod First
use nfcompose.Shared.{
  String, ℕ, Bool, true, false, ◌&&◌, not, Option, none, some, is_some, List, [], ◌∷◌, map,
  if◌then◌else◌, ◌==◌,
}

pub record Row (A : Type 0) : Type 0 where
  pub id : String
  pub deleted_at : Option ℕ
  pub columns : A

-- A queryset is the condition that its filters put on a row.
abbrev pub SoftDeletionQuerySet : Type 0 → Type 0
SoftDeletionQuerySet A = Row A → Bool

module _ {A : Type 0} where
  -- `deleted_at=None`
  abbrev pub is_alive : SoftDeletionQuerySet A
  is_alive row = not (is_some row.deleted_at)

  -- The rows of a queryset, and those that it leaves out.
  unfoldable pub rows_of : SoftDeletionQuerySet A → List (Row A) → List (Row A)
  rows_of qs [] = []
  rows_of qs (row ∷ rows) = let rest = rows_of qs rows in if qs row then row ∷ rest else rest

  unfoldable pub alive : SoftDeletionQuerySet A → SoftDeletionQuerySet A
  alive qs row = qs row && is_alive row

  unfoldable pub dead : SoftDeletionQuerySet A → SoftDeletionQuerySet A
  dead qs row = qs row && not (is_alive row)

  -- `SoftDeletionManager`: `objects` is the one with `alive_only`, `all_objects` the other.
  unfoldable pub prefilter_queryset : Bool → SoftDeletionQuerySet A → SoftDeletionQuerySet A
  prefilter_queryset alive_only qs row = if alive_only then qs row && is_alive row else qs row

  unfoldable pub get_queryset : Bool → SoftDeletionQuerySet A
  get_queryset alive_only = prefilter_queryset alive_only (λ row. true)

  abbrev pub marked : ℕ → Row A → Row A
  marked now row = record { id = row.id; deleted_at = some now; columns = row.columns }

  -- `SoftDeletionQuerySet.delete`
  unfoldable pub queryset_delete : SoftDeletionQuerySet A → ℕ → List (Row A) → List (Row A)
  queryset_delete qs now rows =
      map (λ row. if qs row && is_alive row then marked now row else row) rows

  -- `self.save()`: the row with the key of the instance is overwritten, or there is a new one.
  unfoldable pub save : Row A → List (Row A) → List (Row A)
  save instance_row [] = instance_row ∷ []
  save instance_row (row ∷ rows) =
      let rest = save instance_row rows in
      if row.id == instance_row.id then instance_row ∷ rows else row ∷ rest

  -- `SoftDeletionModel.delete`: the instance and the table afterwards.
  unfoldable pub model_delete : Row A → ℕ → List (Row A) → Row A × List (Row A)
  model_delete self now rows =
      if is_alive self then (marked now self, save (marked now self) rows) else (self, rows)

  -- `hard_delete`, of a queryset and of an instance.
  unfoldable pub queryset_hard_delete : SoftDeletionQuerySet A → List (Row A) → List (Row A)
  queryset_hard_delete qs rows = rows_of (λ row. not (qs row)) rows

  unfoldable pub model_hard_delete : Row A → List (Row A) → List (Row A)
  model_hard_delete self rows = rows_of (λ row. not (row.id == self.id)) rows

  -- The row with this key, as an instance that is read.
  unfoldable pub find : String → List (Row A) → Option (Row A)
  find key [] = none
  find key (row ∷ rows) = if row.id == key then some row else find key rows
