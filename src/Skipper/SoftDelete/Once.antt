-- ===== src/Skipper/SoftDelete/Once.antt =====
-- One deletion, of a queryset or of an instance, row by row.
use nfcompose.Shared.{
  String, ℕ, ◌≡◌, refl, sym, ap, ◌∙◌, Bool, true, false, ◌&&◌, Option, none, some, List, [], ◌∷◌,
  map, if◌then◌else◌, ◌==◌, arith, Distinct, contains, Bool-cases, Option-cases, inl, inr,
}
use nfcompose.Skipper.SoftDelete.{
  Row, SoftDeletionQuerySet, is_alive, marked, queryset_delete, save, model_delete, find,
}
use mathlib.Core.Path.{subst}
use text.Mathlib.TextEquality.{eq_iff}

-- A deletion of the rows of a queryset, or of an instance, which was read from the table at any time
-- before.
pub data Deletion (A : Type 0) : Type 0 where
  by_queryset : SoftDeletionQuerySet A → ℕ → Deletion A
  by_instance : Row A → ℕ → Deletion A

abbrev pub or_else : Option ℕ → Option ℕ → Option ℕ
or_else none later = later
or_else (some now) later = some now

module _ {A : Type 0} where
  unfoldable pub delete_once : Deletion A → List (Row A) → List (Row A)
  delete_once (by_queryset qs now) rows = queryset_delete qs now rows
  delete_once (by_instance self now) rows = (model_delete self now rows).1

  unfoldable pub delete_all : List (Deletion A) → List (Row A) → List (Row A)
  delete_all [] rows = rows
  delete_all (deletion ∷ deletions) rows = delete_all deletions (delete_once deletion rows)

  abbrev pub NextAreCurrent : (List (Row A) → Type 0) → Deletion A → List (Row A) → Type 0
  NextAreCurrent rest (by_queryset qs now) rows = rest (delete_once (by_queryset qs now) rows)
  NextAreCurrent rest (by_instance self now) rows =
      (find self.id rows ≡ some self) × rest (delete_once (by_instance self now) rows)

  -- When an instance is deleted, it is still what the table has under its key.
  unfoldable pub AreCurrent : List (Deletion A) → List (Row A) → Type 0
  AreCurrent [] rows = Unit
  AreCurrent (deletion ∷ deletions) rows = NextAreCurrent (AreCurrent deletions) deletion rows

  abbrev pub ids : List (Row A) → List String
  ids [] = []
  ids (row ∷ rows) = row.id ∷ ids rows

  -- The time of a deletion that is about a row.
  abbrev pub time_for : Deletion A → Row A → Option ℕ
  time_for (by_queryset qs now) row = if qs row then some now else none
  time_for (by_instance self now) row = if row.id == self.id then some now else none

  -- The time of the first of the deletions that are about a row as it is.
  unfoldable pub first_time : List (Deletion A) → Row A → Option ℕ
  first_time [] row = none
  first_time (deletion ∷ deletions) row = or_else (time_for deletion row) (first_time deletions row)

  abbrev pub with_time : Option ℕ → Row A → Row A
  with_time time row = record {
    id = row.id;
    deleted_at = or_else row.deleted_at time;
    columns = row.columns;
  }

  abbrev pub row_of : String → Option ℕ → A → Row A
  row_of i time columns = record { id = i; deleted_at = time; columns = columns }

  unfoldable pub once : Deletion A → Row A → Row A
  once deletion row = with_time (time_for deletion row) row

  -- The deletion of the row with a key.
  unfoldable once_key : String → ℕ → Row A → Row A
  once_key key now row = with_time (if row.id == key then some now else none) row

  unfoldable delete_found : Option (Row A) → ℕ → List (Row A) → List (Row A)
  delete_found none now rows = rows
  delete_found (some self) now rows = (model_delete self now rows).1

  once_row :
      (hit : Bool) (now : ℕ) (key : String) (time : Option ℕ) (columns : A)
      → let row = row_of key time columns in
        (if hit && is_alive row then marked now row else row)
        ≡ with_time (if hit then some now else none) row
  once_row true now key none columns = refl
  once_row true now key (some time) columns = refl
  once_row false now key none columns = refl
  once_row false now key (some time) columns = refl

  once-queryset :
      (qs : Row A → Bool) (now : ℕ) (rows : List (Row A))
      → queryset_delete qs now rows ≡ map (once (by_queryset qs now)) rows
  unfolding queryset_delete once
  once-queryset qs now [] = refl
  once-queryset qs now (row ∷ rows) =
      rw (once_row (qs row) now row.id row.deleted_at row.columns)
        (ap (λ rest. once (by_queryset qs now) row ∷ rest) (once-queryset qs now rows))

  pub with_time-none :
      (i : String) (time : Option ℕ) (columns : A)
      → with_time none (row_of i time columns) ≡ row_of i time columns
  with_time-none i none columns = refl
  with_time-none i (some time) columns = refl

  once_other :
      (key : String) (now : ℕ) (row : Row A) → (row.id == key) ≡ false → once_key key now row ≡ row
  unfolding once_key
  once_other key now row h = rw (h) (with_time-none row.id row.deleted_at row.columns)

  once_same :
      (key : String) (now : ℕ) (row : Row A)
      → (row.id == key) ≡ true
      → once_key key now row ≡ with_time (some now) row
  unfolding once_key
  once_same key now row h = rw (h) refl

  once-absent :
      (key : String) (now : ℕ) (rows : List (Row A))
      → contains (ids rows) key ≡ false
      → map (once_key key now) rows ≡ rows
  once-absent key now [] h = refl
  once-absent key now (row ∷ rows) h =
      rw (once_other key now row (ground (arith, h)), once-absent key now rows (ground (arith, h)))
        refl

  delete_found_head :
      (now : ℕ) (row : Row A) (rows : List (Row A))
      → delete_found (some row) now (row ∷ rows) ≡ with_time (some now) row ∷ rows
  unfolding delete_found model_delete save
  delete_found_head now row rows = by_time row.id row.deleted_at row.columns
    where
      by_time :
          (i : String) (time : Option ℕ) (columns : A)
          → let row = row_of i time columns in
            delete_found (some row) now (row ∷ rows) ≡ with_time (some now) row ∷ rows
      by_time i none columns = rw ((eq_iff i i).1 refl) refl
      by_time i (some time) columns = refl

  delete_found_tail :
      (now : ℕ) (self row : Row A) (rows : List (Row A))
      → (row.id == self.id) ≡ false
      → delete_found (some self) now (row ∷ rows) ≡ row ∷ delete_found (some self) now rows
  unfolding delete_found model_delete save
  delete_found_tail now self row rows h = ground (arith, h)

  id-find :
      (key : String) (rows : List (Row A)) (self : Row A)
      → find key rows ≡ some self
      → self.id ≡ key
  unfolding find
  id-find key [] self h = absurd (ground (arith, h))
  id-find key (row ∷ rows) self h = ground (arith, h, eq_iff row.id key, id-find key rows self)

  delete_found-none : (now : ℕ) (rows : List (Row A)) → delete_found none now rows ≡ rows
  unfolding delete_found
  delete_found-none now rows = refl

  delete_found_skip :
      (key : String) (now : ℕ) (row : Row A) (rows : List (Row A))
      → (row.id == key) ≡ false
      → delete_found (find key rows) now (row ∷ rows) ≡ row ∷ delete_found (find key rows) now rows
  unfolding delete_found
  delete_found_skip key now row rows h = elim (Option-cases (find key rows)) [
    | inl missing ↦ rw (missing) refl
    | inr (self, found) ↦
        rw (found) (delete_found_tail now self row rows (rw (id-find key rows self found) h))
  ]

  once-instance :
      (key : String) (now : ℕ) (rows : List (Row A))
      → Distinct (ids rows)
      → delete_found (find key rows) now rows ≡ map (once_key key now) rows
  unfolding find
  once-instance key now [] u = delete_found-none now []
  once-instance key now (row ∷ rows) (fresh, u) = elim (Bool-cases (row.id == key)) [
    | inl same ↦
        let absent =
          subst (λ k. contains (ids rows) k ≡ false) ((eq_iff row.id key).0 same) fresh in
        rw
          (
            same,
            delete_found_head now row rows,
            once_same key now row same,
            once-absent key now rows absent,
          )
          refl
    | inr other ↦ rw (other) (
        delete_found_skip key now row rows other
        ∙ rw (once-instance key now rows u, once_other key now row other) refl)
  ]

  map-once_key :
      (self : Row A) (now : ℕ) (rows : List (Row A))
      → map (once (by_instance self now)) rows ≡ map (once_key self.id now) rows
  unfolding once once_key
  map-once_key self now [] = refl
  map-once_key self now (row ∷ rows) =
      ap (λ rest. once_key self.id now row ∷ rest) (map-once_key self now rows)

  pub once-by_queryset :
      (qs : SoftDeletionQuerySet A) (now : ℕ) (rows : List (Row A))
      → delete_once (by_queryset qs now) rows ≡ map (once (by_queryset qs now)) rows
  unfolding delete_once
  once-by_queryset qs now rows = once-queryset qs now rows

  pub once-by_instance :
      (self : Row A) (now : ℕ) (rows : List (Row A))
      → Distinct (ids rows)
      → find self.id rows ≡ some self
      → delete_once (by_instance self now) rows ≡ map (once (by_instance self now)) rows
  unfolding delete_once delete_found
  once-by_instance self now rows u current =
      ap (λ found. delete_found found now rows) (sym current)
      ∙ once-instance self.id now rows u
      ∙ sym (map-once_key self now rows)

  pub ids-once :
      (deletion : Deletion A) (rows : List (Row A)) → ids (map (once deletion) rows) ≡ ids rows
  unfolding once
  ids-once deletion [] = refl
  ids-once deletion (row ∷ rows) = ap (λ rest. row.id ∷ rest) (ids-once deletion rows)
