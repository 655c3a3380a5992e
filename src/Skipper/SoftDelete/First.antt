-- ===== src/Skipper/SoftDelete/First.antt =====
-- A row keeps the time of its first deletion.
use nfcompose.Shared.{
  String, ℕ, ◌≡◌, refl, sym, ap, ◌∙◌, true, ◌&&◌, not, Option, none, some, is_some, List, [], ◌∷◌,
  map, if◌then◌else◌, Distinct,
}
use nfcompose.Skipper.SoftDelete.{Row, is_alive, rows_of, get_queryset, prefilter_queryset}
use nfcompose.Skipper.SoftDelete.Once.{
  Deletion, or_else, delete_all, ids, time_for, first_time, with_time, row_of, once, with_time-none,
  AreCurrent, by_queryset, by_instance, once-by_queryset, once-by_instance, ids-once,
}
use mathlib.Core.Path.{subst}

module _ {A : Type 0} where
  -- The row after the deletions.
  unfoldable pub deleted_first : List (Deletion A) → Row A → Row A
  deleted_first deletions row = with_time (first_time deletions row) row

  -- A deletion that is about a row hides the later ones from it.
  absorbed :
      (deletions : List (Deletion A)) (first : Option ℕ) (i : String) (time : Option ℕ)
      (columns : A)
      → let row = row_of i time columns in
        deleted_first deletions (with_time first row)
        ≡ with_time (or_else first (first_time deletions row)) row
  unfolding deleted_first
  absorbed deletions first i (some time) columns = refl
  absorbed deletions none i none columns = refl
  absorbed deletions (some now) i none columns = refl

  map-deleted_first :
      (deletion : Deletion A) (deletions : List (Deletion A)) (rows : List (Row A))
      → map (deleted_first deletions) (map (once deletion) rows)
        ≡ map (deleted_first (deletion ∷ deletions)) rows
  unfolding once first_time deleted_first
  map-deleted_first deletion deletions [] = refl
  map-deleted_first deletion deletions (row ∷ rows) =
      ap (λ head. head ∷ map (deleted_first deletions) (map (once deletion) rows))
        (absorbed deletions (time_for deletion row) row.id row.deleted_at row.columns)
      ∙ ap (λ rest. deleted_first (deletion ∷ deletions) row ∷ rest)
          (map-deleted_first deletion deletions rows)

  map-no_deletion : (rows : List (Row A)) → map (deleted_first []) rows ≡ rows
  unfolding deleted_first first_time
  map-no_deletion [] = refl
  map-no_deletion (row ∷ rows) =
      ap (λ head. head ∷ map (deleted_first []) rows)
        (with_time-none row.id row.deleted_at row.columns)
      ∙ ap (λ rest. row ∷ rest) (map-no_deletion rows)

  delete_all-map :
      (deletions : List (Deletion A)) (rows : List (Row A))
      → Distinct (ids rows)
      → AreCurrent deletions rows
      → delete_all deletions rows ≡ map (deleted_first deletions) rows
  unfolding delete_all AreCurrent
  delete_all-map [] rows u c = sym (map-no_deletion rows)
  delete_all-map (by_queryset qs now ∷ deletions) rows u c =
      let step = once-by_queryset qs now rows in
      rw (step) (
        delete_all-map deletions (map (once (by_queryset qs now)) rows)
          (rw (ids-once (by_queryset qs now) rows) u) (subst (AreCurrent deletions) step c)
        ∙ map-deleted_first (by_queryset qs now) deletions rows)
  delete_all-map (by_instance self now ∷ deletions) rows u (current, c) =
      let step = once-by_instance self now rows u current in
      rw (step) (
        delete_all-map deletions (map (once (by_instance self now)) rows)
          (rw (ids-once (by_instance self now) rows) u) (subst (AreCurrent deletions) step c)
        ∙ map-deleted_first (by_instance self now) deletions rows)

  objects_row :
      (first : Option ℕ) (i : String) (time : Option ℕ) (columns : A) (rest : List (Row A))
      → let row = row_of i time columns in
        (if is_alive (with_time first row) then with_time first row ∷ rest else rest)
        ≡ (if is_alive row && not (is_some first) then row ∷ rest else rest)
  objects_row none i none columns rest = refl
  objects_row (some now) i none columns rest = refl
  objects_row first i (some time) columns rest = refl

  objects-map :
      (deletions : List (Deletion A)) (rows : List (Row A))
      → rows_of (get_queryset true) (map (deleted_first deletions) rows)
        ≡ rows_of (λ row. is_alive row && not (is_some (first_time deletions row))) rows
  unfolding rows_of get_queryset prefilter_queryset deleted_first
  objects-map deletions [] = refl
  objects-map deletions (row ∷ rows) =
      objects_row (first_time deletions row) row.id row.deleted_at row.columns _
      ∙ ap
          (λ rest.
            if is_alive row && not (is_some (first_time deletions row)) then row ∷ rest else rest)
          (objects-map deletions rows)

  -- Deletions one after the other, of querysets and of instances, in a table whose keys differ. If each
  -- instance is still what the table has under its key when it is deleted: no row is removed, and
  -- each keeps its key and its columns. A row that was deleted before keeps its time; another has the
  -- time of the first deletion that is about it as it was at the start, and none if there is no such.
  -- `objects` shows the rows that were alive and that no deletion was about, unchanged and in the same
  -- order.
  pub delete_all-deleted_first :
      (deletions : List (Deletion A)) (rows : List (Row A))
      → Distinct (ids rows)
      → AreCurrent deletions rows
      → (delete_all deletions rows ≡ map (deleted_first deletions) rows)
        × (rows_of (get_queryset true) (delete_all deletions rows)
            ≡ rows_of (λ row. is_alive row && not (is_some (first_time deletions row))) rows)
  delete_all-deleted_first deletions rows u c = (
    delete_all-map deletions rows u c,
    rw (delete_all-map deletions rows u c) (objects-map deletions rows),
  )
