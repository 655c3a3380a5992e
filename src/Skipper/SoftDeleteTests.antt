-- ===== src/Skipper/SoftDeleteTests.antt =====
-- Runs of the deletions, and the theorem on them at a table whose keys differ.
use nfcompose.Shared.{ℕ, ◌≡◌, refl, true, false, ◌&&◌, not, none, some, is_some, List, [], ◌∷◌, map}
use nfcompose.Skipper.SoftDelete.{
  Row, is_alive, rows_of, get_queryset, queryset_delete, queryset_hard_delete, model_delete,
  model_hard_delete, save, find, dead, prefilter_queryset,
}
use nfcompose.Skipper.SoftDelete.Once.{
  Deletion, by_queryset, by_instance, delete_all, delete_once, AreCurrent, first_time,
}
use nfcompose.Skipper.SoftDelete.First.{deleted_first, delete_all-deleted_first}

abbrev old : Row ℕ
old = record { id = "old"; deleted_at = some 1; columns = 10 }

abbrev mill : Row ℕ
mill = record { id = "mill"; deleted_at = none; columns = 20 }

abbrev pump : Row ℕ
pump = record { id = "pump"; deleted_at = none; columns = 30 }

abbrev engines : List (Row ℕ)
engines = old ∷ mill ∷ pump ∷ []

-- The mill is deleted, and then everything.
abbrev both_deletions : List (Deletion ℕ)
both_deletions = by_instance mill 5 ∷ by_queryset (λ row. true) 9 ∷ []

delete_all-deleted_first_example :
    (delete_all both_deletions engines ≡ map (deleted_first both_deletions) engines)
    × (rows_of (get_queryset true) (delete_all both_deletions engines)
        ≡ rows_of (λ row. is_alive row && not (is_some (first_time both_deletions row))) engines)
unfolding AreCurrent find delete_once model_delete save
delete_all-deleted_first_example =
    delete_all-deleted_first both_deletions engines (refl, (refl, (refl, tt))) (refl, tt)

delete_all_run :
    delete_all both_deletions engines
    ≡ old ∷ record mill { deleted_at = some 5 } ∷ record pump { deleted_at = some 9 } ∷ []
unfolding delete_all delete_once model_delete queryset_delete save find
delete_all_run = refl

-- An instance that was read before another deletion is saved over the time of that.
stale_run :
    delete_all (by_queryset (λ row. true) 5 ∷ by_instance mill 9 ∷ []) (mill ∷ [])
    ≡ record mill { deleted_at = some 9 } ∷ []
unfolding delete_all delete_once model_delete queryset_delete save
stale_run = refl

hard_delete_run :
    model_hard_delete mill (queryset_hard_delete (dead (get_queryset false)) engines) ≡ pump ∷ []
unfolding model_hard_delete queryset_hard_delete rows_of dead get_queryset prefilter_queryset
hard_delete_run = refl
