-- ===== src/Client/Diff/DataPoints.antt =====
-- `diff_datapoint` and `diff_datapoint_list` of diff.py.
pub mod Duplicates
pub mod Loop
pub mod Plan
use nfcompose.Shared.{
  String, ℕ, Bool, true, false, not, ◌||◌, Option, none, some, List, [], ◌∷◌, ◌++◌, map, length,
  contains, eqb, if◌then◌else◌,
}
use nfcompose.Shared.Result.{Result, ok, err, value_error, not_implemented, ◌>>=◌}
use nfcompose.Shared.Dict.{Dict, lookup, erase, keys, by_key}
use nfcompose.Client.Models.{Runtime, DataPoint, DataPoint_eq, DataSeriesStructure}
use nfcompose.Client.Operation.{OperationType, create, delete, update}

pub record DataPointOperation : Type 0 where
  pub operation_type : OperationType
  pub datapoint : DataPoint

-- `ids = set()` and then `ids.add(x.external_id)` for each element.
unfoldable pub add_ids : List String → List DataPoint → List String
add_ids ids [] = ids
add_ids ids (x ∷ xs) = add_ids (if contains ids x.external_id then ids else x.external_id ∷ ids) xs

-- `len(ids) != len(xs)`
unfoldable pub has_duplicates : List DataPoint → Bool
unfolding add_ids
has_duplicates xs = not (eqb (length (add_ids [] xs)) (length xs))

abbrev pub is_empty {ℓ} : {A : Type ℓ} → List A → Bool
is_empty [] = true
is_empty (x ∷ xs) = false

abbrev pub has_files : DataSeriesStructure → Bool
has_files s = not (is_empty s.file_facts) || not (is_empty s.image_facts)

module _ (rt : Runtime) (structure : DataSeriesStructure) where
  unfoldable pub diff_datapoint : DataPoint → DataPoint → Result Bool
  diff_datapoint base target =
      if has_files structure then err not_implemented else ok (not (DataPoint_eq rt base target))

  -- The loop over the target; what is left of the dictionary comes back beside the operations.
  unfoldable pub target_loop :
      Dict DataPoint → List DataPoint → Result (Dict DataPoint × List DataPointOperation)
  unfolding diff_datapoint
  target_loop base [] = ok (base, [])
  target_loop base (t ∷ ts) = elim (lookup t.external_id base) [
    | none ↦ do
      rest ← target_loop base ts
      ok (rest.0, record { operation_type = create; datapoint = t } ∷ rest.1)
    | some b ↦ do
      changed ← diff_datapoint b t
      rest ← target_loop (erase t.external_id base) ts
      ok (
        rest.0,
        if changed then record { operation_type = update; datapoint = t } ∷ rest.1 else rest.1,
      )
  ]

  -- The loop over the keys that are left.
  unfoldable pub deletions : List String → List DataPointOperation
  deletions [] = []
  deletions (k ∷ ks) =
      record {
        operation_type = delete;
        datapoint = record {
          external_id = k;
          payload = [];
          identify_dimensions_by_external_id = true;
        };
      }
      ∷ deletions ks

  unfoldable pub diff_datapoint_list :
      List DataPoint → List DataPoint → Result (List DataPointOperation)
  diff_datapoint_list base target =
      if has_duplicates base
      then err value_error
      else if has_duplicates target
      then err value_error
      else do
        rest ← target_loop (by_key (λ x. x.external_id) [] base) target
        ok (rest.1 ++ deletions (keys rest.0))
