-- ===== src/Skipper/Validate/DimensionErrors.antt =====
-- The errors of the check on dimensions: a key with an entry has messages.
use nfcompose.Shared.{
  String, Bool, true, false, Option, List, [], ◌∷◌, inl, inr, Option-cases, Bool-cases, ◌==◌,
}
use nfcompose.Shared.Dict.{Dict, lookup}
use nfcompose.Shared.Value.{Value, null, bool, int, float, str, datetime, object, list, dict}
use nfcompose.Skipper.Structure.{SeriesId, id_eq, DataSeriesDimensionQueryInfo}
use nfcompose.Skipper.Validate.Contract.{ReadOnlyDataPoint, Errors, dimension_not_set}
use nfcompose.Skipper.Validate.Dimensions.{
  validate_dim_ids, dimension_target, check_reference, check_value, check_dimension,
  check_dimensions,
}
use nfcompose.Skipper.Validate.Messages.{
  Sound, nil-Sound, append_error-Sound, append_for_each-Sound,
}

pub validate_dim_ids-Sound :
    (set_order : List String → List String) (series : SeriesId)
    (ds : List DataSeriesDimensionQueryInfo) (partial : Bool) (attrs : Dict Value)
    → Sound (validate_dim_ids set_order series ds partial attrs)
unfolding validate_dim_ids
validate_dim_ids-Sound set_order series ds true attrs = nil-Sound
validate_dim_ids-Sound set_order series ds false attrs =
    append_for_each-Sound dimension_not_set _ _ nil-Sound

module _ (hexdigest : String → String) (accessor : String → SeriesId → Option ReadOnlyDataPoint)
    (use_external_id : Bool) where
  check_reference-Sound :
      (errors : Errors) (k s : String) (reference : SeriesId)
      → Sound errors
      → Sound (check_reference hexdigest accessor use_external_id errors k s reference)
  unfolding check_reference
  check_reference-Sound errors k s reference good =
      elim (Option-cases
        (accessor (dimension_target hexdigest accessor use_external_id reference s) reference)) [
          | inl e ↦ rw (check_reference, e) (append_error-Sound errors k _ good)
          | inr (p, e) ↦ elim (Bool-cases (id_eq p.data_series_id reference)) [
            | inl same ↦ rw (check_reference, e, same) good
            | inr differs ↦ rw (check_reference, e, differs) (append_error-Sound errors k _ good)
          ]
        ]

  check_value-Sound :
      (errors : Errors) (attrs : Dict Value) (k : String) (reference : SeriesId) (v : Value)
      → Sound errors
      → Sound (check_value hexdigest accessor use_external_id errors attrs k reference v).0
  unfolding check_value
  check_value-Sound errors attrs k reference null good = good
  check_value-Sound errors attrs k reference (str s) good = elim (Bool-cases (s == "")) [
    | inl empty ↦ rw (check_value, empty) good
    | inr given ↦ rw (check_value, given) (check_reference-Sound errors k s reference good)
  ]
  check_value-Sound errors attrs k reference (bool b) good = append_error-Sound errors k _ good
  check_value-Sound errors attrs k reference (int z) good = append_error-Sound errors k _ good
  check_value-Sound errors attrs k reference (float x) good = append_error-Sound errors k _ good
  check_value-Sound errors attrs k reference (datetime t) good = append_error-Sound errors k _ good
  check_value-Sound errors attrs k reference (object o) good = append_error-Sound errors k _ good
  check_value-Sound errors attrs k reference (list xs) good = append_error-Sound errors k _ good
  check_value-Sound errors attrs k reference (dict d) good = append_error-Sound errors k _ good

  check_dimension-Sound :
      (d : DataSeriesDimensionQueryInfo) (errors : Errors) (attrs : Dict Value)
      → Sound errors
      → Sound (check_dimension hexdigest accessor use_external_id d errors attrs).0
  unfolding check_dimension
  check_dimension-Sound d errors attrs good =
      elim (Option-cases (lookup d.dataseries_dimension.external_id attrs)) [
        | inl e ↦ rw (check_dimension, e) good
        | inr (v, e) ↦
            rw (check_dimension, e)
              (check_value-Sound errors attrs d.dataseries_dimension.external_id
                d.dimension.reference.id v good)
      ]

  pub check_dimensions-Sound :
      (ds : List DataSeriesDimensionQueryInfo) (errors : Errors) (attrs : Dict Value)
      → Sound errors
      → Sound (check_dimensions hexdigest accessor use_external_id ds errors attrs).0
  unfolding check_dimensions
  check_dimensions-Sound [] errors attrs good = good
  check_dimensions-Sound (d ∷ ds) errors attrs good =
      let next = check_dimension hexdigest accessor use_external_id d errors attrs in
      check_dimensions-Sound ds next.0 next.1 (check_dimension-Sound d errors attrs good)
