-- ===== src/Skipper/Validate/Dimensions.antt =====
-- The checks on dimensions of validate/default/internal.py.
use nfcompose.Shared.{
  String, Bool, not, ◌&&◌, Option, none, some, List, [], ◌∷◌, select, if◌then◌else◌, ◌==◌,
}
use nfcompose.Shared.Dict.{Dict, lookup, insert, has}
use nfcompose.Shared.Value.{Value, null, str}
use nfcompose.Skipper.Structure.{
  SeriesId, id_eq, gen_uuid, DataSeriesDimensionQueryInfo, DataSeriesQueryInfo, values,
}
use nfcompose.Skipper.Validate.Contract.{
  ReadOnlyDataPoint, IdColumn, external_id_column, id_column, dimension_not_set,
  dimension_no_string, dimension_not_found, dimension_wrong_series, Errors, Checked, passed, ◌>>=◌,
  DataPointData, append_error, append_for_each, ensure_payload,
}

-- A data series may refer to itself without its data points doing so.
unfoldable pub required_dimension_ids : SeriesId → List DataSeriesDimensionQueryInfo → List String
required_dimension_ids data_series_id [] = []
required_dimension_ids data_series_id (d ∷ ds) =
    let rest = required_dimension_ids data_series_id ds in
    if not (id_eq d.dimension.reference.id data_series_id) && not d.dimension.optional
    then d.dataseries_dimension.external_id ∷ rest
    else rest

unfoldable pub validate_dim_ids :
    (List String → List String)
    → SeriesId
    → List DataSeriesDimensionQueryInfo
    → Bool
    → Dict Value
    → Errors
validate_dim_ids set_order data_series_id dimensions partial attrs =
    if not partial
    then append_for_each dimension_not_set [] (
        set_order
          (select (λ k. not (has attrs k)) (required_dimension_ids data_series_id dimensions)))
    else []

module _ (hexdigest : String → String) (accessor : String → SeriesId → Option ReadOnlyDataPoint)
    (use_external_id : Bool) where
  unfoldable pub column : Value → IdColumn
  column v = if use_external_id then external_id_column v else id_column v

  -- `_dp_id`
  unfoldable pub dimension_target : SeriesId → String → String
  dimension_target reference s = if use_external_id then gen_uuid hexdigest reference s else s

  -- The errors about the data point that a dimension names.
  unfoldable pub check_reference : Errors → String → String → SeriesId → Errors
  check_reference errors k s reference = elim (accessor (dimension_target reference s) reference) [
    | none ↦ append_error errors k (dimension_not_found (column (str s)) k)
    | some data_point ↦
        if id_eq data_point.data_series_id reference
        then errors
        else append_error errors k (dimension_wrong_series (column (str s)) k reference)
  ]

  unfoldable pub check_value : Errors → Dict Value → String → SeriesId → Value → Errors × Dict Value
  check_value errors attrs k reference null = (errors, attrs)
  check_value errors attrs k reference (str s) =
      if s == "" then (errors, insert k null attrs) else (
        check_reference errors k s reference,
        if use_external_id then insert k (str (dimension_target reference s)) attrs else attrs,
      )
  check_value errors attrs k reference v =
      (append_error errors k (dimension_no_string (column v) k), attrs)

  -- One turn of the loop over the dimensions.
  unfoldable pub check_dimension :
      DataSeriesDimensionQueryInfo → Errors → Dict Value → Errors × Dict Value
  check_dimension d errors attrs = elim (lookup d.dataseries_dimension.external_id attrs) [
    | none ↦ (errors, attrs)
    | some v ↦
        check_value errors attrs d.dataseries_dimension.external_id d.dimension.reference.id v
  ]

  unfoldable pub check_dimensions :
      List DataSeriesDimensionQueryInfo → Errors → Dict Value → Errors × Dict Value
  check_dimensions [] errors attrs = (errors, attrs)
  check_dimensions (d ∷ ds) errors attrs =
      let next = check_dimension d errors attrs in check_dimensions ds next.0 next.1

  unfoldable pub validate_dimensions :
      (List String → List String)
      → DataPointData
      → DataSeriesQueryInfo
      → Bool
      → Checked (Errors × Dict Value)
  validate_dimensions set_order data_point info partial = do
    attrs ← ensure_payload data_point
    passed (
        check_dimensions (values info.dimensions)
          (validate_dim_ids set_order info.data_series_id (values info.dimensions) partial attrs)
          attrs)
