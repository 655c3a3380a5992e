-- ===== src/Skipper/Validate/DimensionVerdicts.antt =====
-- What the check on dimensions says of each key of the payload.
use nfcompose.Shared.{
  String, ◌≡◌, refl, Bool, Option, none, some, List, [], ◌∷◌, ◌++◌, map, arith, Distinct, ◌==◌, inl,
  inr, Bool-cases, eq_iff,
}
use mathlib.Core.List.{append-nil}
use nfcompose.Shared.Sets.{IsSetOrder}
use nfcompose.Shared.Dict.{Dict, lookup}
use nfcompose.Shared.Value.{Value}
use nfcompose.Skipper.Structure.{
  SeriesId, DataSeriesDimensionQueryInfo, DataSeriesQueryInfo, values,
}
use nfcompose.Skipper.Validate.Contract.{
  ReadOnlyDataPoint, Message, Errors, messages, passed, DataPointData, mapping, ensure_payload,
}
use nfcompose.Skipper.Validate.Dimensions.{
  validate_dim_ids, check_dimension, check_dimensions, validate_dimensions,
}
use nfcompose.Skipper.Validate.DimensionErrors.{validate_dim_ids-Sound, check_dimensions-Sound}
use nfcompose.Skipper.Validate.Messages.{Sound}
use nfcompose.Skipper.Validate.DimensionPresence.{
  dimension_id, dimension_at, missing_errors, dimension_at_absent, messages-validate_dim_ids,
}
use nfcompose.Skipper.Validate.DimensionTurns.{value_errors, value_left, check_dimension_turn}

module _ (hexdigest : String → String) (accessor : String → SeriesId → Option ReadOnlyDataPoint)
    (use_external_id : Bool) where
  -- The same at a key that may be no dimension.
  abbrev pub reference_errors : String → Option (Bool × SeriesId) → Option Value → List Message
  reference_errors k none v = []
  reference_errors k (some d) v = value_errors hexdigest accessor use_external_id k d.1 v

  abbrev pub dimension_value : Option (Bool × SeriesId) → Option Value → Option Value
  dimension_value none v = v
  dimension_value (some d) v = value_left hexdigest accessor use_external_id d.1 v

  check_dimensions_turns :
      (ds : List DataSeriesDimensionQueryInfo) (errors : Errors) (attrs : Dict Value) (k : String)
      → Distinct (map dimension_id ds)
      → let s = check_dimensions hexdigest accessor use_external_id ds errors attrs in
        (messages k s.0
          ≡ messages k errors ++ reference_errors k (dimension_at k ds) (lookup k attrs))
        × (lookup k s.1 ≡ dimension_value (dimension_at k ds) (lookup k attrs))
  unfolding check_dimensions dimension_at
  check_dimensions_turns [] errors attrs k u = ground (arith, append-nil (messages k errors))
  check_dimensions_turns (d ∷ ds) errors attrs k (fresh, u) =
      let next = check_dimension hexdigest accessor use_external_id d errors attrs in
      let first = check_dimension_turn hexdigest accessor use_external_id d errors attrs k in
      let rest = check_dimensions_turns ds next.0 next.1 k u in
      elim (Bool-cases (dimension_id d == k)) [
        | inl here ↦
            let away =
              dimension_at_absent k ds (ground (arith, here, fresh, eq_iff (dimension_id d) k)) in
            ground (arith, here, away, first, rest, append-nil (messages k next.0))
        | inr away ↦ ground (arith, away, first, rest)
      ]

  -- The same as below, and that a key with an entry among the errors has messages.
  pub validate_dimensions_lem :
      (set_order : List String → List String) (O : IsSetOrder set_order)
      (data_point : DataPointData) (attrs : Dict Value) (info : DataSeriesQueryInfo)
      (partial : Bool)
      → data_point.payload ≡ some (mapping attrs)
      → Distinct (map dimension_id (values info.dimensions))
      → (s : Errors × Dict Value) × (validate_dimensions hexdigest accessor use_external_id
            set_order data_point info partial
          ≡ passed s)
        × ((k : String)
            → (messages k s.0
                ≡ missing_errors info.data_series_id partial k
                    (dimension_at k (values info.dimensions))
                    (lookup k attrs)
                  ++ reference_errors k (dimension_at k (values info.dimensions)) (lookup k attrs))
              × (lookup k s.1
                  ≡ dimension_value (dimension_at k (values info.dimensions)) (lookup k attrs)))
        × Sound s.0
  unfolding validate_dimensions ensure_payload
  validate_dimensions_lem set_order O data_point attrs info partial payload u =
      let ds = values info.dimensions in
      let start = validate_dim_ids set_order info.data_series_id ds partial attrs in
      (
        check_dimensions hexdigest accessor use_external_id ds start attrs,
        rw (validate_dimensions, ensure_payload, payload) refl,
        λ k. ground (
          arith,
          check_dimensions_turns ds start attrs k u,
          messages-validate_dim_ids set_order O info.data_series_id ds partial attrs k u,
        ),
        check_dimensions-Sound hexdigest accessor use_external_id ds start attrs
            (validate_dim_ids-Sound set_order info.data_series_id ds partial attrs),
      )

  -- For any order in which sets are walked, a payload that is a dictionary and dimensions with
  -- different external ids, the check on dimensions raises nothing. A key that is no dimension has
  -- no errors and keeps its value. A required dimension that is missing has an error, unless the
  -- data point is partial. A null or empty text is accepted and becomes null, whether the dimension
  -- is required or not. A text must name a data point of the referenced series, by its external id
  -- if those are used, and is then replaced by the data point's id; any other value is an error.
  pub validate_dimensions-verdicts :
      (set_order : List String → List String) (O : IsSetOrder set_order)
      (data_point : DataPointData) (attrs : Dict Value) (info : DataSeriesQueryInfo)
      (partial : Bool)
      → data_point.payload ≡ some (mapping attrs)
      → Distinct (map dimension_id (values info.dimensions))
      → (s : Errors × Dict Value) × (validate_dimensions hexdigest accessor use_external_id
            set_order data_point info partial
          ≡ passed s)
        × ((k : String)
            → (messages k s.0
                ≡ missing_errors info.data_series_id partial k
                    (dimension_at k (values info.dimensions))
                    (lookup k attrs)
                  ++ reference_errors k (dimension_at k (values info.dimensions)) (lookup k attrs))
              × (lookup k s.1
                  ≡ dimension_value (dimension_at k (values info.dimensions)) (lookup k attrs)))
  validate_dimensions-verdicts set_order O data_point attrs info partial payload u =
      let all = validate_dimensions_lem set_order O data_point attrs info partial payload u in
      (all.0, all.1, all.2)
