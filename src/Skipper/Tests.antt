-- ===== src/Skipper/Tests.antt =====
-- Runs of the checks on data points, and their theorems at inputs that meet their hypotheses.
use nfcompose.Shared.{
  String, ◌≡◌, refl, ◌↔◌, true, false, none, some, [], ◌∷◌, ◌++◌, map, arith, contains, select,
}
use nfcompose.Shared.Sets.{last_seen, last_seen-IsSetOrder}
use nfcompose.Shared.Dict.{Dict, lookup, insert, update}
use nfcompose.Shared.Value.{Value, null, float, str}
use nfcompose.Skipper.Structure.{uuid, values, id_text, gen_uuid, id_eq}
use nfcompose.Skipper.Uuid.{gen_uuid_injective}
use nfcompose.Skipper.Validate.{
  validate, validate_payload, run_sub_validations, facts_of, check_validation_result, finish,
  external_id_step, caught, set_id,
}
use nfcompose.Skipper.Validate.Contract.{
  float_fact, Errors, messages, passed, ensure_payload, mapping, append_for_each, append_error,
  append_errors,
}
use nfcompose.Skipper.Validate.Facts.{
  validate_fact, set_value, check_fact, check_facts, fact_type_validation, facts_with_wrong_null,
  is_null, required_fact_ids, validate_fact_ids,
}
use nfcompose.Skipper.Validate.Dimensions.{
  validate_dimensions, check_dimensions, check_dimension, check_value, check_reference,
  dimension_target, validate_dim_ids, column, required_dimension_ids,
}
use nfcompose.Skipper.Validate.ExternalId.{validate_external_id, check_existing, check_new}
use nfcompose.Skipper.Validate.Pointwise.{fact_id, fact_at}
use nfcompose.Skipper.Validate.Turns.{all_fit, fits}
use nfcompose.Skipper.Validate.FactVerdicts.{fact_errors, fact_value, validate_fact-verdicts}
use nfcompose.Skipper.Validate.DimensionPresence.{dimension_at, missing_errors}
use nfcompose.Skipper.Validate.DimensionVerdicts.{
  reference_errors, dimension_value, validate_dimensions-verdicts,
}
use nfcompose.Skipper.Validate.ExternalIds.{IsAllowed, validate_external_id_iff}
use nfcompose.Skipper.Samples.{
  to_float, digest, info, float_facts, attrs, data_point, accessor, request,
}

gen_uuid_injective_example :
    (id_text (uuid "weather1") ≡ id_text (uuid "weather1")) × (digest "monday" ≡ digest "monday")
gen_uuid_injective_example =
    gen_uuid_injective digest (uuid "weather1") (uuid "weather1") "monday" "monday" refl refl

-- The integer 3 becomes a float, the station's external id the id of its data point.
validate_run :
    validate last_seen to_float digest request data_point
    ≡ passed (record data_point {
      id = some "weather-monday";
      payload =
          some
            (mapping (("temp", float 3) ∷ ("wind", null) ∷ ("station", str "stations-north") ∷ []));
    })
unfolding validate lookup insert validate_payload validate_dimensions ensure_payload
    run_sub_validations validate_fact check_validation_result check_dimensions values
    check_dimension check_value check_reference dimension_target gen_uuid id_text id_eq
    validate_dim_ids append_for_each update select append_error append_errors messages column
    required_dimension_ids check_existing check_new validate_external_id check_fact check_facts
    fact_type_validation facts_with_wrong_null is_null required_fact_ids set_value validate_fact_ids
    caught external_id_step facts_of finish set_id last_seen
validate_run = refl

floats_fit :
    (k : String)
    → contains (map fact_id (values float_facts)) k ≡ true
    → all_fit to_float float_fact (lookup k attrs) ≡ true
unfolding all_fit set_value fits lookup values
floats_fit k h = ground arith

validate_fact-verdicts_example :
    (s : Errors × Dict Value) × (validate_fact to_float last_seen float_fact float_facts data_point
        false
      ≡ passed s)
    × ((k : String)
        → (messages k s.0
            ≡ fact_errors to_float false float_fact k
                (fact_at k (values float_facts))
                (lookup k attrs))
          × (lookup k s.1
              ≡ fact_value to_float float_fact (fact_at k (values float_facts)) (lookup k attrs)))
unfolding values
validate_fact-verdicts_example =
    validate_fact-verdicts to_float last_seen last_seen-IsSetOrder float_fact float_facts data_point
      attrs false refl (refl, (refl, tt)) floats_fit

validate_dimensions-verdicts_example :
    (s : Errors × Dict Value) × (validate_dimensions digest accessor true last_seen data_point info
        false
      ≡ passed s)
    × ((k : String)
        → (messages k s.0
            ≡ missing_errors
                (uuid "weather")
                false
                k
                (dimension_at k (values info.dimensions))
                (lookup k attrs)
              ++ reference_errors digest accessor true k
                  (dimension_at k (values info.dimensions))
                  (lookup k attrs))
          × (lookup k s.1
              ≡ dimension_value digest accessor true
                  (dimension_at k (values info.dimensions))
                  (lookup k attrs)))
unfolding values
validate_dimensions-verdicts_example =
    validate_dimensions-verdicts digest accessor true last_seen last_seen-IsSetOrder data_point
      attrs info false refl (refl, tt)

validate_external_id_iff_example :
    (validate_external_id digest accessor (uuid "stations") (some (str "north")) false none
      ≡ passed "north")
    ↔ IsAllowed digest accessor (uuid "stations") (some (str "north")) false none "north"
validate_external_id_iff_example =
    validate_external_id_iff digest accessor (uuid "stations") (some (str "north")) false none
      "north"
