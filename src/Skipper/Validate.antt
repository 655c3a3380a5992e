-- ===== src/Skipper/Validate.antt =====
-- The checks on a data point before it is stored: validate of
-- skipper/skipper/dataseries/storage/validate/default/__init__.py. The checks of internal.py are in
-- Facts, Dimensions and ExternalId.
pub mod Contract
pub mod Facts
pub mod Dimensions
pub mod ExternalId
pub mod Messages
pub mod Pointwise
pub mod Turns
pub mod FactVerdicts
pub mod ExternalIds
pub mod DimensionPresence
pub mod DimensionTurns
pub mod DimensionVerdicts
pub mod DimensionErrors
pub mod Composed
pub mod Accepts
pub mod Iff
pub mod Patch
use nfcompose.Shared.{
  String, ℕ, Bool, true, false, not, ◌&&◌, Option, none, some, List, [], ◌∷◌, is_some,
  if◌then◌else◌,
}
use nfcompose.Shared.Dict.{Dict, update}
use nfcompose.Shared.Value.{ℤ, Value, str}
use nfcompose.Skipper.Structure.{gen_uuid, DataSeriesQueryInfo, DataSeriesFactQueryInfo}
use Contract.{
  FactKind, float_fact, string_fact, text_fact, timestamp_fact, json_fact, image_fact, file_fact,
  boolean_fact, ValidationRequest, Message, Errors, Checked, passed, raised, validation_error,
  message, fields, assertion_error, attribute_error, ◌>>=◌, mapping, DataPointData, Raised,
}
use Facts.{validate_fact}
use Dimensions.{validate_dimensions}
use ExternalId.{validate_external_id}

-- The data point and `all_errors`, which has at most the key 'payload'.
pub record Progress : Type 0 where
  pub data_point : DataPointData
  pub payload_errors : Option Errors

-- `check_validation_result`. The checks write into the payload that they are given, so it holds the
-- values that they store also where they find errors.
unfoldable pub check_validation_result : Progress → Errors × Dict Value → Progress
check_validation_result p ([], value) = record p {
  data_point = record p.data_point { payload = some (mapping value) };
}
check_validation_result p (e ∷ es, value) = record {
  data_point = record p.data_point { payload = some (mapping value) };
  payload_errors = elim p.payload_errors [
    | none ↦ some (update [] (e ∷ es))
    | some errors ↦ some (update errors (e ∷ es))
  ];
}

unfoldable pub facts_of : DataSeriesQueryInfo → FactKind → Dict DataSeriesFactQueryInfo
facts_of info float_fact = info.float_facts
facts_of info string_fact = info.string_facts
facts_of info text_fact = info.text_facts
facts_of info timestamp_fact = info.timestamp_facts
facts_of info json_fact = info.json_facts
facts_of info image_fact = info.image_facts
facts_of info file_fact = info.file_facts
facts_of info boolean_fact = info.boolean_facts

-- The order of the checks on facts.
abbrev pub fact_kinds : List FactKind
fact_kinds =
    float_fact ∷ string_fact ∷ text_fact ∷ timestamp_fact ∷ json_fact ∷ image_fact ∷ file_fact
    ∷ boolean_fact ∷ []

module _ (set_order : List String → List String) (to_float : ℤ → Option ℕ)
    (hexdigest : String → String) where
  unfoldable pub run_sub_validations :
      List FactKind → ValidationRequest → Progress → Checked Progress
  run_sub_validations [] request p = passed p
  run_sub_validations (kind ∷ kinds) request p = do
    checked ←
        validate_fact to_float set_order kind (facts_of request.data_point_relation_info kind)
          p.data_point request.partial
    run_sub_validations kinds request (check_validation_result p checked)

  unfoldable pub validate_payload : ValidationRequest → DataPointData → Checked Progress
  validate_payload request data_point = do
    checked ←
        validate_dimensions hexdigest request.data_point_accessor
          request.external_id_as_dimension_identifier set_order data_point
          request.data_point_relation_info request.partial
    run_sub_validations fact_kinds request (
        check_validation_result (record { data_point = data_point; payload_errors = none }) checked)

  -- The external id that the data point gets, or the error about it.
  unfoldable pub caught : Checked String → Checked (Option Value × Option Message)
  caught (passed s) = passed (some (str s), none)
  caught (raised (validation_error (message m))) = passed (none, some m)
  caught (raised r) = raised r

  unfoldable pub external_id_step :
      ValidationRequest → DataPointData → Checked (Option Value × Option Message)
  external_id_step request data_point =
      if not (request.partial && not (is_some data_point.external_id))
      then caught (
          validate_external_id hexdigest request.data_point_accessor
            request.data_point_relation_info.data_series_id data_point.external_id
            request.bulk_insert request.data_point_id)
      else passed (data_point.external_id, none)

  -- `data['id'] = ...`
  unfoldable pub set_id : ValidationRequest → DataPointData → Checked DataPointData
  set_id request data_point = elim request.data_point_id [
    | some i ↦ passed (record data_point { id = some i })
    | none ↦ elim data_point.external_id [
      | none ↦ raised assertion_error
      | some (str s) ↦ passed (record data_point {
        id = some (gen_uuid hexdigest request.data_point_relation_info.data_series_id s);
      })
      | some _ ↦ raised attribute_error
    ]
  ]

  unfoldable pub finish :
      ValidationRequest → Progress → Option Value × Option Message → Checked DataPointData
  finish request p (external_id, non_payload_error) =
      if is_some p.payload_errors
      then raised (validation_error (fields p.payload_errors non_payload_error))
      else if is_some non_payload_error
      then raised (validation_error (fields p.payload_errors non_payload_error))
      else set_id request (record p.data_point { external_id = external_id })

  unfoldable pub validate : ValidationRequest → DataPointData → Checked DataPointData
  validate request data_point = do
    p ← validate_payload request data_point
    external ← external_id_step request p.data_point
    finish request p external
