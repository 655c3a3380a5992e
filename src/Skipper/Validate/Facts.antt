-- ===== src/Skipper/Validate/Facts.antt =====
-- The checks on facts of validate/default/internal.py.
use nfcompose.Shared.{
  String, ℕ, Bool, true, false, not, ◌&&◌, Option, none, some, List, [], ◌∷◌, select, if◌then◌else◌,
}
use nfcompose.Shared.Dict.{Dict, lookup, insert, has}
use nfcompose.Shared.Value.{ℤ, Value, null, bool, int, float, str, datetime, object}
use nfcompose.Skipper.Structure.{DataSeriesFactQueryInfo, values}
use nfcompose.Skipper.Validate.Contract.{
  FactKind, float_fact, string_fact, text_fact, timestamp_fact, json_fact, image_fact, file_fact,
  boolean_fact, Message, fact_not_set, fact_null, wrong_type, Errors, Checked, raised, passed,
  overflow_error, ◌>>=◌, DataPointData, append_errors, append_for_each, ensure_payload,
}

-- `attrs[key] is None`
unfoldable pub is_null : Option Value → Bool
is_null (some null) = true
is_null _ = false

-- The value that the loops look at: a key that is not there and a null are passed over.
unfoldable pub set_value : Option Value → Option Value
set_value (some null) = none
set_value v = v

-- What a check on a type gives: its errors, and the value to store.
abbrev pub Verdict : Type 0
Verdict = List Message × Value

unfoldable pub required_fact_ids : List DataSeriesFactQueryInfo → List String
required_fact_ids [] = []
required_fact_ids (f ∷ fs) =
    let rest = required_fact_ids fs in
    if not f.fact.optional then f.dataseries_fact.external_id ∷ rest else rest

unfoldable pub facts_with_wrong_null : Dict Value → List DataSeriesFactQueryInfo → List String
facts_with_wrong_null attrs [] = []
facts_with_wrong_null attrs (f ∷ fs) =
    let rest = facts_with_wrong_null attrs fs in
    if not f.fact.optional && is_null (lookup f.dataseries_fact.external_id attrs)
    then f.dataseries_fact.external_id ∷ rest
    else rest

unfoldable pub validate_fact_ids :
    (List String → List String)
    → Bool
    → Dict Value
    → FactKind
    → List DataSeriesFactQueryInfo
    → Errors
validate_fact_ids set_order partial attrs name facts =
    let missing = set_order (select (λ k. not (has attrs k)) (required_fact_ids facts)) in
    append_for_each (fact_null name)
      (if not partial then append_for_each (fact_not_set name) [] missing else [])
      (facts_with_wrong_null attrs facts)

-- `float(value)` of an integer: a float cannot hold every integer, and an OverflowError is raised.
abbrev pub float_of : Option ℕ → Checked Verdict
float_of none = raised overflow_error
float_of (some x) = passed ([], float x)

module _ (to_float : ℤ → Option ℕ) where
  -- `is_float`.
  abbrev pub is_float : Value → Checked Verdict
  is_float (float x) = passed ([], float x)
  is_float (int z) = float_of (to_float z)
  is_float _ = passed (wrong_type float_fact ∷ [], null)

  -- `is_string` and `is_text`.
  abbrev pub is_str : FactKind → Value → Verdict
  is_str kind (str s) = ([], str s)
  is_str kind _ = (wrong_type kind ∷ [], null)

  abbrev pub is_timestamp : Value → Verdict
  is_timestamp (datetime t) = ([], datetime t)
  is_timestamp _ = (wrong_type timestamp_fact ∷ [], null)

  abbrev pub is_json : Value → Verdict
  is_json null = (wrong_type json_fact ∷ [], null)
  is_json (datetime t) = (wrong_type json_fact ∷ [], null)
  is_json (object o) = (wrong_type json_fact ∷ [], null)
  is_json v = ([], v)

  -- `is_image` and `is_file`.
  abbrev pub is_upload : FactKind → Value → Verdict
  is_upload kind null = ([], null)
  is_upload kind (datetime t) = ([], datetime t)
  is_upload kind (object o) = ([], object o)
  is_upload kind _ = (wrong_type kind ∷ [], null)

  abbrev pub is_boolean : Value → Verdict
  is_boolean (bool b) = ([], bool b)
  is_boolean _ = (wrong_type boolean_fact ∷ [], null)

  unfoldable pub fact_type_validation : FactKind → Value → Checked Verdict
  fact_type_validation float_fact v = is_float v
  fact_type_validation string_fact v = passed (is_str string_fact v)
  fact_type_validation text_fact v = passed (is_str text_fact v)
  fact_type_validation timestamp_fact v = passed (is_timestamp v)
  fact_type_validation json_fact v = passed (is_json v)
  fact_type_validation image_fact v = passed (is_upload image_fact v)
  fact_type_validation file_fact v = passed (is_upload file_fact v)
  fact_type_validation boolean_fact v = passed (is_boolean v)

  -- One turn of the loop over the facts.
  unfoldable pub check_fact :
      FactKind → DataSeriesFactQueryInfo → Errors → Dict Value → Checked (Errors × Dict Value)
  check_fact kind f errors attrs = elim (set_value (lookup f.dataseries_fact.external_id attrs)) [
    | none ↦ passed (errors, attrs)
    | some v ↦ do
      verdict ← fact_type_validation kind v
      passed (elim verdict.0 [
        | [] ↦ (errors, insert f.dataseries_fact.external_id verdict.1 attrs)
        | m ∷ ms ↦ (append_errors errors f.dataseries_fact.external_id (m ∷ ms), attrs)
      ])
  ]

  unfoldable pub check_facts :
      FactKind → List DataSeriesFactQueryInfo → Errors → Dict Value → Checked (Errors × Dict Value)
  check_facts kind [] errors attrs = passed (errors, attrs)
  check_facts kind (f ∷ fs) errors attrs = do
    next ← check_fact kind f errors attrs
    check_facts kind fs next.0 next.1

  unfoldable pub validate_fact :
      (List String → List String)
      → FactKind
      → Dict DataSeriesFactQueryInfo
      → DataPointData
      → Bool
      → Checked (Errors × Dict Value)
  validate_fact set_order kind facts data_point partial = do
    attrs ← ensure_payload data_point
    check_facts kind (values facts) (validate_fact_ids set_order partial attrs kind (values facts))
        attrs
