-- ===== src/Skipper/Validate/Contract.antt =====
-- What the checks on data points take and give: validate/contract.py, the messages of
-- validate/default/internal.py, and the exceptions that leave it.
use nfcompose.Shared.{String, Bool, Option, none, some, List, [], ◌∷◌, ◌++◌}
use nfcompose.Shared.Dict.{Dict, lookup, insert}
use nfcompose.Shared.Value.{Value}
use nfcompose.Skipper.Structure.{SeriesId, DataSeriesQueryInfo}

-- `ReadOnlyDataPoint` of storage/contract/repository.py.
pub record ReadOnlyDataPoint : Type 0 where
  pub id : String
  pub data_series_id : SeriesId
  pub external_id : String

pub record ValidationRequest : Type 0 where
  pub data_point_id : Option String
  pub data_point_relation_info : DataSeriesQueryInfo
  pub partial : Bool
  pub bulk_insert : Bool
  pub external_id_as_dimension_identifier : Bool
  pub data_point_accessor : String → SeriesId → Option ReadOnlyDataPoint

-- The names that the messages give to the kinds of facts.
pub data FactKind : Type 0 where
  float_fact string_fact text_fact timestamp_fact json_fact image_fact file_fact boolean_fact :
      FactKind

-- `_id_col_string_if_not_exists`
pub data IdColumn : Type 0 where
  external_id_column id_column : Value → IdColumn

pub data Message : Type 0 where
  payload_not_set payload_no_object : Message
  external_id_not_set external_id_no_string external_id_changed : Message
  external_id_in_use : String → Message
  dimension_not_set : String → Message
  dimension_no_string dimension_not_found : IdColumn → String → Message
  dimension_wrong_series : IdColumn → String → SeriesId → Message
  fact_not_set fact_null : FactKind → String → Message
  wrong_type : FactKind → Message

abbrev pub Errors : Type 0
Errors = Dict (List Message)

-- The detail of a ValidationError: one text, or the errors of the payload and of the external id.
pub data Detail : Type 0 where
  message : Message → Detail
  fields : Option Errors → Option Message → Detail

pub data Raised : Type 0 where
  validation_error : Detail → Raised
  api_exception not_found overflow_error assertion_error attribute_error : Raised

pub data Checked {ℓ} (A : Type ℓ) : Type ℓ where
  raised : Raised → Checked A
  passed : A → Checked A

infixl 5 ◌>>=◌
abbrev pub ◌>>=◌ {k ℓ} : {X : Type k} {Y : Type ℓ} → Checked X → (X → Checked Y) → Checked Y
raised problem >>= next = raised problem
passed value >>= next = next value

-- `data['payload']`. A MultiValueDict is a dict to isinstance, and is told apart after that.
pub data Payload : Type 0 where
  mapping multi_value_dict : Dict Value → Payload
  other : Value → Payload

-- `data`: the keys that the checks know, and the others.
pub record DataPointData : Type 0 where
  pub id : Option String
  pub external_id : Option Value
  pub payload : Option Payload
  pub extra : Dict Value

-- The errors of one key.
unfoldable pub messages : String → Errors → List Message
messages k errors = elim (lookup k errors) [ none ↦ [] | some ms ↦ ms ]

unfoldable pub append_error : Errors → String → Message → Errors
unfolding messages
append_error errors key error = insert key (messages key errors ++ (error ∷ [])) errors

unfoldable pub append_errors : Errors → String → List Message → Errors
append_errors errors key [] = errors
append_errors errors key (m ∷ ms) = append_errors (append_error errors key m) key ms

-- One message for each of some keys.
unfoldable pub append_for_each : (String → Message) → Errors → List String → Errors
append_for_each say errors [] = errors
append_for_each say errors (k ∷ ks) = append_for_each say (append_error errors k (say k)) ks

unfoldable pub ensure_payload : DataPointData → Checked (Dict Value)
ensure_payload data_point = elim data_point.payload [
  | none ↦ raised (validation_error (message payload_not_set))
  | some (mapping attrs) ↦ passed attrs
  | some (multi_value_dict attrs) ↦ raised api_exception
  | some (other v) ↦ raised (validation_error (message payload_no_object))
]
