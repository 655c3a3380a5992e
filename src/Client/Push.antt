-- ===== src/Client/Push.antt =====
-- The DataSeriesDefinitionDiffPusher of client/compose_client/library/service/pusher.py, which carries
-- out the operations of a diff over REST.
pub mod Series
pub mod Others
pub mod Chunks
pub mod Justified
pub mod Served
pub mod Members
pub mod Children
pub mod Safety
pub mod Phases
pub mod Structure
use nfcompose.Shared.{
  String, ℕ, Bool, true, false, not, ◌||◌, Option, none, some, List, [], ◌∷◌, ◌++◌, map,
  if◌then◌else◌,
}
use nfcompose.Shared.Result.{Result, ok, err, key_error, type_error}
use nfcompose.Shared.Dict.{Dict, getitem, insert}
use nfcompose.Shared.Value.{Value, str, list, dict}
use nfcompose.Client.Operation.{OperationType, create, update, KeyedOperation, Payload}
use nfcompose.Client.Diff.Models.{DataSeriesStructureDiff, DataSeriesDefinitionDiff}
use nfcompose.Client.Rest.{
  Method, get, post, put, patch, ApiClient, Action, pure, lift, ◌>>=◌, ◌>>◌, send, url_of, for_each,
  json_has, read_paginated_all,
}
use nfcompose.Shared.Texts.{joined}

-- The keys of `structure_type_to_path_elem`, which are the fields of a structure diff.
pub data StructureType : Type 0 where
  float_facts string_facts text_facts timestamp_facts image_facts file_facts json_facts
        boolean_facts dimensions :
      StructureType

unfoldable pub path_elem : StructureType → String
path_elem float_facts = "floatfact"
path_elem string_facts = "stringfact"
path_elem text_facts = "textfact"
path_elem timestamp_facts = "timestampfact"
path_elem image_facts = "imagefact"
path_elem file_facts = "filefact"
path_elem json_facts = "jsonfact"
path_elem boolean_facts = "booleanfact"
path_elem dimensions = "dimension"

-- `{key}` in an f-string.
abbrev pub key_text : Option String → String
key_text none = "None"
key_text (some key) = key

abbrev pub is_type : OperationType → OperationType → Bool
is_type create create = true
is_type OperationType.delete OperationType.delete = true
is_type update update = true
is_type _ _ = false

-- The operations of one type: an entry of `ops_by_operation_type`, filled in the order of the list.
unfoldable pub of_type : {A : Type 0} → (A → OperationType) → OperationType → List A → List A
of_type type_of t [] = []
of_type type_of t (x ∷ xs) =
    let rest = of_type type_of t xs in if is_type (type_of x) t then x ∷ rest else rest

abbrev pub type_of : KeyedOperation → OperationType
type_of op = op.operation_type

abbrev pub base_path : String
base_path = "/api/dataseries/by-external-id/dataseries/"

-- The collection of the children of a kind, and one of its elements.
unfoldable pub children_url : ApiClient → String → String → String
children_url client ds_external_id child_type =
    url_of client (joined (base_path ∷ ds_external_id ∷ "/" ∷ child_type ∷ "/" ∷ []))

unfoldable pub child_url : ApiClient → String → String → KeyedOperation → String
child_url client ds_external_id child_type op =
    url_of client
      (joined (base_path ∷ ds_external_id ∷ "/" ∷ child_type ∷ "/" ∷ key_text op.key ∷ "/" ∷ []))

unfoldable pub series_url : ApiClient → Option String → String
series_url client external_id = url_of client (joined (base_path ∷ key_text external_id ∷ "/" ∷ []))

module _ (client : ApiClient) (ds_external_id : String) where
  unfoldable pub delete_child : String → KeyedOperation → Action Unit
  delete_child child_type op = do
    _ ← send client Method.delete (child_url client ds_external_id child_type op) none
    pure tt

  unfoldable pub create_child : String → Payload → Action Unit
  create_child child_type payload = do
    _ ← send client post (children_url client ds_external_id child_type) (some payload)
    pure tt

  unfoldable pub update_child : String → KeyedOperation → Payload → Action Unit
  update_child child_type op payload = do
    _ ← send client patch (child_url client ds_external_id child_type op) (some payload)
    pure tt

  -- `_simple_child_migrate_delete` and `_simple_child_migrate_create_update`
  unfoldable pub simple_child_migrate_delete : String → List KeyedOperation → Action Unit
  simple_child_migrate_delete child_type ops =
      for_each (of_type type_of OperationType.delete ops) (delete_child child_type)

  unfoldable pub simple_child_migrate_create_update : String → List KeyedOperation → Action Unit
  simple_child_migrate_create_update child_type ops = do
    for_each (of_type type_of create ops) (λ op. create_child child_type op.payload)
    for_each (of_type type_of update ops) (λ op. update_child child_type op op.payload)

  -- `_delete_consumers`, `_create_update_consumers`
  unfoldable pub delete_consumers : List KeyedOperation → Action Unit
  delete_consumers ops = simple_child_migrate_delete "consumer" ops

  unfoldable pub create_update_consumers : List KeyedOperation → Action Unit
  create_update_consumers ops = simple_child_migrate_create_update "consumer" ops

  -- `_delete_indexes`, `_create_update_indexes`: only where the instance has indexes at all.
  unfoldable pub if_indexes : Action Unit → Action Unit
  if_indexes migrate = do
    ds_json ← send client get (series_url client (some ds_external_id)) none
    (if json_has ds_json "indexes" then migrate else pure tt)

  unfoldable pub delete_indexes : List KeyedOperation → Action Unit
  delete_indexes ops = if_indexes (simple_child_migrate_delete "index" ops)

  unfoldable pub create_update_indexes : List KeyedOperation → Action Unit
  create_update_indexes ops = if_indexes (simple_child_migrate_create_update "index" ops)

-- `structure_diff.__dict__.items()`, each operation with the field it stands in.
abbrev pub tagged : StructureType → List KeyedOperation → List (StructureType × KeyedOperation)
tagged t [] = []
tagged t (op ∷ ops) = (t, op) ∷ tagged t ops

unfoldable pub structure_operations :
    DataSeriesStructureDiff → List (StructureType × KeyedOperation)
structure_operations diff =
    tagged float_facts diff.float_facts
    ++ tagged string_facts diff.string_facts
    ++ tagged text_facts diff.text_facts
    ++ tagged timestamp_facts diff.timestamp_facts
    ++ tagged image_facts diff.image_facts
    ++ tagged file_facts diff.file_facts
    ++ tagged json_facts diff.json_facts
    ++ tagged boolean_facts diff.boolean_facts
    ++ tagged dimensions diff.dimensions

abbrev pub tagged_type : StructureType × KeyedOperation → OperationType
tagged_type elem = elem.1.operation_type

-- `ds_url_by_external_id[_payload['reference']]`: a key that is no text is a KeyError, or a
-- TypeError if it cannot be hashed.
unfoldable pub url_in : Dict String → Value → Result String
url_in urls (str name) = getitem urls name
url_in urls (list _) = err type_error
url_in urls (dict _) = err type_error
url_in urls _ = err key_error

-- `payload[key] = urls[payload[key]]`
unfoldable pub resolve_key : String → Dict String → Payload → Result Payload
resolve_key key urls payload = elim (getitem payload key) [
  | err e ↦ err e
  | ok reference ↦ elim (url_in urls reference) [
    | err e ↦ err e
    | ok url ↦ ok (insert key (str url) payload)
  ]
]

unfoldable pub resolved : Dict String → StructureType → Payload → Result Payload
resolved urls dimensions payload = resolve_key "reference" urls payload
resolved urls _ payload = ok payload

module _ (client : ApiClient) where
  -- `_delete_structure_elements`
  unfoldable pub delete_structure_elements : DataSeriesStructureDiff → String → Action Unit
  delete_structure_elements diff ds_external_id =
      for_each (of_type tagged_type OperationType.delete (structure_operations diff))
        (λ (t, op). delete_child client ds_external_id (path_elem t) op)

  -- `_create_update_structure_elements`
  unfoldable pub create_update_structure_elements :
      DataSeriesStructureDiff → String → Dict String → Action Unit
  create_update_structure_elements diff ds_external_id urls = do
    for_each (of_type tagged_type create (structure_operations diff)) (λ (t, op). do
      payload ← lift (resolved urls t op.payload)
      create_child client ds_external_id (path_elem t) payload)
    for_each (of_type tagged_type update (structure_operations diff)) (λ (t, op). do
      payload ← lift (resolved urls t op.payload)
      update_child client ds_external_id (path_elem t) op payload)
