-- ===== src/Client/Push/Series.antt =====
-- `_migrate_bare_data_series` and `push` of the DataSeriesDefinitionDiffPusher. from_dict, which
-- dataclasses_json generates, is a parameter.
use nfcompose.Shared.{String, ℕ, Bool, false, Option, none, some, List, [], ◌∷◌, if◌then◌else◌}
use nfcompose.Shared.Result.{Result}
use nfcompose.Shared.Dict.{Dict, getitem, insert}
use nfcompose.Shared.Value.{Value}
use nfcompose.Client.Operation.{OperationType, create, update, KeyedOperation}
use nfcompose.Client.Diff.Models.{DataSeriesDefinitionDiff}
use nfcompose.Client.Rest.{
  Method, post, put, patch, ApiClient, Action, pure, lift, ◌>>=◌, ◌>>◌, send, url_of, for_each,
  read_paginated_all,
}
use nfcompose.Shared.Texts.{joined}
use nfcompose.Client.Push.{
  key_text, is_type, of_type, type_of, base_path, series_url, delete_indexes,
  delete_structure_elements, delete_consumers, create_update_structure_elements,
  create_update_consumers, create_update_indexes,
}

-- The fields that are read; a group's id as it stands in a URL.
pub record RawDataSeries : Type 0 where
  pub external_id : String
  pub url : String

pub record RawGroup : Type 0 where
  pub name : String
  pub id : String

pub record RawEngine : Type 0 where
  pub external_id : String
  pub url : String

pub record Converters : Type 0 where
  pub data_series : Value → Result RawDataSeries
  pub group : Value → Result RawGroup
  pub engine : Value → Result RawEngine

abbrev pub has_type : Option KeyedOperation → OperationType → Bool
has_type none t = false
has_type (some op) t = is_type op.operation_type t

abbrev pub id_by_name : Dict String → List RawGroup → Dict String
id_by_name ids [] = ids
id_by_name ids (group ∷ groups) = id_by_name (insert group.name group.id ids) groups

abbrev pub url_by_external_id : Dict String → List RawDataSeries → Dict String
url_by_external_id urls [] = urls
url_by_external_id urls (series ∷ rest) =
    url_by_external_id (insert series.external_id series.url urls) rest

abbrev pub with_operation : Option KeyedOperation → List KeyedOperation → List KeyedOperation
with_operation none rest = rest
with_operation (some op) rest = op ∷ rest

-- The operations on the data series themselves.
unfoldable pub series_operations : List DataSeriesDefinitionDiff → List KeyedOperation
series_operations [] = []
series_operations (diff ∷ diffs) = with_operation diff.data_series (series_operations diffs)

unfoldable pub permission_url : ApiClient → String → String → String
permission_url client ds_external_id group_id =
    url_of client (joined (base_path ∷ ds_external_id ∷ "/permission/group/" ∷ group_id ∷ "/" ∷ []))

-- `pages` bounds the number of requests for each of the lists that are read.
module _ (client : ApiClient) (converters : Converters) (pages : ℕ) where
  unfoldable pub delete_series : KeyedOperation → Action Unit
  delete_series op = do _ ← send client Method.delete (series_url client op.key) none; pure tt

  -- A creation or an update answers with the data series, whose URL is taken up.
  unfoldable pub written :
      List KeyedOperation → (KeyedOperation → Action Value) → Dict String → Action (Dict String)
  written [] write urls = pure urls
  written (op ∷ ops) write urls = do
    json ← write op
    series ← lift (converters.data_series json)
    written ops write (insert series.external_id series.url urls)

  unfoldable pub create_series : KeyedOperation → Action Value
  create_series op =
      send client post (url_of client "/api/dataseries/dataseries/") (some op.payload)

  unfoldable pub update_series : KeyedOperation → Action Value
  update_series op = send client patch (series_url client op.key) (some op.payload)

  unfoldable pub migrate_bare_data_series : List DataSeriesDefinitionDiff → Action (Dict String)
  migrate_bare_data_series diffs = do
    for_each (of_type type_of OperationType.delete (series_operations diffs)) delete_series
    created ← written (of_type type_of create (series_operations diffs)) create_series []
    written (of_type type_of update (series_operations diffs)) update_series created

  unfoldable pub delete_children : DataSeriesDefinitionDiff → Action Unit
  delete_children diff = if has_type diff.data_series create then pure tt else (do
    delete_indexes client diff.external_id diff.indexes
    delete_structure_elements client diff.structure diff.external_id
    delete_consumers client diff.external_id diff.consumers)

  unfoldable pub create_update_children : Dict String → DataSeriesDefinitionDiff → Action Unit
  create_update_children urls diff =
      if has_type diff.data_series OperationType.delete then pure tt else (do
        create_update_structure_elements client diff.structure diff.external_id urls
        create_update_consumers client diff.external_id diff.consumers
        create_update_indexes client diff.external_id diff.indexes)

  -- A change of type DELETE is passed over: permissions are only ever put.
  unfoldable pub put_permission : Dict String → String → KeyedOperation → Action Unit
  put_permission ids ds_external_id change =
      if is_type change.operation_type OperationType.delete then pure tt else (do
        id ← lift (getitem ids (key_text change.key))
        _ ← send client put (permission_url client ds_external_id id) (some change.payload)
        pure tt)

  unfoldable pub put_permissions : Dict String → DataSeriesDefinitionDiff → Action Unit
  put_permissions ids diff = for_each diff.group_permissions (put_permission ids diff.external_id)

  unfoldable pub read_groups : Action (List RawGroup)
  read_groups =
      read_paginated_all converters.group client "results" pages
        (some (url_of client "/api/common/auth/group/")) []

  unfoldable pub read_data_series : Action (List RawDataSeries)
  read_data_series =
      read_paginated_all converters.data_series client "results" pages
        (some (url_of client "/api/dataseries/dataseries/")) []

  unfoldable pub push_data_series : List DataSeriesDefinitionDiff → Action Unit
  push_data_series diffs = do
    for_each diffs delete_children
    _ ← migrate_bare_data_series diffs
    series ← read_data_series
    for_each diffs (create_update_children (url_by_external_id [] series))
    groups ← read_groups
    for_each diffs (put_permissions (id_by_name [] groups))
