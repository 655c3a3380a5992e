-- ===== src/Client/Push/Justified.antt =====
-- Every request of the push of data series is called for by an operation of the diffs.
use nfcompose.Shared.{String, ◌≡◌, false, none, some, List, ◌∷◌}
use nfcompose.Shared.Result.{Result, ok}
use nfcompose.Shared.Dict.{lookup, insert}
use nfcompose.Shared.Value.{Value, str}
use nfcompose.Client.Operation.{OperationType, create, update, KeyedOperation, Payload}
use nfcompose.Client.Diff.Models.{DataSeriesDefinitionDiff}
use nfcompose.Client.Rest.{
  Method, get, post, put, patch, RestRequest, ApiClient, url_of, parse_page, convert_all,
}
use nfcompose.Client.Push.{
  StructureType, dimensions, path_elem, is_type, structure_operations, children_url, child_url,
  series_url, key_text,
}
use nfcompose.Client.Push.Series.{Converters, RawDataSeries, RawGroup, has_type, permission_url}
use mathlib.Core.List.{Memᴰ}

-- A child of a data series is a consumer, an index or an element of its structure.
pub data Kind : Type 0 where
  consumer index : Kind
  element : StructureType → Kind

abbrev pub kind_path : Kind → String
kind_path consumer = "consumer"
kind_path index = "index"
kind_path (element t) = path_elem t

-- The diff has this operation on a child of that kind.
abbrev pub Has : DataSeriesDefinitionDiff → Kind → KeyedOperation → Type 0
Has diff consumer op = Memᴰ op diff.consumers
Has diff index op = Memᴰ op diff.indexes
Has diff (element t) op = Memᴰ (t, op) (structure_operations diff.structure)

-- The client has it from the server: it is an element of a page that was the answer to a GET.
pub data Served {A : Type 0} (client : ApiClient) (converter : Value → Result A) (x : A)
    : Type 0 where
  served :
      (url : String) (log : List RestRequest) (page elements next : Value) (found : List A)
      → client.answer (record { method = get; url = url; json = none } ∷ log) ≡ ok page
      → parse_page converter "results" page ≡ ok (elements, next)
      → convert_all converter elements ≡ ok found
      → Memᴰ x found
      → Served client converter x

-- The payload of a dimension that is sent: that of the operation, but for the reference, which is the
-- URL of the data series of the server that the operation's payload names.
unfoldable pub RefersTo : ApiClient → Converters → Payload → Payload → Type 0
RefersTo client converters old payload =
    (name : String) × (series : RawDataSeries) × (lookup "reference" old ≡ some (str name))
    × Served client converters.data_series series
    × (series.external_id ≡ name)
    × (payload ≡ insert "reference" (str series.url) old)

-- The payload that is sent of a child.
unfoldable pub IsSent : ApiClient → Converters → Kind → KeyedOperation → Payload → Type 0
IsSent client converters (element dimensions) op payload =
    RefersTo client converters op.payload payload
IsSent client converters _ op payload = payload ≡ op.payload

pub data Justified (client : ApiClient) (converters : Converters)
    (diffs : List DataSeriesDefinitionDiff) : RestRequest → Type 0 where
  reads :
      (url : String)
      → Justified client converters diffs (record { method = get; url = url; json = none })
  child_deleted :
      (diff : DataSeriesDefinitionDiff) (kind : Kind) (op : KeyedOperation)
      → Memᴰ diff diffs
      → has_type diff.data_series create ≡ false
      → Has diff kind op
      → op.operation_type ≡ OperationType.delete
      → Justified client converters diffs (record {
        method = Method.delete;
        url = child_url client diff.external_id (kind_path kind) op;
        json = none;
      })
  child_created :
      (diff : DataSeriesDefinitionDiff) (kind : Kind) (op : KeyedOperation) (payload : Payload)
      → Memᴰ diff diffs
      → has_type diff.data_series OperationType.delete ≡ false
      → Has diff kind op
      → op.operation_type ≡ create
      → IsSent client converters kind op payload
      → Justified client converters diffs (record {
        method = post;
        url = children_url client diff.external_id (kind_path kind);
        json = some payload;
      })
  child_updated :
      (diff : DataSeriesDefinitionDiff) (kind : Kind) (op : KeyedOperation) (payload : Payload)
      → Memᴰ diff diffs
      → has_type diff.data_series OperationType.delete ≡ false
      → Has diff kind op
      → op.operation_type ≡ update
      → IsSent client converters kind op payload
      → Justified client converters diffs (record {
        method = patch;
        url = child_url client diff.external_id (kind_path kind) op;
        json = some payload;
      })
  series_deleted :
      (diff : DataSeriesDefinitionDiff) (op : KeyedOperation)
      → Memᴰ diff diffs
      → diff.data_series ≡ some op
      → op.operation_type ≡ OperationType.delete
      → Justified client converters diffs
          (record { method = Method.delete; url = series_url client op.key; json = none })
  series_created :
      (diff : DataSeriesDefinitionDiff) (op : KeyedOperation)
      → Memᴰ diff diffs
      → diff.data_series ≡ some op
      → op.operation_type ≡ create
      → Justified client converters diffs (record {
        method = post;
        url = url_of client "/api/dataseries/dataseries/";
        json = some op.payload;
      })
  series_updated :
      (diff : DataSeriesDefinitionDiff) (op : KeyedOperation)
      → Memᴰ diff diffs
      → diff.data_series ≡ some op
      → op.operation_type ≡ update
      → Justified client converters diffs
          (record { method = patch; url = series_url client op.key; json = some op.payload })
  permission_put :
      (diff : DataSeriesDefinitionDiff) (change : KeyedOperation) (group : RawGroup)
      → Memᴰ diff diffs
      → Memᴰ change diff.group_permissions
      → is_type change.operation_type OperationType.delete ≡ false
      → Served client converters.group group
      → group.name ≡ key_text change.key
      → Justified client converters diffs (record {
        method = put;
        url = permission_url client diff.external_id group.id;
        json = some change.payload;
      })
