-- ===== src/Client/Diff/Models.antt =====
-- client/compose_client/library/models/diff: what a diff consists of, and when it is empty.
use nfcompose.Shared.{String, Bool, true, ◌&&◌, Option, none, some, List, [], ◌∷◌}
use nfcompose.Client.Operation.{Operation, operation_empty, KeyedOperation, keyed_operation_empty}

-- mixin.py
unfoldable pub list_empty : List KeyedOperation → Bool
unfolding keyed_operation_empty
list_empty [] = true
list_empty (o ∷ os) = keyed_operation_empty o && list_empty os

-- `value is None or value.empty()`
unfoldable pub keyed_empty : Option KeyedOperation → Bool
unfolding keyed_operation_empty
keyed_empty none = true
keyed_empty (some o) = keyed_operation_empty o

unfoldable pub plain_empty : Option Operation → Bool
unfolding operation_empty
plain_empty none = true
plain_empty (some o) = operation_empty o

pub record DataSeriesStructureDiff : Type 0 where
  pub float_facts : List KeyedOperation
  pub string_facts : List KeyedOperation
  pub text_facts : List KeyedOperation
  pub timestamp_facts : List KeyedOperation
  pub image_facts : List KeyedOperation
  pub file_facts : List KeyedOperation
  pub json_facts : List KeyedOperation
  pub boolean_facts : List KeyedOperation
  pub dimensions : List KeyedOperation

unfoldable pub structure_empty : DataSeriesStructureDiff → Bool
unfolding list_empty
structure_empty s =
    list_empty s.float_facts
    && list_empty s.string_facts
    && list_empty s.text_facts
    && list_empty s.timestamp_facts
    && list_empty s.image_facts
    && list_empty s.file_facts
    && list_empty s.json_facts
    && list_empty s.boolean_facts
    && list_empty s.dimensions

pub record DataSeriesDefinitionDiff : Type 0 where
  pub external_id : String
  pub data_series : Option KeyedOperation
  pub structure : DataSeriesStructureDiff
  pub group_permissions : List KeyedOperation
  pub consumers : List KeyedOperation
  pub indexes : List KeyedOperation

-- `EmptyMixin.empty`: every field but `external_id` is empty.
unfoldable pub data_series_diff_empty : DataSeriesDefinitionDiff → Bool
unfolding list_empty keyed_empty structure_empty
data_series_diff_empty d =
    keyed_empty d.data_series
    && structure_empty d.structure
    && list_empty d.group_permissions
    && list_empty d.consumers
    && list_empty d.indexes

pub record EngineDefinitionDiff : Type 0 where
  pub external_id : String
  pub engine : Option KeyedOperation
  pub secret : Option Operation
  pub group_permissions : List KeyedOperation

unfoldable pub engine_diff_empty : EngineDefinitionDiff → Bool
unfolding list_empty keyed_empty plain_empty
engine_diff_empty d = keyed_empty d.engine && plain_empty d.secret && list_empty d.group_permissions

pub record HttpEndpointDefinitionDiff : Type 0 where
  pub external_id : String
  pub http_endpoint : Option KeyedOperation
  pub group_permissions : List KeyedOperation

unfoldable pub http_endpoint_diff_empty : HttpEndpointDefinitionDiff → Bool
unfolding list_empty keyed_empty
http_endpoint_diff_empty d = keyed_empty d.http_endpoint && list_empty d.group_permissions

pub record GroupDefinitionDiff : Type 0 where
  pub name : String
  pub group : Option KeyedOperation
  pub group_permissions : Option Operation

unfoldable pub group_diff_empty : GroupDefinitionDiff → Bool
unfolding keyed_empty plain_empty
group_diff_empty d = keyed_empty d.group && plain_empty d.group_permissions
