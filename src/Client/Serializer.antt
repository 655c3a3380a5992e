-- ===== src/Client/Serializer.antt =====
-- `to_dict` of the dataclasses, which the package dataclasses_json provides, and the classes as the
-- diff sees them: a key, `to_dict` and `==`.
use nfcompose.Shared.{◌==◌}
use nfcompose.Client.Models.{
  Runtime, Fact, Fact_eq, Dimension, Dimension_eq, Index, Index_eq, Consumer, Consumer_eq,
  DataSeries, DataSeries_eq, GroupPermissionsOnObject, Engine, Engine_eq, EngineSecret,
  HttpEndpoint, HttpEndpoint_eq, Group, GroupPermissions,
}
use nfcompose.Client.Operation.{Payload, Identifiable}

pub record Serializer : Type 0 where
  pub fact : Fact → Payload
  pub dimension : Dimension → Payload
  pub index : Index → Payload
  pub consumer : Consumer → Payload
  pub data_series : DataSeries → Payload
  pub object_permissions : GroupPermissionsOnObject → Payload
  pub engine : Engine → Payload
  pub engine_secret : EngineSecret → Payload
  pub http_endpoint : HttpEndpoint → Payload
  pub group : Group → Payload
  pub group_permissions : GroupPermissions → Payload

module _ (ser : Serializer) where
  abbrev pub facts : Identifiable Fact
  facts = record { key = λ f. f.external_id; to_dict = ser.fact; eq = Fact_eq }

  abbrev pub dimensions : Identifiable Dimension
  dimensions = record { key = λ d. d.external_id; to_dict = ser.dimension; eq = Dimension_eq }

  abbrev pub indexes : Identifiable Index
  indexes = record { key = λ x. x.external_id; to_dict = ser.index; eq = Index_eq }

  abbrev pub consumers : Runtime → Identifiable Consumer
  consumers rt = record {
    key = λ c. c.external_id;
    to_dict = ser.consumer;
    eq = λ a b. Consumer_eq rt a b;
  }

  -- `diff_data_series` compares `base != target`, the other passes `target != base`.
  abbrev pub series : Runtime → Identifiable DataSeries
  series rt = record {
    key = λ d. d.external_id;
    to_dict = ser.data_series;
    eq = λ target base. DataSeries_eq rt base target;
  }

  abbrev pub engines : Identifiable Engine
  engines = record {
    key = λ e. e.external_id;
    to_dict = ser.engine;
    eq = λ target base. Engine_eq base target;
  }

  abbrev pub http_endpoints : Identifiable HttpEndpoint
  http_endpoints = record {
    key = λ e. e.external_id;
    to_dict = ser.http_endpoint;
    eq = λ target base. HttpEndpoint_eq base target;
  }

  abbrev pub user_groups : Identifiable Group
  user_groups = record {
    key = λ g. g.name;
    to_dict = ser.group;
    eq = λ target base. base.name == target.name;
  }
