-- ===== src/Client/Diff/DataSeries.antt =====
-- `diff_data_series` of diff.py.
pub mod Reached
pub mod Children
pub mod Reaches
pub mod Same
pub mod All
pub mod AllReaches
use nfcompose.Shared.{
  String, Bool, true, false, not, Option, none, some, List, [], ◌==◌, if◌then◌else◌,
}
use nfcompose.Shared.Result.{Result, ok, err, assertion_error, ◌>>=◌}
use nfcompose.Client.Models.{
  Runtime, Fact, DataSeries, DataSeries_eq, DataSeriesStructure, DataSeriesDefinition,
}
use nfcompose.Client.Operation.{create, delete, update, KeyedOperation}
use nfcompose.Client.Serializer
use nfcompose.Client.Serializer.{Serializer}
use nfcompose.Client.Diff.Models.{DataSeriesStructureDiff, DataSeriesDefinitionDiff}
use nfcompose.Client.Diff.Child.{
  operation, list_diff_dataseries_child, list_diff_dataseries_dimension,
  list_diff_dataseries_user_defined_index,
}
use nfcompose.Client.Diff.Groups.{group_permissions_diff}

-- The keyword arguments of `diff_data_series`.
pub record DiffOptions : Type 0 where
  pub include_consumers : Bool
  pub include_group_permissions : Bool
  pub delete_in_base : Bool
  pub revoke_missing_group_permissions : Bool
  pub remove_missing_consumers : Bool

abbrev pub default_options : DiffOptions
default_options = record {
  include_consumers = true;
  include_group_permissions = true;
  delete_in_base = false;
  revoke_missing_group_permissions = true;
  remove_missing_consumers = true;
}

abbrev pub no_structure : DataSeriesStructure
no_structure = record {
  float_facts = [];
  string_facts = [];
  text_facts = [];
  timestamp_facts = [];
  image_facts = [];
  file_facts = [];
  json_facts = [];
  boolean_facts = [];
  dimensions = [];
}

abbrev pub no_structure_diff : DataSeriesStructureDiff
no_structure_diff = record {
  float_facts = [];
  string_facts = [];
  text_facts = [];
  timestamp_facts = [];
  image_facts = [];
  file_facts = [];
  json_facts = [];
  boolean_facts = [];
  dimensions = [];
}

module _ (rt : Runtime) (ser : Serializer) where
  -- `list_diff_dataseries_child` of facts, with its defaults.
  unfoldable pub fact_diff : List Fact → List Fact → Result (List KeyedOperation)
  fact_diff base target =
      list_diff_dataseries_child rt.set_order (Serializer.facts ser) base target true (λ b t. false)

  unfoldable pub structure_diff :
      DataSeriesStructure → DataSeriesStructure → Result DataSeriesStructureDiff
  structure_diff base target = do
    float_facts ← fact_diff base.float_facts target.float_facts
    string_facts ← fact_diff base.string_facts target.string_facts
    text_facts ← fact_diff base.text_facts target.text_facts
    timestamp_facts ← fact_diff base.timestamp_facts target.timestamp_facts
    image_facts ← fact_diff base.image_facts target.image_facts
    file_facts ← fact_diff base.file_facts target.file_facts
    json_facts ← fact_diff base.json_facts target.json_facts
    boolean_facts ← fact_diff base.boolean_facts target.boolean_facts
    dimensions ←
        list_diff_dataseries_dimension rt.set_order (Serializer.dimensions ser) base.dimensions
          target.dimensions true
    ok (record {
      float_facts = float_facts;
      string_facts = string_facts;
      text_facts = text_facts;
      timestamp_facts = timestamp_facts;
      image_facts = image_facts;
      file_facts = file_facts;
      json_facts = json_facts;
      boolean_facts = boolean_facts;
      dimensions = dimensions;
    })

  -- The DataSeriesDefinitionDiff of the branches that compare children.
  unfoldable pub definition_diff :
      DiffOptions
      → String
      → Option KeyedOperation
      → DataSeriesDefinition
      → DataSeriesDefinition
      → Bool
      → Bool
      → Result DataSeriesDefinitionDiff
  definition_diff opts external_id data_series base target delete_consumers revoke = do
    structure ← structure_diff base.structure target.structure
    indexes ←
        list_diff_dataseries_user_defined_index rt.set_order (Serializer.indexes ser) base.indexes
          target.indexes true
    consumers ←
        (if opts.include_consumers
          then list_diff_dataseries_child rt.set_order (Serializer.consumers ser rt) base.consumers
              target.consumers delete_consumers (λ b t. false)
          else ok [])
    group_permissions ←
        (if opts.include_group_permissions
          then group_permissions_diff rt.set_order ser.object_permissions base.group_permissions
              target.group_permissions revoke
          else ok [])
    ok (record {
      external_id = external_id;
      data_series = data_series;
      structure = structure;
      group_permissions = group_permissions;
      consumers = consumers;
      indexes = indexes;
    })

  -- The definition with empty lists for the children: what the branches for a missing base or
  -- target compare with.
  abbrev pub childless : DataSeriesDefinition → DataSeriesDefinition
  childless d = record {
    data_series = d.data_series;
    structure = no_structure;
    consumers = [];
    indexes = [];
    group_permissions = [];
  }

  unfoldable pub update_op_ds : DataSeries → DataSeries → Option KeyedOperation
  update_op_ds base target =
      if not (DataSeries_eq rt base target)
      then some (operation update target.external_id (ser.data_series target))
      else none

  unfoldable pub diff_data_series :
      DiffOptions
      → Option DataSeriesDefinition
      → Option DataSeriesDefinition
      → Result DataSeriesDefinitionDiff
  unfolding definition_diff update_op_ds
  diff_data_series opts none none = err assertion_error
  diff_data_series opts none (some t) =
      definition_diff opts t.data_series.external_id
        (some (operation create t.data_series.external_id (ser.data_series t.data_series)))
        (childless t) t false false
  diff_data_series opts (some b) none =
      if not opts.delete_in_base
      then ok (record {
        external_id = b.data_series.external_id;
        data_series = none;
        structure = no_structure_diff;
        group_permissions = [];
        consumers = [];
        indexes = [];
      })
      else definition_diff opts b.data_series.external_id
          (some (operation delete b.data_series.external_id (ser.data_series b.data_series))) b
          (childless b) true true
  diff_data_series opts (some b) (some t) =
      if not (b.data_series.external_id == t.data_series.external_id)
      then err assertion_error
      else definition_diff opts b.data_series.external_id (update_op_ds b.data_series t.data_series)
          b t opts.remove_missing_consumers opts.revoke_missing_group_permissions
