-- ===== src/Client/Diff/DataSeries/Reached.antt =====
-- What the diff of two DataSeries definitions promises: under every key, and for every kind of
-- child, its operations lead from what the base holds to what the target asks for.
use nfcompose.Shared.{Bool, true, false, Option, none, some, List, [], ◌∷◌}
use nfcompose.Client.Models.{
  Runtime, Index, Consumer, DataSeries, GroupPermissionsOnObject, DataSeriesStructure,
  DataSeriesDefinition,
}
use nfcompose.Client.Serializer
use nfcompose.Client.Serializer.{Serializer}
use nfcompose.Client.Diff.Models.{DataSeriesStructureDiff, DataSeriesDefinitionDiff}
use nfcompose.Client.Diff.Leads.{Leads, Grants, IfIncluded, operations_of, removes}
use nfcompose.Client.Diff.DataSeries.{DiffOptions, no_structure}

abbrev pub series_of : Option DataSeriesDefinition → List DataSeries
series_of none = []
series_of (some d) = d.data_series ∷ []

abbrev pub structure_of : Option DataSeriesDefinition → DataSeriesStructure
structure_of none = no_structure
structure_of (some d) = d.structure

abbrev pub indexes_of : Option DataSeriesDefinition → List Index
indexes_of none = []
indexes_of (some d) = d.indexes

abbrev pub consumers_of : Option DataSeriesDefinition → List Consumer
consumers_of none = []
consumers_of (some d) = d.consumers

abbrev pub permissions_of : Option DataSeriesDefinition → List GroupPermissionsOnObject
permissions_of none = []
permissions_of (some d) = d.group_permissions

pub record ReachesStructure (ser : Serializer) (drops : Bool) (b t : DataSeriesStructure)
    (s : DataSeriesStructureDiff) : Type 0 where
  pub float_facts : Leads (Serializer.facts ser) drops b.float_facts t.float_facts s.float_facts
  pub string_facts : Leads (Serializer.facts ser) drops b.string_facts t.string_facts s.string_facts
  pub text_facts : Leads (Serializer.facts ser) drops b.text_facts t.text_facts s.text_facts
  pub timestamp_facts :
      Leads (Serializer.facts ser) drops b.timestamp_facts t.timestamp_facts s.timestamp_facts
  pub image_facts : Leads (Serializer.facts ser) drops b.image_facts t.image_facts s.image_facts
  pub file_facts : Leads (Serializer.facts ser) drops b.file_facts t.file_facts s.file_facts
  pub json_facts : Leads (Serializer.facts ser) drops b.json_facts t.json_facts s.json_facts
  pub boolean_facts :
      Leads (Serializer.facts ser) drops b.boolean_facts t.boolean_facts s.boolean_facts
  pub dimensions : Leads (Serializer.dimensions ser) drops b.dimensions t.dimensions s.dimensions

pub record Reaches (rt : Runtime) (ser : Serializer) (opts : DiffOptions)
    (b t : Option DataSeriesDefinition) (d : DataSeriesDefinitionDiff) : Type 0 where
  pub data_series :
      Leads
        (Serializer.series ser rt)
        (removes opts.delete_in_base t false)
        (series_of b)
        (series_of t)
        (operations_of d.data_series)
  pub structure :
      ReachesStructure ser
        (removes opts.delete_in_base t true)
        (structure_of b)
        (structure_of t)
        d.structure
  pub indexes :
      Leads
        (Serializer.indexes ser)
        (removes opts.delete_in_base t true)
        (indexes_of b)
        (indexes_of t)
        d.indexes
  pub consumers : IfIncluded opts.include_consumers d.consumers (
      Leads
        (Serializer.consumers ser rt)
        (removes opts.delete_in_base t opts.remove_missing_consumers)
        (consumers_of b)
        (consumers_of t)
        d.consumers)
  pub group_permissions : IfIncluded opts.include_group_permissions d.group_permissions (
      Grants ser.object_permissions
        (removes opts.delete_in_base t opts.revoke_missing_group_permissions)
        (permissions_of b)
        (permissions_of t)
        d.group_permissions)
