-- ===== src/Client/Diff/DataSeries/Children.antt =====
-- The children of two DataSeries definitions: each pass of `diff_data_series` succeeds, and its
-- operations lead from the base to the target.
use nfcompose.Shared.{◌≡◌, refl, Bool, true, false, List, [], if◌then◌else◌}
use nfcompose.Shared.Result.{ok}
use nfcompose.Shared.Sets.{IsSetOrder}
use nfcompose.Client.Models.{
  Runtime, Fact, Index, Consumer, GroupPermissionsOnObject, DataSeriesStructure,
}
use nfcompose.Client.Operation.{KeyedOperation}
use nfcompose.Client.Serializer
use nfcompose.Client.Serializer.{Serializer}
use nfcompose.Client.Diff.Models.{DataSeriesStructureDiff}
use nfcompose.Client.Diff.Child.{
  list_diff_dataseries_child, list_diff_dataseries_dimension,
  list_diff_dataseries_user_defined_index, dimension_recreate_instead_of_update,
  user_defined_index_recreate_instead_of_update,
}
use nfcompose.Client.Diff.Child.Transforms.{list_diff_dataseries_child-Transforms}
use nfcompose.Client.Diff.Groups.{group_permissions_diff}
use nfcompose.Client.Diff.Groups.Transforms.{WritesPermissions, group_permissions_diff-grants}
use nfcompose.Client.Diff.DataSeries.{fact_diff, structure_diff}
use nfcompose.Client.Diff.Leads.{Leads, Grants, IfIncluded}
use nfcompose.Client.Diff.DataSeries.Reached.{ReachesStructure}

module _ (rt : Runtime) (ser : Serializer) (O : IsSetOrder rt.set_order) where
  fact_diff-Leads :
      (base target : List Fact)
      → (os : List KeyedOperation) × (fact_diff rt ser base target ≡ ok os)
        × Leads (Serializer.facts ser) true base target os
  unfolding fact_diff
  fact_diff-Leads base target =
      list_diff_dataseries_child-Transforms (Serializer.facts ser) O base target true (λ b t. false)

  pub structure_diff-Reaches :
      (base target : DataSeriesStructure)
      → (s : DataSeriesStructureDiff) × (structure_diff rt ser base target ≡ ok s)
        × ReachesStructure ser true base target s
  unfolding structure_diff list_diff_dataseries_dimension
  structure_diff-Reaches b t =
      let (floats, built₁, r₁) = fact_diff-Leads b.float_facts t.float_facts in
      let (strings, built₂, r₂) = fact_diff-Leads b.string_facts t.string_facts in
      let (texts, built₃, r₃) = fact_diff-Leads b.text_facts t.text_facts in
      let (timestamps, built₄, r₄) = fact_diff-Leads b.timestamp_facts t.timestamp_facts in
      let (images, built₅, r₅) = fact_diff-Leads b.image_facts t.image_facts in
      let (files, built₆, r₆) = fact_diff-Leads b.file_facts t.file_facts in
      let (jsons, built₇, r₇) = fact_diff-Leads b.json_facts t.json_facts in
      let (booleans, built₈, r₈) = fact_diff-Leads b.boolean_facts t.boolean_facts in
      let (dims, built₉, r₉) =
        list_diff_dataseries_child-Transforms (Serializer.dimensions ser) O b.dimensions
          t.dimensions true dimension_recreate_instead_of_update in
      (
        record {
          float_facts = floats;
          string_facts = strings;
          text_facts = texts;
          timestamp_facts = timestamps;
          image_facts = images;
          file_facts = files;
          json_facts = jsons;
          boolean_facts = booleans;
          dimensions = dims;
        },
        rw built₁ (
            rw built₂
              (rw built₃ (rw built₄ (rw built₅ (rw built₆ (rw built₇ (rw built₈ (rw built₉)))))))),
        record {
          float_facts = r₁;
          string_facts = r₂;
          text_facts = r₃;
          timestamp_facts = r₄;
          image_facts = r₅;
          file_facts = r₆;
          json_facts = r₇;
          boolean_facts = r₈;
          dimensions = r₉;
        },
      )

  pub index_diff-Leads :
      (base target : List Index)
      → (os : List KeyedOperation) × (list_diff_dataseries_user_defined_index rt.set_order
            (Serializer.indexes ser)
            base
            target
            true
          ≡ ok os)
        × Leads (Serializer.indexes ser) true base target os
  unfolding list_diff_dataseries_user_defined_index
  index_diff-Leads base target =
      list_diff_dataseries_child-Transforms (Serializer.indexes ser) O base target true
        user_defined_index_recreate_instead_of_update

  pub consumer_diff-Leads :
      (included : Bool) (base target : List Consumer) (removes : Bool)
      → (os : List KeyedOperation) × ((if included
            then list_diff_dataseries_child rt.set_order
                (Serializer.consumers ser rt)
                base
                target
                removes
                (λ b t. false)
            else ok [])
          ≡ ok os)
        × IfIncluded included os (Leads (Serializer.consumers ser rt) removes base target os)
  consumer_diff-Leads true base target removes =
      list_diff_dataseries_child-Transforms (Serializer.consumers ser rt) O base target removes
        (λ b t. false)
  consumer_diff-Leads false base target removes = ([], refl, refl)

  pub permission_diff-Grants :
      WritesPermissions ser.object_permissions
      → (included : Bool) (base target : List GroupPermissionsOnObject) (revokes : Bool)
      → (os : List KeyedOperation) × ((if included
            then group_permissions_diff rt.set_order ser.object_permissions base target revokes
            else ok [])
          ≡ ok os)
        × IfIncluded included os (Grants ser.object_permissions revokes base target os)
  permission_diff-Grants W true base target revokes =
      group_permissions_diff-grants ser.object_permissions W rt.set_order O base target revokes
  permission_diff-Grants W false base target revokes = ([], refl, refl)
