-- ===== src/Client/Diff/DataSeries/AllReaches.antt =====
-- `diff_all_data_series` covers every DataSeries once.
use nfcompose.Shared.{String, ◌≡◌, ◌||◌, List, map, contains, Distinct, is_some}
use nfcompose.Shared.Result.{ok}
use nfcompose.Shared.Sets.{IsSetOrder}
use nfcompose.Client.Models.{Runtime, DataSeriesDefinition}
use nfcompose.Client.Serializer.{Serializer}
use nfcompose.Client.Diff.Models.{DataSeriesDefinitionDiff}
use nfcompose.Client.Diff.Child.Latest.{latest}
use nfcompose.Client.Diff.Groups.Transforms.{WritesPermissions}
use nfcompose.Client.Diff.All.Covers.{All, diff_all-covers}
use nfcompose.Client.Diff.DataSeries.{DiffOptions, diff_data_series}
use nfcompose.Client.Diff.DataSeries.Reached.{Reaches}
use nfcompose.Client.Diff.DataSeries.Reaches.{series_key, diff_data_series-Reaches}
use nfcompose.Client.Diff.DataSeries.All.{diff_all_data_series}

abbrev pub diff_key : DataSeriesDefinitionDiff → String
diff_key d = d.external_id

-- For any order in which sets are walked, and a `to_dict` of group permissions that writes their
-- list under 'group_permissions': for any two collections of definitions `diff_all_data_series`
-- raises nothing. It returns one diff for each external_id that the base or the target has, no two
-- of the same id, and each leads from the last definition of its id in the base to the last one in
-- the target: of a data series that both have, the facts, dimensions and indexes that only the base
-- has are removed whatever `delete_in_base` is.
pub diff_all_data_series-Reaches :
    (rt : Runtime) (ser : Serializer)
    → IsSetOrder rt.set_order
    → WritesPermissions ser.object_permissions
    → (opts : DiffOptions) (base target : List DataSeriesDefinition)
    → (ds : List DataSeriesDefinitionDiff) × (diff_all_data_series rt ser opts base target ≡ ok ds)
      × Distinct (map diff_key ds)
      × ((k : String)
          → contains (map diff_key ds) k
            ≡ (is_some (latest series_key k base) || is_some (latest series_key k target)))
      × All
          (λ d.
            Reaches rt ser opts
              (latest series_key (diff_key d) base)
              (latest series_key (diff_key d) target)
              d)
          ds
unfolding diff_all_data_series
diff_all_data_series-Reaches rt ser O W opts base target =
    diff_all-covers (diff_data_series rt ser opts) series_key diff_key (Reaches rt ser opts)
      rt.set_order O (diff_data_series-Reaches rt ser O W opts) base target
