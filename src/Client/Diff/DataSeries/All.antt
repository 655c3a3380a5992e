-- ===== src/Client/Diff/DataSeries/All.antt =====
-- `diff_all_data_series` of diff.py.
use nfcompose.Shared.{List}
use nfcompose.Shared.Result.{Result}
use nfcompose.Client.Models.{Runtime, DataSeriesDefinition}
use nfcompose.Client.Serializer.{Serializer}
use nfcompose.Client.Diff.Models.{DataSeriesDefinitionDiff}
use nfcompose.Client.Diff.DataSeries.{DiffOptions, diff_data_series}
use nfcompose.Client.Diff.All.{diff_all}

module _ (rt : Runtime) (ser : Serializer) where
  unfoldable pub diff_all_data_series :
      DiffOptions
      → List DataSeriesDefinition
      → List DataSeriesDefinition
      → Result (List DataSeriesDefinitionDiff)
  diff_all_data_series opts =
      diff_all (diff_data_series rt ser opts) rt.set_order (λ d. d.data_series.external_id)
