-- ===== src/Client/Tests/DataPoints.antt =====
-- Runs of the diff of data points, and its theorems at inputs that meet their hypotheses.
use nfcompose.Shared.{String, ◌≡◌, refl, List, [], ◌∷◌}
use nfcompose.Shared.Result.{ok, err, value_error, not_implemented}
use nfcompose.Client.Diff.Child.Latest.{latest}
use nfcompose.Client.Diff.DataSeries.{no_structure}
use nfcompose.Client.Diff.DataPoints.{DataPointOperation, diff_datapoint_list}
use nfcompose.Client.Diff.DataPoints.Loop.{about_point, point_key}
use nfcompose.Client.Diff.DataPoints.Plan.{
  point_plan, diff_datapoint_list-plan, diff_datapoint_list-value_error,
  diff_datapoint_list-not_implemented,
}
use nfcompose.Client.Samples.{runtime, rain, point, old_points, new_points}

diff_datapoint_list-plan_example :
    (os : List DataPointOperation) × (diff_datapoint_list runtime no_structure old_points new_points
      ≡ ok os)
    × ((k : String)
        → about_point k os
          ≡ point_plan runtime no_structure k
              (latest point_key k old_points)
              (latest point_key k new_points))
diff_datapoint_list-plan_example =
    diff_datapoint_list-plan runtime no_structure old_points new_points (refl, (refl, tt))
      (refl, (refl, tt)) (λ k. refl)

diff_datapoint_list-value_error_example :
    diff_datapoint_list runtime no_structure old_points (point "tue" "6" ∷ point "tue" "7" ∷ [])
    ≡ err value_error
diff_datapoint_list-value_error_example =
    diff_datapoint_list-value_error runtime no_structure old_points
      (point "tue" "6" ∷ point "tue" "7" ∷ []) (λ h. cc (h.1.0))

diff_datapoint_list-not_implemented_example :
    diff_datapoint_list runtime
      (record no_structure { file_facts = rain ∷ [] })
      old_points
      new_points
    ≡ err not_implemented
diff_datapoint_list-not_implemented_example =
    diff_datapoint_list-not_implemented runtime (record no_structure { file_facts = rain ∷ [] })
      old_points new_points "tue" (refl, (refl, tt)) (refl, (refl, tt)) refl refl refl
