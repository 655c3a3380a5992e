-- ===== src/Client/Tests/DataSeries.antt =====
-- Runs of the diff of data series, and its theorems at inputs that meet their hypotheses.
use nfcompose.Shared.{
  String, ◌≡◌, refl, sym, true, ◌||◌, some, List, [], ◌∷◌, map, contains, Distinct, is_some,
}
use nfcompose.Shared.Result.{ok}
use nfcompose.Shared.Sets.{last_seen-IsSetOrder}
use nfcompose.Client.Models.{texts_eq, Consumer, DataSeriesDefinition}
use nfcompose.Shared.Dict.{keys}
use mathlib.Core.Path.{subst}
use mathlib.Core.List.{Memᴰ}
use mathlib.Core.List.Memᴰ
use nfcompose.Client.Diff.Models.{DataSeriesDefinitionDiff, data_series_diff_empty}
use nfcompose.Client.Diff.Child.Latest.{latest}
use nfcompose.Client.Diff.All.Covers.{All}
use nfcompose.Client.Diff.DataSeries.{default_options, diff_data_series}
use nfcompose.Client.Diff.DataSeries.All.{diff_all_data_series}
use nfcompose.Client.Diff.DataSeries.AllReaches
use nfcompose.Client.Diff.DataSeries.Reached.{Reaches}
use nfcompose.Client.Diff.DataSeries.Reaches.{series_key, diff_data_series-Reaches}
use nfcompose.Client.Diff.DataSeries.Same.{IsReflexive, diff_data_series_self}
use nfcompose.Client.Samples.{runtime, serializer, alarm, writes, old_definition, new_definition}

diff_data_series-Reaches_example :
    (d : DataSeriesDefinitionDiff) × (diff_data_series runtime serializer default_options
        (some old_definition)
        (some new_definition)
      ≡ ok d)
    × (d.external_id ≡ "weather")
    × Reaches runtime serializer default_options (some old_definition) (some new_definition) d
diff_data_series-Reaches_example =
    diff_data_series-Reaches runtime serializer last_seen-IsSetOrder writes default_options
      "weather" (some old_definition) (some new_definition) (refl, refl)

-- A definition with a consumer.
abbrev watched : DataSeriesDefinition
watched = record new_definition { consumers = alarm ∷ [] }

alarm_same :
    (c : Consumer)
    → Memᴰ c (alarm ∷ [])
    → (runtime.dict_eq c.headers c.headers ≡ true) × (runtime.float_eq c.timeout c.timeout ≡ true)
unfolding texts_eq keys
alarm_same c (Memᴰ.head e) =
    subst
      (λ x.
        (runtime.dict_eq x.headers x.headers ≡ true)
        × (runtime.float_eq x.timeout x.timeout ≡ true))
      (sym e) (refl, refl)
alarm_same c (Memᴰ.tail m) = absurd (Memᴰ.not-nil m)

watched-IsReflexive : IsReflexive runtime watched
unfolding texts_eq keys
watched-IsReflexive = record { extra_config = refl; consumers = alarm_same }

diff_data_series_self_example :
    (e : DataSeriesDefinitionDiff) × (diff_data_series runtime serializer default_options
        (some watched)
        (some watched)
      ≡ ok e)
    × (data_series_diff_empty e ≡ true)
diff_data_series_self_example =
    diff_data_series_self runtime serializer last_seen-IsSetOrder default_options watched
      watched-IsReflexive

diff_all_data_series-Reaches_example :
    (ds : List DataSeriesDefinitionDiff) × (diff_all_data_series runtime serializer default_options
        (old_definition ∷ [])
        (new_definition ∷ [])
      ≡ ok ds)
    × Distinct (map AllReaches.diff_key ds)
    × ((k : String)
        → contains (map AllReaches.diff_key ds) k ≡ (
            is_some (latest series_key k (old_definition ∷ []))
            || is_some (latest series_key k (new_definition ∷ []))))
    × All
        (λ d.
          Reaches runtime serializer default_options
            (latest series_key (AllReaches.diff_key d) (old_definition ∷ []))
            (latest series_key (AllReaches.diff_key d) (new_definition ∷ []))
            d)
        ds
diff_all_data_series-Reaches_example =
    AllReaches.diff_all_data_series-Reaches runtime serializer last_seen-IsSetOrder writes
      default_options (old_definition ∷ []) (new_definition ∷ [])
