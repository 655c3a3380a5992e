-- ===== src/Skipper/Samples.antt =====
-- A data series with facts and a dimension, for the tests of the server.
use nfcompose.Shared.{
  String, ℕ, ◌+◌, Bool, true, false, Option, none, some, [], ◌∷◌, if◌then◌else◌, ◌==◌,
}
use nfcompose.Shared.Value.{ℤ, pos, negsuc, Value, null, int, str}
use nfcompose.Shared.Dict.{Dict}
use nfcompose.Skipper.Structure.{
  SeriesId, uuid, ReadOnlyDataSeries, DataSeriesFactQueryInfo, DataSeriesDimensionQueryInfo,
  DataSeriesQueryInfo,
}
use nfcompose.Skipper.Validate.Contract.{
  ReadOnlyDataPoint, ValidationRequest, DataPointData, mapping,
}

-- A number for each integer, with the sign bit of the negative ones set.
abbrev pub to_float : ℤ → Option ℕ
to_float (pos n) = some n
to_float (negsuc n) = some (9223372036854775809 + n)

-- The text stands for its digest.
abbrev pub digest : String → String
digest s = s

abbrev pub fact : String → Bool → DataSeriesFactQueryInfo
fact external_id optional = record {
  id = external_id;
  unescaped_display_id = external_id;
  value_column = external_id;
  fact = record { id = uuid external_id; name = external_id; optional = optional };
  dataseries_fact = record {
    id = external_id;
    external_id = external_id;
    fact = record { id = uuid external_id; name = external_id; optional = optional };
    point_in_time = 0;
  };
}

abbrev pub stations : ReadOnlyDataSeries
stations = record {
  id = uuid "stations";
  schema_name = "public";
  main_query_table_name = "stations";
  main_alive_filter = "1=1";
  materialized_flat_history_table_name = "stations_history";
  backend = "DYNAMIC_SQL_NO_HISTORY";
  locked = false;
}

abbrev pub station : DataSeriesDimensionQueryInfo
station = record {
  id = "station";
  unescaped_display_id = "station";
  value_column = "station";
  dimension = record {
    id = uuid "station";
    name = "station";
    optional = false;
    reference = stations;
  };
  dataseries_dimension = record {
    id = "station";
    external_id = "station";
    dimension = record {
      id = uuid "station";
      name = "station";
      optional = false;
      reference = stations;
    };
    point_in_time = 0;
  };
}

abbrev pub float_facts : Dict DataSeriesFactQueryInfo
float_facts = ("temp", fact "temp" false) ∷ ("wind", fact "wind" true) ∷ []

abbrev pub info : DataSeriesQueryInfo
info = record {
  data_series_id = uuid "weather";
  schema_name = "public";
  main_query_table_name = "weather";
  materialized_flat_history_table_name = "weather_history";
  backend = "DYNAMIC_SQL_NO_HISTORY";
  locked = false;
  main_alive_filter = "1=1";
  main_extra_fields = [];
  float_facts = float_facts;
  string_facts = ("note", fact "note" true) ∷ [];
  text_facts = [];
  timestamp_facts = [];
  image_facts = [];
  json_facts = [];
  boolean_facts = [];
  dimensions = ("station", station) ∷ [];
  file_facts = [];
}

abbrev pub attrs : Dict Value
attrs = ("temp", int (pos 3)) ∷ ("wind", null) ∷ ("station", str "north") ∷ []

abbrev pub data_point : DataPointData
data_point = record {
  id = none;
  external_id = some (str "monday");
  payload = some (mapping attrs);
  extra = [];
}

-- There is one station, "north".
abbrev pub accessor : String → SeriesId → Option ReadOnlyDataPoint
accessor i series =
    if i == "stations-north"
    then some (record { id = i; data_series_id = uuid "stations"; external_id = "north" })
    else none

abbrev pub request : ValidationRequest
request = record {
  data_point_id = none;
  data_point_relation_info = info;
  partial = false;
  bulk_insert = false;
  external_id_as_dimension_identifier = true;
  data_point_accessor = accessor;
}

abbrev pub patch_request : ValidationRequest
patch_request = record request { data_point_id = some "weather-monday"; partial = true }

abbrev pub patch : DataPointData
patch = record data_point { external_id = none }
