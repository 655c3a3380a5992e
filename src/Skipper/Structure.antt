-- ===== src/Skipper/Structure.antt =====
-- The records of skipper/skipper/dataseries/storage/static_ds_information.py, which describe a data
-- series to the code that checks, stores and reads its data points, and the ids of uuid.py.
use nfcompose.Shared.{String, ℕ, Bool, false, List, [], ◌∷◌, if◌then◌else◌, ◌==◌, not}
use nfcompose.Shared.Dict.{Dict}
use nfcompose.Shared.Result.{Result, ok, err, not_implemented}
use Prim.Native.String.{◌++◌}

-- `Union[str, UUID]`: a UUID never equals a text.
pub data SeriesId : Type 0 where
  uuid text : String → SeriesId

unfoldable pub id_eq : SeriesId → SeriesId → Bool
id_eq (uuid a) (uuid b) = a == b
id_eq (text a) (text b) = a == b
id_eq _ _ = false

-- `str(id)`
unfoldable pub id_text : SeriesId → String
id_text (uuid a) = a
id_text (text a) = a

pub record ReadOnlyFact : Type 0 where
  pub id : SeriesId
  pub name : String
  pub optional : Bool

pub record ReadOnlyBaseDataSeriesFactRelation : Type 0 where
  pub id : String
  pub external_id : String
  pub fact : ReadOnlyFact
  pub point_in_time : ℕ

pub record ReadOnlyDataSeries : Type 0 where
  pub id : SeriesId
  pub schema_name : String
  pub main_query_table_name : String
  pub main_alive_filter : String
  pub materialized_flat_history_table_name : String
  pub backend : String
  pub locked : Bool

pub record ReadOnlyDimension : Type 0 where
  pub id : SeriesId
  pub name : String
  pub optional : Bool
  pub reference : ReadOnlyDataSeries

pub record ReadOnlyDataSeriesDimension : Type 0 where
  pub id : String
  pub external_id : String
  pub dimension : ReadOnlyDimension
  pub point_in_time : ℕ

pub record DataSeriesFactQueryInfo : Type 0 where
  pub id : String
  pub unescaped_display_id : String
  pub value_column : String
  pub fact : ReadOnlyFact
  pub dataseries_fact : ReadOnlyBaseDataSeriesFactRelation

pub record DataSeriesDimensionQueryInfo : Type 0 where
  pub id : String
  pub unescaped_display_id : String
  pub value_column : String
  pub dimension : ReadOnlyDimension
  pub dataseries_dimension : ReadOnlyDataSeriesDimension

pub record DataSeriesQueryInfo : Type 0 where
  pub data_series_id : SeriesId
  pub schema_name : String
  pub main_query_table_name : String
  pub materialized_flat_history_table_name : String
  pub backend : String
  pub locked : Bool
  pub main_alive_filter : String
  pub main_extra_fields : List String
  pub float_facts : Dict DataSeriesFactQueryInfo
  pub string_facts : Dict DataSeriesFactQueryInfo
  pub text_facts : Dict DataSeriesFactQueryInfo
  pub timestamp_facts : Dict DataSeriesFactQueryInfo
  pub image_facts : Dict DataSeriesFactQueryInfo
  pub json_facts : Dict DataSeriesFactQueryInfo
  pub boolean_facts : Dict DataSeriesFactQueryInfo
  pub dimensions : Dict DataSeriesDimensionQueryInfo
  pub file_facts : Dict DataSeriesFactQueryInfo

-- `d.values()`
unfoldable pub values {ℓ} : {V : Type ℓ} → Dict V → List V
values [] = []
values ((k, v) ∷ d) = v ∷ values d

unfoldable pub data_series_query_info_for_full_history :
    DataSeriesQueryInfo → Result DataSeriesQueryInfo
data_series_query_info_for_full_history info =
    if not (info.backend == "DYNAMIC_SQL_MATERIALIZED_FLAT_HISTORY")
    then err not_implemented
    else ok (record info {
      main_query_table_name = info.materialized_flat_history_table_name;
      main_alive_filter = "1=1";
      main_extra_fields = "sub_clock" ∷ "deleted" ∷ [];
    })

pub record DataPointSerializationKeys : Type 0 where
  pub float_facts : List (String × String)
  pub string_facts : List (String × String)
  pub text_facts : List (String × String)
  pub timestamp_facts : List (String × String)
  pub json_facts : List (String × String)
  pub image_facts : List (String × String)
  pub boolean_facts : List (String × String)
  pub file_facts : List (String × String)
  pub dimensions : List (String × String)

unfoldable pub convert_fact_infos : Dict DataSeriesFactQueryInfo → List (String × String)
convert_fact_infos [] = []
convert_fact_infos ((external_id, info) ∷ d) =
    (external_id, id_text info.fact.id) ∷ convert_fact_infos d

unfoldable pub convert_dimension_infos : Dict DataSeriesDimensionQueryInfo → List (String × String)
convert_dimension_infos [] = []
convert_dimension_infos ((external_id, info) ∷ d) =
    (external_id, id_text info.dimension.id) ∷ convert_dimension_infos d

unfoldable pub data_point_serialization_keys : DataSeriesQueryInfo → DataPointSerializationKeys
data_point_serialization_keys info = record {
  float_facts = convert_fact_infos info.float_facts;
  string_facts = convert_fact_infos info.string_facts;
  text_facts = convert_fact_infos info.text_facts;
  timestamp_facts = convert_fact_infos info.timestamp_facts;
  json_facts = convert_fact_infos info.json_facts;
  image_facts = convert_fact_infos info.image_facts;
  boolean_facts = convert_fact_infos info.boolean_facts;
  file_facts = convert_fact_infos info.file_facts;
  dimensions = convert_dimension_infos info.dimensions;
}

-- `hashlib.sha256(...).hexdigest()` is a parameter.
module _ (hexdigest : String → String) where
  unfoldable pub gen_uuid : SeriesId → String → String
  gen_uuid data_series_id external_id = id_text data_series_id ++ ("-" ++ hexdigest external_id)
