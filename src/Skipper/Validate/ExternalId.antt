-- ===== src/Skipper/Validate/ExternalId.antt =====
-- The check on the external id of a data point, of validate/default/internal.py.
use nfcompose.Shared.{String, Bool, not, Option, none, some, if◌then◌else◌, ◌==◌}
use nfcompose.Shared.Value.{Value, str}
use nfcompose.Skipper.Structure.{SeriesId, gen_uuid}
use nfcompose.Skipper.Validate.Contract.{
  ReadOnlyDataPoint, Message, external_id_not_set, external_id_no_string, external_id_in_use,
  external_id_changed, message, Checked, passed, raised, validation_error, not_found,
}

module _ (hexdigest : String → String) (accessor : String → SeriesId → Option ReadOnlyDataPoint)
    (data_series_id : SeriesId) where
  abbrev pub refuse : Message → Checked String
  refuse m = raised (validation_error (message m))

  -- A new data point takes an id that is free; a bulk insert may write over what is there.
  unfoldable pub check_new : Bool → String → Checked String
  check_new bulk_insert external_id =
      if not bulk_insert
      then elim (accessor (gen_uuid hexdigest data_series_id external_id) data_series_id) [
        | none ↦ passed external_id
        | some data_point ↦ refuse (external_id_in_use external_id)
      ]
      else passed external_id

  -- A data point keeps its external id.
  unfoldable pub check_existing : String → String → Checked String
  check_existing data_point_id external_id = elim (accessor data_point_id data_series_id) [
    | none ↦ raised not_found
    | some data_point ↦
        if not (external_id == data_point.external_id)
        then refuse external_id_changed
        else passed external_id
  ]

  unfoldable pub validate_external_id : Option Value → Bool → Option String → Checked String
  validate_external_id none bulk_insert data_point_id = refuse external_id_not_set
  validate_external_id (some (str s)) bulk_insert none = check_new bulk_insert s
  validate_external_id (some (str s)) bulk_insert (some i) = check_existing i s
  validate_external_id (some v) bulk_insert data_point_id = refuse external_id_no_string
