-- ===== src/Skipper/Validate/ExternalIds.antt =====
-- When the check on an external id lets a data point through.
use nfcompose.Shared.{
  String, ◌≡◌, ◌↔◌, Bool, true, false, Option, none, some, arith, if◌then◌else◌, eq_iff, inl, inr,
  Option-cases,
}
use nfcompose.Shared.Value.{Value, null, bool, int, float, str, datetime, object, list, dict}
use nfcompose.Skipper.Structure.{SeriesId, gen_uuid}
use nfcompose.Skipper.Validate.Contract.{ReadOnlyDataPoint, passed}
use nfcompose.Skipper.Validate.ExternalId.{check_new, check_existing, validate_external_id}

module _ (hexdigest : String → String) (accessor : String → SeriesId → Option ReadOnlyDataPoint)
    (data_series_id : SeriesId) where
  -- The external id that the data point of an id has now.
  abbrev pub external_id_of : Option ReadOnlyDataPoint → Option String
  external_id_of none = none
  external_id_of (some p) = some p.external_id

  -- What lets a data point through: its external id is a text; a new one's is not used in the series,
  -- unless it is inserted in bulk; an existing one is found and keeps its external id.
  abbrev pub IsAllowed : Option Value → Bool → Option String → String → Type 0
  IsAllowed external_id bulk_insert none s =
      (external_id ≡ some (str s))
      × ((if bulk_insert
            then none
            else external_id_of (accessor (gen_uuid hexdigest data_series_id s) data_series_id))
          ≡ none)
  IsAllowed external_id bulk_insert (some i) s =
      (external_id ≡ some (str s)) × (external_id_of (accessor i data_series_id) ≡ some s)

  check_new_iff :
      (bulk_insert : Bool) (t s : String)
      → (check_new hexdigest accessor data_series_id bulk_insert t ≡ passed s)
        ↔ IsAllowed (some (str t)) bulk_insert none s
  unfolding check_new
  check_new_iff true t s = ground arith
  check_new_iff false t s =
      elim (Option-cases (accessor (gen_uuid hexdigest data_series_id t) data_series_id)) [
        | inl e ↦ ground (arith, e)
        | inr (p, e) ↦ ground (arith, e)
      ]

  check_existing_iff :
      (bulk_insert : Bool) (i t s : String)
      → (check_existing hexdigest accessor data_series_id i t ≡ passed s)
        ↔ IsAllowed (some (str t)) bulk_insert (some i) s
  unfolding check_existing
  check_existing_iff bulk_insert i t s = elim (Option-cases (accessor i data_series_id)) [
    | inl e ↦ ground (arith, e)
    | inr (p, e) ↦ ground (arith, e, eq_iff t p.external_id)
  ]

  -- The check on the external id passes with the text s exactly if the data point has the external id
  -- s and it is allowed: for a new data point, that the series has none of that external id, which a
  -- bulk insert does not ask for; for an existing one, that it is found and has that external id.
  pub validate_external_id_iff :
      (external_id : Option Value) (bulk_insert : Bool) (data_point_id : Option String) (s : String)
      → (validate_external_id hexdigest accessor data_series_id external_id bulk_insert
            data_point_id
          ≡ passed s)
        ↔ IsAllowed external_id bulk_insert data_point_id s
  unfolding validate_external_id
  validate_external_id_iff (some (str t)) bulk_insert none s = check_new_iff bulk_insert t s
  validate_external_id_iff (some (str t)) bulk_insert (some i) s =
      check_existing_iff bulk_insert i t s
  validate_external_id_iff none bulk_insert none s = ground arith
  validate_external_id_iff (some null) bulk_insert none s = ground arith
  validate_external_id_iff (some (bool b)) bulk_insert none s = ground arith
  validate_external_id_iff (some (int z)) bulk_insert none s = ground arith
  validate_external_id_iff (some (float x)) bulk_insert none s = ground arith
  validate_external_id_iff (some (datetime t)) bulk_insert none s = ground arith
  validate_external_id_iff (some (object o)) bulk_insert none s = ground arith
  validate_external_id_iff (some (list xs)) bulk_insert none s = ground arith
  validate_external_id_iff (some (dict d)) bulk_insert none s = ground arith
  validate_external_id_iff none bulk_insert (some i) s = ground arith
  validate_external_id_iff (some null) bulk_insert (some i) s = ground arith
  validate_external_id_iff (some (bool b)) bulk_insert (some i) s = ground arith
  validate_external_id_iff (some (int z)) bulk_insert (some i) s = ground arith
  validate_external_id_iff (some (float x)) bulk_insert (some i) s = ground arith
  validate_external_id_iff (some (datetime t)) bulk_insert (some i) s = ground arith
  validate_external_id_iff (some (object o)) bulk_insert (some i) s = ground arith
  validate_external_id_iff (some (list xs)) bulk_insert (some i) s = ground arith
  validate_external_id_iff (some (dict d)) bulk_insert (some i) s = ground arith
