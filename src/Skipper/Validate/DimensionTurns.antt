-- ===== src/Skipper/Validate/DimensionTurns.antt =====
-- One turn of the loop over the dimensions, seen at one key.
use nfcompose.Shared.{
  String, ◌≡◌, refl, Bool, Option, none, some, List, [], ◌∷◌, ◌++◌, arith, if◌then◌else◌, ◌==◌, inl,
  inr, Bool-cases, Option-cases, eq_iff,
}
use mathlib.Core.List.{append-nil}
use nfcompose.Shared.Dict.{Dict, lookup, lookup-insert}
use nfcompose.Shared.Value.{Value, null, bool, int, float, str, datetime, object, list, dict}
use nfcompose.Skipper.Structure.{SeriesId, id_eq, DataSeriesDimensionQueryInfo}
use nfcompose.Skipper.Validate.Contract.{
  ReadOnlyDataPoint, Message, dimension_no_string, dimension_not_found, dimension_wrong_series,
  Errors, messages, append_error,
}
use nfcompose.Skipper.Validate.Dimensions.{
  column, dimension_target, check_reference, check_value, check_dimension,
}
use nfcompose.Skipper.Validate.Messages.{messages-append_error}
use nfcompose.Skipper.Validate.DimensionPresence.{dimension_id}

module _ (hexdigest : String → String) (accessor : String → SeriesId → Option ReadOnlyDataPoint)
    (use_external_id : Bool) where
  -- The errors about a data point that a dimension names by the text s.
  unfoldable pub named_errors : String → String → SeriesId → List Message
  named_errors k s reference =
      elim (accessor (dimension_target hexdigest accessor use_external_id reference s) reference) [
        | none ↦ dimension_not_found (column hexdigest accessor use_external_id (str s)) k ∷ []
        | some p ↦
            if id_eq p.data_series_id reference
            then []
            else dimension_wrong_series (column hexdigest accessor use_external_id (str s)) k
                reference
              ∷ []
      ]

  -- The errors about a value, and the value that stays.
  unfoldable pub value_errors : String → SeriesId → Option Value → List Message
  value_errors k reference none = []
  value_errors k reference (some null) = []
  value_errors k reference (some (str s)) = if s == "" then [] else named_errors k s reference
  value_errors k reference (some v) =
      dimension_no_string (column hexdigest accessor use_external_id v) k ∷ []

  unfoldable pub value_left : SeriesId → Option Value → Option Value
  value_left reference (some (str s)) =
      if s == ""
      then some null
      else if use_external_id
      then some (str (dimension_target hexdigest accessor use_external_id reference s))
      else some (str s)
  value_left reference v = v

  messages-check_reference :
      (errors : Errors) (k s : String) (reference : SeriesId) (j : String)
      → messages j (check_reference hexdigest accessor use_external_id errors k s reference)
        ≡ (if k == j then messages j errors ++ named_errors k s reference else messages j errors)
  unfolding check_reference named_errors
  messages-check_reference errors k s reference j =
      elim (Option-cases
        (accessor (dimension_target hexdigest accessor use_external_id reference s) reference)) [
          | inl e ↦
              rw (check_reference, named_errors, e)
                (messages-append_error j k errors
                  (dimension_not_found (column hexdigest accessor use_external_id (str s)) k))
          | inr (p, e) ↦ elim (Bool-cases (id_eq p.data_series_id reference)) [
            | inl same ↦
                rw (check_reference, named_errors, e, same)
                  (ground (arith, append-nil (messages j errors)))
            | inr differs ↦
                rw (check_reference, named_errors, e, differs)
                  (messages-append_error j k errors (
                    dimension_wrong_series (column hexdigest accessor use_external_id (str s)) k
                      reference))
          ]
        ]

  no_string_turn :
      (errors : Errors) (attrs : Dict Value) (i : String) (reference : SeriesId) (v : Value)
      (k : String)
      → lookup i attrs ≡ some v
      → let m = dimension_no_string (column hexdigest accessor use_external_id v) i in
        (messages k (append_error errors i m)
          ≡ (if i == k then messages k errors ++ (m ∷ []) else messages k errors))
        × (lookup k attrs ≡ (if i == k then some v else lookup k attrs))
  no_string_turn errors attrs i reference v k e =
      let m = dimension_no_string (column hexdigest accessor use_external_id v) i in
      ground (arith, e, messages-append_error k i errors m, eq_iff i k)

  -- `check_value` at a key that holds v.
  check_value_turn :
      (errors : Errors) (attrs : Dict Value) (i : String) (reference : SeriesId) (v : Value)
      (k : String)
      → lookup i attrs ≡ some v
      → let s = check_value hexdigest accessor use_external_id errors attrs i reference v in
        (messages k s.0 ≡ (
          if i == k
          then messages k errors ++ value_errors i reference (some v)
          else messages k errors))
        × (lookup k s.1 ≡ (if i == k then value_left reference (some v) else lookup k attrs))
  unfolding check_value value_errors value_left
  check_value_turn errors attrs i reference null k e =
      ground (arith, e, append-nil (messages k errors), eq_iff i k)
  check_value_turn errors attrs i reference (str s) k e = ground (
    arith,
    e,
    append-nil (messages k errors),
    eq_iff i k,
    messages-check_reference errors i s reference k,
    lookup-insert k i null attrs,
    lookup-insert k i (str (dimension_target hexdigest accessor use_external_id reference s)) attrs,
  )
  check_value_turn errors attrs i reference (bool b) k e =
      no_string_turn errors attrs i reference (bool b) k e
  check_value_turn errors attrs i reference (int z) k e =
      no_string_turn errors attrs i reference (int z) k e
  check_value_turn errors attrs i reference (float x) k e =
      no_string_turn errors attrs i reference (float x) k e
  check_value_turn errors attrs i reference (datetime t) k e =
      no_string_turn errors attrs i reference (datetime t) k e
  check_value_turn errors attrs i reference (object o) k e =
      no_string_turn errors attrs i reference (object o) k e
  check_value_turn errors attrs i reference (list xs) k e =
      no_string_turn errors attrs i reference (list xs) k e
  check_value_turn errors attrs i reference (dict d) k e =
      no_string_turn errors attrs i reference (dict d) k e

  nothing_there :
      (k : String) (reference : SeriesId)
      → (value_errors k reference none ≡ []) × (value_left reference none ≡ none)
  unfolding value_errors value_left
  nothing_there k reference = (refl, refl)

  pub check_dimension_turn :
      (d : DataSeriesDimensionQueryInfo) (errors : Errors) (attrs : Dict Value) (k : String)
      → let s = check_dimension hexdigest accessor use_external_id d errors attrs in
        (messages k s.0 ≡ (
          if dimension_id d == k
          then messages k errors ++ value_errors k d.dimension.reference.id (lookup k attrs)
          else messages k errors))
        × (lookup k s.1 ≡ (
            if dimension_id d == k
            then value_left d.dimension.reference.id (lookup k attrs)
            else lookup k attrs))
  unfolding check_dimension
  check_dimension_turn d errors attrs k = elim (Option-cases (lookup (dimension_id d) attrs)) [
    | inl e ↦
        rw (check_dimension, e)
          (ground (
            arith,
            e,
            eq_iff (dimension_id d) k,
            append-nil (messages k errors),
            nothing_there k d.dimension.reference.id,
          ))
    | inr (v, e) ↦
        rw (check_dimension, e)
          (ground (
            arith,
            e,
            eq_iff (dimension_id d) k,
            check_value_turn errors attrs (dimension_id d) d.dimension.reference.id v k e,
          ))
  ]
