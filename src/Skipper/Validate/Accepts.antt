-- ===== src/Skipper/Validate/Accepts.antt =====
-- Which data points `validate` accepts, and what it returns for them.
use nfcompose.Shared.{
  String, ℕ, ◌≡◌, refl, sym, ap, ◌∙◌, ◌↔◌, Bool, Option, none, some, List, [], ◌++◌, map, arith,
  Distinct, inl, inr, Option-cases,
}
use nfcompose.Shared.Sets.{IsSetOrder}
use nfcompose.Shared.Dict.{Dict, lookup}
use nfcompose.Shared.Value.{ℤ, Value, str}
use nfcompose.Skipper.Structure.{SeriesId, values, gen_uuid}
use nfcompose.Skipper.Validate.{
  Progress, check_validation_result, fact_kinds, validate_payload, caught, set_id, finish,
}
use nfcompose.Skipper.Validate.Contract.{
  ValidationRequest, messages, Message, Checked, passed, raised, validation_error, message, fields,
  DataPointData, mapping, ◌>>=◌, api_exception, not_found, overflow_error, assertion_error,
  attribute_error,
}
use nfcompose.Skipper.Validate.DimensionPresence.{dimension_id, dimension_at, missing_errors}
use nfcompose.Skipper.Validate.DimensionVerdicts.{
  reference_errors, dimension_value, validate_dimensions_lem,
}
use nfcompose.Skipper.Validate.Composed.{
  value_after, IsFine, Fits, IsWellFormed, run_sub_validations_lem, checked_payload, checked_errors,
}
use nfcompose.Skipper.Validate.Messages.{Sound-empty, messages-nil}

module _ (set_order : List String → List String) (to_float : ℤ → Option ℕ)
    (hexdigest : String → String) (request : ValidationRequest) where
  -- The id that the data point gets.
  abbrev pub id_for : Option String → String → String
  id_for none s = gen_uuid hexdigest request.data_point_relation_info.data_series_id s
  id_for (some i) s = i

  -- What is returned for a data point with the external id s.
  abbrev pub accepted : DataPointData → String → DataPointData
  accepted data_point s = record data_point {
    external_id = some (str s);
    id = some (id_for request.data_point_id s);
  }

  set_id_lem :
      (data_point : DataPointData) (s : String)
      → set_id set_order to_float hexdigest request
          (record data_point { external_id = some (str s) })
        ≡ passed (accepted data_point s)
  unfolding set_id
  set_id_lem data_point s = elim (Option-cases request.data_point_id) [
    | inl e ↦ rw (e) refl
    | inr (i, e) ↦ rw (e) refl
  ]

  pub finish_iff :
      (p : Progress) (s : String) (d : DataPointData)
      → (finish set_order to_float hexdigest request p (some (str s), none) ≡ passed d)
        ↔ ((p.payload_errors ≡ none) × (d ≡ accepted p.data_point s))
  unfolding finish
  finish_iff p s d = elim (Option-cases p.payload_errors) [
    | inl e ↦ rw (e) (ground (arith, set_id_lem p.data_point s))
    | inr (errors, e) ↦ rw (e) (ground arith)
  ]

  -- An error about the external id refuses the data point.
  refused :
      (p : Progress) (m : Message) (d : DataPointData)
      → finish set_order to_float hexdigest request p (none, some m) ≡ passed d
      → ⊥
  unfolding finish
  refused p m d = elim (Option-cases p.payload_errors) [
    | inl e ↦ rw (e) (ground arith)
    | inr (errors, e) ↦ rw (e) (ground arith)
  ]

  pub caught_lem :
      (p : Progress) (x : Checked String) (d : DataPointData)
      → (caught set_order to_float hexdigest x >>= finish set_order to_float hexdigest request p)
        ≡ passed d
      → (s : String) × (x ≡ passed s)
        × (finish set_order to_float hexdigest request p (some (str s), none) ≡ passed d)
  unfolding caught
  caught_lem p (passed s) d h = (s, refl, h)
  caught_lem p (raised (validation_error (message m))) d h = absurd (refused p m d h)
  caught_lem p (raised (validation_error (fields a b))) d h = cc h
  caught_lem p (raised api_exception) d h = cc h
  caught_lem p (raised not_found) d h = cc h
  caught_lem p (raised overflow_error) d h = cc h
  caught_lem p (raised assertion_error) d h = cc h
  caught_lem p (raised attribute_error) d h = cc h

  -- The dimension of an external id, and the payload's value once the dimensions are checked.
  abbrev pub dimension : String → Option (Bool × SeriesId)
  dimension k = dimension_at k (values request.data_point_relation_info.dimensions)

  abbrev pub value_then : Dict Value → String → Option Value
  value_then attrs k =
      dimension_value hexdigest request.data_point_accessor
        request.external_id_as_dimension_identifier (dimension k) (lookup k attrs)

  -- No check has an error for the key k.
  abbrev pub IsFineAt : Dict Value → String → Type 0
  IsFineAt attrs k =
      (missing_errors request.data_point_relation_info.data_series_id request.partial k
            (dimension k) (lookup k attrs)
          ++ reference_errors hexdigest request.data_point_accessor
              request.external_id_as_dimension_identifier k (dimension k) (lookup k attrs)
        ≡ [])
      × IsFine to_float request fact_kinds k (value_then attrs k)

  pub validate_payload_lem :
      (O : IsSetOrder set_order) (W : IsWellFormed to_float request) (data_point : DataPointData)
      (attrs : Dict Value)
      → data_point.payload ≡ some (mapping attrs)
      → Distinct (map dimension_id (values request.data_point_relation_info.dimensions))
      → ((k : String) → Fits to_float request fact_kinds k (value_then attrs k))
      → (q : Progress) × (attrs' : Dict Value) × (validate_payload set_order to_float hexdigest
            request data_point
          ≡ passed q)
        × (q.data_point ≡ record data_point { payload = some (mapping attrs') })
        × ((k : String)
            → lookup k attrs' ≡ value_after to_float request fact_kinds k (value_then attrs k))
        × ((q.payload_errors ≡ none) ↔ ((k : String) → IsFineAt attrs k))
  unfolding validate_payload
  validate_payload_lem O W data_point attrs payload u fits =
      let checked =
        validate_dimensions_lem hexdigest request.data_point_accessor
          request.external_id_as_dimension_identifier set_order O data_point attrs
          request.data_point_relation_info request.partial payload u in
      let start : Progress = record { data_point = data_point; payload_errors = none } in
      let next = check_validation_result start checked.0 in
      let same = checked_payload start checked.0.0 checked.0.1 in
      let rest =
        run_sub_validations_lem to_float request set_order hexdigest O W fact_kinds next checked.0.1
          (ap (λ (d : DataPointData). d.payload) same) (λ k. rw ((checked.2 k).1) (fits k)) in
      (
        rest.0,
        rest.1,
        rw (checked.1) rest.2,
        rest.3 ∙ ap (λ (d : DataPointData). record d { payload = some (mapping rest.1) }) same,
        λ k. rest.4 k ∙ ap (value_after to_float request fact_kinds k) (checked.2 k).1,
        (
          λ none_at_end.
              let before = rest.5.0 none_at_end in
              let none_here = (checked_errors start checked.0.0 checked.0.1).0 before.0 in
              λ k. (
                sym (checked.2 k).0 ∙ ap (messages k) none_here.0 ∙ messages-nil k,
                rw (sym (checked.2 k).1) (before.1 k),
              ),
          λ fine.
              let none_here =
                Sound-empty checked.0.0 checked.3 (λ k. (checked.2 k).0 ∙ (fine k).0) in
              rest.5.1 (
                (checked_errors start checked.0.0 checked.0.1).1 (none_here, refl),
                λ k. rw ((checked.2 k).1) ((fine k).1),
              ),
        ),
      )
