-- ===== src/Skipper/Validate/Iff.antt =====
-- The data points that `validate` accepts are those that the rules allow.
use nfcompose.Shared.{
  String, ℕ, ◌≡◌, refl, sym, ap, ◌∙◌, ◌↔◌, false, not, ◌&&◌, Option, none, some, List, map,
  Distinct, is_some,
}
use nfcompose.Shared.Sets.{IsSetOrder}
use nfcompose.Shared.Dict.{Dict, lookup}
use nfcompose.Shared.Value.{ℤ, Value}
use nfcompose.Skipper.Structure.{values}
use nfcompose.Skipper.Validate.{
  Progress, fact_kinds, validate_payload, external_id_step, caught, finish, validate,
}
use nfcompose.Skipper.Validate.Contract.{ValidationRequest, passed, DataPointData, mapping, ◌>>=◌}
use nfcompose.Skipper.Validate.DimensionPresence.{dimension_id}
use nfcompose.Skipper.Validate.Composed.{value_after, Fits, IsWellFormed}
use nfcompose.Skipper.Validate.ExternalId.{validate_external_id}
use nfcompose.Skipper.Validate.ExternalIds.{IsAllowed, validate_external_id_iff}
use nfcompose.Skipper.Validate.Accepts.{
  accepted, caught_lem, finish_iff, value_then, IsFineAt, validate_payload_lem,
}

module _ (set_order : List String → List String) (to_float : ℤ → Option ℕ)
    (hexdigest : String → String) (request : ValidationRequest) (O : IsSetOrder set_order)
    (W : IsWellFormed to_float request) (data_point : DataPointData) (attrs : Dict Value) where
  -- With p the outcome of the checks on the payload and an external id that is to be checked.
  after_payload :
      (p : Progress)
      → validate_payload set_order to_float hexdigest request data_point ≡ passed p
      → (request.partial && not (is_some p.data_point.external_id)) ≡ false
      → validate set_order to_float hexdigest request data_point ≡ (
          caught set_order to_float hexdigest (
            validate_external_id hexdigest request.data_point_accessor
              request.data_point_relation_info.data_series_id p.data_point.external_id
              request.bulk_insert request.data_point_id)
          >>= finish set_order to_float hexdigest request p)
  unfolding validate external_id_step
  after_payload p e given = rw (validate, e, external_id_step, given) refl

  accepted_iff :
      (p : Progress) (d : DataPointData)
      → (caught set_order to_float hexdigest (
              validate_external_id hexdigest request.data_point_accessor
                request.data_point_relation_info.data_series_id p.data_point.external_id
                request.bulk_insert request.data_point_id)
            >>= finish set_order to_float hexdigest request p)
          ≡ passed d
        ↔ ((p.payload_errors ≡ none)
            × ((s : String) × IsAllowed hexdigest request.data_point_accessor
                  request.data_point_relation_info.data_series_id p.data_point.external_id
                  request.bulk_insert request.data_point_id s
                × (d ≡ accepted set_order to_float hexdigest request p.data_point s)))
  unfolding caught
  accepted_iff p d = (
    λ h.
        let parts = caught_lem set_order to_float hexdigest request p _ d h in
        let ends = (finish_iff set_order to_float hexdigest request p parts.0 d).0 parts.2 in
        (
          ends.0,
          (
            parts.0,
            (validate_external_id_iff hexdigest request.data_point_accessor
                  request.data_point_relation_info.data_series_id p.data_point.external_id
                  request.bulk_insert request.data_point_id parts.0).0
                parts.1,
            ends.1,
          ),
        ),
    λ (fine, (s, allowed, e)).
        rw
          ((validate_external_id_iff hexdigest request.data_point_accessor
              request.data_point_relation_info.data_series_id p.data_point.external_id
              request.bulk_insert request.data_point_id s).1
            allowed)
          ((finish_iff set_order to_float hexdigest request p s d).1 (fine, e)),
  )

  IsAllowed-at :
      {x y : Option Value}
      → x ≡ y
      → (s : String)
      → IsAllowed hexdigest request.data_point_accessor
          request.data_point_relation_info.data_series_id x request.bulk_insert
          request.data_point_id s
      → IsAllowed hexdigest request.data_point_accessor
          request.data_point_relation_info.data_series_id y request.bulk_insert
          request.data_point_id s
  IsAllowed-at e s allowed = rw (sym e) allowed

  -- For any order in which sets are walked, a payload that is a dictionary, dimensions and facts of
  -- one kind with different external ids, no integer too large for a float where one is checked as
  -- a float, and a data point that has an external id or is not partial: `validate` returns d
  -- exactly if no key of the payload has an error from the checks on dimensions and on the kinds of
  -- facts, made in turn, the external id is allowed, and d is the data point with the values that
  -- these checks leave and its id.
  pub validate_iff :
      data_point.payload ≡ some (mapping attrs)
      → Distinct (map dimension_id (values request.data_point_relation_info.dimensions))
      → ((k : String)
          → Fits to_float request fact_kinds k
              (value_then set_order to_float hexdigest request attrs k))
      → (request.partial && not (is_some data_point.external_id)) ≡ false
      → (attrs' : Dict Value) × ((k : String)
          → lookup k attrs'
            ≡ value_after to_float request fact_kinds k
                (value_then set_order to_float hexdigest request attrs k))
        × ((d : DataPointData)
            → (validate set_order to_float hexdigest request data_point ≡ passed d) ↔ (
                ((k : String) → IsFineAt set_order to_float hexdigest request attrs k)
                × ((s : String) × IsAllowed hexdigest request.data_point_accessor
                      request.data_point_relation_info.data_series_id data_point.external_id
                      request.bulk_insert request.data_point_id s
                    × (d
                        ≡ accepted set_order to_float hexdigest request
                            (record data_point { payload = some (mapping attrs') })
                            s))))
  validate_iff payload u fits given =
      let (p, attrs', runs, same, values_left, fine) =
        validate_payload_lem set_order to_float hexdigest request O W data_point attrs payload u
          fits in
      let id_kept : p.data_point.external_id ≡ data_point.external_id =
        ap (λ (d : DataPointData). d.external_id) same in
      let unfolded = after_payload p runs (rw (id_kept) given) in
      (
        attrs',
        values_left,
        λ d.
            let at_d = accepted_iff p d in
            (
              λ h.
                  let ends = at_d.0 (sym unfolded ∙ h) in
                  (
                    fine.0 ends.0,
                    (
                      ends.1.0,
                      IsAllowed-at id_kept ends.1.0 ends.1.1,
                      ends.1.2
                          ∙ ap (λ x. accepted set_order to_float hexdigest request x ends.1.0) same,
                    ),
                  ),
              λ (all_fine, (s, allowed, e)).
                  unfolded
                  ∙ at_d.1 (
                    fine.1 all_fine,
                    (
                      s,
                      IsAllowed-at (sym id_kept) s allowed,
                      e ∙ ap (λ x. accepted set_order to_float hexdigest request x s) (sym same),
                    ),
                  ),
            ),
      )
