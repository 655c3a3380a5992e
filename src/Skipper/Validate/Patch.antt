-- ===== src/Skipper/Validate/Patch.antt =====
-- A partial data point without an external id changes one that exists.
use nfcompose.Shared.{
  String, ℕ, ◌≡◌, refl, sym, ap, ◌∙◌, ◌↔◌, true, Option, none, some, List, map, arith, Distinct,
  inl, inr, Option-cases,
}
use nfcompose.Shared.Sets.{IsSetOrder}
use nfcompose.Shared.Dict.{Dict, lookup}
use nfcompose.Shared.Value.{ℤ, Value}
use nfcompose.Skipper.Structure.{values}
use nfcompose.Skipper.Validate.{
  Progress, fact_kinds, validate_payload, external_id_step, set_id, finish, validate,
}
use nfcompose.Skipper.Validate.Contract.{ValidationRequest, passed, DataPointData, mapping}
use nfcompose.Skipper.Validate.DimensionPresence.{dimension_id}
use nfcompose.Skipper.Validate.Composed.{value_after, Fits, IsWellFormed}
use nfcompose.Skipper.Validate.Accepts.{value_then, IsFineAt, validate_payload_lem}

module _ (set_order : List String → List String) (to_float : ℤ → Option ℕ)
    (hexdigest : String → String) (request : ValidationRequest) (O : IsSetOrder set_order)
    (W : IsWellFormed to_float request) (data_point : DataPointData) (attrs : Dict Value) where
  abbrev pub patched : DataPointData → Option Value → String → DataPointData
  patched d external_id i = record d { external_id = external_id; id = some i }

  finish_patch :
      (p : Progress) (external_id : Option Value) (i : String) (d : DataPointData)
      → request.data_point_id ≡ some i
      → (finish set_order to_float hexdigest request p (external_id, none) ≡ passed d)
        ↔ ((p.payload_errors ≡ none) × (d ≡ patched p.data_point external_id i))
  unfolding finish set_id
  finish_patch p external_id i d h = elim (Option-cases p.payload_errors) [
    | inl e ↦ rw (e, finish, set_id, h) (ground arith)
    | inr (errors, e) ↦ rw (e) (ground arith)
  ]

  after_checks :
      (p : Progress)
      → validate_payload set_order to_float hexdigest request data_point ≡ passed p
      → request.partial ≡ true
      → p.data_point.external_id ≡ none
      → validate set_order to_float hexdigest request data_point
        ≡ finish set_order to_float hexdigest request p (none, none)
  unfolding validate external_id_step
  after_checks p e partial absent = rw (validate, e, external_id_step, partial, absent) refl

  -- For any order in which sets are walked, a payload that is a dictionary, dimensions and facts of one
  -- kind with different external ids, no integer too large for a float where one is checked as a
  -- float, and a partial data point without an external id that has the id i: `validate` returns d
  -- exactly if no key of the payload has an error from the checks made in turn, and d is the data
  -- point with the values that these leave, the id i and no external id.
  pub validate_patch_iff :
      (i : String)
      → request.data_point_id ≡ some i
      → request.partial ≡ true
      → data_point.external_id ≡ none
      → data_point.payload ≡ some (mapping attrs)
      → Distinct (map dimension_id (values request.data_point_relation_info.dimensions))
      → ((k : String)
          → Fits to_float request fact_kinds k
              (value_then set_order to_float hexdigest request attrs k))
      → (attrs' : Dict Value) × ((k : String)
          → lookup k attrs'
            ≡ value_after to_float request fact_kinds k
                (value_then set_order to_float hexdigest request attrs k))
        × ((d : DataPointData)
            → (validate set_order to_float hexdigest request data_point ≡ passed d) ↔ (
                ((k : String) → IsFineAt set_order to_float hexdigest request attrs k)
                × (d ≡ patched (record data_point { payload = some (mapping attrs') }) none i)))
  validate_patch_iff i known partial absent payload u fits =
      let (p, attrs', runs, same, values_left, fine) =
        validate_payload_lem set_order to_float hexdigest request O W data_point attrs payload u
          fits in
      let unfolded =
        after_checks p runs partial (ap (λ (d : DataPointData). d.external_id) same ∙ absent) in
      (
        attrs',
        values_left,
        λ d.
            let at_d = finish_patch p none i d known in
            (
              λ h.
                  let ends = at_d.0 (sym unfolded ∙ h) in
                  (fine.0 ends.0, ends.1 ∙ ap (λ x. patched x none i) same),
              λ (all_fine, e).
                  unfolded ∙ at_d.1 (fine.1 all_fine, e ∙ ap (λ x. patched x none i) (sym same)),
            ),
      )
