-- ===== src/Skipper/Validate/Composed.antt =====
-- The checks on a payload one after the other: what they accept and what they leave in it.
use nfcompose.Shared.{
  String, ℕ, ◌≡◌, refl, ◌↔◌, Bool, true, Option, none, some, List, [], ◌∷◌, map, arith, contains,
  Distinct, inl, inr, is_some, Option-cases, sym, ap, ◌∙◌,
}
use nfcompose.Shared.Sets.{IsSetOrder}
use nfcompose.Shared.Dict.{Dict, lookup}
use nfcompose.Shared.Value.{ℤ, Value, null, bool, int, float, str, datetime, object, list, dict}
use nfcompose.Skipper.Structure.{values}
use nfcompose.Skipper.Validate.{Progress, check_validation_result, facts_of, run_sub_validations}
use nfcompose.Skipper.Validate.Contract.{
  float_fact, string_fact, text_fact, timestamp_fact, json_fact, image_fact, file_fact,
  boolean_fact, FactKind, ValidationRequest, Errors, messages, passed, DataPointData, mapping,
}
use nfcompose.Skipper.Validate.Messages.{Sound-empty, messages-nil}
use nfcompose.Skipper.Validate.Pointwise.{fact_id, fact_at}
use nfcompose.Skipper.Validate.Turns.{all_fit, fits}
use nfcompose.Skipper.Validate.FactVerdicts.{fact_errors, fact_value, validate_fact_lem}
use nfcompose.Skipper.Validate.Facts.{set_value}

-- What `check_validation_result` does: the payload is the checked one, and errors are added.
pub checked_payload :
    (p : Progress) (errors : Errors) (attrs : Dict Value)
    → (check_validation_result p (errors, attrs)).data_point
      ≡ record p.data_point { payload = some (mapping attrs) }
unfolding check_validation_result
checked_payload p [] attrs = refl
checked_payload p (e ∷ es) attrs = refl

pub checked_errors :
    (p : Progress) (errors : Errors) (attrs : Dict Value)
    → ((check_validation_result p (errors, attrs)).payload_errors ≡ none)
      ↔ ((errors ≡ []) × (p.payload_errors ≡ none))
unfolding check_validation_result
checked_errors p [] attrs = ground arith
checked_errors p (e ∷ es) attrs = elim (Option-cases p.payload_errors) [
  | inl h ↦ rw (h) (ground arith)
  | inr (errors, h) ↦ rw (h) (ground arith)
]

module _ (to_float : ℤ → Option ℕ) (request : ValidationRequest) where
  abbrev pub facts_at : FactKind → String → Option Bool
  facts_at kind k = fact_at k (values (facts_of request.data_point_relation_info kind))

  -- The value of a key after the checks on some kinds of facts.
  abbrev pub value_after : List FactKind → String → Option Value → Option Value
  value_after [] k v = v
  value_after (kind ∷ kinds) k v =
      value_after kinds k (fact_value to_float kind (facts_at kind k) v)

  -- None of these checks has an error for the key.
  abbrev pub IsFine : List FactKind → String → Option Value → Type 0
  IsFine [] k v = Unit
  IsFine (kind ∷ kinds) k v =
      (fact_errors to_float request.partial kind k (facts_at kind k) v ≡ [])
      × IsFine kinds k (fact_value to_float kind (facts_at kind k) v)

  -- No integer is too large for a float where one is checked as a float.
  abbrev pub Fits : List FactKind → String → Option Value → Type 0
  Fits [] k v = Unit
  Fits (kind ∷ kinds) k v =
      (contains (map fact_id (values (facts_of request.data_point_relation_info kind))) k ≡ true
        → all_fit to_float kind v ≡ true)
      × Fits kinds k (fact_value to_float kind (facts_at kind k) v)

  -- No kind of facts has an external id twice.
  abbrev pub IsWellFormed : Type 0
  IsWellFormed =
      (kind : FactKind)
      → Distinct (map fact_id (values (facts_of request.data_point_relation_info kind)))

  pub run_sub_validations_lem :
      (set_order : List String → List String) (hexdigest : String → String)
      (O : IsSetOrder set_order) (W : IsWellFormed) (kinds : List FactKind) (p : Progress)
      (attrs : Dict Value)
      → p.data_point.payload ≡ some (mapping attrs)
      → ((k : String) → Fits kinds k (lookup k attrs))
      → (q : Progress) × (attrs' : Dict Value) × (run_sub_validations set_order to_float hexdigest
            kinds request p
          ≡ passed q)
        × (q.data_point ≡ record p.data_point { payload = some (mapping attrs') })
        × ((k : String) → lookup k attrs' ≡ value_after kinds k (lookup k attrs))
        × ((q.payload_errors ≡ none)
            ↔ ((p.payload_errors ≡ none) × ((k : String) → IsFine kinds k (lookup k attrs))))
  unfolding run_sub_validations
  run_sub_validations_lem set_order hexdigest O W [] p attrs h fits =
      (p, attrs, refl, rw (sym h) refl, λ k. refl, (λ e. (e, λ k. tt), λ both. both.0))
  run_sub_validations_lem set_order hexdigest O W (kind ∷ kinds) p attrs h fits =
      let facts = facts_of request.data_point_relation_info kind in
      let checked =
        validate_fact_lem to_float set_order O kind facts p.data_point attrs request.partial h
          (W kind) (λ k. (fits k).0) in
      let next = check_validation_result p checked.0 in
      let same = checked_payload p checked.0.0 checked.0.1 in
      let rest =
        run_sub_validations_lem set_order hexdigest O W kinds next checked.0.1
          (ap (λ (d : DataPointData). d.payload) same) (λ k. rw ((checked.2 k).1) ((fits k).1)) in
      (
        rest.0,
        rest.1,
        rw (checked.1) rest.2,
        rest.3 ∙ ap (λ (d : DataPointData). record d { payload = some (mapping rest.1) }) same,
        λ k. rest.4 k ∙ ap (value_after kinds k) (checked.2 k).1,
        (
          λ none_at_end.
              let before = rest.5.0 none_at_end in
              let none_here = (checked_errors p checked.0.0 checked.0.1).0 before.0 in
              (
                none_here.1,
                λ k. (
                  sym (checked.2 k).0 ∙ ap (messages k) none_here.0 ∙ messages-nil k,
                  rw (sym (checked.2 k).1) (before.1 k),
                ),
              ),
          λ both.
              let none_here =
                Sound-empty checked.0.0 checked.3 (λ k. (checked.2 k).0 ∙ (both.1 k).0) in
              rest.5.1 (
                (checked_errors p checked.0.0 checked.0.1).1 (none_here, both.0),
                λ k. rw ((checked.2 k).1) ((both.1 k).1),
              ),
        ),
      )

-- Where every integer has a float, every value can be checked.
module _ (to_float : ℤ → Option ℕ) (total : (z : ℤ) → is_some (to_float z) ≡ true) where
  fits_total : (kind : FactKind) (v : Value) → fits to_float kind v ≡ true
  unfolding fits
  fits_total float_fact (int z) = total z
  fits_total float_fact null = refl
  fits_total float_fact (bool b) = refl
  fits_total float_fact (float x) = refl
  fits_total float_fact (str s) = refl
  fits_total float_fact (datetime t) = refl
  fits_total float_fact (object o) = refl
  fits_total float_fact (list xs) = refl
  fits_total float_fact (dict d) = refl
  fits_total string_fact v = refl
  fits_total text_fact v = refl
  fits_total timestamp_fact v = refl
  fits_total json_fact v = refl
  fits_total image_fact v = refl
  fits_total file_fact v = refl
  fits_total boolean_fact v = refl

  all_fit_total : (kind : FactKind) (v : Option Value) → all_fit to_float kind v ≡ true
  unfolding all_fit
  all_fit_total kind v = elim (Option-cases (set_value v)) [
    | inl e ↦ rw (all_fit, e) refl
    | inr (w, e) ↦ rw (all_fit, e) (fits_total kind w)
  ]

  pub total-Fits :
      (request : ValidationRequest) (kinds : List FactKind) (k : String) (v : Option Value)
      → Fits to_float request kinds k v
  total-Fits request [] k v = tt
  total-Fits request (kind ∷ kinds) k v = (λ h. all_fit_total kind v, total-Fits request kinds k _)
