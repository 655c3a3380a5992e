-- ===== src/Skipper/Validate/FactVerdicts.antt =====
-- What the check on the facts of one kind says of each key of the payload.
use nfcompose.Shared.{
  String, ℕ, ◌≡◌, Bool, true, ◌||◌, Option, none, some, List, [], ◌∷◌, ◌++◌, map, arith, contains,
  Distinct, if◌then◌else◌, inl, inr, Bool-cases,
}
use nfcompose.Shared.Sets.{IsSetOrder}
use nfcompose.Shared.Dict.{Dict, lookup}
use nfcompose.Shared.Value.{ℤ, Value, null, bool, int, float, str, datetime, object, list, dict}
use nfcompose.Skipper.Structure.{DataSeriesFactQueryInfo, values}
use nfcompose.Skipper.Validate.Contract.{
  FactKind, Message, fact_not_set, fact_null, Errors, messages, passed, DataPointData, mapping,
  ensure_payload,
}
use nfcompose.Skipper.Validate.Facts.{set_value, is_null, validate_fact, validate_fact_ids}
use nfcompose.Skipper.Validate.Pointwise.{
  fact_id, fact_at, presence_errors, messages-validate_fact_ids, fact_at_absent, fact_at_present,
  validate_fact_ids-Sound,
}
use nfcompose.Skipper.Validate.Turns.{verdict_of, type_errors, stored, all_fit, check_facts_turns}
use nfcompose.Skipper.Validate.Messages.{Sound}

module _ (to_float : ℤ → Option ℕ) where
  -- The errors of a key: fact says whether there is a fact of that id and if it is optional, v is
  -- the payload's value.
  abbrev pub fact_errors : Bool → FactKind → String → Option Bool → Option Value → List Message
  fact_errors partial kind k none v = []
  fact_errors partial kind k (some optional) none =
      if optional || partial then [] else fact_not_set kind k ∷ []
  fact_errors partial kind k (some optional) (some null) =
      if optional then [] else fact_null kind k ∷ []
  fact_errors partial kind k (some optional) (some v) = (verdict_of to_float kind v).0

  -- The value that stays in the payload.
  abbrev pub fact_value : FactKind → Option Bool → Option Value → Option Value
  fact_value kind none v = v
  fact_value kind (some optional) v = stored to_float kind v

  together :
      (partial : Bool) (kind : FactKind) (k : String) (optional : Bool) (v : Option Value)
      → presence_errors partial kind k (some optional) v ++ type_errors to_float kind v
        ≡ fact_errors partial kind k (some optional) v
  unfolding type_errors set_value is_null
  together partial kind k optional none = ground arith
  together partial kind k optional (some null) = ground arith
  together partial kind k optional (some (bool b)) = ground arith
  together partial kind k optional (some (int z)) = ground arith
  together partial kind k optional (some (float x)) = ground arith
  together partial kind k optional (some (str s)) = ground arith
  together partial kind k optional (some (datetime t)) = ground arith
  together partial kind k optional (some (object o)) = ground arith
  together partial kind k optional (some (list xs)) = ground arith
  together partial kind k optional (some (dict d)) = ground arith

  by_fact :
      (partial : Bool) (kind : FactKind) (fs : List DataSeriesFactQueryInfo) (k : String)
      (v : Option Value) (ms : List Message) (w : Option Value)
      → ms ≡ (
          if contains (map fact_id fs) k
          then presence_errors partial kind k (fact_at k fs) v ++ type_errors to_float kind v
          else presence_errors partial kind k (fact_at k fs) v)
      → w ≡ (if contains (map fact_id fs) k then stored to_float kind v else v)
      → (ms ≡ fact_errors partial kind k (fact_at k fs) v) × (w ≡ fact_value kind (fact_at k fs) v)
  by_fact partial kind fs k v ms w e h = elim (Bool-cases (contains (map fact_id fs) k)) [
    | inl here ↦
        let (optional, known) = fact_at_present k fs here in
        ground (arith, e, h, here, known, together partial kind k optional v)
    | inr away ↦ ground (arith, e, h, away, fact_at_absent k fs away)
  ]

  -- The same as below, and that a key with an entry among the errors has messages.
  pub validate_fact_lem :
      (set_order : List String → List String) (O : IsSetOrder set_order) (kind : FactKind)
      (facts : Dict DataSeriesFactQueryInfo) (data_point : DataPointData) (attrs : Dict Value)
      (partial : Bool)
      → data_point.payload ≡ some (mapping attrs)
      → Distinct (map fact_id (values facts))
      → ((k : String)
          → contains (map fact_id (values facts)) k ≡ true
          → all_fit to_float kind (lookup k attrs) ≡ true)
      → (s : Errors × Dict Value) × (validate_fact to_float set_order kind facts data_point partial
          ≡ passed s)
        × ((k : String)
            → (messages k s.0
                ≡ fact_errors partial kind k (fact_at k (values facts)) (lookup k attrs))
              × (lookup k s.1 ≡ fact_value kind (fact_at k (values facts)) (lookup k attrs)))
        × Sound s.0
  unfolding validate_fact ensure_payload
  validate_fact_lem set_order O kind facts data_point attrs partial payload u fits =
      let turns =
        check_facts_turns to_float kind (values facts)
          (validate_fact_ids set_order partial attrs kind (values facts)) attrs u fits in
      (
        turns.0,
        rw (validate_fact, ensure_payload, payload) turns.1,
        λ k.
            by_fact partial kind (values facts) k (lookup k attrs) _ _
              (ground (
                arith,
                turns.2 k,
                messages-validate_fact_ids set_order O partial attrs kind (values facts) k u,
              ))
              (ground (arith, turns.2 k)),
        turns.3 (validate_fact_ids-Sound set_order partial attrs kind (values facts)),
      )

  -- For any order in which sets are walked, a payload that is a dictionary, facts with different
  -- external ids, and no integer among the values of float facts that is too large for a float, the
  -- check on the facts of one kind raises nothing. Each key's errors are then: none if it is no
  -- fact, as a key too many is not looked for here; that it is missing, unless the fact is optional or the data point partial; that it is
  -- null, unless the fact is optional; what the check on its type says. Its value is the checked
  -- one if its type is right, else as before.
  pub validate_fact-verdicts :
      (set_order : List String → List String) (O : IsSetOrder set_order) (kind : FactKind)
      (facts : Dict DataSeriesFactQueryInfo) (data_point : DataPointData) (attrs : Dict Value)
      (partial : Bool)
      → data_point.payload ≡ some (mapping attrs)
      → Distinct (map fact_id (values facts))
      → ((k : String)
          → contains (map fact_id (values facts)) k ≡ true
          → all_fit to_float kind (lookup k attrs) ≡ true)
      → (s : Errors × Dict Value) × (validate_fact to_float set_order kind facts data_point partial
          ≡ passed s)
        × ((k : String)
            → (messages k s.0
                ≡ fact_errors partial kind k (fact_at k (values facts)) (lookup k attrs))
              × (lookup k s.1 ≡ fact_value kind (fact_at k (values facts)) (lookup k attrs)))
  validate_fact-verdicts set_order O kind facts data_point attrs partial payload u fits =
      let all = validate_fact_lem set_order O kind facts data_point attrs partial payload u fits in
      (all.0, all.1, all.2)
