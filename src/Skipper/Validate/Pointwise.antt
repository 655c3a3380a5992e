-- ===== src/Skipper/Validate/Pointwise.antt =====
-- The checks on the facts of one kind, key by key: what each key's errors and value come to.
use nfcompose.Shared.{
  String, ◌≡◌, refl, Bool, true, false, not, ◌&&◌, Option, none, some, List, [], ◌∷◌, ◌++◌, map,
  arith, contains, Distinct, is_some, if◌then◌else◌, ◌==◌, eq_iff, Bool-cases, inl, inr,
  contains-select, select,
}
use nfcompose.Shared.Sets.{IsSetOrder}
use nfcompose.Shared.Dict.{Dict, lookup, has}
use nfcompose.Shared.Value.{Value}
use nfcompose.Skipper.Structure.{DataSeriesFactQueryInfo}
use nfcompose.Skipper.Validate.Contract.{
  FactKind, Message, fact_not_set, fact_null, Errors, messages, append_for_each,
}
use nfcompose.Skipper.Validate.Facts.{
  is_null, required_fact_ids, facts_with_wrong_null, validate_fact_ids,
}
use nfcompose.Skipper.Validate.Messages.{
  messages-nil, messages-append_for_each, Sound, nil-Sound, append_for_each-Sound,
}

abbrev pub fact_id : DataSeriesFactQueryInfo → String
fact_id f = f.dataseries_fact.external_id

-- Whether the fact of an external id is optional, if there is one.
unfoldable pub fact_at : String → List DataSeriesFactQueryInfo → Option Bool
fact_at k [] = none
fact_at k (f ∷ fs) = if fact_id f == k then some f.fact.optional else fact_at k fs

abbrev pub is_required : Option Bool → Bool
is_required none = false
is_required (some optional) = not optional

pub fact_at_absent :
    (k : String) (fs : List DataSeriesFactQueryInfo)
    → contains (map fact_id fs) k ≡ false
    → fact_at k fs ≡ none
unfolding fact_at
fact_at_absent k [] h = refl
fact_at_absent k (f ∷ fs) h = ground (arith, fact_at_absent k fs)

pub fact_at_present :
    (k : String) (fs : List DataSeriesFactQueryInfo)
    → contains (map fact_id fs) k ≡ true
    → (optional : Bool) × (fact_at k fs ≡ some optional)
unfolding fact_at
fact_at_present k [] h = ground (arith, h)
fact_at_present k (f ∷ fs) h = elim (Bool-cases (fact_id f == k)) [
  | inl e ↦ (f.fact.optional, rw (fact_at, e) refl)
  | inr e ↦
      let rest = fact_at_present k fs (ground (arith, e, h)) in (rest.0, rw (fact_at, e) rest.1)
]

contains-required_fact_ids :
    (k : String) (fs : List DataSeriesFactQueryInfo)
    → Distinct (map fact_id fs)
    → contains (required_fact_ids fs) k ≡ is_required (fact_at k fs)
unfolding required_fact_ids fact_at
contains-required_fact_ids k [] u = refl
contains-required_fact_ids k (f ∷ fs) (fresh, u) =
    ground (arith, contains-required_fact_ids k fs u, fact_at_absent k fs, eq_iff (fact_id f) k)

contains-facts_with_wrong_null :
    (attrs : Dict Value) (k : String) (fs : List DataSeriesFactQueryInfo)
    → Distinct (map fact_id fs)
    → contains (facts_with_wrong_null attrs fs) k
      ≡ (is_required (fact_at k fs) && is_null (lookup k attrs))
unfolding facts_with_wrong_null fact_at
contains-facts_with_wrong_null attrs k [] u = refl
contains-facts_with_wrong_null attrs k (f ∷ fs) (fresh, u) =
    ground (
      arith,
      contains-facts_with_wrong_null attrs k fs u,
      fact_at_absent k fs,
      eq_iff (fact_id f) k,
    )

facts_with_wrong_null-Distinct :
    (attrs : Dict Value) (fs : List DataSeriesFactQueryInfo)
    → Distinct (map fact_id fs)
    → Distinct (facts_with_wrong_null attrs fs)
unfolding facts_with_wrong_null
facts_with_wrong_null-Distinct attrs [] u = tt
facts_with_wrong_null-Distinct attrs (f ∷ fs) (fresh, u) = ground (
  arith,
  facts_with_wrong_null-Distinct attrs fs u,
  contains-facts_with_wrong_null attrs (fact_id f) fs u,
  fact_at_absent (fact_id f) fs fresh,
)

-- The errors about a key that is missing or null.
abbrev pub presence_errors : Bool → FactKind → String → Option Bool → Option Value → List Message
presence_errors partial name k fact v =
    (if not partial && (is_required fact && not (is_some v)) then fact_not_set name k ∷ [] else [])
    ++ (if is_required fact && is_null v then fact_null name k ∷ [] else [])

pub messages-validate_fact_ids :
    (set_order : List String → List String) (O : IsSetOrder set_order) (partial : Bool)
    (attrs : Dict Value) (name : FactKind) (fs : List DataSeriesFactQueryInfo) (k : String)
    → Distinct (map fact_id fs)
    → messages k (validate_fact_ids set_order partial attrs name fs)
      ≡ presence_errors partial name k (fact_at k fs) (lookup k attrs)
unfolding validate_fact_ids
messages-validate_fact_ids set_order O partial attrs name fs k u =
    let missing : List String =
      set_order (select (λ j. not (has attrs j)) (required_fact_ids fs)) in
    let first : Errors =
      if not partial then append_for_each (fact_not_set name) [] missing else [] in
    let null_part =
      messages-append_for_each (fact_null name) k first (facts_with_wrong_null attrs fs)
        (facts_with_wrong_null-Distinct attrs fs u) in
    ground (
      arith,
      null_part,
      messages-append_for_each (fact_not_set name) k [] missing (O.distinct _),
      O.members (select (λ j. not (has attrs j)) (required_fact_ids fs)) k,
      contains-select (λ j. not (has attrs j)) (required_fact_ids fs) k,
      contains-required_fact_ids k fs u,
      contains-facts_with_wrong_null attrs k fs u,
      messages-nil k,
    )

pub validate_fact_ids-Sound :
    (set_order : List String → List String) (partial : Bool) (attrs : Dict Value) (name : FactKind)
    (fs : List DataSeriesFactQueryInfo)
    → Sound (validate_fact_ids set_order partial attrs name fs)
unfolding validate_fact_ids
validate_fact_ids-Sound set_order true attrs name fs =
    append_for_each-Sound (fact_null name) _ _ nil-Sound
validate_fact_ids-Sound set_order false attrs name fs =
    append_for_each-Sound (fact_null name) _ _
      (append_for_each-Sound (fact_not_set name) _ _ nil-Sound)
