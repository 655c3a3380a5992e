-- ===== src/Skipper/Filter/Params.antt =====
-- The parameters of a query fit the kinds of their columns.
use nfcompose.Shared.{
  String, ℕ, ◌≡◌, refl, inl, inr, Bool, true, false, ◌&&◌, Option, none, some, List, [], ◌∷◌, arith,
  Option-cases, ◌==◌, if◌then◌else◌,
}
use nfcompose.Shared.Dict.{lookup}
use nfcompose.Shared.Value.{Value, list, Items, nil, cons}
use nfcompose.Skipper.Filter.Monad.{
  FilterKind, float_fact, string_fact, text_fact, timestamp_fact, boolean_fact, dimension, Param,
  one, moment, tuple, moments,
}
use nfcompose.Skipper.Filter.Column.{
  is_of_kind, all_of_kind, all_moments, single_param, multi_param, with_param, prefix_part, is_none,
  single_valued_sql_operators, multi_valued_sql_operators, multi_part, operator_part, part_of,
}

abbrev pub AllOfKind : FilterKind → List Value → Type 0
AllOfKind kind [] = Unit
AllOfKind kind (v ∷ vs) = (is_of_kind kind v ≡ true) × AllOfKind kind vs

-- A parameter for a column of the kind: numbers for floats, texts for strings, texts and dimensions,
-- truth values for booleans, times for timestamps, or tuples of them.
abbrev pub IsParam : FilterKind → Param → Type 0
IsParam kind (one v) = is_of_kind kind v ≡ true
IsParam kind (moment at) = kind ≡ timestamp_fact
IsParam kind (tuple vs) = AllOfKind kind vs
IsParam kind (moments ats) = kind ≡ timestamp_fact

abbrev pub Fits : FilterKind → Option Param → Type 0
Fits kind none = Unit
Fits kind (some param) = IsParam kind param

abbrev pub PartFits : FilterKind → Option (String × Option Param) → Type 0
PartFits kind none = Unit
PartFits kind (some part) = Fits kind part.1

all_of_kind-AllOfKind :
    (kind : FilterKind) (items : Items) (vs : List Value)
    → all_of_kind kind items ≡ some vs
    → AllOfKind kind vs
unfolding all_of_kind
all_of_kind-AllOfKind kind nil [] h = tt
all_of_kind-AllOfKind kind nil (v ∷ vs) h = absurd (ground (arith, h))
all_of_kind-AllOfKind kind (cons x rest) [] h = tt
all_of_kind-AllOfKind kind (cons x rest) (v ∷ vs) h =
    ground (arith, h, all_of_kind-AllOfKind kind rest vs)

if_PartFits :
    (test : Bool) (kind : FilterKind) (a b : Option (String × Option Param))
    → PartFits kind a
    → PartFits kind b
    → PartFits kind (if test then a else b)
if_PartFits true kind a b h k = h
if_PartFits false kind a b h k = k

abbrev tuple_param : FilterKind → Items → Option Param
tuple_param kind items = elim (all_of_kind kind items) [ none ↦ none | some vs ↦ some (tuple vs) ]

tuple-Fits : (kind : FilterKind) (items : Items) → Fits kind (tuple_param kind items)
tuple-Fits kind items = elim (Option-cases (all_of_kind kind items)) [
  | inl e ↦ rw (e, tuple_param) tt
  | inr (vs, e) ↦ rw (e, tuple_param) (all_of_kind-AllOfKind kind items vs e)
]

module _ (parse_datetime : Value → Option ℕ) where
  single-Fits :
      (kind : FilterKind) (value : Value) → Fits kind (single_param parse_datetime kind value)
  unfolding single_param
  single-Fits timestamp_fact value = elim (Option-cases (parse_datetime value)) [
    | inl e ↦ rw (e, single_param) tt
    | inr (at, e) ↦ rw (e, single_param) refl
  ]
  single-Fits float_fact value = ground arith
  single-Fits string_fact value = ground arith
  single-Fits text_fact value = ground arith
  single-Fits boolean_fact value = ground arith
  single-Fits dimension value = ground arith

  multi-Fits :
      (kind : FilterKind) (value : Value) → Fits kind (multi_param parse_datetime kind value)
  unfolding multi_param
  multi-Fits timestamp_fact (list items) = elim (Option-cases (all_moments parse_datetime items)) [
    | inl e ↦ rw (e, multi_param) tt
    | inr (ats, e) ↦ rw (e, multi_param) refl
  ]
  multi-Fits float_fact (list items) = tuple-Fits float_fact items
  multi-Fits string_fact (list items) = tuple-Fits string_fact items
  multi-Fits text_fact (list items) = tuple-Fits text_fact items
  multi-Fits boolean_fact (list items) = tuple-Fits boolean_fact items
  multi-Fits dimension (list items) = tuple-Fits dimension items
  multi-Fits kind value = ground arith

  with_param-PartFits :
      (kind : FilterKind) (text : String) (param : Option Param)
      → Fits kind param
      → PartFits kind (with_param parse_datetime text param)
  with_param-PartFits kind text none h = tt
  with_param-PartFits kind text (some param) h = h

  prefix-PartFits :
      (kind : FilterKind) (name : String) (value : Value)
      → PartFits kind (prefix_part parse_datetime kind name value)
  unfolding prefix_part
  prefix-PartFits string_fact name value =
      with_param-PartFits string_fact _ _ (single-Fits string_fact value)
  prefix-PartFits text_fact name value =
      with_param-PartFits text_fact _ _ (single-Fits text_fact value)
  prefix-PartFits float_fact name value = tt
  prefix-PartFits timestamp_fact name value = tt
  prefix-PartFits boolean_fact name value = tt
  prefix-PartFits dimension name value = tt

  multi-PartFits :
      (kind : FilterKind) (name : String) (value : Value) (operator : String)
      → PartFits kind (multi_part parse_datetime kind name value operator)
  unfolding multi_part
  multi-PartFits kind name value operator =
      elim (Option-cases (lookup operator multi_valued_sql_operators)) [
        | inl e ↦ rw (e, multi_part) tt
        | inr (sql, e) ↦ rw (e, multi_part) (with_param-PartFits kind _ _ (multi-Fits kind value))
      ]

  operator-PartFits :
      (kind : FilterKind) (name : String) (value : Value) (operator : String)
      → PartFits kind (operator_part parse_datetime kind name value operator)
  unfolding operator_part
  operator-PartFits kind name value operator =
      elim (Option-cases (lookup operator single_valued_sql_operators)) [
        | inl e ↦
            rw (e, operator_part)
              (if_PartFits (operator == "$prefix") kind _ _ (prefix-PartFits kind name value)
                (multi-PartFits kind name value operator))
        | inr (sql, e) ↦
            rw (e, operator_part) (with_param-PartFits kind _ _ (single-Fits kind value))
      ]

  -- The parameter that a condition on a column binds fits the kind of the column.
  pub part_of-PartFits :
      (kind : FilterKind) (name : String) (value : Value) (operator : String)
      → PartFits kind (part_of parse_datetime kind name value operator)
  unfolding part_of
  part_of-PartFits kind name value operator =
      if_PartFits (operator == "$eq" && is_none value) kind _ _ tt (
        if_PartFits (operator == "$ne" && is_none value) kind _ _ tt
          (operator-PartFits kind name value operator))
