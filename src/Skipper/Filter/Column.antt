-- ===== src/Skipper/Filter/Column.antt =====
-- The condition on one column: `primitive_filter` and the six `_handle_if_…` functions, which are
-- alike but for the kind of column.
use nfcompose.Shared.{
  String, ℕ, suc, Bool, true, false, ◌&&◌, Option, none, some, List, [], ◌∷◌, ◌++◌, ◌==◌,
  if◌then◌else◌,
}
use nfcompose.Shared.Result.{Result, ok, err, validation_error}
use nfcompose.Shared.Dict.{Dict, lookup, insert}
use nfcompose.Shared.Value.{Value, null, bool, int, float, str, list, Items, nil, cons}
use nfcompose.Skipper.Structure.{
  DataSeriesQueryInfo, DataSeriesFactQueryInfo, DataSeriesDimensionQueryInfo,
}
use nfcompose.Skipper.Filter.Monad.{
  FilterKind, float_fact, string_fact, text_fact, timestamp_fact, boolean_fact, dimension, Param,
  one, moment, tuple, moments, Compute, pure, ◌>>=◌,
}
use nfcompose.Shared.Texts.{joined}

abbrev pub fact_column : Option DataSeriesFactQueryInfo → Option String
fact_column none = none
fact_column (some fact) = some fact.value_column

abbrev pub dimension_column : Option DataSeriesDimensionQueryInfo → Option String
dimension_column none = none
dimension_column (some dim) = some dim.value_column

-- The value column of a key of a kind, if the data series has it.
unfoldable pub column_of : DataSeriesQueryInfo → FilterKind → String → Option String
column_of info float_fact key = fact_column (lookup key info.float_facts)
column_of info string_fact key = fact_column (lookup key info.string_facts)
column_of info text_fact key = fact_column (lookup key info.text_facts)
column_of info timestamp_fact key = fact_column (lookup key info.timestamp_facts)
column_of info boolean_fact key = fact_column (lookup key info.boolean_facts)
column_of info dimension key = dimension_column (lookup key info.dimensions)

unfoldable pub single_valued_sql_operators : Dict String
single_valued_sql_operators =
    ("$eq", "=")
    ∷ ("$lt", "<")
    ∷ ("$lte", "<=")
    ∷ ("$ne", "!=")
    ∷ ("$gte", ">=")
    ∷ ("$gt", ">")
    ∷ []

unfoldable pub multi_valued_sql_operators : Dict String
multi_valued_sql_operators = ("$in", "IN") ∷ ("$nin", "NOT IN") ∷ []

unfoldable pub is_none : Value → Bool
is_none null = true
is_none _ = false

-- The types of the values of a kind, but for timestamps, which are parsed. A bool is an int.
unfoldable pub is_of_kind : FilterKind → Value → Bool
is_of_kind float_fact (float _) = true
is_of_kind float_fact (int _) = true
is_of_kind float_fact (bool _) = true
is_of_kind boolean_fact (bool _) = true
is_of_kind string_fact (str _) = true
is_of_kind text_fact (str _) = true
is_of_kind dimension (str _) = true
is_of_kind _ _ = false

-- The cast behind the placeholder of a single value.
unfoldable pub cast_of : FilterKind → String
cast_of float_fact = "::double precision"
cast_of text_fact = "::text"
cast_of _ = ""

-- The elements, if all are of the kind.
unfoldable pub all_of_kind : FilterKind → Items → Option (List Value)
all_of_kind kind nil = some []
all_of_kind kind (cons v rest) = elim (all_of_kind kind rest) [
  | none ↦ none
  | some vs ↦ if is_of_kind kind v then some (v ∷ vs) else none
]

-- `parse_datetime` is dateparse.parse_datetime of `str(value)`, none also where it raises.
module _ (parse_datetime : Value → Option ℕ) where
  unfoldable pub all_moments : Items → Option (List ℕ)
  all_moments nil = some []
  all_moments (cons v rest) = elim (parse_datetime v) [
    | none ↦ none
    | some at ↦ elim (all_moments rest) [ none ↦ none | some ats ↦ some (at ∷ ats) ]
  ]

  unfoldable pub single_param : FilterKind → Value → Option Param
  single_param timestamp_fact value = elim (parse_datetime value) [
    | none ↦ none
    | some at ↦ some (moment at)
  ]
  single_param kind value = if is_of_kind kind value then some (one value) else none

  unfoldable pub multi_param : FilterKind → Value → Option Param
  multi_param timestamp_fact (list items) = elim (all_moments items) [
    | none ↦ none
    | some ats ↦ some (moments ats)
  ]
  multi_param kind (list items) = elim (all_of_kind kind items) [
    | none ↦ none
    | some vs ↦ some (tuple vs)
  ]
  multi_param kind value = none

  -- The text behind the column, and the parameter.
  abbrev pub Part : Type 0
  Part = String × Option Param

  abbrev pub with_param : String → Option Param → Option Part
  with_param text none = none
  with_param text (some param) = some (text, some param)

  -- The operator $prefix, of strings and texts alone.
  unfoldable pub prefix_part : FilterKind → String → Value → Option Part
  prefix_part string_fact name value =
      with_param (joined (" LIKE %(" ∷ name ∷ ") || '%%'" ∷ [])) (single_param string_fact value)
  prefix_part text_fact name value =
      with_param (joined (" LIKE (%(" ∷ name ∷ ")s::text) || '%%'" ∷ []))
        (single_param text_fact value)
  prefix_part kind name value = none

  unfoldable pub multi_part : FilterKind → String → Value → String → Option Part
  multi_part kind name value operator = elim (lookup operator multi_valued_sql_operators) [
    | none ↦ none
    | some sql ↦ with_param (joined (" " ∷ sql ∷ " %(" ∷ name ∷ ")s" ∷ [])) (multi_param kind value)
  ]

  unfoldable pub operator_part : FilterKind → String → Value → String → Option Part
  operator_part kind name value operator = elim (lookup operator single_valued_sql_operators) [
    | none ↦
        if operator == "$prefix"
        then prefix_part kind name value
        else multi_part kind name value operator
    | some sql ↦
        with_param (joined (" " ∷ sql ∷ " %(" ∷ name ∷ ")s" ∷ cast_of kind ∷ []))
          (single_param kind value)
  ]

  unfoldable pub part_of : FilterKind → String → Value → String → Option Part
  part_of kind name value operator =
      if operator == "$eq" && is_none value
      then some (" IS NULL", none)
      else if operator == "$ne" && is_none value
      then some (" IS NOT NULL", none)
      else operator_part kind name value operator

-- The kinds in the order in which `primitive_filter` tries them.
abbrev pub filter_kinds : List FilterKind
filter_kinds = float_fact ∷ string_fact ∷ text_fact ∷ timestamp_fact ∷ boolean_fact ∷ dimension ∷ []

module _ (escape : String → Result String) (parse_datetime : Value → Option ℕ) (str_of : ℕ → String)
    (use_materialized_table : Bool) (info : DataSeriesQueryInfo) where
  abbrev pub value_of_table : Result String → Result String
  value_of_table (err e) = err e
  value_of_table (ok table) = ok (joined (table ∷ ".value" ∷ []))

  -- `_lhs`
  unfoldable pub left_hand_side : String → String → Result String
  left_hand_side key column =
      if use_materialized_table
      then ok (joined ("ds_dp." ∷ column ∷ []))
      else value_of_table (escape (joined ("relation_" ∷ key ∷ [])))

  abbrev pub bind_param : String → Option Param → Dict Param → Dict Param
  bind_param name none params = params
  bind_param name (some param) params = insert name param params

  abbrev pub write_part :
      FilterKind
      → String
      → String
      → Result String
      → Option (String × Option Param)
      → Compute (List String)
  write_part kind name key (err e) part s = err e
  write_part kind name key (ok lhs) none s = err validation_error
  write_part kind name key (ok lhs) (some (text, param)) s = ok (
    joined (lhs ∷ text ∷ []) ∷ [],
    record s {
      query_params = bind_param name param query_params;
      used = (kind, key) ∷ used;
      handled_keys = key ∷ handled_keys;
    },
  )
    where
      open s use {query_params, used, handled_keys}

  -- `_handle_if_…`: the part for this kind, if the key is a column of it.
  unfoldable pub handle_if : FilterKind → String → String → Value → String → Compute (List String)
  handle_if kind name key value operator = elim (column_of info kind key) [
    | none ↦ pure []
    | some column ↦
        write_part kind name key (left_hand_side key column)
          (part_of parse_datetime kind name value operator)
  ]

  unfoldable pub handle_each :
      List FilterKind → String → String → Value → String → Compute (List String)
  handle_each [] name key value operator = pure []
  handle_each (kind ∷ kinds) name key value operator = do
    part ← handle_if kind name key value operator
    later ← handle_each kinds name key value operator
    pure (part ++ later)

  -- The name of the next parameter, the key being entered.
  unfoldable pub next_param : String → Compute String
  next_param key s = ok (
    joined ("filter_" ∷ str_of s.query_param_idx ∷ []),
    record s { query_param_idx = suc query_param_idx; keys_overall = key ∷ keys_overall },
  )
    where
      open s use {query_param_idx, keys_overall}

  abbrev pub join_and : List String → String
  join_and [] = ""
  join_and (part ∷ []) = part
  join_and (part ∷ next ∷ parts) = joined (part ∷ " AND " ∷ join_and (next ∷ parts) ∷ [])

  unfoldable pub primitive_filter : String → Value → String → Compute String
  primitive_filter key value operator = do
    name ← next_param key
    parts ← handle_each filter_kinds name key value operator
    pure (join_and parts)
