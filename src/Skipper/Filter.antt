-- ===== src/Skipper/Filter.antt =====
-- The filters that users write, as conditions of SQL:
-- skipper/skipper/dataseries/storage/dynamic_sql/queries/user_defined_filter.py. The messages of the
-- errors are left out.
pub mod Monad
pub mod Column
pub mod Ensures
pub mod Params
pub mod Leaf
pub mod Accepted
pub mod Depth
pub mod Known
pub mod Joined
use nfcompose.Shared.{
  String, ℕ, zero, suc, ◌+◌, ◌-◌, Bool, true, false, not, ◌&&◌, ◌||◌, Option, none, some, List, [],
  ◌∷◌, ◌++◌, ltb, ◌==◌, contains, if◌then◌else◌,
}
use nfcompose.Shared.Result.{
  Result, ok, err, type_error, value_error, validation_error, attribute_error,
}
use nfcompose.Shared.Value.{Value, str, list, dict, null, Items, nil, cons, Fields, end, field}
use nfcompose.Skipper.Structure.{DataSeriesQueryInfo}
use nfcompose.Skipper.Events.Sanitize.{first_characters}
use nfcompose.Skipper.Filter.Monad.{State, Param, Compute, pure, raise, ◌>>=◌, start}
use nfcompose.Skipper.Filter.Column.{primitive_filter}
use nfcompose.Shared.Texts.{joined}
use Prim.Native.String.{count}
use text.Mathlib.Text.{starts_with}

abbrev pub max_depth : ℕ
max_depth = 10

-- `separator.join(parts)`
unfoldable pub join : String → List String → String
join separator [] = ""
join separator (part ∷ []) = part
join separator (part ∷ next ∷ parts) =
    joined (part ∷ separator ∷ join separator (next ∷ parts) ∷ [])

-- `text[:-n]`
unfoldable pub without_last : ℕ → String → String
without_last n text = first_characters (count text - n) text

abbrev pub parenthesised : String → String
parenthesised text = joined ("(" ∷ text ∷ ")" ∷ [])

-- What is filtered by and the parameters, where the filter is accepted.
pub record UserDefinedFilter : Type 0 where
  pub filter_query_str : String
  pub state : State

-- A dictionary that has entries, of which `text` are the parts.
abbrev pub fields_filter : Fields → Compute String → Compute String
fields_filter end text = pure "1 = 1"
fields_filter (field key value rest) text = do sql_filter ← text; pure (without_last 5 sql_filter)

-- The argument of $and and $or, of which `clauses` are the clauses.
abbrev pub clause_list : String → Items → Compute (List String) → Compute String
clause_list separator nil clauses = raise validation_error
clause_list separator (cons v rest) clauses = do
  parts ← clauses
  pure (parenthesised (join separator parts))

abbrev pub negation : String → String
negation clause = joined ("(NOT " ∷ parenthesised clause ∷ ")" ∷ [])

-- The argument of $not, of which `text` is the filter.
abbrev pub negated : Fields → Compute String → Compute String
negated end text = raise validation_error
negated (field key value rest) text = do clause ← text; pure (negation clause)

abbrev pub within_depth : ℕ → Compute String → Compute String
within_depth depth text = if ltb max_depth depth then raise validation_error else text

-- `column` is `handle_column` at a column.
module _ (column : String → Value → Compute String) where
  unfoldable mutual
    -- `len(filter_dict) == 0` also holds of an empty list or text in a list of filters.
    pub complex_filter_to_sql_filter : ℕ → Value → Compute String
    complex_filter_to_sql_filter depth (dict fields) =
        within_depth depth (fields_filter fields (each_field depth fields))
    complex_filter_to_sql_filter depth (list nil) = within_depth depth (pure "1 = 1")
    complex_filter_to_sql_filter depth (list (cons v rest)) =
        within_depth depth (raise attribute_error)
    complex_filter_to_sql_filter depth (str text) =
        within_depth depth (if text == "" then pure "1 = 1" else raise attribute_error)
    complex_filter_to_sql_filter depth _ = within_depth depth (raise type_error)

    -- The loop, each part with " AND " behind it.
    pub each_field : ℕ → Fields → Compute String
    each_field depth end = pure ""
    each_field depth (field key value rest) = do
      part ← one_field depth key value
      later ← each_field depth rest
      pure (joined (part ∷ " AND " ∷ later ∷ []))

    pub one_field : ℕ → String → Value → Compute String
    one_field depth key (list items) =
        if key == "$and"
        then clause_list " AND " items (clauses_of depth items)
        else if key == "$or"
        then clause_list " OR " items (clauses_of depth items)
        else if key == "$not"
        then raise validation_error
        else if starts_with "$" key
        then raise value_error
        else column key (list items)
    one_field depth key (dict fields) =
        if key == "$and"
        then raise validation_error
        else if key == "$or"
        then raise validation_error
        else if key == "$not"
        then negated fields
            (within_depth (suc depth) (fields_filter fields (each_field (suc depth) fields)))
        else if starts_with "$" key
        then raise value_error
        else column key (dict fields)
    one_field depth key value =
        if key == "$and"
        then raise validation_error
        else if key == "$or"
        then raise validation_error
        else if key == "$not"
        then raise validation_error
        else if starts_with "$" key
        then raise value_error
        else column key value

    pub clauses_of : ℕ → Items → Compute (List String)
    clauses_of depth nil = pure []
    clauses_of depth (cons v rest) = do
      clause ← complex_filter_to_sql_filter (suc depth) v
      later ← clauses_of depth rest
      pure (parenthesised clause ∷ later)

-- The clauses of a column, if it has a dictionary of operators.
abbrev pub operators_filter : Fields → Compute (List String) → Compute String
operators_filter end clauses = pure "1 = 1"
operators_filter (field operator value rest) clauses = do parts ← clauses; pure (join " AND " parts)

-- `not_found` is empty.
unfoldable pub all_handled : List String → List String → Bool
all_handled [] handled = true
all_handled (key ∷ keys) handled = contains handled key && all_handled keys handled

unfoldable pub finish_filter : Result (String × State) → Result UserDefinedFilter
finish_filter (err e) = err e
finish_filter (ok (sql, state)) =
    if all_handled state.keys_overall state.handled_keys
    then ok (record {
      filter_query_str = if sql == "" then "" else joined ("AND " ∷ sql ∷ []);
      state = state;
    })
    else err validation_error

module _ (escape : String → Result String) (parse_datetime : Value → Option ℕ) (str_of : ℕ → String)
    (use_materialized_table : Bool) (info : DataSeriesQueryInfo) where
  unfoldable mutual
    -- A dictionary of operators, or of dictionaries again: the operator next to the value counts.
    pub handle_column : String → String → Value → Compute String
    handle_column column operator (dict fields) =
        operators_filter fields (and_clauses column fields)
    handle_column column operator value =
        primitive_filter escape parse_datetime str_of use_materialized_table info column value
          operator

    pub and_clauses : String → Fields → Compute (List String)
    and_clauses column end = pure []
    and_clauses column (field operator value rest) = do
      clause ← handle_column column operator value
      later ← and_clauses column rest
      pure (parenthesised clause ∷ later)

  unfoldable pub compute_user_defined_filter_for_raw_query : Fields → Result UserDefinedFilter
  compute_user_defined_filter_for_raw_query filter_params = finish_filter (
      complex_filter_to_sql_filter (λ column value. handle_column column "$eq" value) 0
        (dict filter_params) start)
