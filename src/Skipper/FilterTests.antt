-- ===== src/Skipper/FilterTests.antt =====
-- A run of a user defined filter, and the theorems on it at this input.
use nfcompose.Shared.{String, ℕ, zero, suc, ◌≤◌, ◌≡◌, refl, true, Option, none, [], ◌∷◌, contains}
use nfcompose.Shared.Result.{Result, ok}
use nfcompose.Shared.Dict.{lookup, insert}
use nfcompose.Shared.Value.{Value, null, int, pos, dict, Fields, end, field}
use nfcompose.Skipper.Samples.{info}
use nfcompose.Skipper.Filter.Monad.{string_fact, float_fact, one, pure, ◌>>=◌, raise}
use nfcompose.Skipper.Filter.{
  UserDefinedFilter, max_depth, compute_user_defined_filter_for_raw_query, finish_filter,
  complex_filter_to_sql_filter, handle_column, join, without_last, all_handled,
}
use nfcompose.Skipper.Filter.Column.{
  primitive_filter, next_param, handle_each, handle_if, column_of, left_hand_side, part_of,
  operator_part, single_param, single_valued_sql_operators, is_of_kind, cast_of, is_none,
}
use nfcompose.Shared.Texts.{joined}
use nfcompose.Skipper.Events.Sanitize.{first_characters}
use nfcompose.Skipper.Filter.Joined.{mapped, parts_of, fields_filter-join}
use nfcompose.Skipper.Filter.{fields_filter, each_field}
use nfcompose.Skipper.Filter.Monad.{Compute, start}
use nfcompose.Skipper.Filter.Leaf.{AllFit, AllColumns}
use nfcompose.Skipper.Filter.Known.{
  fields_mentions, is_known, compute_user_defined_filter_for_raw_query-AllFit,
}
use nfcompose.Skipper.Filter.Depth.{fields_nesting, fields_nesting-le-max_depth}

abbrev escape : String → Result String
escape text = ok text

abbrev no_datetime : Value → Option ℕ
no_datetime value = none

abbrev str_of : ℕ → String
str_of zero = "0"
str_of (suc n) = "1"

-- {"temp": {"$gt": 3}, "$not": {"note": null}}
abbrev warm_and_noted : Fields
warm_and_noted =
    field "temp" (dict (field "$gt" (int (pos 3)) end))
      (field "$not" (dict (field "note" null end)) end)

abbrev accepted : UserDefinedFilter
accepted = record {
  filter_query_str =
      "AND (ds_dp.temp > %(filter_0)s::double precision) AND (NOT (ds_dp.note IS NULL))";
  state = record {
    query_param_idx = 2;
    query_params = ("filter_0", one (int (pos 3))) ∷ [];
    used = (string_fact, "note") ∷ (float_fact, "temp") ∷ [];
    handled_keys = "note" ∷ "temp" ∷ [];
    keys_overall = "note" ∷ "temp" ∷ [];
  };
}

filter_run :
    compute_user_defined_filter_for_raw_query escape no_datetime str_of true info warm_and_noted
    ≡ ok accepted
unfolding compute_user_defined_filter_for_raw_query finish_filter complex_filter_to_sql_filter
    handle_column join without_last all_handled primitive_filter next_param handle_each handle_if
    column_of left_hand_side part_of operator_part single_param single_valued_sql_operators
    is_of_kind cast_of is_none joined pure ◌>>=◌ raise lookup insert first_characters
filter_run = refl

fields_nesting-le-max_depth_example : fields_nesting warm_and_noted ≤ max_depth
fields_nesting-le-max_depth_example =
    fields_nesting-le-max_depth escape no_datetime str_of true info warm_and_noted accepted
      filter_run

compute_user_defined_filter_for_raw_query-AllFit_example :
    ((k : String) → contains (fields_mentions warm_and_noted) k ≡ true → is_known info k ≡ true)
    × AllFit info accepted.state.query_params
    × AllColumns info accepted.state.used
compute_user_defined_filter_for_raw_query-AllFit_example =
    compute_user_defined_filter_for_raw_query-AllFit info escape no_datetime str_of true
      warm_and_noted accepted filter_run

abbrev named_column : String → Value → Compute String
named_column column value = pure column

fields_filter-join_example :
    fields_filter warm_and_noted (each_field named_column 0 warm_and_noted) start
    ≡ mapped (join " AND ") (parts_of named_column 0 warm_and_noted start)
fields_filter-join_example =
    fields_filter-join named_column 0 "temp" (dict (field "$gt" (int (pos 3)) end))
      (field "$not" (dict (field "note" null end)) end) start
