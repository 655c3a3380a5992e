-- ===== src/Skipper/Filter/Monad.antt =====
-- The parts of a filter are computed one after the other, over the dictionaries and sets that they
-- write to; an exception ends them all.
use nfcompose.Shared.{String, ℕ, List, []}
use nfcompose.Shared.Result.{Exception, Result, ok, err}
use nfcompose.Shared.Dict.{Dict}
use nfcompose.Shared.Value.{Value}

-- The kinds of columns that a filter may name: the facts but JSON, images and files, and dimensions.
pub data FilterKind : Type 0 where
  float_fact string_fact text_fact timestamp_fact boolean_fact dimension : FilterKind

-- A parameter of the query: a value, a time, or a tuple of either.
pub data Param : Type 0 where
  one : Value → Param
  moment : ℕ → Param
  tuple : List Value → Param
  moments : List ℕ → Param

-- `used` is used_data_series_children: the columns whose information is copied into it.
pub record State : Type 0 where
  pub query_param_idx : ℕ
  pub query_params : Dict Param
  pub used : List (FilterKind × String)
  pub handled_keys : List String
  pub keys_overall : List String

abbrev pub start : State
start = record {
  query_param_idx = 0;
  query_params = [];
  used = [];
  handled_keys = [];
  keys_overall = [];
}

abbrev pub Compute : Type 0 → Type 0
Compute A = State → Result (A × State)

unfoldable pub pure : {A : Type 0} → A → Compute A
pure a s = ok (a, s)

unfoldable pub raise : {A : Type 0} → Exception → Compute A
raise e s = err e

abbrev pub continue : {A B : Type 0} → Result (A × State) → (A → Compute B) → Result (B × State)
continue (err e) next = err e
continue (ok (a, s)) next = next a s

infixl 5 ◌>>=◌ ◌>>◌
unfoldable pub ◌>>=◌ : {A B : Type 0} → Compute A → (A → Compute B) → Compute B
(first >>= next) s = continue (first s) next

abbrev pub ◌>>◌ : {A B : Type 0} → Compute A → Compute B → Compute B
first >> second = first >>= λ _. second
