-- ===== src/Skipper/Filter/Known.antt =====
-- A filter that is accepted names only columns that the data series has, and binds only parameters
-- that fit them.
use nfcompose.Shared.{
  String, ℕ, suc, ◌≡◌, Bool, true, false, Option, List, [], ◌∷◌, ◌++◌, arith, contains,
  contains-append, ltb, ◌==◌, if◌then◌else◌,
}
use nfcompose.Shared.Result.{Result, ok}
use nfcompose.Shared.Value.{Value, str, list, dict, Items, nil, cons, Fields, end, field}
use nfcompose.Skipper.Structure.{DataSeriesQueryInfo}
use nfcompose.Skipper.Filter.Monad.{State, Compute, ◌>>=◌, start}
use nfcompose.Skipper.Filter.Column.{filter_kinds}
use nfcompose.Skipper.Filter.Ensures.{
  Ensures, pure-Ensures, raise-Ensures, if-Ensures, bind-Ensures, then_pure,
}
use nfcompose.Skipper.Filter.Leaf.{is_known_in, AllFit, AllColumns, Seen, primitive-Seen}
use nfcompose.Skipper.Filter.Accepted.{finish-IsAccepted, all_handled-contains}
use nfcompose.Skipper.Filter.{
  UserDefinedFilter, max_depth, complex_filter_to_sql_filter, each_field, one_field, clauses_of,
  clause_list, negated, fields_filter, within_depth, operators_filter, handle_column, and_clauses,
  compute_user_defined_filter_for_raw_query,
}
use text.Mathlib.Text.{starts_with}

-- The columns that a filter names, each time that it compares one with a value.
mutual
  pub column_mentions : String → Value → List String
  column_mentions column (dict fields) = operator_mentions column fields
  column_mentions column _ = column ∷ []

  pub operator_mentions : String → Fields → List String
  operator_mentions column end = []
  operator_mentions column (field operator value rest) =
      column_mentions column value ++ operator_mentions column rest

mutual
  unfolding column_mentions

  pub mentions : Value → List String
  mentions (dict fields) = fields_mentions fields
  mentions _ = []

  pub fields_mentions : Fields → List String
  fields_mentions end = []
  fields_mentions (field key value rest) = field_mentions key value ++ fields_mentions rest

  pub field_mentions : String → Value → List String
  field_mentions key (list items) =
      let inside = items_mentions items in
      if key == "$and" then inside else if key == "$or" then inside else key ∷ []
  field_mentions key (dict fields) =
      let inside = fields_mentions fields in
      if key == "$not" then inside else operator_mentions key fields
  field_mentions key _ = key ∷ []

  pub items_mentions : Items → List String
  items_mentions nil = []
  items_mentions (cons v rest) = mentions v ++ items_mentions rest

module _ (info : DataSeriesQueryInfo) where
  abbrev pub is_known : String → Bool
  is_known = is_known_in info filter_kinds

  S : List String → State → State → Type 0
  S names = Seen info names is_known

  seen_self : (s : State) → S [] s s
  unfolding S
  seen_self s = record {
    overall = λ k. ground arith;
    handled = λ k. ground arith;
    fit = λ f. f;
    columns = λ c. c;
  }

  seen_trans : (a b : List String) (s t u : State) → S a s t → S b t u → S (a ++ b) s u
  unfolding S
  seen_trans a b s t u p q = record {
    overall = λ k. rw (contains-append a b k) (ground (arith, p.overall k, q.overall k));
    handled = λ k. rw (contains-append a b k) (ground (arith, p.handled k, q.handled k));
    fit = λ f. q.fit (p.fit f);
    columns = λ c. q.columns (p.columns c);
  }

  then_more :
      {A B : Type 0} (a b : List String) (m : Compute A) (next : A → Compute B)
      → Ensures (S a) m
      → ((x : A) → Ensures (S b) (next x))
      → Ensures (S (a ++ b)) (m >>= next)
  then_more a b m next first second =
      bind-Ensures (S a) (S b) (S (a ++ b)) (seen_trans a b) m next first second

  fields_filter-Seen :
      (fields : Fields) (text : Compute String)
      → Ensures (S (fields_mentions fields)) text
      → Ensures (S (fields_mentions fields)) (fields_filter fields text)
  unfolding mentions
  fields_filter-Seen end text h = pure-Ensures _ seen_self
  fields_filter-Seen (field key value rest) text h = then_pure _ h

  operators_filter-Seen :
      (column : String) (fields : Fields) (clauses : Compute (List String))
      → Ensures (S (operator_mentions column fields)) clauses
      → Ensures (S (operator_mentions column fields)) (operators_filter fields clauses)
  unfolding column_mentions
  operators_filter-Seen column end clauses h = pure-Ensures _ seen_self
  operators_filter-Seen column (field operator value rest) clauses h = then_pure _ h

  clause_list-Seen :
      (names : List String) (separator : String) (items : Items) (clauses : Compute (List String))
      → Ensures (S names) clauses
      → Ensures (S names) (clause_list separator items clauses)
  clause_list-Seen names separator nil clauses h = raise-Ensures _
  clause_list-Seen names separator (cons v rest) clauses h = then_pure _ h

  negated-Seen :
      (names : List String) (fields : Fields) (text : Compute String)
      → Ensures (S names) text
      → Ensures (S names) (negated fields text)
  negated-Seen names end text h = raise-Ensures _
  negated-Seen names (field key value rest) text h = then_pure _ h

  within_depth-Seen :
      (names : List String) (depth : ℕ) (text : Compute String)
      → Ensures (S names) text
      → Ensures (S names) (within_depth depth text)
  within_depth-Seen names depth text h =
      if-Ensures (ltb max_depth depth) _ _ (λ _. raise-Ensures _) (λ _. h)

  choose-Seen :
      (a b : List String) (test : Bool) (on_true on_false : Compute String)
      → Ensures (S a) on_true
      → Ensures (S b) on_false
      → Ensures (S (if test then a else b)) (if test then on_true else on_false)
  choose-Seen a b true on_true on_false h k = h
  choose-Seen a b false on_true on_false h k = k

  module _ (escape : String → Result String) (parse_datetime : Value → Option ℕ)
      (str_of : ℕ → String) (use_materialized_table : Bool) where
    mutual
      unfolding handle_column column_mentions S

      column-Seen :
          (column operator : String) (value : Value)
          → Ensures (S (column_mentions column value)) (
              handle_column escape parse_datetime str_of use_materialized_table info column operator
                value)
      column-Seen column operator (dict fields) =
          operators_filter-Seen column fields _ (and_clauses-Seen column fields)
      column-Seen column operator _ =
          primitive-Seen info escape parse_datetime str_of use_materialized_table column _ operator

      and_clauses-Seen :
          (column : String) (fields : Fields)
          → Ensures
              (S (operator_mentions column fields))
              (and_clauses escape parse_datetime str_of use_materialized_table info column fields)
      and_clauses-Seen column end = pure-Ensures _ seen_self
      and_clauses-Seen column (field operator value rest) =
          then_more (column_mentions column value) (operator_mentions column rest) _ _
            (column-Seen column operator value)
            (λ clause. then_pure _ (and_clauses-Seen column rest))

    C : String → Value → Compute String
    C column value =
        handle_column escape parse_datetime str_of use_materialized_table info column "$eq" value

    mutual
      unfolding complex_filter_to_sql_filter mentions column_mentions C

      complex-Seen :
          (depth : ℕ) (v : Value)
          → Ensures (S (mentions v)) (complex_filter_to_sql_filter C depth v)
      complex-Seen depth (dict fields) =
          within_depth-Seen _ depth _ (fields_filter-Seen fields _ (each-Seen depth fields))
      complex-Seen depth (list nil) = within_depth-Seen _ depth _ (pure-Ensures _ seen_self)
      complex-Seen depth (list (cons v rest)) = within_depth-Seen _ depth _ (raise-Ensures _)
      complex-Seen depth (str text) =
          within_depth-Seen _ depth _
            (if-Ensures (text == "") _ _ (λ _. pure-Ensures _ seen_self) (λ _. raise-Ensures _))
      complex-Seen depth _ = within_depth-Seen _ depth _ (raise-Ensures _)

      each-Seen :
          (depth : ℕ) (fields : Fields)
          → Ensures (S (fields_mentions fields)) (each_field C depth fields)
      each-Seen depth end = pure-Ensures _ seen_self
      each-Seen depth (field key value rest) =
          then_more (field_mentions key value) (fields_mentions rest) _ _ (one-Seen depth key value)
            (λ part. then_pure _ (each-Seen depth rest))

      one-Seen :
          (depth : ℕ) (key : String) (value : Value)
          → Ensures (S (field_mentions key value)) (one_field C depth key value)
      one-Seen depth key (list items) =
          choose-Seen _ _ (key == "$and") _ _
            (clause_list-Seen _ " AND " items _ (clauses-Seen depth items))
            (choose-Seen _ _ (key == "$or") _ _
              (clause_list-Seen _ " OR " items _ (clauses-Seen depth items))
              (if-Ensures (key == "$not") _ _ (λ _. raise-Ensures _)
                λ _.
                  if-Ensures (starts_with "$" key) _ _ (λ _. raise-Ensures _)
                    λ _. column-Seen key "$eq" (list items)))
      one-Seen depth key (dict fields) =
          if-Ensures (key == "$and") _ _ (λ _. raise-Ensures _)
            λ _.
              if-Ensures (key == "$or") _ _ (λ _. raise-Ensures _)
                λ _.
                  choose-Seen _ _ (key == "$not") _ _
                    (negated-Seen _ fields _ (
                      within_depth-Seen _ (suc depth) _
                        (fields_filter-Seen fields _ (each-Seen (suc depth) fields))))
                    (if-Ensures (starts_with "$" key) _ _ (λ _. raise-Ensures _)
                      λ _. column-Seen key "$eq" (dict fields))
      one-Seen depth key _ =
          if-Ensures (key == "$and") _ _ (λ _. raise-Ensures _)
            λ _.
              if-Ensures (key == "$or") _ _ (λ _. raise-Ensures _)
                λ _.
                  if-Ensures (key == "$not") _ _ (λ _. raise-Ensures _)
                    λ _.
                      if-Ensures (starts_with "$" key) _ _ (λ _. raise-Ensures _)
                        λ _. column-Seen key "$eq" _

      clauses-Seen :
          (depth : ℕ) (items : Items)
          → Ensures (S (items_mentions items)) (clauses_of C depth items)
      clauses-Seen depth nil = pure-Ensures _ seen_self
      clauses-Seen depth (cons v rest) =
          then_more (mentions v) (items_mentions rest) _ _ (complex-Seen (suc depth) v)
            (λ clause. then_pure _ (clauses-Seen depth rest))

    -- When a filter is accepted, each column that it compares with a value, however deep that stands
    -- in it, is a column that the data series has as a float, string, text, timestamp or boolean fact
    -- or as a dimension; each parameter of the query fits the kind of such a column; and each child
    -- that is reported as used is one of the data series.
    pub compute_user_defined_filter_for_raw_query-AllFit :
        (filter_params : Fields) (f : UserDefinedFilter)
        → compute_user_defined_filter_for_raw_query escape parse_datetime str_of
            use_materialized_table info filter_params
          ≡ ok f
        → ((k : String) → contains (fields_mentions filter_params) k ≡ true → is_known k ≡ true)
          × AllFit info f.state.query_params
          × AllColumns info f.state.used
    unfolding compute_user_defined_filter_for_raw_query S C mentions
    compute_user_defined_filter_for_raw_query-AllFit filter_params f h =
        let accepted = finish-IsAccepted _ f h in
        let seen =
          (complex-Seen 0 (dict filter_params)).ensured start accepted.sql f.state
            accepted.computed in
        (
          λ k m. ground (
            arith,
            m,
            seen.overall k,
            seen.handled k,
            all_handled-contains f.state.keys_overall f.state.handled_keys k accepted.handled,
          ),
          seen.fit tt,
          seen.columns tt,
        )
