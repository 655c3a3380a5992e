-- ===== src/Skipper/Filter/Depth.antt =====
-- Filters that are nested too deep are refused.
use nfcompose.Shared.{
  String, ℕ, suc, ◌+◌, ◌≤◌, ◌≡◌, Option, Bool, true, false, List, arith, ltb, leb, ◌==◌,
  if◌then◌else◌,
}
use nfcompose.Shared.Result.{Result, ok}
use nfcompose.Shared.Value.{Value, str, list, dict, Items, nil, cons, Fields, end, field}
use nfcompose.Skipper.Filter.Monad.{State, Compute, ◌>>=◌}
use nfcompose.Skipper.Filter.Ensures.{Ensures, raise-Ensures, if-Ensures, bind-Ensures}
use nfcompose.Skipper.Filter.{
  max_depth, complex_filter_to_sql_filter, each_field, one_field, clauses_of, clause_list, negated,
  fields_filter, within_depth,
}
use nfcompose.Skipper.Filter.{
  UserDefinedFilter, handle_column, compute_user_defined_filter_for_raw_query,
}
use nfcompose.Skipper.Filter.Accepted.{finish-IsAccepted}
use nfcompose.Skipper.Filter.Monad.{start}
use nfcompose.Skipper.Structure.{DataSeriesQueryInfo}

abbrev pub larger : ℕ → ℕ → ℕ
larger a b = if leb a b then b else a

-- How many of $and, $or and $not stand inside each other.
mutual
  pub nesting : Value → ℕ
  nesting (dict fields) = fields_nesting fields
  nesting _ = 0

  pub fields_nesting : Fields → ℕ
  fields_nesting end = 0
  fields_nesting (field key value rest) = larger (field_nesting key value) (fields_nesting rest)

  pub field_nesting : String → Value → ℕ
  field_nesting key (list items) =
      let inside = items_nesting items in
      if key == "$and" then inside else if key == "$or" then inside else 0
  field_nesting key (dict fields) =
      let inside = fields_nesting fields in if key == "$not" then suc inside else 0
  field_nesting key _ = 0

  pub items_nesting : Items → ℕ
  items_nesting nil = 0
  items_nesting (cons v rest) = larger (suc (nesting v)) (items_nesting rest)

-- A computation that succeeds only if this number is within the depth.
abbrev Within : ℕ → State → State → Type 0
Within n s t = n ≤ max_depth

holds : {A : Type 0} {n : ℕ} (m : Compute A) → n ≤ max_depth → Ensures (Within n) m
holds m h = record { ensured = λ s a t e. h }

first-Within :
    {A B : Type 0} (n : ℕ) (m : Compute A) (next : A → Compute B)
    → Ensures (Within n) m
    → Ensures (Within n) (m >>= next)
first-Within n m next h =
    bind-Ensures (Within n) (λ s t. Unit) (Within n) (λ s t u p q. p) m next h
      (λ a. record { ensured = λ s b t e. tt })

-- The larger of two numbers is within the depth if both are.
both-Within :
    {A B : Type 0} (depth a b : ℕ) (m : Compute A) (next : A → Compute B)
    → Ensures (Within (depth + a)) m
    → ((x : A) → Ensures (Within (depth + b)) (next x))
    → Ensures (Within (depth + larger a b)) (m >>= next)
both-Within depth a b m next first second =
    bind-Ensures (Within (depth + a)) (Within (depth + b)) (Within (depth + larger a b))
      (λ s t u p q. ground (arith, p, q)) m next first second

within_depth-Within :
    (n depth : ℕ) (text : Compute String)
    → (depth ≤ max_depth → Ensures (Within n) text)
    → Ensures (Within n) (within_depth depth text)
within_depth-Within n depth text h =
    if-Ensures (ltb max_depth depth) _ _ (λ _. raise-Ensures _) (λ e. h (ground (arith, e)))

fields_filter-Within :
    (depth : ℕ) (fields : Fields) (text : Compute String)
    → depth ≤ max_depth
    → Ensures (Within (depth + fields_nesting fields)) text
    → Ensures (Within (depth + fields_nesting fields)) (fields_filter fields text)
unfolding nesting
fields_filter-Within depth end text d h = holds _ (omega (arith, d))
fields_filter-Within depth (field key value rest) text d h = first-Within _ text _ h

clause_list-Within :
    (n : ℕ) (separator : String) (items : Items) (clauses : Compute (List String))
    → Ensures (Within n) clauses
    → Ensures (Within n) (clause_list separator items clauses)
clause_list-Within n separator nil clauses h = raise-Ensures _
clause_list-Within n separator (cons v rest) clauses h = first-Within n clauses _ h

negated-Within :
    (n : ℕ) (fields : Fields) (text : Compute String)
    → Ensures (Within n) text
    → Ensures (Within n) (negated fields text)
negated-Within n end text h = raise-Ensures _
negated-Within n (field key value rest) text h = first-Within n text _ h

choose-Within :
    {A : Type 0} (depth a b : ℕ) (test : Bool) (on_true on_false : Compute A)
    → Ensures (Within (depth + a)) on_true
    → Ensures (Within (depth + b)) on_false
    → Ensures (Within (depth + (if test then a else b))) (if test then on_true else on_false)
choose-Within depth a b true on_true on_false h k = h
choose-Within depth a b false on_true on_false h k = k

deeper-Within :
    {A : Type 0} (depth n : ℕ) (m : Compute A)
    → Ensures (Within (suc depth + n)) m
    → Ensures (Within (depth + suc n)) m
deeper-Within depth n m h = record { ensured = λ s a t e. omega (arith, h.ensured s a t e) }

module _ (column : String → Value → Compute String) where
  mutual
    unfolding complex_filter_to_sql_filter nesting

    complex-Within :
        (depth : ℕ) (v : Value)
        → Ensures (Within (depth + nesting v)) (complex_filter_to_sql_filter column depth v)
    complex-Within depth (dict fields) =
        within_depth-Within _ depth _
          λ d. fields_filter-Within depth fields _ d (each-Within depth fields d)
    complex-Within depth (list nil) = within_depth-Within _ depth _ λ d. holds _ (omega (arith, d))
    complex-Within depth (list (cons v rest)) =
        within_depth-Within _ depth _ λ d. holds _ (omega (arith, d))
    complex-Within depth (str text) = within_depth-Within _ depth _ λ d. holds _ (omega (arith, d))
    complex-Within depth _ = within_depth-Within _ depth _ λ d. holds _ (omega (arith, d))

    each-Within :
        (depth : ℕ) (fields : Fields)
        → depth ≤ max_depth
        → Ensures (Within (depth + fields_nesting fields)) (each_field column depth fields)
    each-Within depth end d = holds _ (omega (arith, d))
    each-Within depth (field key value rest) d =
        both-Within depth (field_nesting key value) (fields_nesting rest) _ _
          (one-Within depth key value d) (λ part. first-Within _ _ _ (each-Within depth rest d))

    one-Within :
        (depth : ℕ) (key : String) (value : Value)
        → depth ≤ max_depth
        → Ensures (Within (depth + field_nesting key value)) (one_field column depth key value)
    one-Within depth key (list items) d =
        let inside = clauses-Within depth items d in
        choose-Within depth _ _ (key == "$and") _ _ (clause_list-Within _ " AND " items _ inside) (
          choose-Within depth _ _ (key == "$or") _ _ (clause_list-Within _ " OR " items _ inside)
            (holds _ (omega (arith, d))))
    one-Within depth key (dict fields) d =
        if-Ensures (key == "$and") _ _ (λ _. raise-Ensures _)
          λ _.
            if-Ensures (key == "$or") _ _ (λ _. raise-Ensures _)
              λ _.
                choose-Within depth _ _ (key == "$not") _ _
                  (deeper-Within depth _ _ (
                    negated-Within _ fields _ (
                      within_depth-Within _ (suc depth) _ λ e.
                        fields_filter-Within (suc depth) fields _ e
                          (each-Within (suc depth) fields e))))
                  (holds _ (omega (arith, d)))
    one-Within depth key _ d = holds _ (omega (arith, d))

    clauses-Within :
        (depth : ℕ) (items : Items)
        → depth ≤ max_depth
        → Ensures (Within (depth + items_nesting items)) (clauses_of column depth items)
    clauses-Within depth nil d = holds _ (omega (arith, d))
    clauses-Within depth (cons v rest) d =
        both-Within depth (suc (nesting v)) (items_nesting rest) _ _
          (deeper-Within depth _ _ (complex-Within (suc depth) v))
          (λ clause. first-Within _ _ _ (clauses-Within depth rest d))

-- A filter that is accepted has at most ten of $and, $or and $not inside each other.
pub fields_nesting-le-max_depth :
    (escape : String → Result String) (parse_datetime : Value → Option ℕ) (str_of : ℕ → String)
    (use_materialized_table : Bool) (info : DataSeriesQueryInfo) (filter_params : Fields)
    (f : UserDefinedFilter)
    → compute_user_defined_filter_for_raw_query escape parse_datetime str_of use_materialized_table
        info filter_params
      ≡ ok f
    → fields_nesting filter_params ≤ max_depth
unfolding compute_user_defined_filter_for_raw_query nesting
fields_nesting-le-max_depth escape parse_datetime str_of use_materialized_table info filter_params f
      h =
    let accepted = finish-IsAccepted _ f h in
    let within =
      complex-Within
        (λ column value.
          handle_column escape parse_datetime str_of use_materialized_table info column "$eq" value)
        0 (dict filter_params) in
    omega (arith, within.ensured start accepted.sql f.state accepted.computed)
