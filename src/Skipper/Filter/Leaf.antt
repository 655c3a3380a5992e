-- ===== src/Skipper/Filter/Leaf.antt =====
-- What the condition on one column writes down.
use nfcompose.Shared.{
  String, ℕ, ◌≡◌, refl, sym, ap, ◌∙◌, inl, inr, Bool, true, false, ◌&&◌, ◌||◌, Option, none, some,
  List, [], ◌∷◌, arith, contains, is_some, Bool-cases, Option-cases, eq_iff, ◌==◌,
}
use nfcompose.Shared.Result.{Result, ok, err, validation_error}
use nfcompose.Shared.Dict.{Dict, insert}
use nfcompose.Shared.Value.{Value}
use nfcompose.Skipper.Structure.{DataSeriesQueryInfo}
use nfcompose.Skipper.Filter.Monad.{FilterKind, Param, State, raise}
use nfcompose.Skipper.Filter.Ensures.{
  Ensures, pure-Ensures, raise-Ensures, bind-Ensures, write-Ensures, then_pure,
}
use nfcompose.Skipper.Filter.Params.{IsParam, Fits, PartFits, part_of-PartFits}
use nfcompose.Skipper.Filter.Column.{
  column_of, bind_param, write_part, handle_if, filter_kinds, handle_each, next_param,
  primitive_filter,
}
use mathlib.Core.Path.{subst}

-- A test that holds of a key holds of the same key.
key_handled :
    (known : String → Bool) (key k : String) (before between after : Bool)
    → after ≡ (key == k && known key || between)
    → between ≡ before
    → after ≡ ((key == k || false) && known k || before)
key_handled known key k before between after a b = elim (Bool-cases (key == k)) [
  | inl e ↦ ground (arith, a, b, e, ap known ((eq_iff key k).0 e))
  | inr e ↦ ground (arith, a, b, e)
]

module _ (info : DataSeriesQueryInfo) where
  -- The data series has a column of that key and kind.
  abbrev pub has_column : FilterKind → String → Bool
  has_column kind key = is_some (column_of info kind key)

  abbrev pub is_known_in : List FilterKind → String → Bool
  is_known_in [] key = false
  is_known_in (kind ∷ kinds) key = has_column kind key || is_known_in kinds key

  -- Each parameter fits the kind of a column of the data series.
  abbrev pub AllFit : Dict Param → Type 0
  AllFit [] = Unit
  AllFit ((name, param) ∷ params) =
      ((kind : FilterKind) × (key : String) × (has_column kind key ≡ true) × IsParam kind param)
      × AllFit params

  -- Each column that is used is one of the data series.
  abbrev pub AllColumns : List (FilterKind × String) → Type 0
  AllColumns [] = Unit
  AllColumns ((kind, key) ∷ used) = (has_column kind key ≡ true) × AllColumns used

  -- From one state to a later one the keys were mentioned, and those that the test holds of handled.
  pub record Seen (mentioned : List String) (known : String → Bool) (s t : State) : Type 0 where
    pub overall :
        (k : String)
        → contains t.keys_overall k ≡ (contains mentioned k || contains s.keys_overall k)
    pub handled :
        (k : String)
        → contains t.handled_keys k
          ≡ ((contains mentioned k && known k) || contains s.handled_keys k)
    pub fit : AllFit s.query_params → AllFit t.query_params
    pub columns : AllColumns s.used → AllColumns t.used

  -- The key was handled, if the test says so.
  pub record Wrote (key : String) (b : Bool) (s t : State) : Type 0 where
    pub same_overall : t.keys_overall ≡ s.keys_overall
    pub also_handled :
        (k : String) → contains t.handled_keys k ≡ ((key == k && b) || contains s.handled_keys k)
    pub still_fit : AllFit s.query_params → AllFit t.query_params
    pub still_columns : AllColumns s.used → AllColumns t.used

  Wrote-trans :
      {key : String} {b c : Bool} (s t u : State)
      → Wrote key b s t
      → Wrote key c t u
      → Wrote key (b || c) s u
  Wrote-trans s t u p q = record {
    same_overall = q.same_overall ∙ p.same_overall;
    also_handled = λ k. ground (arith, p.also_handled k, q.also_handled k);
    still_fit = λ fit. q.still_fit (p.still_fit fit);
    still_columns = λ c. q.still_columns (p.still_columns c);
  }

  insert-AllFit :
      (name : String) (param : Param) (params : Dict Param)
      → (kind : FilterKind) × (key : String) × (has_column kind key ≡ true) × IsParam kind param
      → AllFit params
      → AllFit (insert name param params)
  unfolding insert
  insert-AllFit name param [] h k = (h, tt)
  insert-AllFit name param ((n, p) ∷ params) h k = elim (Bool-cases (n == name)) [
    | inl same ↦ rw (same, insert) (h, k.1)
    | inr other ↦ rw (other, insert) (k.0, insert-AllFit name param params h k.1)
  ]

  module _ (escape : String → Result String) (parse_datetime : Value → Option ℕ)
      (str_of : ℕ → String) (use_materialized_table : Bool) where
    bind-AllFit :
        (kind : FilterKind) (key name : String) (param : Option Param) (params : Dict Param)
        → has_column kind key ≡ true
        → Fits kind param
        → AllFit params
        → AllFit
            (bind_param escape parse_datetime str_of use_materialized_table info name param params)
    bind-AllFit kind key name none params h f k = k
    bind-AllFit kind key name (some param) params h f k =
        insert-AllFit name param params (kind, key, h, f) k

    write-Wrote :
        (kind : FilterKind) (name key : String) (lhs : Result String)
        (part : Option (String × Option Param))
        → has_column kind key ≡ true
        → PartFits kind part
        → Ensures (Wrote key true) (
            write_part escape parse_datetime str_of use_materialized_table info kind name key lhs
              part)
    unfolding raise
    write-Wrote kind name key (err e) part h f = raise-Ensures e
    write-Wrote kind name key (ok lhs) none h f = raise-Ensures validation_error
    write-Wrote kind name key (ok lhs) (some (text, param)) h f = write-Ensures _ _ λ s. record {
      same_overall = refl;
      also_handled = λ k. ground arith;
      still_fit = λ fit. bind-AllFit kind key name param s.query_params h f fit;
      still_columns = λ c. (h, c);
    }

    handle_if-Wrote :
        (kind : FilterKind) (name key : String) (value : Value) (operator : String)
        → Ensures (Wrote key (has_column kind key)) (
            handle_if escape parse_datetime str_of use_materialized_table info kind name key value
              operator)
    unfolding handle_if
    handle_if-Wrote kind name key value operator = elim (Option-cases (column_of info kind key)) [
      | inl e ↦
          rw (e, handle_if)
            (pure-Ensures [] λ s. record {
              same_overall = refl;
              also_handled = λ k. ground arith;
              still_fit = λ fit. fit;
              still_columns = λ c. c;
            })
      | inr (column, e) ↦
          rw (e, handle_if)
            (write-Wrote kind name key _ _ (rw (e) refl)
              (part_of-PartFits parse_datetime kind name value operator))
    ]

    handle_each-Wrote :
        (kinds : List FilterKind) (name key : String) (value : Value) (operator : String)
        → Ensures (Wrote key (is_known_in kinds key)) (
            handle_each escape parse_datetime str_of use_materialized_table info kinds name key
              value operator)
    unfolding handle_each
    handle_each-Wrote [] name key value operator = pure-Ensures [] λ s. record {
      same_overall = refl;
      also_handled = λ k. ground arith;
      still_fit = λ fit. fit;
      still_columns = λ c. c;
    }
    handle_each-Wrote (kind ∷ kinds) name key value operator =
        bind-Ensures (Wrote key (has_column kind key)) (Wrote key (is_known_in kinds key))
          (Wrote key (is_known_in (kind ∷ kinds) key)) Wrote-trans _ _
          (handle_if-Wrote kind name key value operator)
          (λ part. then_pure _ (handle_each-Wrote kinds name key value operator))

    -- The key is entered, and nothing else that matters here is written.
    abbrev Entered : String → State → State → Type 0
    Entered key s t =
        (t.keys_overall ≡ key ∷ s.keys_overall)
        × (t.handled_keys ≡ s.handled_keys)
        × (t.query_params ≡ s.query_params)
        × (t.used ≡ s.used)

    next-Entered :
        (key : String)
        → Ensures
            (Entered key)
            (next_param escape parse_datetime str_of use_materialized_table info key)
    unfolding next_param
    next-Entered key = write-Ensures _ _ λ s. (refl, refl, refl, refl)

    Entered-Seen :
        (key : String) (s t u : State)
        → Entered key s t
        → Wrote key (is_known_in filter_kinds key) t u
        → Seen (key ∷ []) (is_known_in filter_kinds) s u
    Entered-Seen key s t u (overall, handled, params, used) w = record {
      overall = λ k.
          ground (arith, ap (λ l. contains l k) overall, ap (λ l. contains l k) w.same_overall);
      handled = λ k.
          key_handled (is_known_in filter_kinds) key k _ _ _ (w.also_handled k)
            (ap (λ l. contains l k) handled);
      fit = λ fit. w.still_fit (subst AllFit (sym params) fit);
      columns = λ c. w.still_columns (subst AllColumns (sym used) c);
    }

    -- One primitive filter mentions its key, and handles it if the data series has such a column.
    pub primitive-Seen :
        (key : String) (value : Value) (operator : String)
        → Ensures (Seen (key ∷ []) (is_known_in filter_kinds)) (
            primitive_filter escape parse_datetime str_of use_materialized_table info key value
              operator)
    unfolding primitive_filter
    primitive-Seen key value operator =
        bind-Ensures (Entered key) (Wrote key (is_known_in filter_kinds key)) _ (Entered-Seen key) _
          _ (next-Entered key)
          (λ name. then_pure _ (handle_each-Wrote filter_kinds name key value operator))
