-- ===== src/Skipper/Validate/Turns.antt =====
-- The loop over the facts of one kind, key by key: what each key's errors and value come to.
use nfcompose.Shared.{
  String, ◌≡◌, refl, Bool, true, Option, none, some, List, [], ◌∷◌, ◌++◌, map, arith, contains,
  Distinct, is_some, if◌then◌else◌, ◌==◌, eq_iff, Option-cases, List-cases, inl, inr, eq_refl, ℕ,
}
use mathlib.Core.List.{append-nil}
use nfcompose.Shared.Dict.{Dict, lookup, insert, lookup-insert}
use nfcompose.Shared.Value.{ℤ, Value, null, bool, int, float, str, datetime, object, list, dict}
use nfcompose.Skipper.Structure.{DataSeriesFactQueryInfo}
use nfcompose.Skipper.Validate.Contract.{
  FactKind, float_fact, string_fact, text_fact, timestamp_fact, json_fact, image_fact, file_fact,
  boolean_fact, Message, Errors, messages, Checked, raised, passed, append_errors,
}
use nfcompose.Skipper.Validate.Facts.{
  Verdict, float_of, set_value, fact_type_validation, check_fact, check_facts,
}
use nfcompose.Skipper.Validate.Messages.{messages-append_errors, Sound, append_errors-Sound}
use nfcompose.Skipper.Validate.Pointwise.{fact_id}

unfoldable pub verdict : Checked Verdict → Verdict
verdict (passed v) = v
verdict (raised e) = ([], null)

float_of-passes : (o : Option ℕ) → is_some o ≡ true → float_of o ≡ passed (verdict (float_of o))
unfolding verdict
float_of-passes none h = ground (arith, h)
float_of-passes (some x) h = refl

module _ (to_float : ℤ → Option ℕ) where
  -- Whether the check on the type comes to a verdict: a float fact has no integer too large for one.
  unfoldable pub fits : FactKind → Value → Bool
  fits float_fact (int z) = is_some (to_float z)
  fits _ _ = true

  unfoldable pub verdict_of : FactKind → Value → Verdict
  verdict_of kind v = verdict (fact_type_validation to_float kind v)

  -- The errors that the check on the type of a key's value adds, and the value that it leaves.
  unfoldable pub type_errors : FactKind → Option Value → List Message
  type_errors kind v = elim (set_value v) [ none ↦ [] | some w ↦ (verdict_of kind w).0 ]

  unfoldable pub stored : FactKind → Option Value → Option Value
  stored kind v = elim (set_value v) [
    | none ↦ v
    | some w ↦ elim (verdict_of kind w).0 [ [] ↦ some (verdict_of kind w).1 | _ ∷ _ ↦ v ]
  ]

  unfoldable pub all_fit : FactKind → Option Value → Bool
  all_fit kind v = elim (set_value v) [ none ↦ true | some w ↦ fits kind w ]

  fact_type_validation-fits :
      (kind : FactKind) (v : Value)
      → fits kind v ≡ true
      → fact_type_validation to_float kind v ≡ passed (verdict_of kind v)
  unfolding fits verdict_of verdict fact_type_validation
  fact_type_validation-fits float_fact (int z) h = float_of-passes (to_float z) h
  fact_type_validation-fits float_fact null h = refl
  fact_type_validation-fits float_fact (bool b) h = refl
  fact_type_validation-fits float_fact (float x) h = refl
  fact_type_validation-fits float_fact (str s) h = refl
  fact_type_validation-fits float_fact (datetime t) h = refl
  fact_type_validation-fits float_fact (object o) h = refl
  fact_type_validation-fits float_fact (list xs) h = refl
  fact_type_validation-fits float_fact (dict d) h = refl
  fact_type_validation-fits string_fact v h = refl
  fact_type_validation-fits text_fact v h = refl
  fact_type_validation-fits timestamp_fact v h = refl
  fact_type_validation-fits json_fact v h = refl
  fact_type_validation-fits image_fact v h = refl
  fact_type_validation-fits file_fact v h = refl
  fact_type_validation-fits boolean_fact v h = refl

  nothing_set :
      (kind : FactKind) (v : Option Value)
      → set_value v ≡ none
      → (type_errors kind v ≡ []) × (stored kind v ≡ v)
  unfolding type_errors stored
  nothing_set kind v e = (rw (type_errors, e) refl, rw (stored, e) refl)

  value_fits :
      (kind : FactKind) (v : Option Value) (w : Value)
      → set_value v ≡ some w
      → all_fit kind v ≡ true
      → fact_type_validation to_float kind w ≡ passed (verdict_of kind w)
  unfolding all_fit
  value_fits kind v w e h = fact_type_validation-fits kind w (ground (arith, e, h))

  value_accepted :
      (kind : FactKind) (v : Option Value) (w : Value)
      → set_value v ≡ some w
      → (verdict_of kind w).0 ≡ []
      → (type_errors kind v ≡ []) × (stored kind v ≡ some (verdict_of kind w).1)
  unfolding type_errors stored
  value_accepted kind v w e h = (rw (type_errors, e) h, rw (stored, e, h) refl)

  value_refused :
      (kind : FactKind) (v : Option Value) (w : Value) (m : Message) (ms : List Message)
      → set_value v ≡ some w
      → (verdict_of kind w).0 ≡ m ∷ ms
      → (type_errors kind v ≡ m ∷ ms) × (stored kind v ≡ v)
  unfolding type_errors stored
  value_refused kind v w m ms e h = (rw (type_errors, e) h, rw (stored, e, h) refl)

  -- One turn of the loop, seen at the key k.
  abbrev pub Turn : FactKind → Errors → Dict Value → Errors → Dict Value → Bool → String → Type 0
  Turn kind errors attrs errors' attrs' here k =
      (messages k errors' ≡ (
        if here then messages k errors ++ type_errors kind (lookup k attrs) else messages k errors))
      × (lookup k attrs' ≡ (if here then stored kind (lookup k attrs) else lookup k attrs))

  check_fact-Turn :
      (kind : FactKind) (f : DataSeriesFactQueryInfo) (errors : Errors) (attrs : Dict Value)
      → all_fit kind (lookup (fact_id f) attrs) ≡ true
      → (s : Errors × Dict Value) × (check_fact to_float kind f errors attrs ≡ passed s)
        × ((k : String) → Turn kind errors attrs s.0 s.1 (fact_id f == k) k)
        × (Sound errors → Sound s.0)
  unfolding check_fact
  check_fact-Turn kind f errors attrs h =
      elim (Option-cases (set_value (lookup (fact_id f) attrs))) [
        | inl e ↦ (
          (errors, attrs),
          rw (check_fact, e) refl,
          λ k. ground (
            arith,
            nothing_set kind (lookup (fact_id f) attrs) e,
            append-nil (messages k errors),
            eq_iff (fact_id f) k,
          ),
          λ good. good,
        )
        | inr (v, e) ↦ elim (List-cases (verdict_of kind v).0) [
          | inl none_wrong ↦ (
            (errors, insert (fact_id f) (verdict_of kind v).1 attrs),
            rw (check_fact, e, value_fits kind _ v e h, none_wrong) refl,
            λ k. ground (
              arith,
              value_accepted kind (lookup (fact_id f) attrs) v e none_wrong,
              append-nil (messages k errors),
              lookup-insert k (fact_id f) (verdict_of kind v).1 attrs,
              eq_iff (fact_id f) k,
            ),
            λ good. good,
          )
          | inr (m, ms, wrong) ↦ (
            (append_errors errors (fact_id f) (m ∷ ms), attrs),
            rw (check_fact, e, value_fits kind _ v e h, wrong) refl,
            λ k. ground (
              arith,
              value_refused kind (lookup (fact_id f) attrs) v m ms e wrong,
              messages-append_errors k (fact_id f) errors (m ∷ ms),
              eq_iff (fact_id f) k,
            ),
            append_errors-Sound errors (fact_id f) (m ∷ ms),
          )
        ]
      ]

  pub check_facts_turns :
      (kind : FactKind) (fs : List DataSeriesFactQueryInfo) (errors : Errors) (attrs : Dict Value)
      → Distinct (map fact_id fs)
      → ((k : String) → contains (map fact_id fs) k ≡ true → all_fit kind (lookup k attrs) ≡ true)
      → (s : Errors × Dict Value) × (check_facts to_float kind fs errors attrs ≡ passed s)
        × ((k : String) → Turn kind errors attrs s.0 s.1 (contains (map fact_id fs) k) k)
        × (Sound errors → Sound s.0)
  unfolding check_facts
  check_facts_turns kind [] errors attrs u h =
      ((errors, attrs), refl, λ k. (refl, refl), λ good. good)
  check_facts_turns kind (f ∷ fs) errors attrs (fresh, u) h =
      let first =
        check_fact-Turn kind f errors attrs (h (fact_id f) (ground (arith, eq_refl (fact_id f)))) in
      let rest =
        check_facts_turns kind fs first.0.0 first.0.1 u
          (λ k here. ground (arith, h k, here, first.2 k, fresh, eq_iff (fact_id f) k)) in
      (
        rest.0,
        rw (first.1) rest.1,
        λ k. ground (arith, first.2 k, rest.2 k, fresh, eq_iff (fact_id f) k),
        λ good. rest.3 (first.3 good),
      )
