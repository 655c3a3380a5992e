-- ===== src/Client/Diff/DataPoints/Plan.antt =====
-- The operations of `diff_datapoint_list`.
use nfcompose.Shared.{
  String, ◌≡◌, refl, ◌∙◌, sym, true, false, ◌&&◌, Option, none, some, List, [], ◌∷◌, ◌++◌, arith,
  contains, Distinct, if◌then◌else◌, eq_iff, is_some, Option-cases, Bool-cases, inl, inr,
}
use nfcompose.Shared.Result.{ok, err, value_error, not_implemented}
use nfcompose.Shared.Dict.{Dict, lookup, keys, by_key, has, contains-keys}
use nfcompose.Client.Models.{Runtime, DataPoint, DataSeriesStructure}
use nfcompose.Client.Operation.{delete}
use nfcompose.Client.Diff.Child.Latest.{latest, lookup-by_key_nil}
use nfcompose.Client.Diff.DataPoints.{
  DataPointOperation, has_duplicates, has_files, target_loop, deletions, diff_datapoint_list,
}
use mathlib.Core.List.{append-nil}
use nfcompose.Client.Diff.DataPoints.Loop.{
  point_key, bare, about_point, about_point-append, about_point-deletions, target_plan,
  target_loop_lem, by_key-Distinct, contains-ids,
}
use nfcompose.Client.Diff.DataPoints.Duplicates.{ids, has_duplicates_iff}

module _ (rt : Runtime) (structure : DataSeriesStructure) where
  -- The operations for one key.
  abbrev pub point_plan : String → Option DataPoint → Option DataPoint → List DataPointOperation
  point_plan k none none = []
  point_plan k (some b) none = record { operation_type = delete; datapoint = bare k } ∷ []
  point_plan k b (some t) = target_plan rt structure b (some t)

  merge :
      (k : String) (b t : Option DataPoint)
      → target_plan rt structure b t
          ++ (if is_some (if is_some t then none else b)
              then record { operation_type = delete; datapoint = bare k } ∷ []
              else [])
        ≡ point_plan k b t
  merge k none none = refl
  merge k (some b) none = refl
  merge k none (some t) = refl
  merge k (some b) (some t) = append-nil _

  -- Where no external_id stands twice in the base or in the target, and no data point of both has to
  -- be compared while the structure has file or image facts, `diff_datapoint_list` raises nothing.
  -- Its operations for an external_id are exactly: a CREATE with the target's data point if only the
  -- target has it, a DELETE if only the base has it, an UPDATE with the target's if both have it and
  -- the two differ, and none otherwise.
  pub diff_datapoint_list-plan :
      (base target : List DataPoint)
      → Distinct (ids base)
      → Distinct (ids target)
      → ((k : String)
          → (has_files structure && (contains (ids base) k && contains (ids target) k)) ≡ false)
      → (os : List DataPointOperation) × (diff_datapoint_list rt structure base target ≡ ok os)
        × ((k : String)
            → about_point k os ≡ point_plan k (latest point_key k base) (latest point_key k target))
  unfolding diff_datapoint_list
  diff_datapoint_list-plan base target ub ut supported =
      let (d, os, built, ud, spec) =
        target_loop_lem rt structure (by_key point_key [] base) target
          (λ k.
            ground (arith, supported k, lookup-by_key_nil point_key k base, contains-ids k base))
          ut (by_key-Distinct [] base (unfold keys in tt)) in
      (
        os ++ deletions rt structure (keys d),
        rw ((has_duplicates_iff base).1 ub) (rw ((has_duplicates_iff target).1 ut) (rw built)),
        λ k.
            rw
              (
                about_point-append,
                (spec k).1,
                about_point-deletions rt structure k (keys d) ud,
                contains-keys,
              )
              (rw ((spec k).0, lookup-by_key_nil point_key k base, contains-ids k target)
                (merge k (latest point_key k base) (latest point_key k target))),
      )

  files_refused :
      has_files structure ≡ true
      → (k : String) (base : Dict DataPoint) (ts : List DataPoint) → has base k ≡ true
      → contains (ids ts) k ≡ true
      → target_loop rt structure base ts ≡ err not_implemented
  unfolding target_loop
  files_refused files k base [] hb ht = absurd (cc)
  files_refused files k base (t ∷ ts) hb ht = elim (Option-cases (lookup t.external_id base)) [
    | inl new ↦
        let later : target_loop rt structure base ts ≡ err not_implemented =
          files_refused files k base ts hb (ground (arith, hb, ht, new, eq_iff t.external_id k)) in
        rw (new, target_loop) (rw later)
    | inr (b, old) ↦ rw (old, target_loop) (rw files)
  ]

  -- A ValueError is raised if an external_id stands twice in the base or in the target.
  pub diff_datapoint_list-value_error :
      (base target : List DataPoint)
      → ¬ (Distinct (ids base) × Distinct (ids target))
      → diff_datapoint_list rt structure base target ≡ err value_error
  unfolding diff_datapoint_list
  diff_datapoint_list-value_error base target h = elim (Bool-cases (has_duplicates base)) [
    | inl twice ↦ rw twice
    | inr once_base ↦ elim (Bool-cases (has_duplicates target)) [
      | inl twice ↦ rw once_base (rw twice)
      | inr once_target ↦
          absurd
            (h ((has_duplicates_iff base).0 once_base, (has_duplicates_iff target).0 once_target))
    ]
  ]

  -- With no external_id twice in a list, a NotImplementedError is raised if some external_id is in
  -- both lists while the structure has file or image facts.
  pub diff_datapoint_list-not_implemented :
      (base target : List DataPoint) (k : String)
      → Distinct (ids base)
      → Distinct (ids target)
      → has_files structure ≡ true
      → contains (ids base) k ≡ true
      → contains (ids target) k ≡ true
      → diff_datapoint_list rt structure base target ≡ err not_implemented
  unfolding diff_datapoint_list
  diff_datapoint_list-not_implemented base target k ub ut files hb ht =
      rw ((has_duplicates_iff base).1 ub) (
        rw ((has_duplicates_iff target).1 ut) (
          rw (
            files_refused files k (by_key point_key [] base) target
              (rw lookup-by_key_nil (sym (contains-ids k base) ∙ hb)) ht)))
