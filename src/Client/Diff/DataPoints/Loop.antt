-- ===== src/Client/Diff/DataPoints/Loop.antt =====
-- Which operations the loops of `diff_datapoint_list` return for one key.
use nfcompose.Shared.{
  String, ◌≡◌, refl, true, false, not, ◌&&◌, Option, none, some, List, [], ◌∷◌, ◌++◌, arith,
  contains, Distinct, if◌then◌else◌, ◌==◌, eq_iff, is_some, Option-cases, inl, inr,
}
use nfcompose.Shared.Result.{ok}
use nfcompose.Shared.Dict.{
  Dict, lookup, insert, erase, lookup-erase, keys, by_key, has, keys-insert-Distinct,
  keys-erase-Distinct,
}
use nfcompose.Client.Models.{Runtime, DataPoint, DataPoint_eq, DataSeriesStructure}
use nfcompose.Client.Operation.{create, delete, update}
use nfcompose.Client.Diff.Child.Latest.{latest}
use nfcompose.Client.Diff.DataPoints.{DataPointOperation, has_files, target_loop, deletions}
use nfcompose.Client.Diff.DataPoints.Duplicates.{ids}

abbrev pub point_key : DataPoint → String
point_key x = x.external_id

-- The operations on one data point, in their order.
unfoldable pub about_point : String → List DataPointOperation → List DataPointOperation
about_point k [] = []
about_point k (o ∷ os) =
    let rest = about_point k os in if o.datapoint.external_id == k then o ∷ rest else rest

-- A data point that is only to be deleted is known by its key.
abbrev pub bare : String → DataPoint
bare k = record { external_id = k; payload = []; identify_dimensions_by_external_id = true }

pub about_point-append :
    (k : String) (xs ys : List DataPointOperation)
    → about_point k (xs ++ ys) ≡ about_point k xs ++ about_point k ys
unfolding about_point
about_point-append k [] ys = refl
about_point-append k (o ∷ os) ys = ground (arith, about_point-append k os ys)

pub by_key-Distinct :
    (d : Dict DataPoint) (xs : List DataPoint)
    → Distinct (keys d)
    → Distinct (keys (by_key point_key d xs))
unfolding by_key
by_key-Distinct d [] u = u
by_key-Distinct d (x ∷ xs) u =
    by_key-Distinct (insert x.external_id x d) xs (keys-insert-Distinct x.external_id x d u)

pub contains-ids :
    (k : String) (xs : List DataPoint) → contains (ids xs) k ≡ is_some (latest point_key k xs)
unfolding latest
contains-ids k [] = refl
contains-ids k (x ∷ xs) = ground (arith, contains-ids k xs)

module _ (rt : Runtime) (structure : DataSeriesStructure) where
  pub about_point-deletions :
      (k : String) (ks : List String)
      → Distinct ks
      → about_point k (deletions rt structure ks) ≡ (
          if contains ks k then record { operation_type = delete; datapoint = bare k } ∷ [] else [])
  unfolding about_point deletions
  about_point-deletions k [] u = refl
  about_point-deletions k (j ∷ ks) (fresh, u) =
      ground (arith, about_point-deletions k ks u, eq_iff j k, fresh)

  -- What the loop over the target says of one key.
  abbrev pub target_plan : Option DataPoint → Option DataPoint → List DataPointOperation
  target_plan b none = []
  target_plan none (some t) = record { operation_type = create; datapoint = t } ∷ []
  target_plan (some b) (some t) =
      if DataPoint_eq rt b t then [] else record { operation_type = update; datapoint = t } ∷ []

  target_loop-new :
      (base : Dict DataPoint) (t : DataPoint) (ts : List DataPoint) (d : Dict DataPoint)
      (os : List DataPointOperation)
      → lookup t.external_id base ≡ none
      → target_loop rt structure base ts ≡ ok (d, os)
      → target_loop rt structure base (t ∷ ts)
        ≡ ok (d, record { operation_type = create; datapoint = t } ∷ os)
  unfolding target_loop
  target_loop-new base t ts d os new built = rw (new, target_loop) (rw built)

  target_loop-old :
      (base : Dict DataPoint) (b t : DataPoint) (ts : List DataPoint) (d : Dict DataPoint)
      (os : List DataPointOperation)
      → has_files structure ≡ false
      → lookup t.external_id base ≡ some b
      → target_loop rt structure (erase t.external_id base) ts ≡ ok (d, os)
      → target_loop rt structure base (t ∷ ts)
        ≡ ok (
          d,
          if not (DataPoint_eq rt b t)
              then record { operation_type = update; datapoint = t } ∷ os
              else os,
        )
  unfolding target_loop
  target_loop-old base b t ts d os nf old built = rw (old, target_loop) (rw nf (rw built))

  pub target_loop_lem :
      (base : Dict DataPoint) (ts : List DataPoint)
      → ((k : String) → (has_files structure && (has base k && contains (ids ts) k)) ≡ false)
      → Distinct (ids ts)
      → Distinct (keys base)
      → (d : Dict DataPoint) × (os : List DataPointOperation) × (target_loop rt structure base ts
          ≡ ok (d, os))
        × Distinct (keys d)
        × ((k : String)
            → (lookup k d ≡ (if contains (ids ts) k then none else lookup k base))
              × (about_point k os ≡ target_plan (lookup k base) (latest point_key k ts)))
  unfolding target_loop about_point latest
  target_loop_lem base [] supported u ub = (base, [], refl, ub, λ k. (refl, ground arith))
  target_loop_lem base (t ∷ ts) supported (fresh, u) ub =
      elim (Option-cases (lookup t.external_id base)) [
        | inl new ↦
            let (d, os, built, ud, spec) =
              target_loop_lem base ts (λ k. ground (arith, supported k, eq_iff t.external_id k)) u
                ub in
            (
              d,
              record { operation_type = create; datapoint = t } ∷ os,
              target_loop-new base t ts d os new built,
              ud,
              λ k. (
                ground (arith, (spec k).0, new, eq_iff t.external_id k),
                ground (arith, (spec k).1, new, eq_iff t.external_id k, contains-ids k ts, fresh),
              ),
            )
        | inr (b, old) ↦
            let nf : has_files structure ≡ false =
              ground (arith, supported t.external_id, old, eq_iff t.external_id t.external_id) in
            let (d, os, built, ud, spec) =
              target_loop_lem (erase t.external_id base) ts (λ k. ground (arith, nf)) u
                (keys-erase-Distinct t.external_id base ub) in
            (
              d,
              if not (DataPoint_eq rt b t)
                  then record { operation_type = update; datapoint = t } ∷ os
                  else os,
              target_loop-old base b t ts d os nf old built,
              ud,
              λ k. (
                ground (arith, (spec k).0, lookup-erase k t.external_id base),
                ground (
                  arith,
                  (spec k).1,
                  lookup-erase k t.external_id base,
                  old,
                  eq_iff t.external_id k,
                  contains-ids k ts,
                  fresh,
                ),
              ),
            )
      ]
