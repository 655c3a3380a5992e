-- ===== src/Client/Diff/All.antt =====
-- The loops `diff_all_data_series`, `diff_all_engine_definitions`, `diff_all_http_endpoint_definitions`
-- and `diff_all_group_definitions` of diff.py, which differ in the key and in the diff they call.
pub mod Covers
use nfcompose.Shared.{String, Option, List, [], ◌∷◌, ◌++◌}
use nfcompose.Shared.Result.{Result, ok, ◌>>=◌}
use nfcompose.Shared.Dict.{Dict, lookup, keys, by_key}

module _ {D E : Type 0} (diff : Option D → Option D → Result E) where
  -- `for key in all_keys: diffs.append(diff(base.get(key), target.get(key)))`
  unfoldable pub diff_each : Dict D → Dict D → List String → Result (List E)
  diff_each base target [] = ok []
  diff_each base target (k ∷ ks) = do
    d ← diff (lookup k base) (lookup k target)
    rest ← diff_each base target ks
    ok (d ∷ rest)

  unfoldable pub diff_all :
      (List String → List String) → (D → String) → List D → List D → Result (List E)
  unfolding by_key
  diff_all set_order key base target =
      let base_by_key = by_key key [] base in
      let target_by_key = by_key key [] target in
      diff_each base_by_key target_by_key (set_order (keys base_by_key ++ keys target_by_key))
