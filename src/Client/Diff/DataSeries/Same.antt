-- ===== src/Client/Diff/DataSeries/Same.antt =====
-- The diff of a DataSeries definition with itself is empty.
use nfcompose.Shared.{
  String, ◌≡◌, refl, Bool, true, false, none, some, List, [], ◌∷◌, arith, eq_refl,
}
use mathlib.Core.List.{Memᴰ}
use nfcompose.Shared.Result.{ok}
use nfcompose.Shared.Sets.{IsSetOrder}
use nfcompose.Client.Models.{
  Runtime, bool_eq, texts_eq, Fact, Fact_eq, Dimension, Dimension_eq, IndexTarget, targets_eq,
  Index, Index_eq, Consumer, Consumer_eq, DataSeries, DataSeries_eq, GroupPermissionsOnObject,
  GroupPermissionsOnObject_eq, DataSeriesStructure, DataSeriesDefinition,
}
use nfcompose.Client.Serializer
use nfcompose.Client.Serializer.{Serializer}
use nfcompose.Client.Diff.Models.{DataSeriesDefinitionDiff, data_series_diff_empty}
use nfcompose.Client.Diff.Child.{
  as_dict, list_diff_dataseries_child, list_diff_dataseries_dimension,
  list_diff_dataseries_user_defined_index,
}
use nfcompose.Client.Diff.Child.Same.{dict_diff_self, AllSame, lookup-as_dict}
use nfcompose.Client.Diff.Groups.{by_name, group_permissions_diff}
use nfcompose.Client.Diff.DataSeries.{
  DiffOptions, fact_diff, structure_diff, no_structure_diff, diff_data_series,
}

-- The dictionaries and the timeouts that the definition holds are equal to themselves, so no timeout is
-- NaN.
pub record IsReflexive (rt : Runtime) (d : DataSeriesDefinition) : Type 0 where
  pub extra_config : rt.dict_eq d.data_series.extra_config d.data_series.extra_config ≡ true
  pub consumers :
      (c : Consumer)
      → Memᴰ c d.consumers
      → (rt.dict_eq c.headers c.headers ≡ true) × (rt.float_eq c.timeout c.timeout ≡ true)

bool_eq_refl : (b : Bool) → bool_eq b b ≡ true
unfolding bool_eq
bool_eq_refl true = refl
bool_eq_refl false = refl

pub texts_eq_refl : (xs : List String) → texts_eq xs xs ≡ true
unfolding texts_eq
texts_eq_refl [] = refl
texts_eq_refl (x ∷ xs) = rw (eq_refl, texts_eq_refl xs)

targets_eq_refl : (xs : List IndexTarget) → targets_eq xs xs ≡ true
unfolding targets_eq
targets_eq_refl [] = refl
targets_eq_refl (x ∷ xs) = simp (eq_refl, targets_eq_refl xs)

Fact_eq_refl : (x : Fact) → Fact_eq x x ≡ true
unfolding Fact_eq
Fact_eq_refl x = simp (eq_refl, bool_eq_refl)

Dimension_eq_refl : (x : Dimension) → Dimension_eq x x ≡ true
unfolding Dimension_eq
Dimension_eq_refl x = simp (eq_refl, bool_eq_refl)

Index_eq_refl : (x : Index) → Index_eq x x ≡ true
unfolding Index_eq
Index_eq_refl x = simp (eq_refl, targets_eq_refl)

GroupPermissionsOnObject_eq_refl :
    (x : GroupPermissionsOnObject) → GroupPermissionsOnObject_eq x x ≡ true
unfolding GroupPermissionsOnObject_eq
GroupPermissionsOnObject_eq_refl x = simp (eq_refl, texts_eq_refl)

Consumer_eq_refl :
    (rt : Runtime) (x : Consumer)
    → rt.dict_eq x.headers x.headers ≡ true
    → rt.float_eq x.timeout x.timeout ≡ true
    → Consumer_eq rt x x ≡ true
unfolding Consumer_eq
Consumer_eq_refl rt x headers timeout = simp (eq_refl, headers, timeout) (ground arith)

DataSeries_eq_refl :
    (rt : Runtime) (x : DataSeries)
    → rt.dict_eq x.extra_config x.extra_config ≡ true
    → DataSeries_eq rt x x ≡ true
unfolding DataSeries_eq
DataSeries_eq_refl rt x config = simp (eq_refl, config, bool_eq_refl)

module _ (rt : Runtime) (ser : Serializer) (O : IsSetOrder rt.set_order) where
  fact_diff_self : (xs : List Fact) → fact_diff rt ser xs xs ≡ ok []
  unfolding fact_diff list_diff_dataseries_child
  fact_diff_self xs =
      dict_diff_self (Serializer.facts ser) rt.set_order O _ (as_dict (Serializer.facts ser) xs)
        true (λ k x _. Fact_eq_refl x)

  structure_diff_self : (s : DataSeriesStructure) → structure_diff rt ser s s ≡ ok no_structure_diff
  unfolding structure_diff list_diff_dataseries_dimension list_diff_dataseries_child
  structure_diff_self s = simp (
    fact_diff_self,
    dict_diff_self (Serializer.dimensions ser) rt.set_order O _
        (as_dict (Serializer.dimensions ser) s.dimensions) true (λ k x _. Dimension_eq_refl x),
  )

  -- For any order in which sets are walked, and for a definition whose dictionaries and timeouts are
  -- equal to themselves: it has no diff with itself, whatever the options. The diff is computed, and
  -- `empty`.
  pub diff_data_series_self :
      (opts : DiffOptions) (d : DataSeriesDefinition)
      → IsReflexive rt d
      → (e : DataSeriesDefinitionDiff) × (diff_data_series rt ser opts (some d) (some d) ≡ ok e)
        × (data_series_diff_empty e ≡ true)
  unfolding diff_data_series data_series_diff_empty list_diff_dataseries_user_defined_index
      list_diff_dataseries_child group_permissions_diff
  diff_data_series_self opts d R = (
    record {
      external_id = d.data_series.external_id;
      data_series = none;
      structure = no_structure_diff;
      group_permissions = [];
      consumers = [];
      indexes = [];
    },
    simp
        (
          eq_refl,
          DataSeries_eq_refl rt d.data_series R.extra_config,
          structure_diff_self,
          dict_diff_self (Serializer.indexes ser) rt.set_order O _
              (as_dict (Serializer.indexes ser) d.indexes) true (λ k x _. Index_eq_refl x),
          dict_diff_self (Serializer.consumers ser rt) rt.set_order O _
              (as_dict (Serializer.consumers ser rt) d.consumers) opts.remove_missing_consumers
              consumers_same,
          dict_diff_self (by_name ser.object_permissions) rt.set_order O _
              (as_dict (by_name ser.object_permissions) d.group_permissions)
              opts.revoke_missing_group_permissions (λ k x _. GroupPermissionsOnObject_eq_refl x),
        )
        (ground arith),
    refl,
  )
    where
      consumers_same :
          AllSame (Serializer.consumers ser rt) (as_dict (Serializer.consumers ser rt) d.consumers)
      consumers_same k x e =
          let (headers, timeout) =
            R.consumers x (lookup-as_dict (Serializer.consumers ser rt) d.consumers k x e) in
          Consumer_eq_refl rt x headers timeout
