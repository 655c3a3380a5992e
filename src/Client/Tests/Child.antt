-- ===== src/Client/Tests/Child.antt =====
-- Runs of the diff of a list of children and of permissions, and its theorems at inputs that meet their hypotheses.
use nfcompose.Shared.{
  String, ◌≡◌, refl, true, false, not, ◌&&◌, ◌||◌, Option, some, List, [], ◌∷◌, select,
}
use nfcompose.Shared.Result.{ok}
use nfcompose.Shared.Dict.{keys, lookup, getitem, insert, by_key}
use nfcompose.Shared.Sets.{last_seen, last_seen-IsSetOrder}
use nfcompose.Client.Models.{Fact, Fact_eq}
use nfcompose.Client.Operation.{create, delete, update, KeyedOperation, Payload}
use nfcompose.Client.Serializer
use nfcompose.Client.Serializer.{Serializer}
use nfcompose.Client.Diff.Remote.{about, run, Transforms}
use nfcompose.Client.Diff.Child.{
  operation, list_diff_dataseries_child, dict_diff, as_dict, operations_for, changed_keys,
  updates_for, update_child, deleted_keys, new_keys, keys_in_both,
}
use nfcompose.Client.Diff.Child.Latest.{latest}
use nfcompose.Client.Diff.Child.Plan.{plan}
use nfcompose.Client.Diff.Child.Transforms.{
  held, wanted, child_ops, list_diff_dataseries_child-plan, list_diff_dataseries_child-Transforms,
}
use nfcompose.Client.Diff.Groups.{by_name, group_permissions_diff}
use nfcompose.Client.Diff.Groups.Transforms.{
  grants, lists, latest_of, group_permissions_diff-grants,
}
use nfcompose.Client.Samples.{
  named, permissions_dict, serializer, writes, base_facts, target_facts, old_permissions,
  new_permissions,
}

-- `wind` goes, `rain` comes, and `temp` is updated.
facts_run :
    list_diff_dataseries_child last_seen
      (Serializer.facts serializer)
      base_facts
      target_facts
      true
      (λ b t. false)
    ≡ ok (
        operation delete "wind" (named "Wind")
        ∷ operation create "rain" (named "Rain")
        ∷ operation update "temp" (named "Temperature")
        ∷ [])
unfolding list_diff_dataseries_child dict_diff deleted_keys new_keys keys_in_both as_dict
    operations_for changed_keys updates_for update_child last_seen Fact_eq insert by_key lookup keys
    getitem select
facts_run = refl

list_diff_dataseries_child-plan_example :
    (os : List KeyedOperation) × (list_diff_dataseries_child last_seen
        (Serializer.facts serializer)
        base_facts
        target_facts
        true
        (λ b t. false)
      ≡ ok os)
    × ((k : String)
        → about k os
          ≡ plan
              (Serializer.facts serializer)
              (child_ops (Serializer.facts serializer) (λ b t. false))
              true
              k
              (latest (λ (f : Fact). f.external_id) k base_facts)
              (latest (λ (f : Fact). f.external_id) k target_facts))
list_diff_dataseries_child-plan_example =
    list_diff_dataseries_child-plan (Serializer.facts serializer) last_seen-IsSetOrder base_facts
      target_facts true (λ b t. false)

list_diff_dataseries_child-Transforms_example :
    (os : List KeyedOperation) × (list_diff_dataseries_child last_seen
        (Serializer.facts serializer)
        base_facts
        target_facts
        false
        (λ b t. true)
      ≡ ok os)
    × Transforms
        (λ k.
          held (Serializer.facts serializer) (latest (λ (f : Fact). f.external_id) k base_facts))
        (λ k.
          wanted
            (Serializer.facts serializer)
            false
            (latest (λ (f : Fact). f.external_id) k base_facts)
            (latest (λ (f : Fact). f.external_id) k target_facts))
        os
list_diff_dataseries_child-Transforms_example =
    list_diff_dataseries_child-Transforms (Serializer.facts serializer) last_seen-IsSetOrder
      base_facts target_facts false (λ b t. true)

group_permissions_diff-grants_example :
    (os : List KeyedOperation) × (group_permissions_diff last_seen permissions_dict old_permissions
        new_permissions false
      ≡ ok os)
    × ((k : String)
        → (after : Option Payload) × (run k os
              (held (by_name permissions_dict) (latest_of k old_permissions))
            ≡ some after)
          × ((p : String)
              → grants after p ≡ (
                  lists (latest_of k new_permissions) p
                  || (not false && lists (latest_of k old_permissions) p))))
group_permissions_diff-grants_example =
    group_permissions_diff-grants permissions_dict writes last_seen last_seen-IsSetOrder
      old_permissions new_permissions false
