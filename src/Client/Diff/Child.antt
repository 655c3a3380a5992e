-- ===== src/Client/Diff/Child.antt =====
-- `list_diff_dataseries_child` of diff.py and its two special cases, and the loops that it shares
-- with `group_permissions_diff`.
pub mod Passes
pub mod Plan
pub mod Latest
pub mod Same
pub mod Transforms
use nfcompose.Shared.{
  String, Bool, true, false, not, Option, none, some, List, [], ◌∷◌, ◌++◌, ◌==◌, contains, select,
  if◌then◌else◌,
}
use nfcompose.Shared.Result.{Result, ok, err, ◌>>=◌}
use nfcompose.Shared.Dict.{Dict, lookup, keys, getitem, has, by_key}
use nfcompose.Client.Models.{Dimension, Index, targets_eq}
use nfcompose.Client.Operation.{
  OperationType, create, delete, update, KeyedOperation, Identifiable, Payload,
}

abbrev pub operation : OperationType → String → Payload → KeyedOperation
operation t k p = record { operation_type = t; key = some k; payload = p }

module _ {A : Type 0} (I : Identifiable A) where
  -- `{elem.external_id: elem for elem in xs}`
  unfoldable pub as_dict : List A → Dict A
  unfolding by_key
  as_dict xs = by_key I.key [] xs

  -- One operation of type `t` for each key, with the element that the dictionary holds.
  unfoldable pub operations_for :
      OperationType → Dict A → List String → Result (List KeyedOperation)
  operations_for t d [] = ok []
  operations_for t d (k ∷ ks) = do
    x ← getitem d k
    rest ← operations_for t d ks
    ok (operation t k (I.to_dict x) ∷ rest)

  -- The members of `in_both` whose elements differ.
  unfoldable pub changed_keys : Dict A → Dict A → List String → Result (List String)
  changed_keys base target [] = ok []
  changed_keys base target (k ∷ ks) = do
    t ← getitem target k
    b ← getitem base k
    rest ← changed_keys base target ks
    ok (if I.eq t b then rest else k ∷ rest)

  -- The loop over the changed elements.
  unfoldable pub updates_for :
      (String → A → A → Result (List KeyedOperation))
      → Dict A
      → Dict A
      → List String
      → Result (List KeyedOperation)
  updates_for step base target [] = ok []
  updates_for step base target (k ∷ ks) = do
    b ← getitem base k
    t ← getitem target k
    now ← step k b t
    rest ← updates_for step base target ks
    ok (now ++ rest)

module _ {A : Type 0} (set_order : List String → List String) (I : Identifiable A) where
  unfoldable pub deleted_keys : Dict A → Dict A → List String
  deleted_keys base target = set_order (select (λ k. not (has target k)) (keys base))

  unfoldable pub new_keys : Dict A → Dict A → List String
  new_keys base target = set_order (select (λ k. not (has base k)) (keys target))

  unfoldable pub keys_in_both : Dict A → Dict A → List String
  keys_in_both base target = set_order (select (λ k. has base k) (keys target))

  -- The three passes over two dictionaries: deletions if asked for, creations, updates.
  unfoldable pub dict_diff :
      (String → A → A → Result (List KeyedOperation))
      → Dict A
      → Dict A
      → Bool
      → Result (List KeyedOperation)
  dict_diff step base target delete_missing = do
    deletions ←
        (if delete_missing then operations_for I delete base (deleted_keys base target) else ok [])
    creations ← operations_for I create target (new_keys base target)
    changed ← changed_keys I base target (keys_in_both base target)
    updates ← updates_for I step base target (set_order changed)
    ok (deletions ++ (creations ++ updates))

  -- The branches of the last loop of `list_diff_dataseries_child`.
  unfoldable pub update_child : (A → A → Bool) → String → A → A → Result (List KeyedOperation)
  update_child recreate_instead_of_update k b t =
      if recreate_instead_of_update b t
      then ok (operation delete k (I.to_dict b) ∷ operation create k (I.to_dict t) ∷ [])
      else ok (operation update k (I.to_dict t) ∷ [])

  unfoldable pub list_diff_dataseries_child :
      List A → List A → Bool → (A → A → Bool) → Result (List KeyedOperation)
  list_diff_dataseries_child base target delete_missing recreate_instead_of_update =
      dict_diff (update_child recreate_instead_of_update) (as_dict I base) (as_dict I target)
        delete_missing

-- Targets can't be updated.
unfoldable pub user_defined_index_recreate_instead_of_update : Index → Index → Bool
unfolding targets_eq
user_defined_index_recreate_instead_of_update base target =
    not (targets_eq base.targets target.targets)

unfoldable pub list_diff_dataseries_user_defined_index :
    (List String → List String)
    → Identifiable Index
    → List Index
    → List Index
    → Bool
    → Result (List KeyedOperation)
list_diff_dataseries_user_defined_index set_order I base target delete_missing =
    list_diff_dataseries_child set_order I base target delete_missing
      user_defined_index_recreate_instead_of_update

-- The reference changed.
unfoldable pub dimension_recreate_instead_of_update : Dimension → Dimension → Bool
dimension_recreate_instead_of_update base target = not (base.reference == target.reference)

unfoldable pub list_diff_dataseries_dimension :
    (List String → List String)
    → Identifiable Dimension
    → List Dimension
    → List Dimension
    → Bool
    → Result (List KeyedOperation)
list_diff_dataseries_dimension set_order I base target delete_missing =
    list_diff_dataseries_child set_order I base target delete_missing
      dimension_recreate_instead_of_update
