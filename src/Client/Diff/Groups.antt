-- ===== src/Client/Diff/Groups.antt =====
-- `group_permissions_diff` of diff.py: what groups may do with one object.
pub mod Transforms
use nfcompose.Shared.{String, Bool, List, [], ◌∷◌, ◌++◌, if◌then◌else◌}
use nfcompose.Shared.Result.{Result, ok, ◌>>=◌}
use nfcompose.Shared.Dict.{getitem, insert}
use nfcompose.Shared.Value.{texts, texts_of}
use nfcompose.Client.Models.{GroupPermissionsOnObject, GroupPermissionsOnObject_eq}
use nfcompose.Client.Operation.{update, KeyedOperation, Identifiable, Payload}
use nfcompose.Client.Diff.Child.{operation, as_dict, dict_diff}

-- The class's name, `to_dict` and `==`.
abbrev pub by_name : (GroupPermissionsOnObject → Payload) → Identifiable GroupPermissionsOnObject
by_name to_dict = record { key = λ g. g.name; to_dict = to_dict; eq = GroupPermissionsOnObject_eq }

module _ (set_order : List String → List String)
    (to_dict : GroupPermissionsOnObject → Payload) where
  -- `merged` of the last loop: the target's object, with the permissions of both.
  unfoldable pub merged : GroupPermissionsOnObject → GroupPermissionsOnObject → Result Payload
  merged b t = do
    value ← getitem (to_dict t) "group_permissions"
    permissions ← texts_of value
    ok (
        insert "group_permissions" (texts (set_order (permissions ++ b.group_permissions)))
          (to_dict t))

  unfoldable pub update_group_permissions :
      Bool
      → String
      → GroupPermissionsOnObject
      → GroupPermissionsOnObject
      → Result (List KeyedOperation)
  update_group_permissions revoke_missing_group_permissions k b t =
      if revoke_missing_group_permissions
      then ok (operation update k (to_dict t) ∷ [])
      else do payload ← merged b t; ok (operation update k payload ∷ [])

  unfoldable pub group_permissions_diff :
      List GroupPermissionsOnObject
      → List GroupPermissionsOnObject
      → Bool
      → Result (List KeyedOperation)
  group_permissions_diff base target revoke_missing_group_permissions =
      dict_diff set_order (by_name to_dict)
        (update_group_permissions revoke_missing_group_permissions) (as_dict (by_name to_dict) base)
        (as_dict (by_name to_dict) target) revoke_missing_group_permissions
