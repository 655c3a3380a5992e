-- ===== src/Client/Diff/UserGroups.antt =====
-- `diff_group_definition` and `diff_all_group_definitions` of diff.py: the groups of users.
pub mod Reaches
use nfcompose.Shared.{Bool, true, false, not, Option, none, some, List, [], ◌==◌, if◌then◌else◌}
use nfcompose.Shared.Result.{Result, ok, err, assertion_error, ◌>>=◌}
use nfcompose.Client.Models.{Runtime, texts_eq, Group, GroupPermissions, GroupDefinition}
use nfcompose.Client.Operation.{create, delete, update, Operation, KeyedOperation}
use nfcompose.Client.Serializer.{Serializer}
use nfcompose.Client.Diff.Models.{GroupDefinitionDiff}
use nfcompose.Client.Diff.Child.{operation}
use nfcompose.Client.Diff.Groups.{group_permissions_diff}
use nfcompose.Client.Diff.All.{diff_all}

module _ (rt : Runtime) (ser : Serializer) where
  -- `==` of Group and of GroupPermissions compares their one field.
  unfoldable pub update_op_group : Group → Group → Option KeyedOperation
  update_op_group base target =
      if not (base.name == target.name)
      then some (operation update target.name (ser.group target))
      else none

  unfoldable pub update_op_permissions : GroupPermissions → GroupPermissions → Option Operation
  unfolding texts_eq
  update_op_permissions base target =
      if not (texts_eq base.group_permissions target.group_permissions)
      then some (record { operation_type = update; payload = ser.group_permissions target })
      else none

  unfoldable pub diff_group_definition :
      Bool → Option GroupDefinition → Option GroupDefinition → Result GroupDefinitionDiff
  unfolding update_op_group update_op_permissions
  diff_group_definition delete_in_base none none = err assertion_error
  diff_group_definition delete_in_base none (some t) = ok (record {
    name = t.group.name;
    group = some (operation create t.group.name (ser.group t.group));
    group_permissions =
        some
          (record { operation_type = create; payload = ser.group_permissions t.group_permissions });
  })
  diff_group_definition delete_in_base (some b) none =
      if not delete_in_base
      then ok (record { name = b.group.name; group = none; group_permissions = none })
      else ok (record {
        name = b.group.name;
        group = some (operation delete b.group.name (ser.group b.group));
        group_permissions = some (record {
          operation_type = delete;
          payload = ser.group_permissions b.group_permissions;
        });
      })
  diff_group_definition delete_in_base (some b) (some t) =
      if not (b.group.name == t.group.name)
      then err assertion_error
      else ok (record {
        name = b.group.name;
        group = update_op_group b.group t.group;
        group_permissions = update_op_permissions b.group_permissions t.group_permissions;
      })

  unfoldable pub diff_all_group_definitions :
      Bool → List GroupDefinition → List GroupDefinition → Result (List GroupDefinitionDiff)
  diff_all_group_definitions delete_in_base =
      diff_all (diff_group_definition delete_in_base) rt.set_order (λ d. d.group.name)
