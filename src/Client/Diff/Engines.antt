-- ===== src/Client/Diff/Engines.antt =====
-- `diff_engine_definition` and `diff_all_engine_definitions` of diff.py.
pub mod Reaches
use nfcompose.Shared.{Bool, true, false, not, Option, none, some, List, [], ◌==◌, if◌then◌else◌}
use nfcompose.Shared.Result.{Result, ok, err, assertion_error, ◌>>=◌}
use nfcompose.Client.Models.{
  Runtime, Engine, Engine_eq, EngineSecret, EngineSecret_eq, EngineDefinition,
}
use nfcompose.Client.Operation.{create, delete, update, Operation, KeyedOperation}
use nfcompose.Client.Serializer.{Serializer}
use nfcompose.Client.Diff.Models.{EngineDefinitionDiff}
use nfcompose.Client.Diff.Child.{operation}
use nfcompose.Client.Diff.Groups.{group_permissions_diff}
use nfcompose.Client.Diff.All.{diff_all}

module _ (rt : Runtime) (ser : Serializer) where
  unfoldable pub update_op_engine : Engine → Engine → Option KeyedOperation
  update_op_engine base target =
      if not (Engine_eq base target)
      then some (operation update target.external_id (ser.engine target))
      else none

  unfoldable pub update_op_secret : EngineSecret → EngineSecret → Option Operation
  update_op_secret base target =
      if not (EngineSecret_eq base target)
      then some (record { operation_type = update; payload = ser.engine_secret target })
      else none

  unfoldable pub diff_engine_definition :
      Bool → Bool → Option EngineDefinition → Option EngineDefinition → Result EngineDefinitionDiff
  unfolding update_op_engine update_op_secret
  diff_engine_definition delete_in_base revoke none none = err assertion_error
  diff_engine_definition delete_in_base revoke none (some t) = do
    permissions ←
        group_permissions_diff rt.set_order ser.object_permissions [] t.group_permissions false
    ok (record {
      external_id = t.engine.external_id;
      engine = some (operation create t.engine.external_id (ser.engine t.engine));
      secret = some (record { operation_type = create; payload = ser.engine_secret t.secret });
      group_permissions = permissions;
    })
  diff_engine_definition delete_in_base revoke (some b) none =
      if not delete_in_base
      then ok (record {
        external_id = b.engine.external_id;
        engine = none;
        secret = none;
        group_permissions = [];
      })
      else do
        permissions ←
            group_permissions_diff rt.set_order ser.object_permissions b.group_permissions [] true
        ok (record {
          external_id = b.engine.external_id;
          engine = some (operation delete b.engine.external_id (ser.engine b.engine));
          secret = some (record { operation_type = delete; payload = ser.engine_secret b.secret });
          group_permissions = permissions;
        })
  diff_engine_definition delete_in_base revoke (some b) (some t) =
      if not (b.engine.external_id == t.engine.external_id) then err assertion_error else do
        permissions ←
            group_permissions_diff rt.set_order ser.object_permissions b.group_permissions
              t.group_permissions revoke
        ok (record {
          external_id = b.engine.external_id;
          engine = update_op_engine b.engine t.engine;
          secret = update_op_secret b.secret t.secret;
          group_permissions = permissions;
        })

  unfoldable pub diff_all_engine_definitions :
      Bool
      → Bool
      → List EngineDefinition
      → List EngineDefinition
      → Result (List EngineDefinitionDiff)
  diff_all_engine_definitions delete_in_base revoke =
      diff_all (diff_engine_definition delete_in_base revoke) rt.set_order
        (λ d. d.engine.external_id)
