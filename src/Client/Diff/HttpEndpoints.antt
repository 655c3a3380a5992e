-- ===== src/Client/Diff/HttpEndpoints.antt =====
-- `diff_http_endpoint_definition` and `diff_all_http_endpoint_definitions` of diff.py.
pub mod Reaches
use nfcompose.Shared.{Bool, true, false, not, Option, none, some, List, [], ◌==◌, if◌then◌else◌}
use nfcompose.Shared.Result.{Result, ok, err, assertion_error, ◌>>=◌}
use nfcompose.Client.Models.{Runtime, HttpEndpoint, HttpEndpoint_eq, HttpEndpointDefinition}
use nfcompose.Client.Operation.{create, delete, update, Operation, KeyedOperation}
use nfcompose.Client.Serializer.{Serializer}
use nfcompose.Client.Diff.Models.{HttpEndpointDefinitionDiff}
use nfcompose.Client.Diff.Child.{operation}
use nfcompose.Client.Diff.Groups.{group_permissions_diff}
use nfcompose.Client.Diff.All.{diff_all}

module _ (rt : Runtime) (ser : Serializer) where
  unfoldable pub update_op_http_endpoint : HttpEndpoint → HttpEndpoint → Option KeyedOperation
  update_op_http_endpoint base target =
      if not (HttpEndpoint_eq base target)
      then some (operation update target.external_id (ser.http_endpoint target))
      else none

  unfoldable pub diff_http_endpoint_definition :
      Bool
      → Bool
      → Option HttpEndpointDefinition
      → Option HttpEndpointDefinition
      → Result HttpEndpointDefinitionDiff
  unfolding update_op_http_endpoint
  diff_http_endpoint_definition delete_in_base revoke none none = err assertion_error
  diff_http_endpoint_definition delete_in_base revoke none (some t) = do
    permissions ←
        group_permissions_diff rt.set_order ser.object_permissions [] t.group_permissions false
    ok (record {
      external_id = t.http_endpoint.external_id;
      http_endpoint =
          some (operation create t.http_endpoint.external_id (ser.http_endpoint t.http_endpoint));
      group_permissions = permissions;
    })
  diff_http_endpoint_definition delete_in_base revoke (some b) none =
      if not delete_in_base
      then ok (record {
        external_id = b.http_endpoint.external_id;
        http_endpoint = none;
        group_permissions = [];
      })
      else do
        permissions ←
            group_permissions_diff rt.set_order ser.object_permissions b.group_permissions [] true
        ok (record {
          external_id = b.http_endpoint.external_id;
          http_endpoint =
              some
                (operation delete b.http_endpoint.external_id (ser.http_endpoint b.http_endpoint));
          group_permissions = permissions;
        })
  diff_http_endpoint_definition delete_in_base revoke (some b) (some t) =
      if not (b.http_endpoint.external_id == t.http_endpoint.external_id)
      then err assertion_error
      else do
        permissions ←
            group_permissions_diff rt.set_order ser.object_permissions b.group_permissions
              t.group_permissions revoke
        ok (record {
          external_id = b.http_endpoint.external_id;
          http_endpoint = update_op_http_endpoint b.http_endpoint t.http_endpoint;
          group_permissions = permissions;
        })

  unfoldable pub diff_all_http_endpoint_definitions :
      Bool
      → Bool
      → List HttpEndpointDefinition
      → List HttpEndpointDefinition
      → Result (List HttpEndpointDefinitionDiff)
  diff_all_http_endpoint_definitions delete_in_base revoke =
      diff_all (diff_http_endpoint_definition delete_in_base revoke) rt.set_order
        (λ d. d.http_endpoint.external_id)
