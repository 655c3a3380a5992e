-- ===== src/Client/Diff/HttpEndpoints/Reaches.antt =====
-- What the diff of two endpoint definitions does to an instance.
use nfcompose.Shared.{
  String, ◌≡◌, refl, sym, ◌∙◌, Bool, true, false, ◌||◌, Option, none, some, List, [], ◌∷◌, map,
  eq_iff, contains, Distinct, is_some,
}
use nfcompose.Shared.Result.{ok}
use nfcompose.Shared.Sets.{IsSetOrder}
use nfcompose.Client.Models.{
  Runtime, HttpEndpoint, HttpEndpointDefinition, GroupPermissionsOnObject,
}
use nfcompose.Client.Operation.{create, delete}
use nfcompose.Client.Serializer
use nfcompose.Client.Serializer.{Serializer}
use nfcompose.Client.Diff.Models.{HttpEndpointDefinitionDiff}
use nfcompose.Client.Diff.Child.{operation}
use nfcompose.Client.Diff.Child.Latest.{latest}
use nfcompose.Client.Diff.Groups.Transforms.{WritesPermissions, group_permissions_diff-grants}
use nfcompose.Client.Diff.Leads.{
  Leads, Grants, operations_of, removes, Leads-nothing, Grants-nothing, Grants-nil, created,
  deleted, updated,
}
use nfcompose.Client.Diff.All.Covers.{All, HasKey, diff_all-covers}
use nfcompose.Client.Diff.HttpEndpoints.{
  diff_http_endpoint_definition, diff_all_http_endpoint_definitions, update_op_http_endpoint,
}

abbrev pub http_endpoint_key : HttpEndpointDefinition → String
http_endpoint_key d = d.http_endpoint.external_id

abbrev pub http_endpoint_of : Option HttpEndpointDefinition → List HttpEndpoint
http_endpoint_of none = []
http_endpoint_of (some d) = d.http_endpoint ∷ []

abbrev pub permissions_of : Option HttpEndpointDefinition → List GroupPermissionsOnObject
permissions_of none = []
permissions_of (some d) = d.group_permissions

-- The endpoint and what groups may do with it are led from the base to the target.
pub record ReachesHttpEndpoint (ser : Serializer) (delete_in_base revoke : Bool)
    (b t : Option HttpEndpointDefinition) (d : HttpEndpointDefinitionDiff) : Type 0 where
  pub http_endpoint :
      Leads
        (Serializer.http_endpoints ser)
        (removes delete_in_base t false)
        (http_endpoint_of b)
        (http_endpoint_of t)
        (operations_of d.http_endpoint)
  pub group_permissions :
      Grants ser.object_permissions
        (removes delete_in_base t revoke)
        (permissions_of b)
        (permissions_of t)
        d.group_permissions

module _ (rt : Runtime) (ser : Serializer) (O : IsSetOrder rt.set_order)
    (W : WritesPermissions ser.object_permissions) where
  http_endpoint_updated :
      (b t : HttpEndpoint)
      → b.external_id ≡ t.external_id
      → Leads
          (Serializer.http_endpoints ser)
          false
          (b ∷ [])
          (t ∷ [])
          (operations_of (update_op_http_endpoint rt ser b t))
  unfolding update_op_http_endpoint
  http_endpoint_updated b t h = updated (Serializer.http_endpoints ser) b t h

  -- With at least one of two endpoint definitions, whose key is k, `diff_http_endpoint_definition` raises
  -- nothing and is named k. Its operations are accepted by an instance that holds the base, and
  -- lead the endpoint and the permissions of groups to the target. Without a target all
  -- of them go if `delete_in_base`, and stay if not; with one, permissions that only the base
  -- lists go if `revoke_missing_group_permissions`.
  pub diff_http_endpoint_definition-Reaches :
      (delete_in_base revoke : Bool) (k : String) (b t : Option HttpEndpointDefinition)
      → HasKey http_endpoint_key k b t
      → (d : HttpEndpointDefinitionDiff) × (diff_http_endpoint_definition rt ser delete_in_base
            revoke b t
          ≡ ok d)
        × (d.external_id ≡ k)
        × ReachesHttpEndpoint ser delete_in_base revoke b t d
  unfolding diff_http_endpoint_definition
  diff_http_endpoint_definition-Reaches delete_in_base revoke k none none h = absurd h
  diff_http_endpoint_definition-Reaches delete_in_base revoke k none (some t) h =
      let (gs, built, granted) =
        group_permissions_diff-grants ser.object_permissions W rt.set_order O [] t.group_permissions
          false in
      (
        record {
          external_id = t.http_endpoint.external_id;
          http_endpoint =
              some
                (operation create t.http_endpoint.external_id (ser.http_endpoint t.http_endpoint));
          group_permissions = gs;
        },
        rw built,
        h,
        record {
          http_endpoint = created (Serializer.http_endpoints ser) false t.http_endpoint;
          group_permissions =
              Grants-nil ser.object_permissions false revoke t.group_permissions gs granted;
        },
      )
  diff_http_endpoint_definition-Reaches false revoke k (some b) none h = (
    record {
      external_id = b.http_endpoint.external_id;
      http_endpoint = none;
      group_permissions = [];
    },
    refl,
    h,
    record {
      http_endpoint = Leads-nothing (Serializer.http_endpoints ser) _;
      group_permissions = Grants-nothing ser.object_permissions W b.group_permissions;
    },
  )
  diff_http_endpoint_definition-Reaches true revoke k (some b) none h =
      let (gs, built, granted) =
        group_permissions_diff-grants ser.object_permissions W rt.set_order O b.group_permissions []
          true in
      (
        record {
          external_id = b.http_endpoint.external_id;
          http_endpoint =
              some
                (operation delete b.http_endpoint.external_id (ser.http_endpoint b.http_endpoint));
          group_permissions = gs;
        },
        rw built,
        h,
        record {
          http_endpoint = deleted (Serializer.http_endpoints ser) b.http_endpoint;
          group_permissions = granted;
        },
      )
  diff_http_endpoint_definition-Reaches delete_in_base revoke k (some b) (some t) (hb, ht) =
      let same : b.http_endpoint.external_id ≡ t.http_endpoint.external_id = hb ∙ sym ht in
      let (gs, built, granted) =
        group_permissions_diff-grants ser.object_permissions W rt.set_order O b.group_permissions
          t.group_permissions revoke in
      (
        record {
          external_id = b.http_endpoint.external_id;
          http_endpoint = update_op_http_endpoint rt ser b.http_endpoint t.http_endpoint;
          group_permissions = gs;
        },
        rw ((eq_iff b.http_endpoint.external_id t.http_endpoint.external_id).1 same) (rw built),
        hb,
        record {
          http_endpoint = http_endpoint_updated b.http_endpoint t.http_endpoint same;
          group_permissions = granted;
        },
      )

  abbrev pub diff_key : HttpEndpointDefinitionDiff → String
  diff_key d = d.external_id

  -- For any order in which sets are walked, and a `to_dict` of group permissions that writes their
  -- list under 'group_permissions': for any two lists of endpoint definitions,
  -- `diff_all_http_endpoint_definitions` raises nothing. It returns one diff for each external_id
  -- of the base or the target, no two of the same one, and the operations of each, on the endpoint
  -- and the group permissions, are accepted by an instance that holds the last definition of that
  -- external_id in the base and leave it as the flags and the last one in the target say.
  pub diff_all_http_endpoint_definitions-Reaches :
      (delete_in_base revoke : Bool) (base target : List HttpEndpointDefinition)
      → (ds : List HttpEndpointDefinitionDiff) × (diff_all_http_endpoint_definitions rt ser
            delete_in_base revoke base target
          ≡ ok ds)
        × Distinct (map diff_key ds)
        × ((k : String)
            → contains (map diff_key ds) k ≡ (
                is_some (latest http_endpoint_key k base)
                || is_some (latest http_endpoint_key k target)))
        × All
            (λ d.
              ReachesHttpEndpoint ser delete_in_base revoke
                (latest http_endpoint_key (diff_key d) base)
                (latest http_endpoint_key (diff_key d) target)
                d)
            ds
  unfolding diff_all_http_endpoint_definitions
  diff_all_http_endpoint_definitions-Reaches delete_in_base revoke base target =
      diff_all-covers (diff_http_endpoint_definition rt ser delete_in_base revoke) http_endpoint_key
        diff_key (ReachesHttpEndpoint ser delete_in_base revoke) rt.set_order O
        (diff_http_endpoint_definition-Reaches delete_in_base revoke) base target
