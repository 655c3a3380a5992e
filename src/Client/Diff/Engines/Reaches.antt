-- ===== src/Client/Diff/Engines/Reaches.antt =====
-- What the diff of two engine definitions does to an instance.
use nfcompose.Shared.{
  String, ◌≡◌, refl, sym, ◌∙◌, Bool, true, false, ◌||◌, Option, none, some, List, [], ◌∷◌, map,
  arith, eq_iff, contains, Distinct, is_some,
}
use nfcompose.Shared.Result.{ok}
use nfcompose.Shared.Sets.{IsSetOrder}
use nfcompose.Client.Models.{
  Runtime, Engine, EngineSecret, EngineSecret_eq, EngineDefinition, GroupPermissionsOnObject,
}
use nfcompose.Client.Operation.{create, delete}
use nfcompose.Client.Serializer
use nfcompose.Client.Serializer.{Serializer}
use nfcompose.Client.Diff.Models.{EngineDefinitionDiff}
use nfcompose.Client.Diff.Child.{operation}
use nfcompose.Client.Diff.Child.Latest.{latest}
use nfcompose.Client.Diff.Groups.Transforms.{WritesPermissions, group_permissions_diff-grants}
use nfcompose.Client.Diff.Leads.{
  Leads, LeadsOne, Grants, operations_of, removes, Leads-nothing, Grants-nothing, Grants-nil,
  created, deleted, updated,
}
use nfcompose.Client.Diff.All.Covers.{All, HasKey, diff_all-covers}
use nfcompose.Client.Diff.Engines.{
  diff_engine_definition, diff_all_engine_definitions, update_op_engine, update_op_secret,
}

abbrev pub engine_key : EngineDefinition → String
engine_key d = d.engine.external_id

abbrev pub engine_of : Option EngineDefinition → List Engine
engine_of none = []
engine_of (some d) = d.engine ∷ []

abbrev pub secret_of : Option EngineDefinition → Option EngineSecret
secret_of none = none
secret_of (some d) = some d.secret

abbrev pub permissions_of : Option EngineDefinition → List GroupPermissionsOnObject
permissions_of none = []
permissions_of (some d) = d.group_permissions

-- The engine, its secret and what groups may do with it are led from the base to the target.
pub record ReachesEngine (ser : Serializer) (delete_in_base revoke : Bool)
    (b t : Option EngineDefinition) (d : EngineDefinitionDiff) : Type 0 where
  pub engine :
      Leads
        (Serializer.engines ser)
        (removes delete_in_base t false)
        (engine_of b)
        (engine_of t)
        (operations_of d.engine)
  pub secret :
      LeadsOne ser.engine_secret EngineSecret_eq
        (removes delete_in_base t false)
        (secret_of b)
        (secret_of t)
        d.secret
  pub group_permissions :
      Grants ser.object_permissions
        (removes delete_in_base t revoke)
        (permissions_of b)
        (permissions_of t)
        d.group_permissions

module _ (rt : Runtime) (ser : Serializer) (O : IsSetOrder rt.set_order)
    (W : WritesPermissions ser.object_permissions) where
  secret_updated :
      (b t : EngineSecret)
      → LeadsOne ser.engine_secret EngineSecret_eq false
          (some b)
          (some t)
          (update_op_secret rt ser b t)
  unfolding update_op_secret
  secret_updated b t = ground arith

  engine_updated :
      (b t : Engine)
      → b.external_id ≡ t.external_id
      → Leads
          (Serializer.engines ser)
          false
          (b ∷ [])
          (t ∷ [])
          (operations_of (update_op_engine rt ser b t))
  unfolding update_op_engine
  engine_updated b t h = updated (Serializer.engines ser) b t h

  -- With at least one of two engine definitions, whose key is k, `diff_engine_definition` raises
  -- nothing and is named k. Its operations are accepted by an instance that holds the base, and
  -- lead the engine, its secret and the permissions of groups to the target. Without a target all
  -- of them go if `delete_in_base`, and stay if not; with one, permissions that only the base
  -- lists go if `revoke_missing_group_permissions`.
  pub diff_engine_definition-Reaches :
      (delete_in_base revoke : Bool) (k : String) (b t : Option EngineDefinition)
      → HasKey engine_key k b t
      → (d : EngineDefinitionDiff) × (diff_engine_definition rt ser delete_in_base revoke b t
          ≡ ok d)
        × (d.external_id ≡ k)
        × ReachesEngine ser delete_in_base revoke b t d
  unfolding diff_engine_definition
  diff_engine_definition-Reaches delete_in_base revoke k none none h = absurd h
  diff_engine_definition-Reaches delete_in_base revoke k none (some t) h =
      let (gs, built, granted) =
        group_permissions_diff-grants ser.object_permissions W rt.set_order O [] t.group_permissions
          false in
      (
        record {
          external_id = t.engine.external_id;
          engine = some (operation create t.engine.external_id (ser.engine t.engine));
          secret = some (record { operation_type = create; payload = ser.engine_secret t.secret });
          group_permissions = gs;
        },
        rw built,
        h,
        record {
          engine = created (Serializer.engines ser) false t.engine;
          secret = refl;
          group_permissions =
              Grants-nil ser.object_permissions false revoke t.group_permissions gs granted;
        },
      )
  diff_engine_definition-Reaches false revoke k (some b) none h = (
    record {
      external_id = b.engine.external_id;
      engine = none;
      secret = none;
      group_permissions = [];
    },
    refl,
    h,
    record {
      engine = Leads-nothing (Serializer.engines ser) _;
      secret = refl;
      group_permissions = Grants-nothing ser.object_permissions W b.group_permissions;
    },
  )
  diff_engine_definition-Reaches true revoke k (some b) none h =
      let (gs, built, granted) =
        group_permissions_diff-grants ser.object_permissions W rt.set_order O b.group_permissions []
          true in
      (
        record {
          external_id = b.engine.external_id;
          engine = some (operation delete b.engine.external_id (ser.engine b.engine));
          secret = some (record { operation_type = delete; payload = ser.engine_secret b.secret });
          group_permissions = gs;
        },
        rw built,
        h,
        record {
          engine = deleted (Serializer.engines ser) b.engine;
          secret = refl;
          group_permissions = granted;
        },
      )
  diff_engine_definition-Reaches delete_in_base revoke k (some b) (some t) (hb, ht) =
      let same : b.engine.external_id ≡ t.engine.external_id = hb ∙ sym ht in
      let (gs, built, granted) =
        group_permissions_diff-grants ser.object_permissions W rt.set_order O b.group_permissions
          t.group_permissions revoke in
      (
        record {
          external_id = b.engine.external_id;
          engine = update_op_engine rt ser b.engine t.engine;
          secret = update_op_secret rt ser b.secret t.secret;
          group_permissions = gs;
        },
        rw ((eq_iff b.engine.external_id t.engine.external_id).1 same) (rw built),
        hb,
        record {
          engine = engine_updated b.engine t.engine same;
          secret = secret_updated b.secret t.secret;
          group_permissions = granted;
        },
      )

  abbrev pub diff_key : EngineDefinitionDiff → String
  diff_key d = d.external_id

  -- For any order in which sets are walked, and a `to_dict` of group permissions that writes their
  -- list under 'group_permissions': for any two lists of engine definitions,
  -- `diff_all_engine_definitions` raises nothing. It returns one diff for each external_id of the
  -- base or the target, no two of the same one, and the operations of each, on the engine, the
  -- secret and the group permissions, are accepted by an instance that holds the last definition of
  -- that external_id in the base and leave it as the flags and the last one in the target say.
  pub diff_all_engine_definitions-Reaches :
      (delete_in_base revoke : Bool) (base target : List EngineDefinition)
      → (ds : List EngineDefinitionDiff) × (diff_all_engine_definitions rt ser delete_in_base revoke
            base target
          ≡ ok ds)
        × Distinct (map diff_key ds)
        × ((k : String)
            → contains (map diff_key ds) k
              ≡ (is_some (latest engine_key k base) || is_some (latest engine_key k target)))
        × All
            (λ d.
              ReachesEngine ser delete_in_base revoke
                (latest engine_key (diff_key d) base)
                (latest engine_key (diff_key d) target)
                d)
            ds
  unfolding diff_all_engine_definitions
  diff_all_engine_definitions-Reaches delete_in_base revoke base target =
      diff_all-covers (diff_engine_definition rt ser delete_in_base revoke) engine_key diff_key
        (ReachesEngine ser delete_in_base revoke) rt.set_order O
        (diff_engine_definition-Reaches delete_in_base revoke) base target
