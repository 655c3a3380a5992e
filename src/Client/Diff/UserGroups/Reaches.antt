-- ===== src/Client/Diff/UserGroups/Reaches.antt =====
-- What the diff of two definitions of a user group does to an instance.
use nfcompose.Shared.{
  String, ◌≡◌, refl, sym, ◌∙◌, Bool, true, false, ◌||◌, Option, none, some, List, [], ◌∷◌, map,
  arith, eq_iff, contains, Distinct, is_some,
}
use nfcompose.Shared.Result.{ok}
use nfcompose.Shared.Sets.{IsSetOrder}
use nfcompose.Client.Models.{Runtime, texts_eq, Group, GroupPermissions, GroupDefinition}
use nfcompose.Client.Operation.{create, delete}
use nfcompose.Client.Serializer
use nfcompose.Client.Serializer.{Serializer}
use nfcompose.Client.Diff.Models.{GroupDefinitionDiff}
use nfcompose.Client.Diff.Child.{operation}
use nfcompose.Client.Diff.Child.Latest.{latest}
use nfcompose.Client.Diff.Leads.{
  Leads, LeadsOne, operations_of, removes, Leads-nothing, created, deleted, updated,
}
use nfcompose.Client.Diff.All.Covers.{All, HasKey, diff_all-covers}
use nfcompose.Client.Diff.UserGroups.{
  diff_group_definition, diff_all_group_definitions, update_op_group, update_op_permissions,
}

abbrev pub group_key : GroupDefinition → String
group_key d = d.group.name

abbrev pub group_of : Option GroupDefinition → List Group
group_of none = []
group_of (some d) = d.group ∷ []

abbrev pub permissions_of : Option GroupDefinition → Option GroupPermissions
permissions_of none = none
permissions_of (some d) = some d.group_permissions

abbrev pub same_permissions : GroupPermissions → GroupPermissions → Bool
same_permissions a b = texts_eq a.group_permissions b.group_permissions

-- The group and its permissions are led from the base to the target.
pub record ReachesGroup (ser : Serializer) (delete_in_base : Bool) (b t : Option GroupDefinition)
    (d : GroupDefinitionDiff) : Type 0 where
  pub group :
      Leads
        (Serializer.user_groups ser)
        (removes delete_in_base t false)
        (group_of b)
        (group_of t)
        (operations_of d.group)
  pub group_permissions :
      LeadsOne ser.group_permissions same_permissions
        (removes delete_in_base t false)
        (permissions_of b)
        (permissions_of t)
        d.group_permissions

module _ (rt : Runtime) (ser : Serializer) (O : IsSetOrder rt.set_order) where
  permissions_updated :
      (b t : GroupPermissions)
      → LeadsOne ser.group_permissions same_permissions false
          (some b)
          (some t)
          (update_op_permissions rt ser b t)
  unfolding update_op_permissions
  permissions_updated b t = ground arith

  group_updated :
      (b t : Group)
      → b.name ≡ t.name
      → Leads
          (Serializer.user_groups ser)
          false
          (b ∷ [])
          (t ∷ [])
          (operations_of (update_op_group rt ser b t))
  unfolding update_op_group
  group_updated b t h = updated (Serializer.user_groups ser) b t h

  -- With at least one of two definitions of a group, whose name is k, `diff_group_definition` raises
  -- nothing and is named k. Its operations are accepted by an instance that holds the base, and
  -- lead the group and its permissions to the target. Without a target both go if
  -- `delete_in_base`, and stay if not.
  pub diff_group_definition-Reaches :
      (delete_in_base : Bool) (k : String) (b t : Option GroupDefinition)
      → HasKey group_key k b t
      → (d : GroupDefinitionDiff) × (diff_group_definition rt ser delete_in_base b t ≡ ok d)
        × (d.name ≡ k)
        × ReachesGroup ser delete_in_base b t d
  unfolding diff_group_definition
  diff_group_definition-Reaches delete_in_base k none none h = absurd h
  diff_group_definition-Reaches delete_in_base k none (some t) h = (
    record {
      name = t.group.name;
      group = some (operation create t.group.name (ser.group t.group));
      group_permissions =
          some (record {
            operation_type = create;
            payload = ser.group_permissions t.group_permissions;
          });
    },
    refl,
    h,
    record { group = created (Serializer.user_groups ser) false t.group; group_permissions = refl },
  )
  diff_group_definition-Reaches false k (some b) none h = (
    record { name = b.group.name; group = none; group_permissions = none },
    refl,
    h,
    record { group = Leads-nothing (Serializer.user_groups ser) _; group_permissions = refl },
  )
  diff_group_definition-Reaches true k (some b) none h = (
    record {
      name = b.group.name;
      group = some (operation delete b.group.name (ser.group b.group));
      group_permissions =
          some (record {
            operation_type = delete;
            payload = ser.group_permissions b.group_permissions;
          });
    },
    refl,
    h,
    record { group = deleted (Serializer.user_groups ser) b.group; group_permissions = refl },
  )
  diff_group_definition-Reaches delete_in_base k (some b) (some t) (hb, ht) =
      let same : b.group.name ≡ t.group.name = hb ∙ sym ht in
      (
        record {
          name = b.group.name;
          group = update_op_group rt ser b.group t.group;
          group_permissions = update_op_permissions rt ser b.group_permissions t.group_permissions;
        },
        rw ((eq_iff b.group.name t.group.name).1 same),
        hb,
        record {
          group = group_updated b.group t.group same;
          group_permissions = permissions_updated b.group_permissions t.group_permissions;
        },
      )

  abbrev pub diff_key : GroupDefinitionDiff → String
  diff_key d = d.name

  -- For any order in which sets are walked: for any two lists of group definitions,
  -- `diff_all_group_definitions` raises nothing. It returns one diff for each name of the base or
  -- the target, no two of the same one, and the operations of each, on the group and its
  -- permissions, are accepted by an instance that holds the last definition of that name in the
  -- base and leave it as the flags and the last one in the target say.
  pub diff_all_group_definitions-Reaches :
      (delete_in_base : Bool) (base target : List GroupDefinition)
      → (ds : List GroupDefinitionDiff) × (diff_all_group_definitions rt ser delete_in_base base
            target
          ≡ ok ds)
        × Distinct (map diff_key ds)
        × ((k : String)
            → contains (map diff_key ds) k
              ≡ (is_some (latest group_key k base) || is_some (latest group_key k target)))
        × All
            (λ d.
              ReachesGroup ser delete_in_base
                (latest group_key (diff_key d) base)
                (latest group_key (diff_key d) target)
                d)
            ds
  unfolding diff_all_group_definitions
  diff_all_group_definitions-Reaches delete_in_base base target =
      diff_all-covers (diff_group_definition rt ser delete_in_base) group_key diff_key
        (ReachesGroup ser delete_in_base) rt.set_order O
        (diff_group_definition-Reaches delete_in_base) base target
