-- ===== src/Client/Diff/Groups/Transforms.antt =====
-- What groups may do after the operations of `group_permissions_diff`.
use nfcompose.Shared.{
  String, ◌≡◌, refl, ◌∙◌, ap, Bool, true, false, not, ◌&&◌, ◌||◌, Option, none, some, List, [], ◌∷◌,
  ◌++◌, arith, eq_iff, contains, contains-append, if◌then◌else◌,
}
use nfcompose.Shared.Result.{Result, ok, err, ◌>>=◌}
use nfcompose.Shared.Dict.{lookup, getitem, getitem_lem, insert, lookup-insert}
use nfcompose.Shared.Sets.{IsSetOrder}
use nfcompose.Shared.Value.{texts, texts_of, texts_of-texts}
use nfcompose.Client.Models.{GroupPermissionsOnObject, GroupPermissionsOnObject_eq, texts_eq}
use nfcompose.Client.Operation.{update, KeyedOperation, Identifiable, Payload}
use nfcompose.Client.Diff.Remote.{perform, run, about, run-about}
use nfcompose.Client.Diff.Child.{operation, as_dict}
use nfcompose.Client.Diff.Child.Passes.{Steps}
use nfcompose.Client.Diff.Child.Plan.{plan, dict_diff-plan}
use nfcompose.Client.Diff.Child.Latest.{latest, lookup-as_dict}
use nfcompose.Client.Diff.Child.Transforms.{held}
use nfcompose.Client.Diff.Groups.{by_name, merged, update_group_permissions, group_permissions_diff}

-- `to_dict` writes the permissions of the object under their field's name.
abbrev pub WritesPermissions : (GroupPermissionsOnObject → Payload) → Type 0
WritesPermissions to_dict =
    (g : GroupPermissionsOnObject)
    → lookup "group_permissions" (to_dict g) ≡ some (texts g.group_permissions)

-- The permissions that an object of a group lists, or that a payload grants.
abbrev pub lists : Option GroupPermissionsOnObject → String → Bool
lists none p = false
lists (some g) p = contains g.group_permissions p

abbrev granted_by : Result (List String) → String → Bool
granted_by (ok ps) p = contains ps p
granted_by (err e) p = false

unfoldable pub grants : Option Payload → String → Bool
grants none p = false
grants (some d) p = granted_by (getitem d "group_permissions" >>= texts_of) p

texts_eq_sound : (xs ys : List String) → texts_eq xs ys ≡ true → xs ≡ ys
unfolding texts_eq
texts_eq_sound [] [] h = refl
texts_eq_sound [] (y ∷ ys) h = absurd (cc)
texts_eq_sound (x ∷ xs) [] h = absurd (cc)
texts_eq_sound (x ∷ xs) (y ∷ ys) h = ground (arith, eq_iff x y, texts_eq_sound xs ys)

grants-none : (p : String) → grants none p ≡ false
unfolding grants
grants-none p = refl

same_permissions :
    (b t : GroupPermissionsOnObject) (p : String)
    → GroupPermissionsOnObject_eq t b ≡ true
    → contains t.group_permissions p ≡ contains b.group_permissions p
unfolding GroupPermissionsOnObject_eq
same_permissions b t p h =
    ap (λ ps. contains ps p) (texts_eq_sound t.group_permissions b.group_permissions (ground arith))

-- The last entry for a group.
abbrev pub latest_of : String → List GroupPermissionsOnObject → Option GroupPermissionsOnObject
latest_of = latest (λ g. g.name)

module _ (to_dict : GroupPermissionsOnObject → Payload) (W : WritesPermissions to_dict) where
  grants-to_dict :
      (g : GroupPermissionsOnObject) (p : String)
      → grants (some (to_dict g)) p ≡ contains g.group_permissions p
  unfolding grants
  grants-to_dict g p = rw (getitem_lem _ _ _ (W g)) (rw texts_of-texts)

  pub grants-held :
      (g : Option GroupPermissionsOnObject) (p : String)
      → grants (held (by_name to_dict) g) p ≡ lists g p
  grants-held none p = grants-none p
  grants-held (some g) p = grants-to_dict g p

  module _ (set_order : List String → List String) (O : IsSetOrder set_order) where
    abbrev union : GroupPermissionsOnObject → GroupPermissionsOnObject → Payload
    union b t =
        insert "group_permissions" (texts (set_order (t.group_permissions ++ b.group_permissions)))
          (to_dict t)

    merged_lem : (b t : GroupPermissionsOnObject) → merged set_order to_dict b t ≡ ok (union b t)
    unfolding merged
    merged_lem b t = rw (getitem_lem _ _ _ (W t)) (rw texts_of-texts refl)

    grants-union :
        (b t : GroupPermissionsOnObject) (p : String)
        → grants (some (union b t)) p
          ≡ (contains t.group_permissions p || contains b.group_permissions p)
    unfolding grants
    grants-union b t p =
        rw
          (getitem_lem (union b t) "group_permissions"
            (texts (set_order (t.group_permissions ++ b.group_permissions)))
            (rw lookup-insert refl))
          (rw texts_of-texts
            (rw O.members (contains-append t.group_permissions b.group_permissions p)))

    abbrev group_ops :
        Bool → String → GroupPermissionsOnObject → GroupPermissionsOnObject → List KeyedOperation
    group_ops revoke k b t = operation update k (if revoke then to_dict t else union b t) ∷ []

    update_group_permissions-Steps :
        (revoke : Bool)
        → Steps
            (by_name to_dict)
            (update_group_permissions set_order to_dict revoke)
            (group_ops revoke)
    unfolding update_group_permissions about
    update_group_permissions-Steps true k b t = (refl, λ j. refl)
    update_group_permissions-Steps false k b t = (rw (merged_lem b t), λ j. refl)

    -- What an instance holds for a group after the diff.
    abbrev outcome :
        Bool → Option GroupPermissionsOnObject → Option GroupPermissionsOnObject → Option Payload
    outcome revoke b none = if revoke then none else held (by_name to_dict) b
    outcome revoke none (some t) = some (to_dict t)
    outcome revoke (some b) (some t) = some (
        if GroupPermissionsOnObject_eq t b
        then to_dict b
        else if revoke
        then to_dict t
        else union b t)

    run-group_plan :
        (revoke : Bool) (k : String) (b t : Option GroupPermissionsOnObject)
        → run k (plan (by_name to_dict) (group_ops revoke) revoke k b t) (held (by_name to_dict) b)
          ≡ some (outcome revoke b t)
    unfolding run perform
    run-group_plan revoke k none none = ground arith
    run-group_plan revoke k (some b) none = ground (arith, eq_iff k k)
    run-group_plan revoke k none (some t) = ground (arith, eq_iff k k)
    run-group_plan revoke k (some b) (some t) = ground (arith, eq_iff k k)

    grants-outcome :
        (revoke : Bool) (b t : Option GroupPermissionsOnObject) (p : String)
        → grants (outcome revoke b t) p ≡ (lists t p || (not revoke && lists b p))
    grants-outcome revoke none none p = ground (arith, grants-none p)
    grants-outcome revoke (some b) none p = ground (arith, grants-none p, grants-to_dict b p)
    grants-outcome revoke none (some t) p = ground (arith, grants-to_dict t p)
    grants-outcome revoke (some b) (some t) p =
        ground (
          arith,
          grants-to_dict b p,
          grants-to_dict t p,
          grants-union b t p,
          same_permissions b t p,
        )

-- For any order in which sets are walked, and a `to_dict` of group permissions that writes their
-- list under 'group_permissions': the permission diff of two lists never raises. Its operations are
-- accepted by an instance that holds the base, and afterwards a group has a permission on the
-- object exactly if the target lists it for the group, or, where missing permissions are not
-- revoked, if the base lists it.
pub group_permissions_diff-grants :
    (to_dict : GroupPermissionsOnObject → Payload)
    → WritesPermissions to_dict
    → (set_order : List String → List String) → IsSetOrder set_order
    → (base target : List GroupPermissionsOnObject) (revoke : Bool)
    → (os : List KeyedOperation) × (group_permissions_diff set_order to_dict base target revoke
        ≡ ok os)
      × ((k : String)
          → (after : Option Payload) × (run k os (held (by_name to_dict) (latest_of k base))
              ≡ some after)
            × ((p : String)
                → grants after p
                  ≡ (lists (latest_of k target) p || (not revoke && lists (latest_of k base) p))))
unfolding group_permissions_diff
group_permissions_diff-grants to_dict W set_order O base target revoke =
    let I : Identifiable GroupPermissionsOnObject = by_name to_dict in
    let (os, built, mine) =
      dict_diff-plan O I (as_dict I base) (as_dict I target)
        (update_group_permissions set_order to_dict revoke) (group_ops to_dict W set_order O revoke)
        (update_group_permissions-Steps to_dict W set_order O revoke) revoke in
    (
      os,
      built,
      λ k. (
        outcome to_dict W set_order O revoke (latest_of k base) (latest_of k target),
        run-about k os _
            ∙ rw (mine k, lookup-as_dict I k base, lookup-as_dict I k target)
                (run-group_plan to_dict W set_order O revoke k (latest_of k base)
                  (latest_of k target)),
        grants-outcome to_dict W set_order O revoke (latest_of k base) (latest_of k target),
      ),
    )
