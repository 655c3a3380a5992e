-- ===== src/Client/Diff/Leads.antt =====
-- What a diff promises: its operations lead an instance from the base to the target.
use nfcompose.Shared.{
  String, ◌≡◌, refl, Bool, true, false, Option, none, some, List, [], ◌∷◌, not, ◌&&◌, ◌||◌, arith,
  if◌then◌else◌, eq_iff,
}
use nfcompose.Client.Models.{GroupPermissionsOnObject}
use nfcompose.Client.Operation.{
  create, delete, update, Operation, KeyedOperation, Payload, Identifiable,
}
use nfcompose.Client.Diff.Remote.{effect, run, perform, Transforms}
use nfcompose.Client.Diff.Child.{operation}
use nfcompose.Client.Diff.Child.Latest.{latest}
use nfcompose.Client.Diff.Child.Transforms.{held, wanted}
use nfcompose.Client.Diff.Groups.{by_name}
use nfcompose.Client.Diff.Groups.Transforms.{WritesPermissions, grants, grants-held, lists}

-- The operations lead from the elements of the base to those of the target; what only the base has
-- goes if `removes`.
abbrev pub Leads :
    {A : Type 0} → Identifiable A → Bool → List A → List A → List KeyedOperation → Type 0
Leads I removes base target os =
    Transforms (λ k. held I (latest I.key k base))
      (λ k. wanted I removes (latest I.key k base) (latest I.key k target)) os

-- After the operations a group has a permission exactly if the target lists it, or if the base does
-- and nothing is revoked.
abbrev pub Grants :
    (GroupPermissionsOnObject → Payload)
    → Bool
    → List GroupPermissionsOnObject
    → List GroupPermissionsOnObject
    → List KeyedOperation
    → Type 0
Grants to_dict revokes base target os =
    (k : String)
    → (after : Option Payload) × (run k os (held (by_name to_dict) (latest (λ g. g.name) k base))
        ≡ some after)
      × ((p : String)
          → grants after p ≡ (
              lists (latest (λ g. g.name) k target) p
              || (not revokes && lists (latest (λ g. g.name) k base) p)))

-- What is left out of the diff has no operation.
abbrev pub IfIncluded : Bool → List KeyedOperation → Type 0 → Type 0
IfIncluded true os P = P
IfIncluded false os P = os ≡ []

abbrev pub operations_of : Option KeyedOperation → List KeyedOperation
operations_of none = []
operations_of (some o) = o ∷ []

-- Whether what is missing in the target goes: `delete_in_base` where there is no target at all.
abbrev pub removes : {D : Type 0} → Bool → Option D → Bool → Bool
removes delete_in_base none otherwise = delete_in_base
removes delete_in_base (some t) otherwise = otherwise

-- Where there is no base, nothing is removed.
pub Leads-nil :
    {A : Type 0} (I : Identifiable A) (removes removes' : Bool) (target : List A)
    (os : List KeyedOperation)
    → Leads I removes [] target os
    → Leads I removes' [] target os
unfolding latest
Leads-nil I removes removes' target os h k = ground (arith, h k)

pub Leads-nothing : {A : Type 0} (I : Identifiable A) (base : List A) → Leads I false base [] []
unfolding latest run
Leads-nothing I base k = refl

pub Grants-nothing :
    (to_dict : GroupPermissionsOnObject → Payload)
    → WritesPermissions to_dict
    → (base : List GroupPermissionsOnObject) → Grants to_dict false base [] []
unfolding latest run
Grants-nothing to_dict W base k = (
  held (by_name to_dict) (latest (λ g. g.name) k base),
  refl,
  λ p. grants-held to_dict W (latest (λ g. g.name) k base) p,
)

pub Grants-nil :
    (to_dict : GroupPermissionsOnObject → Payload) (revokes revokes' : Bool)
    (target : List GroupPermissionsOnObject) (os : List KeyedOperation)
    → Grants to_dict revokes [] target os
    → Grants to_dict revokes' [] target os
unfolding latest
Grants-nil to_dict revokes revokes' target os h k =
    let (after, ran, granted) = h k in (after, ran, λ p. ground (arith, granted p))

module _ {A : Type 0} (I : Identifiable A) where
  -- The operation on an object itself: CREATE, DELETE, or an UPDATE if the two differ.
  pub created :
      (removes : Bool) (t : A)
      → Leads I removes [] (t ∷ []) (operation create (I.key t) (I.to_dict t) ∷ [])
  unfolding latest run perform
  created removes t k = ground arith

  pub deleted : (b : A) → Leads I true (b ∷ []) [] (operation delete (I.key b) (I.to_dict b) ∷ [])
  unfolding latest run perform
  deleted b k = ground arith

  pub updated :
      (b t : A)
      → I.key b ≡ I.key t
      → Leads I false (b ∷ []) (t ∷ []) (
          operations_of
            (if not (I.eq t b) then some (operation update (I.key t) (I.to_dict t)) else none))
  unfolding latest run perform
  updated b t e k = ground (arith, eq_iff (I.key b) k, eq_iff (I.key t) k)

-- The same for what an object has one of, such as an engine's secret.
abbrev pub run_one : Option Operation → Option Payload → Option (Option Payload)
run_one none held = some held
run_one (some o) held = effect o.operation_type o.payload held

abbrev pub held_one : {A : Type 0} → (A → Payload) → Option A → Option Payload
held_one to_dict none = none
held_one to_dict (some x) = some (to_dict x)

abbrev pub wanted_one :
    {A : Type 0} → (A → Payload) → (A → A → Bool) → Bool → Option A → Option A → Option Payload
wanted_one to_dict eq removes b none = if removes then none else held_one to_dict b
wanted_one to_dict eq removes none (some t) = some (to_dict t)
wanted_one to_dict eq removes (some b) (some t) = some (if eq b t then to_dict b else to_dict t)

abbrev pub LeadsOne :
    {A : Type 0}
    → (A → Payload)
    → (A → A → Bool)
    → Bool
    → Option A
    → Option A
    → Option Operation
    → Type 0
LeadsOne to_dict eq removes b t o =
    run_one o (held_one to_dict b) ≡ some (wanted_one to_dict eq removes b t)
