-- ===== src/Client/Diff/Child/Transforms.antt =====
-- `list_diff_dataseries_child` returns exactly the operations that are needed, and they turn the
-- children of the base into those of the target.
use nfcompose.Shared.{
  String, ◌≡◌, refl, ◌∙◌, Bool, Option, none, some, List, [], ◌∷◌, arith, eq_iff, if◌then◌else◌,
}
use nfcompose.Shared.Result.{ok}
use nfcompose.Shared.Sets.{IsSetOrder}
use nfcompose.Client.Operation.{create, delete, update, KeyedOperation, Identifiable, Payload}
use nfcompose.Client.Diff.Remote.{perform, run, about, run-about, Transforms}
use nfcompose.Client.Diff.Child.{operation, as_dict, update_child, list_diff_dataseries_child}
use nfcompose.Client.Diff.Child.Passes.{Steps}
use nfcompose.Client.Diff.Child.Plan.{plan, dict_diff-plan}
use nfcompose.Client.Diff.Child.Latest.{latest, lookup-as_dict}

module _ {A : Type 0} (I : Identifiable A) where
  -- What an instance holds under a key for an element, if there is one.
  abbrev pub held : Option A → Option Payload
  held none = none
  held (some x) = some (I.to_dict x)

  -- What it should hold after the diff. An element that `==` does not tell from the target's stays.
  abbrev pub wanted : Bool → Option A → Option A → Option Payload
  wanted delete_missing b none = if delete_missing then none else held b
  wanted delete_missing none (some t) = some (I.to_dict t)
  wanted delete_missing (some b) (some t) = some (if I.eq t b then I.to_dict b else I.to_dict t)

  -- The operations on an element that changed.
  abbrev pub child_ops : (A → A → Bool) → String → A → A → List KeyedOperation
  child_ops recreate k b t =
      if recreate b t
      then operation delete k (I.to_dict b) ∷ operation create k (I.to_dict t) ∷ []
      else operation update k (I.to_dict t) ∷ []

  update_child-Steps :
      (set_order : List String → List String) (recreate : A → A → Bool)
      → Steps I (update_child set_order I recreate) (child_ops recreate)
  unfolding update_child about
  update_child-Steps set_order recreate k b t = (ground arith, λ j. ground arith)

  pub run-plan :
      (recreate : A → A → Bool) (delete_missing : Bool) (k : String) (b t : Option A)
      → run k (plan I (child_ops recreate) delete_missing k b t) (held b)
        ≡ some (wanted delete_missing b t)
  unfolding run perform
  run-plan recreate delete_missing k none none = ground arith
  run-plan recreate delete_missing k (some b) none = ground (arith, eq_iff k k)
  run-plan recreate delete_missing k none (some t) = ground (arith, eq_iff k k)
  run-plan recreate delete_missing k (some b) (some t) = ground (arith, eq_iff k k)

module _ {A : Type 0} (I : Identifiable A) {set_order : List String → List String}
    (O : IsSetOrder set_order) (base target : List A) (delete_missing : Bool)
    (recreate : A → A → Bool) where
  -- For any order in which sets are walked: the diff of two lists of children never raises a
  -- KeyError. For every key its operations are, with b and t the last elements of that key in base
  -- and target: none if there is neither, or if t == b; a CREATE if there is only t; a DELETE if
  -- there is only b and missing ones are to be deleted, else none; a DELETE and then a CREATE if
  -- they differ and the child is to be recreated; an UPDATE if they differ and it is not.
  pub list_diff_dataseries_child-plan :
      (os : List KeyedOperation) × (list_diff_dataseries_child set_order I base target
          delete_missing recreate
        ≡ ok os)
      × ((k : String)
          → about k os
            ≡ plan I
                (child_ops I recreate)
                delete_missing
                k
                (latest I.key k base)
                (latest I.key k target))
  unfolding list_diff_dataseries_child
  list_diff_dataseries_child-plan =
      let (os, built, mine) =
        dict_diff-plan O I (as_dict I base) (as_dict I target) (update_child set_order I recreate)
          (child_ops I recreate) (update_child-Steps I set_order recreate) delete_missing in
      (os, built, λ k. rw (mine k, lookup-as_dict I k base, lookup-as_dict I k target) refl)

  -- For any order in which sets are walked: carried out in order on an instance that holds the
  -- base, the operations are all accepted (no CREATE of what exists, no DELETE or UPDATE of what
  -- does not), and under every key they leave the target's element, or the base's where `==` does
  -- not tell the two apart. What only the base has is gone if missing ones are to be deleted, and
  -- stays if not.
  pub list_diff_dataseries_child-Transforms :
      (os : List KeyedOperation) × (list_diff_dataseries_child set_order I base target
          delete_missing recreate
        ≡ ok os)
      × Transforms
          (λ k. held I (latest I.key k base))
          (λ k. wanted I delete_missing (latest I.key k base) (latest I.key k target))
          os
  list_diff_dataseries_child-Transforms =
      let (os, built, mine) = list_diff_dataseries_child-plan in
      (
        os,
        built,
        λ k.
            run-about k os _
            ∙ rw (mine k) (
                run-plan I recreate delete_missing k (latest I.key k base) (latest I.key k target)),
      )
