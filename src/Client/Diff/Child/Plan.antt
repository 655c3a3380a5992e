-- ===== src/Client/Diff/Child/Plan.antt =====
-- The operations of `dict_diff` for one key.
use nfcompose.Shared.{
  String, ◌≡◌, refl, Bool, true, false, not, ◌&&◌, Option, none, some, List, [], ◌∷◌, ◌++◌, arith,
  contains, contains-select, if◌then◌else◌,
}
use nfcompose.Shared.Result.{Result, ok}
use nfcompose.Shared.Dict.{Dict, lookup, has, contains-keys}
use nfcompose.Shared.Sets.{IsSetOrder}
use nfcompose.Client.Operation.{create, delete, KeyedOperation, Identifiable}
use nfcompose.Client.Diff.Remote.{about, about-append}
use nfcompose.Client.Diff.Child.{
  operation, operations_for, changed_keys, updates_for, dict_diff, deleted_keys, new_keys,
  keys_in_both,
}
use nfcompose.Client.Diff.Child.Passes.{
  AllIn-of, one_for, operations_for_lem, differs, changed_keys_lem, Steps, step_for,
  updates_for_lem,
}

module _ {A : Type 0} (I : Identifiable A) where
  -- The operations for one key, from what the two dictionaries hold under it.
  abbrev pub plan :
      (String → A → A → List KeyedOperation)
      → Bool
      → String
      → Option A
      → Option A
      → List KeyedOperation
  plan ops delete_missing k none none = []
  plan ops delete_missing k (some b) none =
      if delete_missing then operation delete k (I.to_dict b) ∷ [] else []
  plan ops delete_missing k none (some t) = operation create k (I.to_dict t) ∷ []
  plan ops delete_missing k (some b) (some t) = if I.eq t b then [] else ops k b t

module _ {A : Type 0} {set_order : List String → List String} (O : IsSetOrder set_order)
    (I : Identifiable A) (base target : Dict A) where
  pub contains-deleted_keys :
      (k : String)
      → contains (deleted_keys set_order I base target) k ≡ (not (has target k) && has base k)
  unfolding deleted_keys
  contains-deleted_keys k = rw (O.members, contains-select, contains-keys)

  pub contains-new_keys :
      (k : String)
      → contains (new_keys set_order I base target) k ≡ (not (has base k) && has target k)
  unfolding new_keys
  contains-new_keys k = rw (O.members, contains-select, contains-keys)

  pub contains-keys_in_both :
      (k : String)
      → contains (keys_in_both set_order I base target) k ≡ (has base k && has target k)
  unfolding keys_in_both
  contains-keys_in_both k = rw (O.members, contains-select, contains-keys)

  deletions :
      (delete_missing : Bool)
      → (os : List KeyedOperation) × ((if delete_missing
            then operations_for I delete base (deleted_keys set_order I base target)
            else ok [])
          ≡ ok os)
        × ((k : String)
            → about k os
              ≡ (if delete_missing && not (has target k) then one_for I delete base k else []))
  unfolding about deleted_keys
  deletions false = ([], refl, λ k. refl)
  deletions true =
      let (os, built, mine) =
        operations_for_lem I delete base (deleted_keys set_order I base target) (O.distinct _)
          (AllIn-of base _ λ k m. ground (arith, contains-deleted_keys k)) in
      (os, built, λ k. ground (arith, mine k, contains-deleted_keys k))

  creations :
      (os : List KeyedOperation) × (operations_for I create target
          (new_keys set_order I base target)
        ≡ ok os)
      × ((k : String) → about k os ≡ (if has base k then [] else one_for I create target k))
  unfolding new_keys
  creations =
      let (os, built, mine) =
        operations_for_lem I create target (new_keys set_order I base target) (O.distinct _)
          (AllIn-of target _ λ k m. ground (arith, contains-new_keys k)) in
      (os, built, λ k. ground (arith, mine k, contains-new_keys k))

  changed :
      (cs : List String) × (changed_keys I base target (keys_in_both set_order I base target)
        ≡ ok cs)
      × ((k : String) → contains (set_order cs) k ≡ differs I base target k)
  unfolding keys_in_both
  changed =
      let (cs, built, members) =
        changed_keys_lem I base target (keys_in_both set_order I base target)
          (AllIn-of base _ λ k m. ground (arith, contains-keys_in_both k))
          (AllIn-of target _ λ k m. ground (arith, contains-keys_in_both k)) in
      (cs, built, λ k. ground (arith, O.members cs k, members k, contains-keys_in_both k))

  module _ (step : String → A → A → Result (List KeyedOperation))
      (ops : String → A → A → List KeyedOperation) (S : Steps I step ops) where
    updates :
        (cs : List String)
        → ((k : String) → contains (set_order cs) k ≡ differs I base target k)
        → (os : List KeyedOperation) × (updates_for I step base target (set_order cs) ≡ ok os)
          × ((k : String)
              → about k os
                ≡ (if differs I base target k then step_for I step ops base target k else []))
    updates cs members =
        let (os, built, mine) =
          updates_for_lem I step ops S base target (set_order cs) (O.distinct cs)
            (AllIn-of base _ λ k m. ground (arith, members k))
            (AllIn-of target _ λ k m. ground (arith, members k)) in
        (os, built, λ k. rw (mine k, members k))

    -- The passes together: the diff is computed, and has the planned operations for every key.
    pub dict_diff-plan :
        (delete_missing : Bool)
        → (os : List KeyedOperation) × (dict_diff set_order I step base target delete_missing
            ≡ ok os)
          × ((k : String)
              → about k os ≡ plan I ops delete_missing k (lookup k base) (lookup k target))
    unfolding dict_diff
    dict_diff-plan delete_missing =
        let (ds, built_ds, about_ds) = deletions delete_missing in
        let (ns, built_ns, about_ns) = creations in
        let (cs, built_cs, members) = changed in
        let (us, built_us, about_us) = updates cs members in
        (
          ds ++ (ns ++ us),
          rw (built_ds, built_ns, built_cs, built_us) refl,
          λ k. rw (about-append, about-append, about_ds k, about_ns k, about_us k) (ground arith),
        )
