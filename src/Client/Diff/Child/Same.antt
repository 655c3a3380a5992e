-- ===== src/Client/Diff/Child/Same.antt =====
-- The diff of a list with itself is empty.
use nfcompose.Shared.{
  String, ◌≡◌, refl, Bool, true, false, List, [], ◌∷◌, arith, eq_iff, contains, Option-cases, inl,
  inr, Bool-cases, ◌⊎◌, some, ◌==◌,
}
use nfcompose.Shared.Result.{Result, ok}
use nfcompose.Shared.Dict.{Dict, lookup, insert, by_key, lookup-insert, lookup-nil, getitem_lem}
use mathlib.Core.List.{Memᴰ}
use nfcompose.Shared.Sets.{IsSetOrder}
use nfcompose.Client.Operation.{KeyedOperation, Identifiable}
use nfcompose.Client.Diff.Child.{
  as_dict, operations_for, changed_keys, updates_for, dict_diff, deleted_keys, new_keys,
  keys_in_both,
}
use nfcompose.Client.Diff.Child.Passes.{AllIn, AllIn-of}
use nfcompose.Client.Diff.Child.Plan.{
  contains-deleted_keys, contains-new_keys, contains-keys_in_both,
}

nothing_in : (xs : List String) → ((k : String) → contains xs k ≡ false) → xs ≡ []
nothing_in [] h = refl
nothing_in (x ∷ xs) h = absurd (ground (arith, h x, eq_iff x x))

-- An element of the dictionary of a list is an element of the list.
lookup-by_key :
    {A : Type 0} (key : A → String) (d : Dict A) (xs : List A) (k : String) (x : A)
    → lookup k (by_key key d xs) ≡ some x
    → (lookup k d ≡ some x) ⊎ Memᴰ x xs
unfolding by_key
lookup-by_key key d [] k x e = inl e
lookup-by_key key d (y ∷ xs) k x e = elim (lookup-by_key key (insert (key y) y d) xs k x e) [
  | inr later ↦ inr (Memᴰ.tail later)
  | inl here ↦ elim (Bool-cases (key y == k)) [
    | inl same ↦ inr (Memᴰ.head (ground (arith, here, same, lookup-insert k (key y) y d)))
    | inr other ↦ inl (ground (arith, here, other, lookup-insert k (key y) y d))
  ]
]

pub lookup-as_dict :
    {A : Type 0} (I : Identifiable A) (xs : List A) (k : String) (x : A)
    → lookup k (as_dict I xs) ≡ some x
    → Memᴰ x xs
unfolding as_dict
lookup-as_dict {A} I xs k x e = elim (lookup-by_key I.key [] xs k x e) [
  | inl nothing ↦ absurd (ground (arith, nothing, lookup-nil {V = A} k))
  | inr listed ↦ listed
]

module _ {A : Type 0} (I : Identifiable A) where
  -- Each element of the dictionary is equal to itself.
  abbrev pub AllSame : Dict A → Type 0
  AllSame d = (k : String) (x : A) → lookup k d ≡ some x → I.eq x x ≡ true

  changed_keys_self :
      (d : Dict A) (ks : List String) → AllSame d → AllIn d ks → changed_keys I d d ks ≡ ok []
  unfolding changed_keys
  changed_keys_self d [] same a = refl
  changed_keys_self d (k ∷ ks) same (here, a) = elim (Option-cases (lookup k d)) [
    | inl missing ↦ absurd (cc)
    | inr (x, e) ↦ rw (getitem_lem d k x e) (rw (changed_keys_self d ks same a) (rw (same k x e)))
  ]

  module _ (set_order : List String → List String) (O : IsSetOrder set_order)
      (step : String → A → A → Result (List KeyedOperation)) where
    pub dict_diff_self :
        (d : Dict A) (delete_missing : Bool)
        → AllSame d
        → dict_diff set_order I step d d delete_missing ≡ ok []
    unfolding dict_diff operations_for updates_for
    dict_diff_self d delete_missing same =
        let no_deletions : deleted_keys set_order I d d ≡ [] =
          nothing_in _ (λ k. ground (arith, contains-deleted_keys O I d d k)) in
        let no_creations : new_keys set_order I d d ≡ [] =
          nothing_in _ (λ k. ground (arith, contains-new_keys O I d d k)) in
        let unchanged : changed_keys I d d (keys_in_both set_order I d d) ≡ ok [] =
          changed_keys_self d _ same
            (AllIn-of d _ λ k m. ground (arith, contains-keys_in_both O I d d k)) in
        let none_ordered : set_order [] ≡ [] = nothing_in _ (O.members []) in
        rw (no_deletions, no_creations, unchanged, none_ordered) (ground arith)
