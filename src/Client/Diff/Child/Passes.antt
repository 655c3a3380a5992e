-- ===== src/Client/Diff/Child/Passes.antt =====
-- Which operations each pass of `dict_diff` returns for one key.
use nfcompose.Shared.{
  String, ◌≡◌, refl, Bool, true, false, not, ◌&&◌, none, some, List, [], ◌∷◌, ◌++◌, arith, ◌==◌,
  eq_iff, contains, Distinct, if◌then◌else◌, Option-cases, inl, inr,
}
use mathlib.Core.List.{append-nil}
use nfcompose.Shared.Result.{Result, ok}
use nfcompose.Shared.Dict.{Dict, lookup, getitem_lem, has}
use nfcompose.Client.Operation.{OperationType, KeyedOperation, Identifiable}
use nfcompose.Client.Diff.Remote.{about, about-append}
use nfcompose.Client.Diff.Child.{operation, operations_for, changed_keys, updates_for}

-- Every key is one of the dictionary.
abbrev pub AllIn {ℓ} : {V : Type ℓ} → Dict V → List String → Type 0
AllIn d [] = Unit
AllIn d (k ∷ ks) = (has d k ≡ true) × AllIn d ks

pub AllIn-of {ℓ} :
    {V : Type ℓ} (d : Dict V) (ks : List String)
    → ((k : String) → contains ks k ≡ true → has d k ≡ true)
    → AllIn d ks
AllIn-of d [] h = tt
AllIn-of d (k ∷ ks) h =
    (h k (ground (arith, eq_iff k k)), AllIn-of d ks (λ j m. h j (ground (arith, eq_iff k j))))

found {ℓ} :
    {V : Type ℓ} (d : Dict V) (k : String) → has d k ≡ true → (x : V) × (lookup k d ≡ some x)
found d k h = elim (Option-cases (lookup k d)) [ inl missing ↦ absurd (cc) | inr there ↦ there ]

module _ {A : Type 0} (I : Identifiable A) where
  -- One operation, with the element that the dictionary holds.
  abbrev pub one_for : OperationType → Dict A → String → List KeyedOperation
  one_for t d k = elim (lookup k d) [ none ↦ [] | some x ↦ operation t k (I.to_dict x) ∷ [] ]

  pub operations_for_lem :
      (t : OperationType) (d : Dict A) (ks : List String)
      → Distinct ks
      → AllIn d ks
      → (os : List KeyedOperation) × (operations_for I t d ks ≡ ok os)
        × ((k : String) → about k os ≡ (if contains ks k then one_for t d k else []))
  unfolding operations_for about
  operations_for_lem t d [] u a = ([], refl, λ k. refl)
  operations_for_lem t d (k ∷ ks) (fresh, u) (here, a) =
      let (x, e) = found d k here in
      let (os, built, rest) = operations_for_lem t d ks u a in
      (
        operation t k (I.to_dict x) ∷ os,
        rw (getitem_lem d k x e) (rw built refl),
        λ j. ground (arith, eq_iff k j, e, fresh, rest j),
      )

  -- The elements that the two dictionaries hold under `k` differ.
  abbrev pub differs : Dict A → Dict A → String → Bool
  differs base target k = elim (lookup k target) [
    | none ↦ false
    | some t ↦ elim (lookup k base) [ none ↦ false | some b ↦ not (I.eq t b) ]
  ]

  pub changed_keys_lem :
      (base target : Dict A) (ks : List String)
      → AllIn base ks
      → AllIn target ks
      → (cs : List String) × (changed_keys I base target ks ≡ ok cs)
        × ((k : String) → contains cs k ≡ (contains ks k && differs base target k))
  unfolding changed_keys
  changed_keys_lem base target [] ab at = ([], refl, λ k. refl)
  changed_keys_lem base target (k ∷ ks) (hb, ab) (ht, at) =
      let (b, eb) = found base k hb in
      let (t, et) = found target k ht in
      let (cs, built, members) = changed_keys_lem base target ks ab at in
      (
        if I.eq t b then cs else k ∷ cs,
        rw (getitem_lem target k t et) (rw (getitem_lem base k b eb) (rw built (ground arith))),
        λ j. ground (arith, eq_iff k j, eb, et, members j),
      )

  module _ (step : String → A → A → Result (List KeyedOperation))
      (ops : String → A → A → List KeyedOperation) where
    -- The step returns these operations, which all concern its key.
    abbrev pub Steps : Type 0
    Steps =
        (k : String) (b t : A)
        → (step k b t ≡ ok (ops k b t))
          × ((j : String) → about j (ops k b t) ≡ (if k == j then ops k b t else []))

    abbrev pub step_for : Dict A → Dict A → String → List KeyedOperation
    step_for base target k = elim (lookup k target) [
      | none ↦ []
      | some t ↦ elim (lookup k base) [ none ↦ [] | some b ↦ ops k b t ]
    ]

    pub updates_for_lem :
        Steps
        → (base target : Dict A) (ks : List String) → Distinct ks
        → AllIn base ks
        → AllIn target ks
        → (os : List KeyedOperation) × (updates_for I step base target ks ≡ ok os)
          × ((k : String) → about k os ≡ (if contains ks k then step_for base target k else []))
    unfolding updates_for about
    updates_for_lem S base target [] u ab at = ([], refl, λ k. refl)
    updates_for_lem S base target (k ∷ ks) (fresh, u) (hb, ab) (ht, at) =
        let (b, eb) = found base k hb in
        let (t, et) = found target k ht in
        let (stepped, mine) = S k b t in
        let (os, built, rest) = updates_for_lem S base target ks u ab at in
        (
          ops k b t ++ os,
          rw (getitem_lem base k b eb)
              (rw (getitem_lem target k t et) (rw stepped (rw built refl))),
          λ j. rw about-append (
              rw (mine j, rest j)
                (ground (arith, eq_iff k j, fresh, eb, et, append-nil (ops k b t)))),
        )
