-- ===== src/Client/Diff/Child/Latest.antt =====
-- The dictionary of a list holds, under every key, the last element of that key.
use nfcompose.Shared.{
  String, ◌≡◌, refl, Option, none, some, List, [], ◌∷◌, arith, ◌==◌, eq_iff, if◌then◌else◌,
}
use nfcompose.Shared.Dict.{Dict, lookup, insert, lookup-insert, by_key, lookup-nil}
use nfcompose.Client.Operation.{Identifiable}
use nfcompose.Client.Diff.Child.{as_dict}

module _ {A : Type 0} (key : A → String) where
  -- The last element of the list with this key.
  unfoldable pub latest : String → List A → Option A
  latest k [] = none
  latest k (x ∷ xs) = elim (latest k xs) [
    | none ↦ if key x == k then some x else none
    | some y ↦ some y
  ]

  pub lookup-by_key :
      (k : String) (d : Dict A) (xs : List A)
      → lookup k (by_key key d xs) ≡ elim (latest k xs) [ none ↦ lookup k d | some y ↦ some y ]
  unfolding by_key latest
  lookup-by_key k d [] = refl
  lookup-by_key k d (x ∷ xs) =
      ground (arith, lookup-by_key k (insert (key x) x d) xs, lookup-insert k (key x) x d)

  pub key-latest : (k : String) (xs : List A) (x : A) → latest k xs ≡ some x → key x ≡ k
  unfolding latest
  key-latest k [] x h = absurd (cc)
  key-latest k (y ∷ xs) x h = ground (arith, key-latest k xs x, eq_iff (key y) k)

pub lookup-as_dict :
    {A : Type 0} (I : Identifiable A) (k : String) (xs : List A)
    → lookup k (as_dict I xs) ≡ latest I.key k xs
unfolding as_dict
lookup-as_dict {A} I k xs = ground (arith, lookup-by_key I.key k [] xs, lookup-nil {V = A} k)

pub lookup-by_key_nil :
    {A : Type 0} (key : A → String) (k : String) (xs : List A)
    → lookup k (by_key key [] xs) ≡ latest key k xs
lookup-by_key_nil {A} key k xs = ground (arith, lookup-by_key key k [] xs, lookup-nil {V = A} k)
