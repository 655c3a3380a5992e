-- ===== src/Client/Push/Members.antt =====
-- The operations that a push takes from the lists of a diff are operations of the diff.
use nfcompose.Shared.{
  String, ◌≡◌, refl, sym, ap, ◌∙◌, true, Option, none, some, List, [], ◌∷◌, Bool-cases,
  Option-cases, inl, inr, ◌⊎◌, arith,
}
use nfcompose.Shared.Result.{ok}
use nfcompose.Shared.Dict.{Dict, getitem, lookup}
use nfcompose.Client.Operation.{OperationType, KeyedOperation}
use nfcompose.Client.Diff.Models.{DataSeriesDefinitionDiff}
use nfcompose.Client.Push.{is_type, of_type}
use nfcompose.Client.Push.Series.{with_operation, series_operations}
use mathlib.Core.Path.{subst}
use mathlib.Core.List.{Memᴰ}
use mathlib.Core.List.Memᴰ

is_type_sound : (a b : OperationType) → is_type a b ≡ true → a ≡ b
is_type_sound a b h = ground arith

-- The operations of one type are operations of the list.
pub mem-of_type :
    {A : Type 0} (f : A → OperationType) (t : OperationType) (xs : List A) (x : A)
    → Memᴰ x (of_type f t xs)
    → Memᴰ x xs × (f x ≡ t)
unfolding of_type
mem-of_type f t [] x m = absurd (Memᴰ.not-nil m)
mem-of_type {A = A} f t (y ∷ xs) x m = elim (Bool-cases (is_type (f y) t)) [
  | inl mine ↦ first mine (subst (Memᴰ x) (rw (mine, of_type) refl) m) (mem-of_type f t xs x)
  | inr other ↦
      let (there, e) = mem-of_type f t xs x (subst (Memᴰ x) (rw (other, of_type) refl) m) in
      (Memᴰ.tail there, e)
]
  where
    first :
        {rest : List A}
        → is_type (f y) t ≡ true
        → Memᴰ x (y ∷ rest)
        → (Memᴰ x rest → Memᴰ x xs × (f x ≡ t))
        → Memᴰ x (y ∷ xs) × (f x ≡ t)
    first mine (Memᴰ.head e) k = (Memᴰ.head e, ap f e ∙ is_type_sound (f y) t mine)
    first mine (Memᴰ.tail m') k = let (there, e) = k m' in (Memᴰ.tail there, e)

mem-with_operation :
    (o : Option KeyedOperation) (rest : List KeyedOperation) (op : KeyedOperation)
    → Memᴰ op (with_operation o rest)
    → (o ≡ some op) ⊎ Memᴰ op rest
mem-with_operation none rest op m = inr m
mem-with_operation (some x) rest op (Memᴰ.head e) = inl (ap some (sym e))
mem-with_operation (some x) rest op (Memᴰ.tail m) = inr m

pub mem-series_operations :
    (diffs : List DataSeriesDefinitionDiff) (op : KeyedOperation)
    → Memᴰ op (series_operations diffs)
    → (diff : DataSeriesDefinitionDiff) × Memᴰ diff diffs × (diff.data_series ≡ some op)
unfolding series_operations
mem-series_operations [] op m = absurd (Memᴰ.not-nil m)
mem-series_operations (diff ∷ diffs) op m =
    elim (mem-with_operation diff.data_series (series_operations diffs) op m) [
      | inl same ↦ (diff, Memᴰ.head refl, same)
      | inr later ↦
          let (other, listed, same) = mem-series_operations diffs op later in
          (other, Memᴰ.tail listed, same)
    ]

pub lookup-getitem : (d : Dict String) (k v : String) → getitem d k ≡ ok v → lookup k d ≡ some v
unfolding getitem
lookup-getitem d k v e = elim (Option-cases (lookup k d)) [
  | inl missing ↦ absurd (ground (arith, e, missing))
  | inr (w, there) ↦ ground (arith, e, there)
]
