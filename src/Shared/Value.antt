-- ===== src/Shared/Value.antt =====
-- The values of a dynamic language that reach the code as JSON or as form data. A float is its IEEE
-- bit pattern, a timestamp and an uploaded object are known by a number: none is computed with.
use Prim.Native.Nat.{ℕ}
use Prim.Native.String.{String}
use mathlib.Core.Bool.{Bool}
use mathlib.Core.List.{List, [], ◌∷◌}
use mathlib.Core.Path.{◌≡◌, refl}
use nfcompose.Shared.Result.{Result, ok, err, type_error, ◌>>=◌}

pub data ℤ : Type 0 where
  pos negsuc : ℕ → ℤ

mutual
  pub data Value : Type 0 where
    null : Value
    bool : Bool → Value
    int : ℤ → Value
    float : ℕ → Value
    str : String → Value
    datetime : ℕ → Value
    object : ℕ → Value
    list : Items → Value
    dict : Fields → Value

  pub data Items : Type 0 where
    nil : Items
    cons : Value → Items → Items

  pub data Fields : Type 0 where
    end : Fields
    field : String → Value → Fields → Fields

-- A list of texts as a value, and back. Anything else in its place is a TypeError.
abbrev pub items : List String → Items
items [] = nil
items (x ∷ xs) = cons (str x) (items xs)

unfoldable pub texts : List String → Value
texts xs = list (items xs)

abbrev pub item_texts : Items → Result (List String)
item_texts nil = ok []
item_texts (cons (str x) rest) = do xs ← item_texts rest; ok (x ∷ xs)
item_texts (cons _ rest) = err type_error

unfoldable pub texts_of : Value → Result (List String)
texts_of (list xs) = item_texts xs
texts_of _ = err type_error

item_texts-items : (xs : List String) → item_texts (items xs) ≡ ok xs
item_texts-items [] = refl
item_texts-items (x ∷ xs) = rw (item_texts-items xs)

pub texts_of-texts : (xs : List String) → texts_of (texts xs) ≡ ok xs
unfolding texts texts_of
texts_of-texts xs = item_texts-items xs
