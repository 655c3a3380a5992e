-- ===== src/Shared/Dict.antt =====
-- Python dictionaries with text keys: association lists in insertion order, as Python keeps them.
use nfcompose.Shared.Tests.{if◌then◌else◌, is_some}
use nfcompose.Shared.Lists.{contains, Distinct}
use nfcompose.Shared.Result.{Result, ok, err, key_error}
use Prim.Native.String.{String}
use mathlib.Core.Path.{◌≡◌, refl}
use mathlib.Core.Bool.{Bool}
use mathlib.Core.Option.{Option, none, some}
use mathlib.Core.List.{List, [], ◌∷◌}
use native.Mathlib.Omega.{arith}
use text.Mathlib.Text.{◌==◌}
use text.Mathlib.TextEquality.{eq_iff}

abbrev pub Dict {ℓ} : Type ℓ → Type ℓ
Dict V = List (String × V)

module _ {ℓ} {V : Type ℓ} where
  -- `d.get(k)`
  unfoldable pub lookup : String → Dict V → Option V
  lookup k [] = none
  lookup k ((j, v) ∷ d) = if j == k then some v else lookup k d

  -- `d[k] = v`: a key that is there keeps its place.
  unfoldable pub insert : String → V → Dict V → Dict V
  insert k v [] = (k, v) ∷ []
  insert k v ((j, w) ∷ d) = if j == k then (k, v) ∷ d else (j, w) ∷ insert k v d

  -- `d.pop(k)` of a key that is there. A dictionary holds a key once.
  unfoldable pub erase : String → Dict V → Dict V
  erase k [] = []
  erase k ((j, w) ∷ d) = let rest = erase k d in if j == k then rest else (j, w) ∷ rest

  unfoldable pub keys : Dict V → List String
  keys [] = []
  keys ((k, v) ∷ d) = k ∷ keys d

  -- `k in d`
  abbrev pub has : Dict V → String → Bool
  has d k = is_some (lookup k d)

  -- `d[k]`
  unfoldable pub getitem : Dict V → String → Result V
  getitem d k = elim (lookup k d) [ none ↦ err key_error | some v ↦ ok v ]

  pub lookup-nil : (k : String) → lookup k [] ≡ none
  unfolding lookup
  lookup-nil k = refl

  pub lookup-cons :
      (k j : String) (v : V) (d : Dict V)
      → lookup k ((j, v) ∷ d) ≡ (if j == k then some v else lookup k d)
  unfolding lookup
  lookup-cons k j v d = refl

  pub lookup-insert :
      (j k : String) (v : V) (d : Dict V)
      → lookup j (insert k v d) ≡ (if k == j then some v else lookup j d)
  unfolding lookup insert
  lookup-insert j k v [] = refl
  lookup-insert j k v ((i, w) ∷ d) =
      ground (arith, eq_iff k j, eq_iff i k, eq_iff i j, lookup-insert j k v d)

  pub lookup-erase :
      (j k : String) (d : Dict V) → lookup j (erase k d) ≡ (if k == j then none else lookup j d)
  unfolding lookup erase
  lookup-erase j k [] = ground arith
  lookup-erase j k ((i, w) ∷ d) =
      ground (arith, eq_iff k j, eq_iff i k, eq_iff i j, lookup-erase j k d)

  pub contains-keys : (d : Dict V) (k : String) → contains (keys d) k ≡ has d k
  unfolding lookup keys
  contains-keys [] k = refl
  contains-keys ((j, v) ∷ d) k = ground (arith, contains-keys d k)

  pub getitem_lem : (d : Dict V) (k : String) (v : V) → lookup k d ≡ some v → getitem d k ≡ ok v
  unfolding getitem
  getitem_lem d k v h = rw (h, getitem)

  -- `{key(x): x for x in xs}`: the last element of a key wins.
  unfoldable pub by_key : (V → String) → Dict V → List V → Dict V
  by_key key d [] = d
  by_key key d (x ∷ xs) = by_key key (insert (key x) x d) xs

-- Union of dictionaries, `d.update(e)`.
unfoldable pub update {ℓ} : {V : Type ℓ} → Dict V → Dict V → Dict V
update d [] = d
update d ((k, v) ∷ e) = update (insert k v d) e

module _ {ℓ} {V : Type ℓ} where
  -- A dictionary built by these operations holds every key once.
  pub keys-insert-Distinct :
      (k : String) (v : V) (d : Dict V) → Distinct (keys d) → Distinct (keys (insert k v d))
  unfolding keys insert
  keys-insert-Distinct k v [] u = (refl, tt)
  keys-insert-Distinct k v ((j, w) ∷ d) (fresh, u) = ground (
    arith,
    keys-insert-Distinct k v d u,
    contains-keys (insert k v d) j,
    contains-keys d j,
    lookup-insert j k v d,
    eq_iff j k,
    eq_iff k j,
  )

  pub keys-erase-Distinct :
      (k : String) (d : Dict V) → Distinct (keys d) → Distinct (keys (erase k d))
  unfolding keys erase
  keys-erase-Distinct k [] u = tt
  keys-erase-Distinct k ((j, w) ∷ d) (fresh, u) = ground (
    arith,
    keys-erase-Distinct k d u,
    contains-keys (erase k d) j,
    contains-keys d j,
    lookup-erase j k d,
  )
