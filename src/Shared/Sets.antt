-- ===== src/Shared/Sets.antt =====
-- Python's `set` of texts. The order in which a set is iterated is the interpreter's: it is a
-- parameter, and the theorems hold for every order.
use nfcompose.Shared.Tests.{if◌then◌else◌}
use nfcompose.Shared.Lists.{contains, Distinct}
use Prim.Native.String.{String}
use mathlib.Core.Path.{◌≡◌, refl}
use mathlib.Core.List.{List, [], ◌∷◌}
use native.Mathlib.Omega.{arith}
use text.Mathlib.TextEquality.{eq_iff}

-- `list(set(xs))`: the members of `xs`, each once, in some order.
pub record IsSetOrder (set_order : List String → List String) : Type 0 where
  pub members : (xs : List String) (k : String) → contains (set_order xs) k ≡ contains xs k
  pub distinct : (xs : List String) → Distinct (set_order xs)

-- One such order, for tests: the last occurrence of each member.
unfoldable pub last_seen : List String → List String
last_seen [] = []
last_seen (x ∷ xs) = let rest = last_seen xs in if contains rest x then rest else x ∷ rest

last_seen_members : (xs : List String) (k : String) → contains (last_seen xs) k ≡ contains xs k
unfolding last_seen
last_seen_members [] k = refl
last_seen_members (x ∷ xs) k =
    ground (arith, last_seen_members xs k, last_seen_members xs x, eq_iff x k)

last_seen-Distinct : (xs : List String) → Distinct (last_seen xs)
unfolding last_seen
last_seen-Distinct [] = tt
last_seen-Distinct (x ∷ xs) = ground (arith, last_seen-Distinct xs)

pub last_seen-IsSetOrder : IsSetOrder last_seen
last_seen-IsSetOrder = record { members = last_seen_members; distinct = last_seen-Distinct }
