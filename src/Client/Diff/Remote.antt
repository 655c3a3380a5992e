-- ===== src/Client/Diff/Remote.antt =====
-- The specification of operations: what an instance holds under one key, while operations are
-- carried out on it. A CREATE of what is there, and a DELETE or UPDATE of what is not, is refused.
use nfcompose.Shared.{
  String, ◌≡◌, refl, Bool, false, Option, none, some, List, [], ◌∷◌, ◌++◌, arith, ◌==◌,
  if◌then◌else◌, Option-cases, Bool-cases, inl, inr,
}
use mathlib.Core.Path.{fun_ext}
use nfcompose.Client.Operation.{OperationType, create, delete, update, KeyedOperation, Payload}

-- The outer `none` is a refusal.
abbrev pub effect : OperationType → Payload → Option Payload → Option (Option Payload)
effect create p none = some (some p)
effect create p (some q) = none
effect delete p none = none
effect delete p (some q) = some none
effect update p none = none
effect update p (some q) = some (some p)

abbrev pub concerns : Option String → String → Bool
concerns none k = false
concerns (some j) k = j == k

unfoldable pub perform : String → KeyedOperation → Option Payload → Option (Option Payload)
perform k o held = if concerns o.key k then effect o.operation_type o.payload held else some held

abbrev pub continue :
    Option (Option Payload) → (Option Payload → Option (Option Payload)) → Option (Option Payload)
continue none f = none
continue (some held) f = f held

-- What is held under `k` after the operations, or `none` if one of them is refused.
unfoldable pub run : String → List KeyedOperation → Option Payload → Option (Option Payload)
run k [] held = some held
run k (o ∷ os) held = continue (perform k o held) (run k os)

pub run-append :
    (k : String) (xs ys : List KeyedOperation) (held : Option Payload)
    → run k (xs ++ ys) held ≡ continue (run k xs held) (run k ys)
unfolding run
run-append k [] ys held = refl
run-append k (o ∷ os) ys held = elim (Option-cases (perform k o held)) [
  | inl refused ↦ rw (refused, continue)
  | inr (h, e) ↦ rw (e, continue) (run-append k os ys h)
]

-- Under every key the operations are accepted, and lead from `before` to `after`.
abbrev pub Transforms :
    (String → Option Payload) → (String → Option Payload) → List KeyedOperation → Type 0
Transforms before after os = (k : String) → run k os (before k) ≡ some (after k)

-- The operations that concern `k`, in their order.
unfoldable pub about : String → List KeyedOperation → List KeyedOperation
about k [] = []
about k (o ∷ os) = let rest = about k os in if concerns o.key k then o ∷ rest else rest

pub about-append :
    (k : String) (xs ys : List KeyedOperation) → about k (xs ++ ys) ≡ about k xs ++ about k ys
unfolding about
about-append k [] ys = refl
about-append k (o ∷ os) ys = ground (arith, about-append k os ys)

-- Only these matter for what is held under `k`.
pub run-about :
    (k : String) (os : List KeyedOperation) (held : Option Payload)
    → run k os held ≡ run k (about k os) held
unfolding run about perform
run-about k [] held = refl
run-about k (o ∷ os) held = elim (Bool-cases (concerns o.key k)) [
  | inl mine ↦ rw (mine) (rw (mine) (rw (fun_ext (run-about k os))))
  | inr other ↦ rw (other) (run-about k os held)
]
