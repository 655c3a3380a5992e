-- ===== src/Skipper/Validate/Messages.antt =====
-- What the error dictionary of the checks holds for one key.
use nfcompose.Shared.{
  String, ◌≡◌, refl, List, [], ◌∷◌, ◌++◌, arith, contains, Distinct, if◌then◌else◌, ◌==◌, eq_iff,
  none, Bool-cases, eq_refl, inl, inr,
}
use nfcompose.Shared.Dict.{lookup, lookup-insert, lookup-nil}
use nfcompose.Skipper.Validate.Contract.{
  Message, Errors, messages, append_error, append_errors, append_for_each,
}
use mathlib.Core.List.{append_assoc, append-nil}

pub messages-nil : (k : String) → messages k [] ≡ []
unfolding messages lookup
messages-nil k = refl

pub messages-append_error :
    (j k : String) (errors : Errors) (m : Message)
    → messages j (append_error errors k m)
      ≡ (if k == j then messages j errors ++ (m ∷ []) else messages j errors)
unfolding messages append_error
messages-append_error j k errors m =
    ground (arith, lookup-insert j k (messages k errors ++ (m ∷ [])) errors, eq_iff k j)

pub messages-append_errors :
    (j k : String) (errors : Errors) (ms : List Message)
    → messages j (append_errors errors k ms)
      ≡ (if k == j then messages j errors ++ ms else messages j errors)
unfolding append_errors
messages-append_errors j k errors [] = ground (arith, append-nil (messages j errors))
messages-append_errors j k errors (m ∷ ms) = ground (
  arith,
  messages-append_errors j k (append_error errors k m) ms,
  messages-append_error j k errors m,
  append_assoc (messages j errors) (m ∷ []) ms,
)

pub messages-append_for_each :
    (say : String → Message) (j : String) (errors : Errors) (ks : List String)
    → Distinct ks
    → messages j (append_for_each say errors ks)
      ≡ (if contains ks j then messages j errors ++ (say j ∷ []) else messages j errors)
unfolding append_for_each
messages-append_for_each say j errors [] u = refl
messages-append_for_each say j errors (k ∷ ks) (fresh, u) = ground (
  arith,
  messages-append_for_each say j (append_error errors k (say k)) ks u,
  messages-append_error j k errors (say k),
  eq_iff k j,
)

not_nil : (ms : List Message) (m : Message) → ms ++ (m ∷ []) ≡ [] → ⊥
not_nil [] m h = cc h
not_nil (a ∷ ms) m h = cc h

-- A key that is in the dictionary has messages: an error dictionary is empty if no key has any.
abbrev pub Sound : Errors → Type 0
Sound errors = (k : String) → messages k errors ≡ [] → lookup k errors ≡ none

pub nil-Sound : Sound []
nil-Sound k h = lookup-nil k

pub append_error-Sound :
    (errors : Errors) (k : String) (m : Message) → Sound errors → Sound (append_error errors k m)
unfolding append_error
append_error-Sound errors k m good j h = elim (Bool-cases (k == j)) [
  | inl here ↦
      absurd (
        not_nil (messages j errors) m (ground (arith, h, here, messages-append_error j k errors m)))
  | inr away ↦ ground (
    arith,
    h,
    away,
    good j,
    messages-append_error j k errors m,
    lookup-insert j k (messages k errors ++ (m ∷ [])) errors,
  )
]

pub append_errors-Sound :
    (errors : Errors) (k : String) (ms : List Message)
    → Sound errors
    → Sound (append_errors errors k ms)
unfolding append_errors
append_errors-Sound errors k [] good = good
append_errors-Sound errors k (m ∷ ms) good =
    append_errors-Sound (append_error errors k m) k ms (append_error-Sound errors k m good)

pub append_for_each-Sound :
    (say : String → Message) (errors : Errors) (ks : List String)
    → Sound errors
    → Sound (append_for_each say errors ks)
unfolding append_for_each
append_for_each-Sound say errors [] good = good
append_for_each-Sound say errors (k ∷ ks) good =
    append_for_each-Sound say (append_error errors k (say k)) ks
      (append_error-Sound errors k (say k) good)

pub Sound-empty :
    (errors : Errors) → Sound errors → ((k : String) → messages k errors ≡ []) → errors ≡ []
unfolding lookup
Sound-empty [] good h = refl
Sound-empty ((k, ms) ∷ errors) good h = ground (arith, good k (h k), eq_refl k)
