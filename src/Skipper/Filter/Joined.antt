-- ===== src/Skipper/Filter/Joined.antt =====
-- Cutting off the last " AND " leaves the parts of a filter joined by it.
use nfcompose.Shared.{String, ℕ, ◌≡◌, refl, ap, ◌∙◌, List, [], ◌∷◌, arith}
use nfcompose.Shared.Result.{Result, ok, err}
use nfcompose.Shared.Texts.{joined}
use nfcompose.Shared.Value.{Value, Fields, end, field}
use nfcompose.Skipper.Events.Sanitize.{first_characters}
use nfcompose.Skipper.Filter.Monad.{State, Compute, pure, continue, ◌>>=◌}
use nfcompose.Skipper.Filter.{join, without_last, fields_filter, each_field, one_field}
use Prim.Native.String.{count, ◌++◌}
use text.Mathlib.TextLemmas.{length-append, length-cons, append_assoc, append-nil, cons-append}

-- The parts of a filter, without anything between them.
unfoldable pub parts_of : (String → Value → Compute String) → ℕ → Fields → Compute (List String)
parts_of column depth end = pure []
parts_of column depth (field key value rest) = do
  part ← one_field column depth key value
  later ← parts_of column depth rest
  pure (part ∷ later)

abbrev separated : List String → String
separated [] = ""
separated (part ∷ parts) = joined (part ∷ " AND " ∷ separated parts ∷ [])

first_characters-append : (a b : String) → first_characters (count a) (a ++ b) ≡ a
unfolding first_characters
first_characters-append String.[] b = refl
first_characters-append (String.◌∷◌ c a) b =
    rw (length-cons c a, cons-append c a b) (ap (λ x. String.◌∷◌ c x) (first_characters-append a b))

-- `(a + " AND ")[:-5]`
without_last-append : (a : String) → without_last 5 (a ++ " AND ") ≡ a
unfolding without_last
without_last-append a =
    ap (λ n. first_characters n (a ++ " AND ")) (omega (arith, length-append a " AND "))
    ∙ first_characters-append a " AND "

separated-join :
    (part : String) (parts : List String)
    → separated (part ∷ parts) ≡ join " AND " (part ∷ parts) ++ " AND "
unfolding joined join
separated-join part [] = refl
separated-join part (next ∷ parts) =
    ap (λ text. part ++ (" AND " ++ (text ++ ""))) (separated-join next parts)
    ∙ simp (append-nil, append_assoc)

-- What becomes of a result's value.
abbrev pub mapped : {A B : Type 0} → (A → B) → Result (A × State) → Result (B × State)
mapped f (err e) = err e
mapped f (ok (a, s)) = ok (f a, s)

after_part :
    (part : String) (later : Result (String × State)) (parts : Result (List String × State))
    → later ≡ mapped separated parts
    → continue later (λ text. pure (joined (part ∷ " AND " ∷ text ∷ [])))
      ≡ mapped separated (continue parts (λ ps. pure (part ∷ ps)))
unfolding pure
after_part part later (err e) h = rw (h) refl
after_part part later (ok (ps, s)) h = rw (h) refl

module _ (column : String → Value → Compute String) (depth : ℕ) where
  each-separated :
      (fields : Fields) (s : State)
      → each_field column depth fields s ≡ mapped separated (parts_of column depth fields s)
  unfolding each_field parts_of pure ◌>>=◌
  each-separated end s = refl
  each-separated (field key value rest) s =
      after_one (one_field column depth key value s) (each-separated rest)
    where
      after_one :
          (first : Result (String × State))
          → ((t : State)
              → each_field column depth rest t ≡ mapped separated (parts_of column depth rest t))
          → continue first (λ part.
            each_field column depth rest >>= λ later. pure (joined (part ∷ " AND " ∷ later ∷ [])))
            ≡ mapped separated (
                continue first
                  (λ part. parts_of column depth rest >>= λ later. pure (part ∷ later)))
      after_one (err e) each = refl
      after_one (ok (part, t)) each = after_part part _ _ (each t)

  cut :
      (part : String) (parts : Result (List String × State))
      → continue
          (mapped separated (continue parts (λ ps. pure (part ∷ ps))))
          (λ text. pure (without_last 5 text))
        ≡ mapped (join " AND ") (continue parts (λ ps. pure (part ∷ ps)))
  unfolding pure
  cut part (err e) = refl
  cut part (ok (ps, s)) =
      ap (λ text. ok (text, s))
        (ap (without_last 5) (separated-join part ps)
          ∙ without_last-append (join " AND " (part ∷ ps)))

  -- For a filter with at least one entry, cutting the last five characters off the text that the
  -- loop has put together gives the parts of the entries joined by " AND ", with the same parameters
  -- and the same sets, or the same exception, as computing the parts alone.
  pub fields_filter-join :
      (key : String) (value : Value) (rest : Fields) (s : State)
      → fields_filter (field key value rest) (each_field column depth (field key value rest)) s
        ≡ mapped (join " AND ") (parts_of column depth (field key value rest) s)
  unfolding ◌>>=◌ parts_of pure
  fields_filter-join key value rest s =
      ap (λ r. continue r (λ text. pure (without_last 5 text)))
        (each-separated (field key value rest) s)
      ∙ cut_one (one_field column depth key value s)
    where
      cut_one :
          (first : Result (String × State))
          → continue
              (mapped separated (
                continue first
                  (λ part. parts_of column depth rest >>= λ later. pure (part ∷ later))))
              (λ text. pure (without_last 5 text))
            ≡ mapped (join " AND ") (
                continue first
                  (λ part. parts_of column depth rest >>= λ later. pure (part ∷ later)))
      cut_one (err e) = refl
      cut_one (ok (part, t)) = cut part (parts_of column depth rest t)
