-- ===== src/Shared/Result.antt =====
-- What a Python call returns or raises. `ok` is a normal return. A loop that has not ended after the
-- number of turns that a model gives it is `unfinished`.

pub data Exception : Type 0 where
  assertion_error key_error value_error not_implemented type_error index_error http_error unfinished
        validation_error attribute_error :
      Exception

pub data Result {ℓ} (A : Type ℓ) : Type ℓ where
  err : Exception → Result A
  ok : A → Result A

infixl 5 ◌>>=◌
abbrev pub ◌>>=◌ {k ℓ} : {X : Type k} {Y : Type ℓ} → Result X → (X → Result Y) → Result Y
err raised >>= next = err raised
ok value >>= next = next value
