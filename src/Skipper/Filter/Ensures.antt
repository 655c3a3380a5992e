-- ===== src/Skipper/Filter/Ensures.antt =====
-- What holds between the states before and after a computation that succeeds.
use nfcompose.Shared.{◌≡◌, refl, ap, Bool, true, false, if◌then◌else◌}
use nfcompose.Shared.Result.{Exception, Result, ok, err}
use nfcompose.Skipper.Filter.Monad.{State, Compute, pure, raise, continue, ◌>>=◌}
use mathlib.Core.Path.{subst}

pub record Ensures {A : Type 0} (R : State → State → Type 0) (m : Compute A) : Type 0 where
  pub ensured : (s : State) (a : A) (t : State) → m s ≡ ok (a, t) → R s t

module _ {A : Type 0} where
  -- The state of a result, if it has one.
  state_or : State → Result (A × State) → State
  state_or s (err e) = s
  state_or s (ok (a, t)) = t

  same_state :
      (s t u : State) (a b : A) → ◌≡◌ {A = Result (A × State)} (ok (a, s)) (ok (b, t)) → s ≡ t
  unfolding state_or
  same_state s t u a b e = ap (state_or u) e

  err-≢-ok :
      (e : Exception) (a : A) (t : State) → ◌≡◌ {A = Result (A × State)} (err e) (ok (a, t)) → ⊥
  err-≢-ok e a t h = cc

module _ {R : State → State → Type 0} where
  pub pure-Ensures : {A : Type 0} (a : A) → ((s : State) → R s s) → Ensures R (pure a)
  unfolding pure
  pure-Ensures a stays = record {
    ensured = λ s b t e. subst (R s) (same_state s t s a b e) (stays s);
  }

  -- A computation that writes to the state.
  pub write-Ensures :
      {A : Type 0} (value : State → A) (write : State → State)
      → ((s : State) → R s (write s))
      → Ensures R (λ s. ok (value s, write s))
  write-Ensures value write good = record {
    ensured = λ s b t e. subst (R s) (same_state (write s) t s (value s) b e) (good s);
  }

  pub raise-Ensures : {A : Type 0} (e : Exception) → Ensures {A = A} R (raise e)
  unfolding raise
  raise-Ensures e = record { ensured = λ s a t h. absurd (err-≢-ok e a t h) }

  pub if-Ensures :
      {A : Type 0} (test : Bool) (on_true on_false : Compute A)
      → (test ≡ true → Ensures R on_true)
      → (test ≡ false → Ensures R on_false)
      → Ensures R (if test then on_true else on_false)
  if-Ensures true on_true on_false a b = a refl
  if-Ensures false on_true on_false a b = b refl

module _ {A B : Type 0} (P Q R : State → State → Type 0)
    (both : (s t u : State) → P s t → Q t u → R s u) where
  continue-ensured :
      (m : Result (A × State)) (next : A → Compute B) (s : State)
      → ((a : A) (t : State) → m ≡ ok (a, t) → P s t)
      → ((a : A) → Ensures Q (next a))
      → (b : B) (u : State) → continue m next ≡ ok (b, u)
      → R s u
  continue-ensured (err e) next s first second b u h = absurd (err-≢-ok e b u h)
  continue-ensured (ok (a, t)) next s first second b u h =
      both s t u (first a t refl) ((second a).ensured t b u h)

  pub bind-Ensures :
      (m : Compute A) (next : A → Compute B)
      → Ensures P m
      → ((a : A) → Ensures Q (next a))
      → Ensures R (m >>= next)
  unfolding ◌>>=◌
  bind-Ensures m next first second = record {
    ensured = λ s b u h. continue-ensured (m s) next s (first.ensured s) second b u h;
  }

-- What is made of the value does not matter.
pub then_pure :
    {A B : Type 0} {R : State → State → Type 0} {m : Compute A} (f : A → B)
    → Ensures R m
    → Ensures R (m >>= λ a. pure (f a))
then_pure {R = R} {m = m} f h =
    bind-Ensures R (λ s t. s ≡ t) R (λ s t u p q. subst (R s) q p) m _ h
      (λ a. pure-Ensures _ λ s. refl)
