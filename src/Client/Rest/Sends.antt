-- ===== src/Client/Rest/Sends.antt =====
-- What the requests that a statement sends have in common, whatever the server answers.
use nfcompose.Shared.{
  String, ◌≡◌, refl, sym, ap, ◌∙◌, Bool, true, false, Option, List, [], ◌∷◌, ◌++◌, if◌then◌else◌,
  arith,
}
use nfcompose.Shared.Result.{Result, Exception, ok, err}
use nfcompose.Client.Operation.{Payload}
use nfcompose.Client.Rest.{
  Method, RestRequest, ApiClient, Action, pure, lift, continue, ◌>>=◌, send, for_each,
}
use nfcompose.Shared.Value.{Value}
use mathlib.Core.List.{Memᴰ}
use mathlib.Core.Path.{subst}

abbrev pub All : (RestRequest → Type 0) → List RestRequest → Type 0
All P [] = Unit
All P (r ∷ rs) = P r × All P rs

All-append :
    (P : RestRequest → Type 0) (xs ys : List RestRequest) → All P xs → All P ys → All P (xs ++ ys)
All-append P [] ys a b = b
All-append P (x ∷ xs) ys a b = (a.0, All-append P xs ys a.1 b)

append_assoc : (xs ys zs : List RestRequest) → (xs ++ ys) ++ zs ≡ xs ++ (ys ++ zs)
append_assoc [] ys zs = refl
append_assoc (x ∷ xs) ys zs = ap (λ rest. x ∷ rest) (append_assoc xs ys zs)

-- Every request that is sent after those of the log satisfies P.
pub record Sends {A : Type 0} (P : RestRequest → Type 0) (action : Action A) : Type 0 where
  pub sent :
      (log : List RestRequest)
      → (new : List RestRequest) × ((action log).1 ≡ new ++ log) × All P new

or_given : {A : Type 0} → A → Result A → A
or_given given (err e) = given
or_given given (ok a) = a

-- The value that a statement returns, if it returns one, satisfies R.
pub record Gives {A : Type 0} (R : A → Type 0) (action : Action A) : Type 0 where
  pub given : (log : List RestRequest) (a : A) → (action log).0 ≡ ok a → R a

module _ {A : Type 0} {R : A → Type 0} where
  pub pure-Gives : (a : A) → R a → Gives R (pure a)
  unfolding pure or_given
  pure-Gives a r = record { given = λ log b e. subst R (ap (or_given a) e) r }

  pub raise-Gives : (e : Exception) → Gives R (lift (err e))
  unfolding lift
  raise-Gives e = record { given = λ log a h. absurd (ground (arith, h)) }

  continue-given :
      {B : Type 0} (result : Result B) (next : B → Action A) (log : List RestRequest) (a : A)
      → ((b : B) → result ≡ ok b → Gives R (next b))
      → (continue result next log).0 ≡ ok a
      → R a
  continue-given (ok b) next log a each e = (each b refl).given log a e
  continue-given (err x) next log a each e = absurd (ground (arith, e))

  pub lift-Gives :
      {B : Type 0} (result : Result B) (next : B → Action A)
      → ((b : B) → result ≡ ok b → Gives R (next b))
      → Gives R (lift result >>= next)
  unfolding ◌>>=◌ lift
  lift-Gives result next each = record {
    given = λ log a e. continue-given result next log a each e;
  }

  -- After a request whose answer is there.
  pub send-Gives :
      (client : ApiClient) (method : Method) (url : String) (json : Option Payload)
      (next : Value → Action A)
      → ((v : Value) (log : List RestRequest)
          → client.answer (record { method = method; url = url; json = json } ∷ log) ≡ ok v
          → Gives R (next v))
      → Gives R (send client method url json >>= next)
  unfolding ◌>>=◌ send
  send-Gives client method url json next each = record {
    given = λ log a e.
        continue-given (client.answer (record { method = method; url = url; json = json } ∷ log))
          next _ a (λ v h. each v log h) e;
  }

module _ {P : RestRequest → Type 0} where
  pub pure-Sends : {A : Type 0} (a : A) → Sends P (pure a)
  unfolding pure or_given
  pure-Sends a = record { sent = λ log. ([], refl, tt) }

  pub send-Sends :
      (client : ApiClient) (method : Method) (url : String) (json : Option Payload)
      → P (record { method = method; url = url; json = json })
      → Sends P (send client method url json)
  unfolding send
  send-Sends client method url json h = record { sent = λ log. (_ ∷ [], refl, (h, tt)) }

  continue-sent :
      {A B : Type 0} (result : Result A) (next : A → Action B) (new log : List RestRequest)
      → All P new
      → ((a : A) → Sends P (next a))
      → (more : List RestRequest) × ((continue result next (new ++ log)).1 ≡ more ++ log)
        × All P more
  continue-sent (ok a) next new log h each =
      let (more, e, good) = (each a).sent (new ++ log) in
      (more ++ new, e ∙ sym (append_assoc more new log), All-append P more new good h)
  continue-sent (err e) next new log h each = (new, refl, h)

  pub bind-Sends :
      {A B : Type 0} (first : Action A) (next : A → Action B)
      → Sends P first
      → ((a : A) → Sends P (next a))
      → Sends P (first >>= next)
  unfolding ◌>>=◌
  bind-Sends first next h each = record {
    sent = λ log.
        let (new, e, good) = h.sent log in
        let (more, f, all) = continue-sent (first log).0 next new log good each in
        (more, ap (λ l. (continue (first log).0 next l).1) e ∙ f, all);
  }

  continue-sent-given :
      {A B : Type 0} {R : A → Type 0} (result : Result A) (next : A → Action B)
      (new log : List RestRequest)
      → All P new
      → ((a : A) → result ≡ ok a → R a)
      → ((a : A) → R a → Sends P (next a))
      → (more : List RestRequest) × ((continue result next (new ++ log)).1 ≡ more ++ log)
        × All P more
  continue-sent-given (ok a) next new log h known each =
      let (more, e, good) = (each a (known a refl)).sent (new ++ log) in
      (more ++ new, e ∙ sym (append_assoc more new log), All-append P more new good h)
  continue-sent-given (err e) next new log h known each = (new, refl, h)

  -- After a statement of whose value something is known.
  pub given-Sends :
      {A B : Type 0} {R : A → Type 0} (first : Action A) (next : A → Action B)
      → Sends P first
      → Gives R first
      → ((a : A) → R a → Sends P (next a))
      → Sends P (first >>= next)
  unfolding ◌>>=◌
  given-Sends first next h known each = record {
    sent = λ log.
        let (new, e, good) = h.sent log in
        let (more, f, all) =
          continue-sent-given (first log).0 next new log good (λ a k. known.given log a k) each in
        (more, ap (λ l. (continue (first log).0 next l).1) e ∙ f, all);
  }

  pub raise-Sends : {A : Type 0} (result : Result A) → Sends P (lift result)
  unfolding lift
  raise-Sends result = record { sent = λ log. ([], refl, tt) }

  -- After a value that is computed without a request.
  pub lift-Sends :
      {A B : Type 0} (result : Result A) (next : A → Action B)
      → ((a : A) → result ≡ ok a → Sends P (next a))
      → Sends P (lift result >>= next)
  unfolding ◌>>=◌ lift
  lift-Sends (ok a) next each = record { sent = λ log. (each a refl).sent log }
  lift-Sends (err e) next each = record { sent = λ log. ([], refl, tt) }

  pub if-Sends :
      {A : Type 0} (test : Bool) (on_true on_false : Action A)
      → (test ≡ true → Sends P on_true)
      → (test ≡ false → Sends P on_false)
      → Sends P (if test then on_true else on_false)
  if-Sends true on_true on_false a b = a refl
  if-Sends false on_true on_false a b = b refl

  pub for_each-Sends :
      {A : Type 0} (xs : List A) (body : A → Action Unit)
      → ((x : A) → Memᴰ x xs → Sends P (body x))
      → Sends P (for_each xs body)
  unfolding for_each
  for_each-Sends [] body each = pure-Sends tt
  for_each-Sends (x ∷ xs) body each =
      bind-Sends (body x) (λ _. for_each xs body) (each x (Memᴰ.head refl))
        (λ _. for_each-Sends xs body (λ y m. each y (Memᴰ.tail m)))
