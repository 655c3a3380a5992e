-- ===== src/Client/Rest.antt =====
-- The REST client of client/compose_client/library/connection/client.py as the rest of the library
-- uses it, and the reading of pages of connection/read.py.

pub mod Sends
pub mod Hidden
use nfcompose.Shared.{
  String, ℕ, zero, suc, Bool, true, false, Option, none, some, List, [], ◌∷◌, ◌++◌, ◌==◌,
  if◌then◌else◌,
}
use nfcompose.Shared.Result.{
  Result, ok, err, assertion_error, key_error, type_error, index_error, unfinished,
}
use nfcompose.Shared.Value.{Value, str, null, list, dict, Items, nil, cons, Fields, end, field}
use nfcompose.Client.Operation.{Payload}
use nfcompose.Shared.Texts.{joined}

pub data Method : Type 0 where
  get post put patch delete : Method

pub record RestRequest : Type 0 where
  pub method : Method
  pub url : String
  pub json : Option Payload

-- `answer` is what comes of the first request of the list, the others being those before it, the
-- last one first: the JSON of the response, or the exception.
pub record ApiClient : Type 0 where
  pub base_url : String
  pub answer : List RestRequest → Result Value

-- A statement that sends requests and may raise. The requests have been sent either way.
abbrev pub Action : Type 0 → Type 0
Action A = List RestRequest → Result A × List RestRequest

unfoldable pub pure : {A : Type 0} → A → Action A
pure a log = (ok a, log)

unfoldable pub lift : {A : Type 0} → Result A → Action A
lift result log = (result, log)

abbrev pub continue : {A : Type 0} {B : Type 0} → Result A → (A → Action B) → Action B
continue (ok a) next log = next a log
continue (err e) next log = (err e, log)

infixl 5 ◌>>=◌ ◌>>◌
unfoldable pub ◌>>=◌ : {A : Type 0} {B : Type 0} → Action A → (A → Action B) → Action B
(first >>= next) log = let (result, after) = first log in continue result next after

abbrev pub ◌>>◌ : {A : Type 0} {B : Type 0} → Action A → Action B → Action B
first >> second = first >>= λ _. second

unfoldable pub send : ApiClient → Method → String → Option Payload → Action Value
send client method url json log =
    let sent = record { method = method; url = url; json = json } ∷ log in
    (client.answer sent, sent)

-- `client.url(path)`
unfoldable pub url_of : ApiClient → String → String
url_of client path = joined (client.base_url ∷ path ∷ [])

unfoldable pub for_each : {A : Type 0} → List A → (A → Action Unit) → Action Unit
for_each [] body = pure tt
for_each (x ∷ xs) body = do _ ← body x; for_each xs body

-- `json[key]`
unfoldable pub fields_get : Fields → String → Option Value
fields_get end key = none
fields_get (field k v rest) key =
    let later = fields_get rest key in if k == key then some v else later

abbrev pub or_key_error : Option Value → Result Value
or_key_error none = err key_error
or_key_error (some v) = ok v

unfoldable pub json_get : Value → String → Result Value
json_get (dict fields) key = or_key_error (fields_get fields key)
json_get _ key = err type_error

-- `key in json`, of an object.
unfoldable pub json_has : Value → String → Bool
json_has (dict fields) key = elim (fields_get fields key) [ none ↦ false | some v ↦ true ]
json_has _ key = false

-- `json[0]`
unfoldable pub json_first : Value → Result Value
json_first (list nil) = err index_error
json_first (list (cons v rest)) = ok v
json_first _ = err type_error

-- A text, where the code goes on with one.
unfoldable pub as_text : Value → Result String
as_text (str text) = ok text
as_text _ = err type_error

module _ {A : Type 0} (converter : Value → Result A) where
  abbrev pub convert_items : Items → Result (List A)
  convert_items nil = ok []
  convert_items (cons v rest) = convert_first (converter v) (convert_items rest)
    where
      convert_first : Result A → Result (List A) → Result (List A)
      convert_first (err e) later = err e
      convert_first (ok a) (err e) = err e
      convert_first (ok a) (ok rest) = ok (a ∷ rest)

  unfoldable pub convert_all : Value → Result (List A)
  convert_all (list items) = convert_items items
  convert_all _ = err type_error

  abbrev pub next_page : Value → Result (Option String)
  next_page null = ok none
  next_page (str url) = ok (some url)
  next_page _ = err type_error

  -- `parse_page`. The elements are converted when they are taken into the result.
  unfoldable pub parse_page : String → Value → Result (Value × Value)
  parse_page data_key page =
      if json_has page data_key
      then both (json_get page data_key) (json_get page "next")
      else err assertion_error
    where
      both : Result Value → Result Value → Result (Value × Value)
      both (err e) next = err e
      both (ok found) (err e) = err e
      both (ok found) (ok next) = ok (found, next)

  -- `read_paginated_all`, with at most the given number of requests.
  unfoldable pub read_paginated_all :
      ApiClient → String → ℕ → Option String → List A → Action (List A)
  read_paginated_all client data_key pages none found = pure found
  read_paginated_all client data_key zero (some url) found = lift (err unfinished)
  read_paginated_all client data_key (suc pages) (some url) found = do
    page ← send client get url none
    (elements, next) ← lift (parse_page data_key page)
    new ← lift (convert_all elements)
    following ← lift (next_page next)
    read_paginated_all client data_key pages following (found ++ new)
