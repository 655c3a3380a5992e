-- ===== src/Client/Push/Served.antt =====
-- What the pushers look up is what the server has: the URLs of data series and the ids of groups.
use nfcompose.Shared.{
  String, ℕ, zero, suc, ◌≡◌, refl, ◌⊎◌, inl, inr, Option, none, some, List, [], ◌∷◌, arith, eq_iff,
  Bool-cases, Option-cases, ◌==◌,
}
use nfcompose.Shared.Result.{Result, ok, unfinished}
use nfcompose.Shared.Dict.{Dict, lookup, insert, getitem, lookup-insert}
use nfcompose.Shared.Value.{Value, str, null, bool, int, float, datetime, object, list, dict}
use nfcompose.Client.Operation.{KeyedOperation, Payload}
use nfcompose.Client.Rest.{get, ApiClient, read_paginated_all}
use nfcompose.Client.Rest.Sends.{Gives, pure-Gives, raise-Gives, lift-Gives, send-Gives}
use nfcompose.Client.Push.{
  StructureType, float_facts, string_facts, text_facts, timestamp_facts, image_facts, file_facts,
  json_facts, boolean_facts, dimensions, resolved, resolve_key, url_in,
}
use nfcompose.Client.Push.Series.{
  Converters, RawDataSeries, RawGroup, url_by_external_id, id_by_name,
}
use nfcompose.Client.Push.Justified.{Served, served, RefersTo, IsSent, element}
use mathlib.Core.List.{Memᴰ}
use mathlib.Core.List.Memᴰ

lookup_inserted :
    (key name : String) (v w : String) (d : Dict String)
    → lookup name (insert key v d) ≡ some w
    → ((key ≡ name) × (v ≡ w)) ⊎ (lookup name d ≡ some w)
lookup_inserted key name v w d e = elim (Bool-cases (key == name)) [
  | inl same ↦ inl ((eq_iff key name).0 same, ground (arith, lookup-insert name key v d, same, e))
  | inr other ↦ inr (ground (arith, lookup-insert name key v d, other, e))
]

resolve_value :
    (key : String) (urls : Dict String) (old payload : Payload) (v : Value)
    → resolve_key key urls old ≡ ok payload
    → lookup key old ≡ some v
    → (name url : String) × (lookup key old ≡ some (str name))
      × (lookup name urls ≡ some url)
      × (payload ≡ insert key (str url) old)
unfolding resolve_key getitem url_in
resolve_value key urls old payload (str name) e here = elim (Option-cases (lookup name urls)) [
  | inl missing ↦ absurd (ground (arith, e, here, missing))
  | inr (url, there) ↦ (name, url, here, there, ground (arith, e, here, there))
]
resolve_value key urls old payload null e here = absurd (ground (arith, e, here))
resolve_value key urls old payload (bool b) e here = absurd (ground (arith, e, here))
resolve_value key urls old payload (int n) e here = absurd (ground (arith, e, here))
resolve_value key urls old payload (float n) e here = absurd (ground (arith, e, here))
resolve_value key urls old payload (datetime n) e here = absurd (ground (arith, e, here))
resolve_value key urls old payload (object n) e here = absurd (ground (arith, e, here))
resolve_value key urls old payload (list xs) e here = absurd (ground (arith, e, here))
resolve_value key urls old payload (dict fields) e here = absurd (ground (arith, e, here))

-- Where a reference is resolved, it names a key of the dictionary.
resolve_key-cases :
    (key : String) (urls : Dict String) (old payload : Payload)
    → resolve_key key urls old ≡ ok payload
    → (name url : String) × (lookup key old ≡ some (str name))
      × (lookup name urls ≡ some url)
      × (payload ≡ insert key (str url) old)
unfolding resolve_key getitem
resolve_key-cases key urls old payload e = elim (Option-cases (lookup key old)) [
  | inl missing ↦ absurd (ground (arith, e, missing))
  | inr (v, here) ↦ resolve_value key urls old payload v e here
]

module _ (client : ApiClient) where
  abbrev pub AllServed : {A : Type 0} → (Value → Result A) → List A → Type 0
  AllServed {A} converter xs = (x : A) → Memᴰ x xs → Served client converter x

  pub read-Gives :
      {A : Type 0} (converter : Value → Result A) (n : ℕ) (url : Option String) (found : List A)
      → AllServed converter found
      → Gives (AllServed converter) (read_paginated_all converter client "results" n url found)
  unfolding read_paginated_all
  read-Gives converter n none found h = pure-Gives found h
  read-Gives converter zero (some url) found h = raise-Gives unfinished
  read-Gives converter (suc n) (some url) found h =
      send-Gives client get url none _ λ page log answer. lift-Gives _ _ λ parsed p.
        lift-Gives _ _ λ new c. lift-Gives _ _ λ following _.
          read-Gives converter n following _ λ x m. elim (Memᴰ.append_cases found m) [
            | inl before ↦ h x before
            | inr fresh ↦ served url log page parsed.0 parsed.1 new answer p c fresh
          ]

module _ (client : ApiClient) (converters : Converters) where
  -- The URL under a name is that of a data series of the server with this external id.
  abbrev pub HasUrls : Dict String → Type 0
  HasUrls urls =
      (name url : String)
      → lookup name urls ≡ some url
      → (series : RawDataSeries) × Served client converters.data_series series
        × (series.external_id ≡ name)
        × (series.url ≡ url)

  abbrev pub HasIds : Dict String → Type 0
  HasIds ids =
      (name id : String)
      → lookup name ids ≡ some id
      → (group : RawGroup) × Served client converters.group group
        × (group.name ≡ name)
        × (group.id ≡ id)

  pub url_by_external_id-HasUrls :
      (xs : List RawDataSeries) (urls : Dict String)
      → HasUrls urls
      → AllServed client converters.data_series xs
      → HasUrls (url_by_external_id urls xs)
  url_by_external_id-HasUrls [] urls h all = h
  url_by_external_id-HasUrls (x ∷ xs) urls h all =
      url_by_external_id-HasUrls xs _
        (λ name url e. elim (lookup_inserted x.external_id name x.url url urls e) [
          | inl (same, its) ↦ (x, all x (Memᴰ.head refl), same, its)
          | inr before ↦ h name url before
        ])
        (λ y m. all y (Memᴰ.tail m))

  pub id_by_name-HasIds :
      (xs : List RawGroup) (ids : Dict String)
      → HasIds ids
      → AllServed client converters.group xs
      → HasIds (id_by_name ids xs)
  id_by_name-HasIds [] ids h all = h
  id_by_name-HasIds (x ∷ xs) ids h all =
      id_by_name-HasIds xs _
        (λ name id e. elim (lookup_inserted x.name name x.id id ids e) [
          | inl (same, its) ↦ (x, all x (Memᴰ.head refl), same, its)
          | inr before ↦ h name id before
        ])
        (λ y m. all y (Memᴰ.tail m))

  pub resolved-IsSent :
      (urls : Dict String)
      → HasUrls urls
      → (t : StructureType) (op : KeyedOperation) (payload : Payload)
      → resolved urls t op.payload ≡ ok payload
      → IsSent client converters (element t) op payload
  unfolding IsSent RefersTo resolved
  resolved-IsSent urls h dimensions op payload e =
      let (name, url, named, here, made) =
        resolve_key-cases "reference" urls op.payload payload e in
      let (series, from, its, at) = h name url here in
      (name, series, named, from, its, rw (at) made)
  resolved-IsSent urls h float_facts op payload e = ground (arith, e)
  resolved-IsSent urls h string_facts op payload e = ground (arith, e)
  resolved-IsSent urls h text_facts op payload e = ground (arith, e)
  resolved-IsSent urls h timestamp_facts op payload e = ground (arith, e)
  resolved-IsSent urls h image_facts op payload e = ground (arith, e)
  resolved-IsSent urls h file_facts op payload e = ground (arith, e)
  resolved-IsSent urls h json_facts op payload e = ground (arith, e)
  resolved-IsSent urls h boolean_facts op payload e = ground (arith, e)
