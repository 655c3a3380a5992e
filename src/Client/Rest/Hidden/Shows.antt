-- ===== src/Client/Rest/Hidden/Shows.antt =====
-- What the client that hides keys answers (client.py, FeatureHidingClient).
use nfcompose.Shared.{
  String, ◌≡◌, refl, Bool, true, false, ◌&&◌, none, some, List, [], ◌∷◌, contains, ◌⊎◌, inl, inr,
  Bool-cases, Option-cases, arith, if◌then◌else◌,
}
use nfcompose.Shared.Result.{Result, ok, err, type_error, ◌>>=◌}
use nfcompose.Shared.Value.{
  Value, null, bool, int, float, str, datetime, object, list, dict, Items, nil, cons, Fields, end,
  field,
}
use nfcompose.Client.Rest.{
  Method, get, post, put, patch, RestRequest, ApiClient, fields_get, json_get,
}
use nfcompose.Client.Rest.Hidden.{
  fields_pop, has_field, pop_features, remove_features, remove_from_each, remove_from_results,
  fields_set, is_page, hide_features, shown_answer, feature_hiding_client,
}
use text.Mathlib.Text.{◌==◌}
use text.Mathlib.TextEquality.{eq_iff}

fields_get-fields_pop :
    (j k : String) (obj : Fields)
    → fields_get (fields_pop k obj) j ≡ (if k == j then none else fields_get obj j)
unfolding fields_get fields_pop
fields_get-fields_pop j k end = ground arith
fields_get-fields_pop j k (field i v rest) =
    ground (arith, eq_iff k j, eq_iff i k, eq_iff i j, fields_get-fields_pop j k rest)

fields_get-fields_set :
    (j k : String) (v : Value) (obj : Fields)
    → fields_get (fields_set k v obj) j
      ≡ (if k == j && has_field obj k then some v else fields_get obj j)
unfolding fields_get fields_set has_field
fields_get-fields_set j k v end = ground arith
fields_get-fields_set j k v (field i w rest) =
    ground (arith, eq_iff k j, eq_iff i k, eq_iff i j, fields_get-fields_set j k v rest)

fields_get-pop_features :
    (features : List String) (obj : Fields) (key : String)
    → fields_get (pop_features features obj) key
      ≡ (if contains features key then none else fields_get obj key)
unfolding pop_features has_field
fields_get-pop_features [] obj key = refl
fields_get-pop_features (feature ∷ features) obj key = ground (
  arith,
  eq_iff feature key,
  fields_get-fields_pop key feature obj,
  fields_get-pop_features features obj key,
  fields_get-pop_features features (fields_pop feature obj) key,
)

-- Of an object the hidden keys are gone and all else is there, any other value is the same.
IsShown : List String → Value → Value → Type 0
IsShown features (dict obj) after =
    (shown : Fields) × (after ≡ dict shown)
    × ((key : String)
        → fields_get shown key ≡ (if contains features key then none else fields_get obj key))
IsShown features v after = after ≡ v

AreShown : List String → Items → Items → Type 0
AreShown features nil nil = Unit
AreShown features (cons v vs) (cons w ws) = IsShown features v w × AreShown features vs ws
AreShown features _ _ = ⊥

-- A list is shown element by element, an object or a text in its place as it is.
IsShownList : List String → Value → Value → Type 0
IsShownList features (list objs) after =
    (shown : Items) × (after ≡ list shown) × AreShown features objs shown
IsShownList features v after = after ≡ v

-- What `for` goes over without an exception.
unfoldable pub is_iterated : Value → Bool
is_iterated (list objs) = true
is_iterated (dict obj) = true
is_iterated (str s) = true
is_iterated v = false

-- Of a page only the results are changed.
IsShownPage : List String → Fields → Value → Type 0
IsShownPage features page after =
    (shown : Fields) × (after ≡ dict shown)
    × ((key : String) → (key == "results") ≡ false → fields_get shown key ≡ fields_get page key)
    × (results : Value) × (shown_results : Value) × (fields_get page "results" ≡ some results)
    × (fields_get shown "results" ≡ some shown_results)
    × (is_iterated results ≡ true)
    × IsShownList features results shown_results

-- The exception is the TypeError of a page whose results cannot be gone over.
Shows : List String → Value → Result Value → Type 0
Shows features (dict obj) (ok after) =
    ((is_page obj ≡ true) × IsShownPage features obj after)
    ⊎ ((is_page obj ≡ false) × IsShown features (dict obj) after)
Shows features (dict obj) (err e) =
    (is_page obj ≡ true)
    × (e ≡ type_error)
    × (results : Value) × (fields_get obj "results" ≡ some results)
    × (is_iterated results ≡ false)
Shows features v (ok after) = IsShownList features v after
Shows features v (err e) = ⊥

remove_features-IsShown :
    (features : List String) (v : Value) → IsShown features v (remove_features features v)
unfolding IsShown remove_features
remove_features-IsShown features (dict obj) = (_, refl, fields_get-pop_features features obj)
remove_features-IsShown features null = refl
remove_features-IsShown features (bool b) = refl
remove_features-IsShown features (int n) = refl
remove_features-IsShown features (float n) = refl
remove_features-IsShown features (str s) = refl
remove_features-IsShown features (datetime n) = refl
remove_features-IsShown features (object n) = refl
remove_features-IsShown features (list xs) = refl

remove_from_each-AreShown :
    (features : List String) (vs : Items) → AreShown features vs (remove_from_each features vs)
unfolding AreShown remove_from_each
remove_from_each-AreShown features nil = tt
remove_from_each-AreShown features (cons v vs) =
    (remove_features-IsShown features v, remove_from_each-AreShown features vs)

-- The page after its results were shown.
with_results : Fields → Value → Result Value
with_results obj shown = ok (dict (fields_set "results" shown obj))

set_results :
    (features : List String) (obj : Fields) (results shown : Value)
    → is_page obj ≡ true
    → fields_get obj "results" ≡ some results
    → is_iterated results ≡ true
    → IsShownList features results shown
    → Shows features (dict obj) (with_results obj shown)
unfolding Shows IsShownPage with_results has_field
set_results features obj results shown page e iterated done = inl (
  page,
  (
    fields_set "results" shown obj,
    refl,
    (λ key other. ground (
      arith,
      fields_get-fields_set key "results" shown obj,
      eq_iff key "results",
      eq_iff "results" key,
    )),
    results,
    shown,
    e,
    rw (fields_get-fields_set "results" "results" shown obj, e) refl,
    iterated,
    done,
  ),
)

page-results :
    (obj : Fields)
    → is_page obj ≡ true
    → (results : Value) × (fields_get obj "results" ≡ some results)
unfolding is_page has_field
page-results obj page = elim (Option-cases (fields_get obj "results")) [
  | inl missing ↦ absurd (ground (arith, missing))
  | inr found ↦ found
]

page_outcome :
    (features : List String) (obj : Fields) (results : Value)
    → is_page obj ≡ true
    → fields_get obj "results" ≡ some results
    → Shows features (dict obj) (remove_from_results features results >>= with_results obj)
unfolding Shows IsShownList remove_from_results is_iterated with_results
page_outcome features obj (list objs) page e =
    set_results features obj _ _ page e refl (_, refl, remove_from_each-AreShown features objs)
page_outcome features obj (dict fields) page e = set_results features obj _ _ page e refl refl
page_outcome features obj (str s) page e = set_results features obj _ _ page e refl refl
page_outcome features obj null page e = (page, refl, _, e, refl)
page_outcome features obj (bool b) page e = (page, refl, _, e, refl)
page_outcome features obj (int n) page e = (page, refl, _, e, refl)
page_outcome features obj (float n) page e = (page, refl, _, e, refl)
page_outcome features obj (datetime n) page e = (page, refl, _, e, refl)
page_outcome features obj (object n) page e = (page, refl, _, e, refl)

hide_features-Shows :
    (features : List String) (v : Value) → Shows features v (hide_features features v)
unfolding Shows hide_features IsShownList with_results json_get
hide_features-Shows features (dict obj) = elim (Bool-cases (is_page obj)) [
  | inl page ↦
      let (results, e) = page-results obj page in
      rw (page, e) (page_outcome features obj results page e)
  | inr other ↦ rw (other) (inr (other, remove_features-IsShown features (dict obj)))
]
hide_features-Shows features null = refl
hide_features-Shows features (bool b) = refl
hide_features-Shows features (int n) = refl
hide_features-Shows features (float n) = refl
hide_features-Shows features (str s) = refl
hide_features-Shows features (datetime n) = refl
hide_features-Shows features (object n) = refl
hide_features-Shows features (list objs) =
    (remove_from_each features objs, refl, remove_from_each-AreShown features objs)

-- The answer to a request with this method.
pub ShowsIfGet : List String → Method → Result Value → Result Value → Type 0
ShowsIfGet features get (ok ret) shown = Shows features ret shown
ShowsIfGet features method result shown = shown ≡ result

-- What a client that hides keys gives for a request, for every answer to it. A GET: a page that has a
-- count, a next page and results keeps all but its results, and any other object loses the hidden
-- keys and nothing else; the objects of a list, and those of the results of a page, each lose the
-- hidden keys and nothing else, the rest of the list is the same and in the same order. The one
-- exception it adds is the TypeError of a page whose results cannot be iterated, and a page that it
-- returns has results that can. The answers to all other requests, and exceptions, are as they came.
pub feature_hiding_client-Shows :
    (features : List String) (client : ApiClient) (r : RestRequest) (log : List RestRequest)
    → ShowsIfGet features r.method
        (client.answer (r ∷ log))
        ((feature_hiding_client features client).answer (r ∷ log))
unfolding ShowsIfGet feature_hiding_client shown_answer
feature_hiding_client-Shows features client r log = by_method r.method (client.answer (r ∷ log))
  where
    by_method :
        (method : Method) (result : Result Value)
        → ShowsIfGet features method result (shown_answer features method result)
    by_method get (ok ret) = hide_features-Shows features ret
    by_method get (err e) = refl
    by_method post result = refl
    by_method put result = refl
    by_method patch result = refl
    by_method Method.delete result = refl
