-- ===== src/Client/Rest/Hidden.antt =====
-- The client that takes keys out of what a GET answers (client.py, FeatureHidingClient), for
-- instances that do not know of them.
pub mod Shows
use nfcompose.Shared.{String, Bool, ◌&&◌, is_some, List, [], ◌∷◌, if◌then◌else◌}
use nfcompose.Shared.Result.{Result, ok, err, type_error, ◌>>=◌}
use nfcompose.Shared.Value.{Value, list, dict, str, Items, nil, cons, Fields, end, field}
use nfcompose.Client.Rest.{Method, get, RestRequest, ApiClient, fields_get, json_get}
use text.Mathlib.Text.{◌==◌}

-- `obj.pop(feature)`. An object holds a key once.
unfoldable pub fields_pop : String → Fields → Fields
fields_pop key end = end
fields_pop key (field k v rest) =
    let later = fields_pop key rest in if k == key then later else field k v later

unfoldable pub has_field : Fields → String → Bool
has_field fields key = is_some (fields_get fields key)

-- `for feature in self.hidden_rest_features: if feature in obj: obj.pop(feature)`
unfoldable pub pop_features : List String → Fields → Fields
pop_features [] obj = obj
pop_features (feature ∷ features) obj =
    pop_features features (if has_field obj feature then fields_pop feature obj else obj)

-- `remove_features`: only an object is changed.
unfoldable pub remove_features : List String → Value → Value
remove_features features (dict obj) = dict (pop_features features obj)
remove_features features v = v

unfoldable pub remove_from_each : List String → Items → Items
remove_from_each features nil = nil
remove_from_each features (cons v rest) =
    cons (remove_features features v) (remove_from_each features rest)

-- `for result in ret['results']: remove_features(result)`: the keys of an object and the characters
-- of a text are no objects, and nothing else can be iterated.
unfoldable pub remove_from_results : List String → Value → Result Value
remove_from_results features (list results) = ok (list (remove_from_each features results))
remove_from_results features (dict fields) = ok (dict fields)
remove_from_results features (str s) = ok (str s)
remove_from_results features _ = err type_error

-- The objects of the results are changed where they stand.
unfoldable pub fields_set : String → Value → Fields → Fields
fields_set key v end = end
fields_set key v (field k w rest) =
    let later = fields_set key v rest in if k == key then field k v rest else field k w later

-- `set(['count', 'next', 'results']).issubset(ret.keys())`
unfoldable pub is_page : Fields → Bool
is_page ret = has_field ret "count" && (has_field ret "next" && has_field ret "results")

unfoldable pub hide_features : List String → Value → Result Value
hide_features features (list objs) = ok (list (remove_from_each features objs))
hide_features features (dict ret) =
    if is_page ret
    then (do
      results ← json_get (dict ret) "results"
      shown ← remove_from_results features results
      ok (dict (fields_set "results" shown ret)))
    else ok (remove_features features (dict ret))
hide_features features v = ok v

-- `FeatureHidingClient`: only `get` is overridden. The newest request is the first of the log.
unfoldable pub shown_answer : List String → Method → Result Value → Result Value
shown_answer features get (ok ret) = hide_features features ret
shown_answer features method result = result

unfoldable pub feature_hiding_client : List String → ApiClient → ApiClient
feature_hiding_client features client = record { base_url = client.base_url; answer = answer }
  where
    answer : List RestRequest → Result Value
    answer [] = client.answer []
    answer (r ∷ log) = shown_answer features r.method (client.answer (r ∷ log))
