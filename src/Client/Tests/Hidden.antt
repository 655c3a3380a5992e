-- ===== src/Client/Tests/Hidden.antt =====
-- Runs of the client that hides keys, and the theorem on it at one request.
use nfcompose.Shared.{◌≡◌, refl, none, [], ◌∷◌}
use nfcompose.Shared.Result.{ok}
use nfcompose.Shared.Value.{Value, null, str, int, pos, list, dict, nil, cons, end, field}
use nfcompose.Client.Rest.{get, RestRequest, ApiClient, fields_get, json_get}
use nfcompose.Client.Rest.Hidden.{
  fields_pop, has_field, pop_features, remove_features, remove_from_each, remove_from_results,
  fields_set, is_page, hide_features, feature_hiding_client,
}
use nfcompose.Client.Rest.Hidden.Shows.{ShowsIfGet, feature_hiding_client-Shows}

abbrev json_page : Value → Value
json_page results =
    dict (field "count" (int (pos 1)) (field "next" null (field "results" results end)))

-- A page with one fact that knows of units, and the same page for an instance that does not.
abbrev page : Value
page = json_page (list (cons (dict (field "unit" (str "K") (field "name" (str "Heat") end))) nil))

abbrev shown_page : Value
shown_page = json_page (list (cons (dict (field "name" (str "Heat") end)) nil))

abbrev client : ApiClient
client = record { base_url = "https://nfcompose"; answer = λ log. ok page }

abbrev request : RestRequest
request = record { method = get; url = "https://nfcompose/facts/"; json = none }

hide_features_run : hide_features ("unit" ∷ []) page ≡ ok shown_page
unfolding hide_features is_page has_field remove_from_results remove_from_each remove_features
    pop_features fields_pop fields_set fields_get json_get
hide_features_run = refl

feature_hiding_client-Shows_example :
    ShowsIfGet
      ("unit" ∷ [])
      get
      (client.answer (request ∷ []))
      ((feature_hiding_client ("unit" ∷ []) client).answer (request ∷ []))
feature_hiding_client-Shows_example = feature_hiding_client-Shows ("unit" ∷ []) client request []
