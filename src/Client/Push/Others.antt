-- ===== src/Client/Push/Others.antt =====
-- The pushers of engines, HTTP endpoints, user groups and views of
-- client/compose_client/library/service/pusher.py, and the chunks that data points are sent in.
use nfcompose.Shared.{String, ℕ, Bool, false, Option, none, some, List, [], ◌∷◌, if◌then◌else◌}
use nfcompose.Shared.Dict.{Dict, getitem, insert}
use nfcompose.Shared.Value.{Value, texts}
use nfcompose.Client.Operation.{OperationType, create, update, KeyedOperation, Operation, Payload}
use nfcompose.Client.Diff.Models.{
  EngineDefinitionDiff, HttpEndpointDefinitionDiff, GroupDefinitionDiff,
}
use nfcompose.Client.Rest.{
  Method, get, post, put, patch, ApiClient, Action, pure, lift, ◌>>=◌, ◌>>◌, send, url_of, for_each,
  json_get, json_first, as_text, read_paginated_all,
}
use nfcompose.Shared.Texts.{joined}
use nfcompose.Client.Push.{key_text, is_type, base_path, resolve_key}
use nfcompose.Client.Push.Series.{Converters, RawEngine, has_type, id_by_name, read_groups}

abbrev pub plain_type : Option Operation → OperationType → Bool
plain_type none t = false
plain_type (some op) t = is_type op.operation_type t

-- `urlencode` of one key is a parameter, which `find_url` is given the result of.
module _ (client : ApiClient) (urlencode : String → String → String) where
  -- `client.get(…)['results'][0]`
  unfoldable pub find_one : String → String → String → Action Value
  find_one path key name = do
    page ← send client get (url_of client (joined (path ∷ "?" ∷ urlencode key name ∷ []))) none
    results ← lift (json_get page "results")
    lift (json_first results)

  -- One entry of it, which is a URL.
  unfoldable pub find_url : String → String → String → String → Action String
  find_url path key name entry = do
    found ← find_one path key name
    url ← lift (json_get found entry)
    lift (as_text url)

  abbrev pub engine_path : String
  engine_path = "/api/flow/engine/"

  abbrev pub endpoint_path : String
  endpoint_path = "/api/flow/httpendpoint/"

  abbrev pub group_path : String
  group_path = "/api/common/auth/group/"

  abbrev pub done : Action Value → Action Unit
  done sent = do _ ← sent; pure tt

  -- Each part of a push is a statement `if operation_type == …`.
  abbrev pub on_keyed :
      Option KeyedOperation → OperationType → (Payload → Action Unit) → Action Unit
  on_keyed none t body = pure tt
  on_keyed (some op) t body = if is_type op.operation_type t then body op.payload else pure tt

  abbrev pub on_plain : Option Operation → OperationType → (Payload → Action Unit) → Action Unit
  on_plain none t body = pure tt
  on_plain (some op) t body = if is_type op.operation_type t then body op.payload else pure tt

  unfoldable pub put_object_permission : Dict String → String → KeyedOperation → Action Unit
  put_object_permission ids url change =
      if is_type change.operation_type OperationType.delete then pure tt else (do
        id ← lift (getitem ids (key_text change.key))
        done (
            send client put (joined (url ∷ "permission/group/" ∷ id ∷ "/" ∷ []))
              (some change.payload)))

  unfoldable pub push_engine : Dict String → EngineDefinitionDiff → Action Unit
  push_engine ids diff = do
    on_plain diff.secret OperationType.delete (λ _. do
      url ← find_url engine_path "external_id" diff.external_id "secret"
      done (send client Method.delete url none))
    on_keyed diff.engine OperationType.delete (λ _. do
      url ← find_url engine_path "external_id" diff.external_id "url"
      done (send client Method.delete (joined (url ∷ "?cascade_delete" ∷ [])) none))
    on_keyed diff.engine create
        (λ payload. done (send client post (url_of client engine_path) (some payload)))
    on_keyed diff.engine update (λ payload. do
      url ← find_url engine_path "external_id" diff.external_id "url"
      done (send client patch url (some payload)))
    on_plain diff.secret create (λ payload. do
      url ← find_url engine_path "external_id" diff.external_id "secret"
      done (send client put url (some payload)))
    on_plain diff.secret update (λ payload. do
      url ← find_url engine_path "external_id" diff.external_id "secret"
      done (send client put url (some payload)))
    (if has_type diff.engine OperationType.delete then pure tt else (do
      url ← find_url engine_path "external_id" diff.external_id "url"
      for_each diff.group_permissions (put_object_permission ids url)))

  unfoldable pub push_http_endpoint :
      Dict String → Dict String → HttpEndpointDefinitionDiff → Action Unit
  push_http_endpoint ids engines diff = do
    on_keyed diff.http_endpoint OperationType.delete (λ _. do
      url ← find_url endpoint_path "external_id" diff.external_id "url"
      done (send client Method.delete url none))
    on_keyed diff.http_endpoint create (λ payload. do
      with_url ← lift (resolve_key "engine" engines payload)
      done (send client post (url_of client endpoint_path) (some with_url)))
    on_keyed diff.http_endpoint update (λ payload. do
      with_url ← lift (resolve_key "engine" engines payload)
      url ← find_url endpoint_path "external_id" diff.external_id "url"
      done (send client patch url (some with_url)))
    (if has_type diff.http_endpoint OperationType.delete then pure tt else (do
      url ← find_url endpoint_path "external_id" diff.external_id "url"
      for_each diff.group_permissions (put_object_permission ids url)))

  unfoldable pub push_group : GroupDefinitionDiff → Action Unit
  push_group diff = do
    on_plain diff.group_permissions OperationType.delete (λ _. do
      url ← find_url group_path "name" diff.name "permissions"
      done (send client put url (some (("group_permissions", texts []) ∷ []))))
    on_keyed diff.group OperationType.delete (λ _. do
      url ← find_url group_path "name" diff.name "url"
      done (send client Method.delete url none))
    on_keyed diff.group create
        (λ payload. done (send client post (url_of client group_path) (some payload)))
    on_keyed diff.group update (λ payload. do
      url ← find_url group_path "name" diff.name "url"
      done (send client put url (some payload)))
    on_plain diff.group_permissions create (λ payload. do
      url ← find_url group_path "name" diff.name "permissions"
      done (send client put url (some payload)))
    on_plain diff.group_permissions update (λ payload. do
      url ← find_url group_path "name" diff.name "permissions"
      done (send client put url (some payload)))

  unfoldable pub push_groups : List GroupDefinitionDiff → Action Unit
  push_groups diffs = for_each diffs push_group

  abbrev pub engine_urls : Dict String → List RawEngine → Dict String
  engine_urls urls [] = urls
  engine_urls urls (engine ∷ rest) = engine_urls (insert engine.external_id engine.url urls) rest

  module _ (converters : Converters) (pages : ℕ) where
    unfoldable pub push_engines : List EngineDefinitionDiff → Action Unit
    push_engines diffs = do
      groups ← read_groups client converters pages
      for_each diffs (push_engine (id_by_name [] groups))

    unfoldable pub read_engines : Action (List RawEngine)
    read_engines =
        read_paginated_all converters.engine client "results" pages
          (some (url_of client engine_path)) []

    unfoldable pub push_http_endpoints : List HttpEndpointDefinitionDiff → Action Unit
    push_http_endpoints diffs = do
      groups ← read_groups client converters pages
      engines ← read_engines
      for_each diffs (push_http_endpoint (id_by_name [] groups) (engine_urls [] engines))

-- DataSeriesCreateViewOperation, with `to_dict` of its settings.
pub record CreateViewOperation : Type 0 where
  pub data_series_external_id : String
  pub settings : Payload

unfoldable pub push_create_views : ApiClient → List CreateViewOperation → Action Unit
push_create_views client operations = for_each operations (λ op. do
  _ ←
      send client post
        (url_of client (joined (base_path ∷ op.data_series_external_id ∷ "/createview/" ∷ [])))
        (some op.settings)
  pure tt)
