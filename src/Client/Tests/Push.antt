-- ===== src/Client/Tests/Push.antt =====
-- Runs of the pushers, and the theorems on them at inputs that meet their hypotheses.
use nfcompose.Shared.{◌≡◌, refl, true, none, List, [], ◌∷◌, map, ℕ}
use nfcompose.Shared.Result.{ok}
use nfcompose.Shared.Sets.{last_seen, last_seen-IsSetOrder}
use nfcompose.Shared.Value.{Value, null, dict, list, end, field, nil}
use nfcompose.Client.Operation.{create, delete, update, KeyedOperation}
use nfcompose.Client.Diff.Models.{DataSeriesDefinitionDiff}
use nfcompose.Client.Diff.Child.{list_diff_dataseries_child, operation}
use nfcompose.Client.Diff.Child.Latest.{latest}
use nfcompose.Client.Diff.Child.Transforms.{held, wanted}
use nfcompose.Client.Diff.Remote.{Transforms}
use nfcompose.Client.Rest.{
  Method, get, post, patch, RestRequest, ApiClient, ◌>>◌, ◌>>=◌, for_each, send, json_has,
  fields_get, pure, convert_all, json_get, lift, parse_page, read_paginated_all,
}
use nfcompose.Client.Rest.Sends.{Sends}
use nfcompose.Client.Push.{
  delete_indexes, if_indexes, of_type, delete_child, delete_structure_elements,
  structure_operations, delete_consumers, create_child, create_update_consumers,
  create_update_indexes, create_update_structure_elements, resolved, update_child,
  simple_child_migrate_delete, simple_child_migrate_create_update,
}
use nfcompose.Client.Push.Series.{
  Converters, push_data_series, delete_children, migrate_bare_data_series, create_series,
  create_update_children, delete_series, put_permission, put_permissions, read_data_series,
  read_groups, series_operations, update_series, written,
}
use nfcompose.Client.Push.Justified.{Justified}
use nfcompose.Client.Push.Safety.{push_data_series-Sends}
use nfcompose.Client.Push.Phases.{phases, request_for, logged, Answers, push_children-Transforms}
use nfcompose.Client.Push.Chunks.{chunks, concat, AreFull, chunks-AreFull-concat, chunks_within}
use nfcompose.Client.Serializer.{Serializer}
use nfcompose.Client.Serializer
use nfcompose.Client.Samples.{named, serializer, base_facts, target_facts}
use nfcompose.Skipper.Pagination.{take, drop}

-- The server has no objects, and answers every request with an empty page that knows of indexes.
abbrev pub empty_page : Value
empty_page = dict (field "results" (list nil) (field "next" null (field "indexes" (list nil) end)))

abbrev pub client : ApiClient
client = record { base_url = "https://nfcompose"; answer = λ log. ok empty_page }

abbrev converters : Converters
converters = record {
  data_series = λ json. ok (record { external_id = "weather"; url = "/weather/" });
  group = λ json. ok (record { name = "staff"; id = "1" });
  engine = λ json. ok (record { external_id = "engine"; url = "/engine/" });
}

-- The index on an old fact goes, the fact is replaced, and a consumer is renamed.
abbrev diff : DataSeriesDefinitionDiff
diff = record {
  external_id = "weather";
  data_series = none;
  structure = record {
    float_facts =
        operation delete "temp" (named "Temperature") ∷ operation create "temp" (named "Heat") ∷ [];
    string_facts = [];
    text_facts = [];
    timestamp_facts = [];
    image_facts = [];
    file_facts = [];
    json_facts = [];
    boolean_facts = [];
    dimensions = [];
  };
  group_permissions = [];
  consumers = operation update "alarm" (named "Alarm") ∷ [];
  indexes = operation delete "by_temp" (named "By temperature") ∷ [];
}

push_data_series-Sends_example :
    Sends
      (Justified client converters (diff ∷ []))
      (push_data_series client converters 1 (diff ∷ []))
push_data_series-Sends_example = push_data_series-Sends client converters 1 (diff ∷ [])

pub answers : Answers client
answers log = (empty_page, refl)

push_children-Transforms_example :
    (os : List KeyedOperation) × (list_diff_dataseries_child last_seen
        (Serializer.facts serializer)
        base_facts
        target_facts
        true
        (λ b t. true)
      ≡ ok os)
    × ((simple_child_migrate_delete client "weather" "floatfact" os
            >> simple_child_migrate_create_update client "weather" "floatfact" os)
          []
        ≡ (ok tt, logged (map (request_for client "weather" "floatfact") (phases os)) []))
    × Transforms
        (λ k.
          held
            (Serializer.facts serializer)
            (latest (Serializer.facts serializer).key k base_facts))
        (λ k.
          wanted
            (Serializer.facts serializer)
            true
            (latest (Serializer.facts serializer).key k base_facts)
            (latest (Serializer.facts serializer).key k target_facts))
        (phases os)
push_children-Transforms_example =
    push_children-Transforms (Serializer.facts serializer) last_seen-IsSetOrder base_facts
      target_facts true (λ b t. true) client answers "weather" "floatfact" []

chunks-AreFull-concat_example :
    (xss : List (List ℕ)) × (chunks (1 ∷ 2 ∷ 3 ∷ []) 2 ≡ ok xss)
    × (concat xss ≡ 1 ∷ 2 ∷ 3 ∷ [])
    × AreFull 2 xss
chunks-AreFull-concat_example = chunks-AreFull-concat (1 ∷ 2 ∷ 3 ∷ []) 1

chunks_run : chunks {A = ℕ} (1 ∷ 2 ∷ 3 ∷ []) 2 ≡ ok ((1 ∷ 2 ∷ []) ∷ (3 ∷ []) ∷ [])
unfolding chunks chunks_within take drop
chunks_run = refl

abbrev method_of : RestRequest → Method
method_of r = r.method

-- The requests, the last one first.
push_run :
    map method_of (push_data_series client converters 1 (diff ∷ []) []).1
    ≡ get ∷ get ∷ patch ∷ post ∷ get ∷ Method.delete ∷ Method.delete ∷ get ∷ []
unfolding push_data_series delete_children migrate_bare_data_series create_series
    create_update_children delete_series put_permission put_permissions read_data_series read_groups
    series_operations update_series written delete_indexes if_indexes of_type delete_child
    delete_structure_elements structure_operations delete_consumers create_child
    create_update_consumers create_update_indexes create_update_structure_elements resolved
    update_child simple_child_migrate_delete simple_child_migrate_create_update ◌>>=◌ for_each send
    json_has fields_get pure convert_all json_get lift parse_page read_paginated_all
push_run = refl
