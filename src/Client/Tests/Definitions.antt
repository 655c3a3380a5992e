-- ===== src/Client/Tests/Definitions.antt =====
-- Runs of the diffs of engines, endpoints and groups, and its theorems at inputs that meet their hypotheses.
use nfcompose.Shared.{String, ◌≡◌, true, false, ◌||◌, List, map, contains, Distinct, is_some}
use nfcompose.Shared.Result.{ok}
use nfcompose.Shared.Sets.{last_seen-IsSetOrder}
use nfcompose.Client.Diff.Models.{
  EngineDefinitionDiff, HttpEndpointDefinitionDiff, GroupDefinitionDiff,
}
use nfcompose.Client.Diff.Child.Latest.{latest}
use nfcompose.Client.Diff.All.Covers.{All}
use nfcompose.Client.Diff.Engines.{diff_all_engine_definitions}
use nfcompose.Client.Diff.Engines.Reaches as EngineReaches
use nfcompose.Client.Diff.HttpEndpoints.{diff_all_http_endpoint_definitions}
use nfcompose.Client.Diff.HttpEndpoints.Reaches as EndpointReaches
use nfcompose.Client.Diff.UserGroups.{diff_all_group_definitions}
use nfcompose.Client.Diff.UserGroups.Reaches as GroupReaches
use nfcompose.Client.Samples.{
  runtime, serializer, writes, old_engines, new_engines, endpoints, no_endpoints, old_groups,
  new_groups,
}

diff_all_engine_definitions-Reaches_example :
    (ds : List EngineDefinitionDiff) × (diff_all_engine_definitions runtime serializer true false
        old_engines new_engines
      ≡ ok ds)
    × Distinct (map (λ (d : EngineDefinitionDiff). d.external_id) ds)
    × ((k : String)
        → contains (map (λ (d : EngineDefinitionDiff). d.external_id) ds) k ≡ (
            is_some (latest EngineReaches.engine_key k old_engines)
            || is_some (latest EngineReaches.engine_key k new_engines)))
    × All
        (λ (d : EngineDefinitionDiff).
          EngineReaches.ReachesEngine serializer true false
            (latest EngineReaches.engine_key (d.external_id) old_engines)
            (latest EngineReaches.engine_key (d.external_id) new_engines)
            d)
        ds
diff_all_engine_definitions-Reaches_example =
    EngineReaches.diff_all_engine_definitions-Reaches runtime serializer last_seen-IsSetOrder writes
      true false old_engines new_engines

diff_all_http_endpoint_definitions-Reaches_example :
    (ds : List HttpEndpointDefinitionDiff) × (diff_all_http_endpoint_definitions runtime serializer
        true true endpoints no_endpoints
      ≡ ok ds)
    × Distinct (map (λ (d : HttpEndpointDefinitionDiff). d.external_id) ds)
    × ((k : String)
        → contains (map (λ (d : HttpEndpointDefinitionDiff). d.external_id) ds) k ≡ (
            is_some (latest EndpointReaches.http_endpoint_key k endpoints)
            || is_some (latest EndpointReaches.http_endpoint_key k no_endpoints)))
    × All
        (λ (d : HttpEndpointDefinitionDiff).
          EndpointReaches.ReachesHttpEndpoint serializer true true
            (latest EndpointReaches.http_endpoint_key (d.external_id) endpoints)
            (latest EndpointReaches.http_endpoint_key (d.external_id) no_endpoints)
            d)
        ds
diff_all_http_endpoint_definitions-Reaches_example =
    EndpointReaches.diff_all_http_endpoint_definitions-Reaches runtime serializer
      last_seen-IsSetOrder writes true true endpoints no_endpoints

diff_all_group_definitions-Reaches_example :
    (ds : List GroupDefinitionDiff) × (diff_all_group_definitions runtime serializer true old_groups
        new_groups
      ≡ ok ds)
    × Distinct (map (λ (d : GroupDefinitionDiff). d.name) ds)
    × ((k : String)
        → contains (map (λ (d : GroupDefinitionDiff). d.name) ds) k ≡ (
            is_some (latest GroupReaches.group_key k old_groups)
            || is_some (latest GroupReaches.group_key k new_groups)))
    × All
        (λ (d : GroupDefinitionDiff).
          GroupReaches.ReachesGroup serializer true
            (latest GroupReaches.group_key (d.name) old_groups)
            (latest GroupReaches.group_key (d.name) new_groups)
            d)
        ds
diff_all_group_definitions-Reaches_example =
    GroupReaches.diff_all_group_definitions-Reaches runtime serializer last_seen-IsSetOrder true
      old_groups new_groups
