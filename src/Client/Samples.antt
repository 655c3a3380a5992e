-- ===== src/Client/Samples.antt =====
-- Definitions that the tests of the client run on.
use nfcompose.Shared.{String, ℕ, refl, true, false, not, ◌&&◌, List, [], ◌∷◌, eqb}
use nfcompose.Shared.Dict.{keys, lookup}
use nfcompose.Shared.Sets.{last_seen}
use nfcompose.Shared.Value.{texts, str}
use nfcompose.Client.Models.{
  Runtime, texts_eq, Fact, Dimension, Consumer, DataSeries, GroupPermissionsOnObject,
  DataSeriesDefinition, EngineDefinition, HttpEndpointDefinition, GroupDefinition, DataPoint,
}
use nfcompose.Client.Operation.{Payload}
use nfcompose.Client.Serializer.{Serializer}
use nfcompose.Client.Diff.Groups.Transforms.{WritesPermissions}
use nfcompose.Client.Diff.DataSeries.{no_structure}

abbrev pub not_a_number : ℕ
not_a_number = 9221120237041090560

-- A set in the order of last occurrences; dictionaries are compared by their keys, and a float that is
-- not a number is not equal to itself.
abbrev pub runtime : Runtime
runtime = record {
  dict_eq = λ a b. texts_eq (keys a) (keys b);
  float_eq = λ a b. eqb a b && not (eqb a not_a_number);
  set_order = last_seen;
}

abbrev pub named : String → Payload
named x = ("name", str x) ∷ []

abbrev pub permissions_dict : GroupPermissionsOnObject → Payload
permissions_dict g = ("name", str g.name) ∷ ("group_permissions", texts g.group_permissions) ∷ []

abbrev pub serializer : Serializer
serializer = record {
  fact = λ f. named f.name;
  dimension = λ d. named d.name;
  index = λ x. named x.name;
  consumer = λ c. named c.name;
  data_series = λ d. named d.name;
  object_permissions = permissions_dict;
  engine = λ e. named e.upstream;
  engine_secret = λ s. named s.secret;
  http_endpoint = λ e. named e.path;
  group = λ g. named g.name;
  group_permissions = λ g. ("group_permissions", texts g.group_permissions) ∷ [];
}

abbrev pub alarm : Consumer
alarm = record {
  external_id = "alarm";
  target = "http://example.com/hook";
  name = "Alarm";
  headers = [];
  timeout = 4617315517961601024;
  retry_backoff_every = 1;
  retry_backoff_delay = "00:00:30";
  retry_max = 2;
  mode = "IN_ORDER";
}

pub writes : WritesPermissions permissions_dict
unfolding lookup
writes g = refl

abbrev pub temp : Fact
temp = record { external_id = "temp"; name = "Temperature"; optional = false }

abbrev pub temp_optional : Fact
temp_optional = record { external_id = "temp"; name = "Temperature"; optional = true }

abbrev pub wind : Fact
wind = record { external_id = "wind"; name = "Wind"; optional = true }

abbrev pub rain : Fact
rain = record { external_id = "rain"; name = "Rain"; optional = true }

abbrev pub base_facts : List Fact
base_facts = temp ∷ wind ∷ []

abbrev pub target_facts : List Fact
target_facts = rain ∷ temp_optional ∷ []

abbrev pub old_permissions : List GroupPermissionsOnObject
old_permissions = record { name = "staff"; group_permissions = "view" ∷ "change" ∷ [] } ∷ []

abbrev pub new_permissions : List GroupPermissionsOnObject
new_permissions =
    record { name = "staff"; group_permissions = "view" ∷ "delete" ∷ [] }
    ∷ record { name = "guests"; group_permissions = "view" ∷ [] }
    ∷ []

abbrev pub weather : DataSeries
weather = record {
  external_id = "weather";
  name = "Weather";
  backend = "DYNAMIC_SQL_NO_HISTORY";
  extra_config = [];
  allow_extra_fields = false;
}

abbrev pub station : Dimension
station = record {
  external_id = "station";
  name = "Station";
  optional = false;
  reference = "stations";
}

abbrev pub old_definition : DataSeriesDefinition
old_definition = record {
  data_series = weather;
  structure = record no_structure { float_facts = base_facts; dimensions = station ∷ [] };
  consumers = [];
  indexes = [];
  group_permissions = old_permissions;
}

abbrev pub new_definition : DataSeriesDefinition
new_definition = record {
  data_series = record weather { name = "Weather reports" };
  structure = record no_structure {
    float_facts = target_facts;
    dimensions = record station { reference = "sites" } ∷ [];
  };
  consumers = [];
  indexes = record { external_id = "i"; name = "by temp"; targets = [] } ∷ [];
  group_permissions = new_permissions;
}

abbrev pub point : String → String → DataPoint
point id temperature = record {
  external_id = id;
  payload = ("temp", str temperature) ∷ [];
  identify_dimensions_by_external_id = true;
}

abbrev pub old_points : List DataPoint
old_points = point "mon" "3" ∷ point "tue" "5" ∷ []

abbrev pub new_points : List DataPoint
new_points = point "tue" "6" ∷ point "wed" "7" ∷ []

abbrev pub node_red : EngineDefinition
node_red = record {
  engine = record { external_id = "node-red"; upstream = "http://node-red" };
  secret = record { secret = "s3cret" };
  group_permissions = old_permissions;
}

abbrev pub old_engines : List EngineDefinition
old_engines = node_red ∷ []

abbrev pub new_engines : List EngineDefinition
new_engines =
    record node_red { secret = record { secret = "changed" }; group_permissions = new_permissions }
    ∷ []

abbrev pub hello : HttpEndpointDefinition
hello = record {
  http_endpoint = record {
    engine = "node-red";
    external_id = "hello";
    path = "/hello";
    method = "GET";
    public = false;
  };
  group_permissions = new_permissions;
}

abbrev pub endpoints : List HttpEndpointDefinition
endpoints = hello ∷ []

abbrev pub no_endpoints : List HttpEndpointDefinition
no_endpoints = []

abbrev pub old_groups : List GroupDefinition
old_groups =
    record {
      group = record { name = "staff" };
      group_permissions = record { group_permissions = [] };
    }
    ∷ []

abbrev pub new_groups : List GroupDefinition
new_groups =
    record {
      group = record { name = "staff" };
      group_permissions = record { group_permissions = "view" ∷ [] };
    }
    ∷ []
