-- ===== src/Client/Models.antt =====
-- The dataclasses of client/compose_client/library/models/definition. `@dataclass` gives each class
-- an `==` that compares the fields in turn; it is written out here. `to_dict` comes from the
-- package dataclasses_json: the client's code reaches it through `Serializer`.
use nfcompose.Shared.{ℕ, String, Bool, true, false, ◌&&◌, List, [], ◌∷◌, ◌==◌, eqb}
use nfcompose.Shared.Dict.{Dict}
use nfcompose.Shared.Value.{Value}

-- What the dataclasses leave to the interpreter: `==` of dictionaries, `==` of floats, and the
-- iteration order of a set.
pub record Runtime : Type 0 where
  pub dict_eq : Dict Value → Dict Value → Bool
  pub float_eq : ℕ → ℕ → Bool
  pub set_order : List String → List String

unfoldable pub bool_eq : Bool → Bool → Bool
bool_eq true true = true
bool_eq false false = true
bool_eq _ _ = false

unfoldable pub texts_eq : List String → List String → Bool
texts_eq [] [] = true
texts_eq (x ∷ xs) (y ∷ ys) = x == y && texts_eq xs ys
texts_eq _ _ = false

-- FloatFact, StringFact, TextFact, TimestampFact, ImageFact, FileFact, JsonFact and BooleanFact
-- have the fields of BaseFact and no more.
pub record Fact : Type 0 where
  pub external_id : String
  pub name : String
  pub optional : Bool

unfoldable pub Fact_eq : Fact → Fact → Bool
unfolding bool_eq
Fact_eq a b = a.external_id == b.external_id && a.name == b.name && bool_eq a.optional b.optional

pub record Dimension : Type 0 where
  pub external_id : String
  pub name : String
  pub optional : Bool
  pub reference : String

unfoldable pub Dimension_eq : Dimension → Dimension → Bool
unfolding bool_eq
Dimension_eq a b =
    a.external_id == b.external_id
    && a.name == b.name
    && bool_eq a.optional b.optional
    && a.reference == b.reference

pub record IndexTarget : Type 0 where
  pub target_external_id : String
  pub target_type : String

unfoldable pub targets_eq : List IndexTarget → List IndexTarget → Bool
targets_eq [] [] = true
targets_eq (x ∷ xs) (y ∷ ys) =
    (x.target_external_id == y.target_external_id && x.target_type == y.target_type)
    && targets_eq xs ys
targets_eq _ _ = false

pub record Index : Type 0 where
  pub external_id : String
  pub name : String
  pub targets : List IndexTarget

unfoldable pub Index_eq : Index → Index → Bool
unfolding targets_eq
Index_eq a b = a.external_id == b.external_id && a.name == b.name && targets_eq a.targets b.targets

pub record Consumer : Type 0 where
  pub external_id : String
  pub target : String
  pub name : String
  pub headers : Dict Value
  pub timeout : ℕ
  pub retry_backoff_every : ℕ
  pub retry_backoff_delay : String
  pub retry_max : ℕ
  pub mode : String

unfoldable pub Consumer_eq : Runtime → Consumer → Consumer → Bool
Consumer_eq rt a b =
    a.external_id == b.external_id
    && a.target == b.target
    && a.name == b.name
    && rt.dict_eq a.headers b.headers
    && rt.float_eq a.timeout b.timeout
    && eqb a.retry_backoff_every b.retry_backoff_every
    && a.retry_backoff_delay == b.retry_backoff_delay
    && eqb a.retry_max b.retry_max
    && a.mode == b.mode

pub record DataSeries : Type 0 where
  pub external_id : String
  pub name : String
  pub backend : String
  pub extra_config : Dict Value
  pub allow_extra_fields : Bool

unfoldable pub DataSeries_eq : Runtime → DataSeries → DataSeries → Bool
unfolding bool_eq
DataSeries_eq rt a b =
    a.external_id == b.external_id
    && a.name == b.name
    && a.backend == b.backend
    && rt.dict_eq a.extra_config b.extra_config
    && bool_eq a.allow_extra_fields b.allow_extra_fields

-- DataSeriesGroupPermissions, EngineGroupPermissions and HttpEndpointGroupPermissions: what a group
-- may do with one object.
pub record GroupPermissionsOnObject : Type 0 where
  pub name : String
  pub group_permissions : List String

unfoldable pub GroupPermissionsOnObject_eq :
    GroupPermissionsOnObject → GroupPermissionsOnObject → Bool
unfolding texts_eq
GroupPermissionsOnObject_eq a b =
    a.name == b.name && texts_eq a.group_permissions b.group_permissions

pub record DataSeriesStructure : Type 0 where
  pub float_facts : List Fact
  pub string_facts : List Fact
  pub text_facts : List Fact
  pub timestamp_facts : List Fact
  pub image_facts : List Fact
  pub file_facts : List Fact
  pub json_facts : List Fact
  pub boolean_facts : List Fact
  pub dimensions : List Dimension

pub record DataSeriesDefinition : Type 0 where
  pub data_series : DataSeries
  pub structure : DataSeriesStructure
  pub consumers : List Consumer
  pub indexes : List Index
  pub group_permissions : List GroupPermissionsOnObject

pub record Engine : Type 0 where
  pub external_id : String
  pub upstream : String

unfoldable pub Engine_eq : Engine → Engine → Bool
Engine_eq a b = a.external_id == b.external_id && a.upstream == b.upstream

pub record EngineSecret : Type 0 where
  pub secret : String

unfoldable pub EngineSecret_eq : EngineSecret → EngineSecret → Bool
EngineSecret_eq a b = a.secret == b.secret

pub record EngineDefinition : Type 0 where
  pub engine : Engine
  pub secret : EngineSecret
  pub group_permissions : List GroupPermissionsOnObject

pub record HttpEndpoint : Type 0 where
  pub engine : String
  pub external_id : String
  pub path : String
  pub method : String
  pub public : Bool

unfoldable pub HttpEndpoint_eq : HttpEndpoint → HttpEndpoint → Bool
unfolding bool_eq
HttpEndpoint_eq a b =
    a.engine == b.engine
    && a.external_id == b.external_id
    && a.path == b.path
    && a.method == b.method
    && bool_eq a.public b.public

pub record HttpEndpointDefinition : Type 0 where
  pub http_endpoint : HttpEndpoint
  pub group_permissions : List GroupPermissionsOnObject

pub record Group : Type 0 where
  pub name : String

pub record GroupPermissions : Type 0 where
  pub group_permissions : List String

pub record GroupDefinition : Type 0 where
  pub group : Group
  pub group_permissions : GroupPermissions

pub record DataPoint : Type 0 where
  pub external_id : String
  pub payload : Dict Value
  pub identify_dimensions_by_external_id : Bool

unfoldable pub DataPoint_eq : Runtime → DataPoint → DataPoint → Bool
unfolding bool_eq
DataPoint_eq rt a b =
    a.external_id == b.external_id
    && rt.dict_eq a.payload b.payload
    && bool_eq a.identify_dimensions_by_external_id b.identify_dimensions_by_external_id
