-- ===== src/Client/Operation.antt =====
-- client/compose_client/library/models/operation/general.py and identifiable.py: the operations
-- that a diff consists of, and the interface of the objects that it compares.
use nfcompose.Shared.{String, Bool, false, Option}
use nfcompose.Shared.Dict.{Dict}
use nfcompose.Shared.Value.{Value}

pub data OperationType : Type 0 where
  create delete update : OperationType

-- What `to_dict` returns.
abbrev pub Payload : Type 0
Payload = Dict Value

pub record Operation : Type 0 where
  pub operation_type : OperationType
  pub payload : Payload

-- ExternalIdOperation and NameOperation have the same fields, but that the key of the first is
-- called `external_id` and that of the second `name`.
pub record KeyedOperation : Type 0 where
  pub operation_type : OperationType
  pub key : Option String
  pub payload : Payload

-- All operations are by definition not empty.
unfoldable pub operation_empty : Operation → Bool
operation_empty o = false

unfoldable pub keyed_operation_empty : KeyedOperation → Bool
keyed_operation_empty o = false

-- `Identifiable`, with `key` for `external_id`; `IdentifiableByName`, with `key` for `name`.
-- `eq` is the class's `==`.
pub record Identifiable (A : Type 0) : Type 0 where
  pub key : A → String
  pub to_dict : A → Payload
  pub eq : A → A → Bool
