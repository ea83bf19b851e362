-- ===== src/EntitySchema.antt =====
-- include/fsnet/entity_schema.hpp: the schema of an entity's attributes and methods, and the identity
-- of a caller.
pub mod Valid
pub mod Definition
pub mod Carrier
pub mod Views
pub mod Collected
pub mod Sound
pub mod Publish
pub mod History
pub mod Shown
pub mod Bridge
pub mod Total
pub mod Prepared
pub mod Staged
pub mod Budget
pub mod Created
pub mod Restored
pub mod Reachable
pub mod Tests
use fsnet.Base.{ℕ, Bool, true, false, not, ◌&&◌, if◌then◌else◌, Bytes, List, [], ◌∷◌, Option}
use fsnet.Base.Int.{ℤ}
use fsnet.Base.Maps.{Map}
use fsnet.Base.Texts.{text_eq}
use fsnet.Attribute.{AttributeValue, AttributeStruct}
use fsnet.Connection.{ConnectionRef, matches_key}

pub data Caller : Type 0 where
  client server : Caller

-- What a callback of the caller's does when it is called, if it is there.
pub data Callback : Type 0 where
  absent : Callback
  answers : Bool → Callback
  throws : Callback

pub record CallIdentity : Type 0 where
  pub caller : Caller
  pub subject : Bytes
  pub peer : ℕ
  pub connection : ConnectionRef
  pub current : Callback
  pub execution : Callback

abbrev pub accepts : Callback → Bool
accepts absent = true
accepts (answers b) = b
accepts throws = false

unfoldable pub live : CallIdentity → Bool
live identity = accepts identity.current && accepts identity.execution

unfoldable pub owns : CallIdentity → Bytes → Bool
owns identity key = live identity && matches_key identity.connection key

pub data Access : Type 0 where
  none read write read_write : Access

pub data Visibility : Type 0 where
  none owner observers : Visibility

pub record RpcPolicy : Type 0 where
  pub client : Bool
  pub server : Bool
  pub owner_only : Bool

abbrev pub for_caller {ℓ} : {A : Type ℓ} → Caller → A → A → A
for_caller Caller.server on_server on_client = on_server
for_caller Caller.client on_server on_client = on_client

unfoldable pub allows : RpcPolicy → CallIdentity → Bytes → Bool
allows policy identity key =
    for_caller identity.caller policy.server policy.client
    && (if policy.owner_only then owns identity key else live identity)

pub data AttributeType : Type 0 where
  integer number boolean string structure array list map set : AttributeType

-- The members of AttributeDefinition that hold no definitions.
pub record DefinitionHead : Type 0 where
  pub type : AttributeType
  pub initial : AttributeValue
  pub server : Access
  pub client : Access
  pub visibility : Visibility
  pub persist : Bool
  pub minimum : ℤ
  pub maximum : ℤ
  pub driver_authority : Bool
  pub length : ℕ
  pub max_items : ℕ

-- AttributeDefinition with its `fields`, a map in key order, and its `element`.
mutual
  pub data AttributeDefinition : Type 0 where
    definition : DefinitionHead → Definitions → Element → AttributeDefinition

  pub data Definitions : Type 0 where
    no_definition : Definitions
    defined : Bytes → AttributeDefinition → Definitions → Definitions

  pub data Element : Type 0 where
    no_element : Element
    element : AttributeDefinition → Element

abbrev pub head : AttributeDefinition → DefinitionHead
head (definition h fields held) = h

pub record EntitySchema : Type 0 where
  pub attributes : Map AttributeDefinition
  pub methods : Map RpcPolicy

pub record AttributeView : Type 0 where
  pub observer : Bool
  pub connection : ConnectionRef
