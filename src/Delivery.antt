-- ===== src/Delivery.antt =====
-- src/entity_delivery_state.cpp with include/fsnet/entity_delivery_state.hpp: the record FDS1 of
-- what an entity has sent, received and still has to send.
pub mod Channel
pub mod Encode
pub mod Decode
pub mod Fields
pub mod RoundTrip
pub mod Envelope
pub mod Open
pub mod Sizes
pub mod OpenRoundTrip
pub mod OpenTests
pub mod Tests
use fsnet.Base.{◌*◌, ℕ, Bool, Bytes, List}
use fsnet.Base.Maps.{Map}

-- The last value of `enum class Status`, whose values are 0 to 6.
abbrev pub internal : ℕ
internal = 6

abbrev pub delivery_payload_limit : ℕ
delivery_payload_limit = 65536

abbrev pub max_state : ℕ
max_state = 8 * 1024 * 1024

pub record Result : Type 0 where
  pub status : ℕ
  pub data_bytes : Bytes

pub record DeliveryMessage : Type 0 where
  pub ticket : Bytes
  pub type : Bytes
  pub id : Bytes
  pub method : Bytes
  pub payload : Bytes
  pub target_epoch : ℕ
  pub sequence : ℕ
  pub done : Bool
  pub result : Result

pub record DeliveryCursor : Type 0 where
  pub sequence : ℕ
  pub digest : Bytes
  pub result : Result

pub record EntityDeliveryState : Type 0 where
  pub epoch : ℕ
  pub sent : Map ℕ
  pub inbox : Map DeliveryCursor
  pub outbox : List DeliveryMessage
