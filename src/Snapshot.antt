-- ===== src/Snapshot.antt =====
-- include/fsnet/entity_snapshot.hpp: the snapshot of an entity, versions FSP1 to FSP3.
pub mod Encode
pub mod Decode
pub mod RoundTrip
pub mod Framing
pub mod Tests
use fsnet.Base.{Bytes, List, [], ℕ, Bool, not, ◌||◌, ◌==◌, is_empty}
use fsnet.Delivery.{EntityDeliveryState}
use fsnet.Timer.{EntityTimerState}

pub record EntityReceipt : Type 0 where
  pub id : Bytes
  pub route : Bytes
  pub request : Bytes
  pub response : Bytes

pub record EntitySnapshot : Type 0 where
  pub state : Bytes
  pub receipts : List EntityReceipt
  pub delivery : EntityDeliveryState
  pub timers : EntityTimerState

-- The states of a snapshot without deliveries or timers.
abbrev pub no_delivery : EntityDeliveryState
no_delivery = record { epoch = 0; sent = []; inbox = []; outbox = [] }

abbrev pub no_timers : EntityTimerState
no_timers = record { sequence = 0; token = []; entries = [] }

abbrev pub has_timers : EntityTimerState → Bool
has_timers timers =
    not (is_empty timers.token) || not (timers.sequence == 0) || not (is_empty timers.entries)
