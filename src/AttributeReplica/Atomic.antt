-- ===== src/AttributeReplica/Atomic.antt =====
-- `AttributeReplica::apply` of src/attribute_wire.cpp either leaves the replica as it was or takes the
-- update over whole.
use fsnet.Base.{Bytes, Option, ◌&&◌, ℕ, ◌≤◌, Bool, true, false, some, ◌≡◌, is_empty}
use fsnet.Base.Errors.{ok}
use fsnet.Base.Maps.{find}
use fsnet.Attribute.{AttributeValue, AttributeStruct}
use fsnet.AttributeReplica.Apply.{Replica, image_with, values}
use fsnet.AttributeReplica.Patch.{materialize}
use fsnet.AttributeReplica.Stored.{Stored}
use fsnet.AttributeUpdate.{AttributeUpdate}
use mathlib.Core.Option.{none}

-- The values that an update without patches holds, and those that the patches of another one make of
-- the replica's.
abbrev pub Brought : Bool → AttributeUpdate → Replica → AttributeStruct → Type 0
Brought true update r m = m ≡ update.values
Brought false update r m = materialize (values r) update.patches update.values ≡ ok m

-- The value of a name after an update: a snapshot has it alone, and a delta has it where it holds the
-- name.
abbrev pub taken_value :
    Bool → Option AttributeValue → Option AttributeValue → Option AttributeValue
taken_value true new old = new
taken_value false (some value) old = some value
taken_value false none old = old

-- The replica has taken the update over.
pub record Taken (max_image_bytes : ℕ) (update : AttributeUpdate) (r r2 : Replica) : Type 0 where
  pub follows : update.snapshot ≡ false → (r.initialized ≡ true) × (update.base ≡ r.revision)
  pub newer : r.initialized ≡ true → r.revision ≤ r2.revision
  pub initialized : r2.initialized ≡ true
  pub revision : r2.revision ≡ update.revision
  pub bytes : r2.image_bytes ≤ max_image_bytes
  pub image : r2.image ≡ some (image_with update.revision (values r2))
  pub brought : AttributeStruct
  pub made : Brought (is_empty update.patches) update r brought
  pub value :
      (k : Bytes)
      → find k (values r2)
        ≡ taken_value
            (update.snapshot && is_empty update.patches)
            (find k brought)
            (find k (values r))
