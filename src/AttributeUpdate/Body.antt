-- ===== src/AttributeUpdate/Body.antt =====
-- What follows the four characters of a record is read back: `get_update` for `decode_attributes`
-- of src/attribute_wire.cpp.
use fsnet.Base.{
  ℕ, true, false, ltb, ◌==◌, ◌||◌, ◌&&◌, ◌^◌, length, ◌≡◌, not, ◌≤◌, ◌<◌, refl, Bool, [], ◌++◌,
  arith, Bytes,
}
use fsnet.Base.Errors.{invalid_argument}
use fsnet.Base.Maps.{IsSorted}
use fsnet.Attribute.{to_fields, node_limit}
use fsnet.Attribute.Decode.{get_fields, decode_value}
use fsnet.Attribute.Written.{AreFields}
use fsnet.AttributeUpdate.{AttributeUpdate}
use fsnet.AttributeUpdate.Decode.{get_all_patches, get_update}
use fsnet.AttributeUpdate.Patches.{PatchesFit}
use fsnet.Wire.{put_uint, get_uint, flag}
use fsnet.Wire.Reads.{Reads, ReadsAll, Reads-uint, ReadsAll-bind, ReadsAll-guard, ReadsAll-last}

-- The numbers are 64-bit words, the map is in key order, and the values are those of the C++ types.
pub record UpdateFits (update : AttributeUpdate) : Type 0 where
  pub base : update.base < 2 ^ 64
  pub revision : update.revision < 2 ^ 64
  pub values : AreFields (to_fields update.values)
  pub sorted : IsSorted update.values
  pub patches : PatchesFit update.patches

-- What follows the four characters, without the patches.
abbrev pub image_bytes : AttributeUpdate → Bytes → Bytes
image_bytes update body =
    put_uint 1 (flag update.snapshot)
    ++ (put_uint 8 update.base
        ++ (put_uint 8 update.revision ++ (put_uint 2 (length update.values) ++ body)))

abbrev bad_image : AttributeUpdate → Bool
bad_image update =
    ltb 256 (length update.values)
    || ltb update.revision update.base
    || (update.snapshot && not (update.base == 0))

pub flag_byte : (b : Bool) → (flag b ≤ 1) × (not (flag b == 0) ≡ b) × (ltb 1 (flag b) ≡ false)
flag_byte true = (omega arith, refl, refl)
flag_byte false = (omega arith, refl, refl)

pub ReadsAll-image :
    (update : AttributeUpdate) (patched paths : Bool) (values patches : Bytes) (left : ℕ)
    → UpdateFits update
    → (ltb 256 (length update.values)
        || ltb update.revision update.base
        || (update.snapshot && not (update.base == 0)))
      ≡ false
    → Reads
        (get_fields (decode_value 9) (length update.values) [] node_limit)
        values
        (update.values, left)
    → Reads
        (get_all_patches patched paths update.snapshot update.values left)
        patches
        update.patches
    → ReadsAll (get_update patched paths) (image_bytes update (values ++ patches)) update
unfolding get_update
ReadsAll-image update patched paths values patches left fits good r s =
    let (one, same, small) = flag_byte update.snapshot in
    ReadsAll-bind (get_uint invalid_argument 1) _ _ _ (flag update.snapshot) _
      (Reads-uint invalid_argument 1 (flag update.snapshot) (omega (arith, one))
        (omega (arith, one)))
      (ReadsAll-guard (ltb 1 (flag update.snapshot)) invalid_argument _ _ _ small (
        ReadsAll-bind (get_uint invalid_argument 8) _ _ _ update.base _
          (Reads-uint invalid_argument 8 update.base (omega (arith, fits.base)) fits.base)
          (ReadsAll-bind (get_uint invalid_argument 8) _ _ _ update.revision _
            (Reads-uint invalid_argument 8 update.revision (omega (arith, fits.revision))
              fits.revision)
            (ReadsAll-bind (get_uint invalid_argument 2) _ _ _ (length update.values) _
              (Reads-uint invalid_argument 2 (length update.values) (ground (arith, good))
                (ground (arith, good)))
              (rw same (
                ReadsAll-guard _ invalid_argument _ _ _ good (
                  ReadsAll-bind (get_fields (decode_value 9) (length update.values) [] node_limit) _
                    values patches (update.values, left) _ r
                    (ReadsAll-last
                      (get_all_patches patched paths update.snapshot update.values left) _ patches
                      update.patches update s refl))))))))
