-- ===== src/AttributeUpdate/Patches.antt =====
-- A patch is read back: `encode_patch` of src/attribute_wire.cpp and what `decode_attributes` does
-- with its bytes.
use fsnet.Base.{
  [], ◌∷◌, sym, ap, if◌then◌else◌, ℕ, ok, true, false, ltb, ◌∙◌, length, ◌≡◌, ◌≤◌, refl, List, Bool,
  ◌++◌, arith, Bytes, is_some,
}
use fsnet.Base.Errors.{ok-injective, >>=-eq-ok, throw_if-eq-ok, invalid_argument}
use fsnet.Base.Maps.{find}
use fsnet.Attribute.{bad_name, AttributeStruct}
use fsnet.Attribute.Decode.{get_name}
use fsnet.Attribute.Encode.{write, write_name, text_output}
use fsnet.Attribute.Written.{Reads-name, limit_inv, Wrote}
use fsnet.AttributeUpdate.{field_paths, AttributePatch}
use fsnet.AttributeUpdate.Decode.{get_kind, get_patches, get_patch, get_paths}
use fsnet.AttributeUpdate.Encode.{encode_patches, encode_patch, encode_paths, encode_kind, kind}
use fsnet.AttributeUpdate.Kinds.{is_empty-eq, kind-Wrote}
use fsnet.AttributeUpdate.Paths.{encode_paths-Put}
use fsnet.AttributeUpdate.Values.{PatchFits}
use fsnet.Wire.{get_uint, put_uint}
use fsnet.Wire.Reads.{Reads, Reads-pure, Reads-bind, Reads-guard, Reads-uint, Reads-end}
use mathlib.Core.List.{append-nil, append_assoc}
use mathlib.Core.Path.{subst}

kind_small :
    (patch : AttributePatch) (paths : Bool)
    → (paths ≡ false → patch.replace ≡ false)
    → (kind text_output patch ≤ 2) × (ltb (if paths then 2 else 1) (kind text_output patch) ≡ false)
kind_small patch true h = (ground arith, ground arith)
kind_small patch false h = (ground (arith, h refl), ground (arith, h refl))

patch_bytes :
    (out a b c d e : Bytes)
    → ((((out ++ a) ++ b) ++ c) ++ d) ++ e ≡ out ++ ((a ++ b) ++ (c ++ (d ++ e)))
patch_bytes out a b c d e = simp append_assoc

pub patch-Wrote :
    (values : AttributeStruct) (patch : AttributePatch) (paths : Bool) (s t : Bytes × ℕ)
    → PatchFits patch
    → is_some (find patch.property values) ≡ false
    → (paths ≡ false → patch.path ≡ [])
    → (paths ≡ false → patch.replace ≡ false)
    → encode_patch text_output patch paths s ≡ ok t
    → Wrote (get_patch values paths) s t patch
unfolding encode_patch get_patch
patch-Wrote values patch paths (out, left) t fits new plain whole h =
    let (name, k) = throw_if-eq-ok (bad_name patch.property) _ _ h in
    let (short, l) = throw_if-eq-ok (ltb 8 (length patch.path)) _ _ k in
    let (u, m, n) =
      >>=-eq-ok
        (encode_paths text_output paths patch.path
          (write_name text_output patch.property (out, left)))
        _ l in
    let (v, o, z) =
      >>=-eq-ok
        (encode_kind text_output patch (write text_output (put_uint 1 (kind text_output patch)) u))
        _ n in
    let p = encode_paths-Put paths patch.path _ u short plain m in
    let w =
      kind-Wrote patch (write text_output (put_uint 1 (kind text_output patch)) u) v
        (ground (arith, short)) fits o in
    let (two, small) = kind_small patch paths whole in
    let same : u.1 ≡ left = ap (λ (x : Bytes × ℕ). x.1) p.output in
    subst (λ x. Wrote (get_patch values paths) (out, left) x patch) (limit_inv v t z)
      (record {
        bytes =
            (put_uint 1 (length patch.property) ++ patch.property)
            ++ (p.bytes ++ (put_uint 1 (kind text_output patch) ++ w.bytes));
        output =
            w.output
            ∙ ap (λ (x : Bytes × ℕ). (x.0 ++ put_uint 1 (kind text_output patch)) ++ w.bytes)
                p.output
            ∙ patch_bytes out (put_uint 1 (length patch.property)) patch.property p.bytes
                (put_uint 1 (kind text_output patch)) w.bytes;
        reads = Reads-bind get_name _ _ _ patch.property _ (Reads-name patch.property name) (
            Reads-guard _ invalid_argument _ _ _ name (
              Reads-guard _ invalid_argument _ _ _ new (
                Reads-bind (get_paths paths) _ p.bytes _ patch.path _ p.reads (
                  Reads-bind (get_uint invalid_argument 1) _ _ w.bytes (kind text_output patch) _
                    (Reads-uint invalid_argument 1 (kind text_output patch) (omega (arith, two))
                      (omega (arith, two)))
                    (Reads-guard _ invalid_argument _ _ _ small (
                      subst
                        (λ n.
                          Reads (get_kind (kind text_output patch) patch.property patch.path n)
                            w.bytes (patch, v.1))
                        same w.reads))))));
      })

abbrev pub PatchesFit : List AttributePatch → Type 0
PatchesFit [] = Unit
PatchesFit (patch ∷ patches) = PatchFits patch × PatchesFit patches

-- What a record without paths may hold.
plain_first :
    (patch : AttributePatch) (patches : List AttributePatch) (paths : Bool)
    → (paths ≡ false → field_paths (patch ∷ patches) ≡ false)
    → paths ≡ false
    → (patch.path ≡ []) × (patch.replace ≡ false) × (field_paths patches ≡ false)
unfolding field_paths
plain_first patch patches paths h e =
    (is_empty-eq patch.path (ground (arith, h e)), ground (arith, h e), ground (arith, h e))

pub patches-Reads :
    (values : AttributeStruct) (paths : Bool) (patches : List AttributePatch) (s t : Bytes × ℕ)
    → PatchesFit patches
    → (paths ≡ false → field_paths patches ≡ false)
    → encode_patches text_output values paths patches s ≡ ok t
    → (bytes : Bytes) × (t.0 ≡ s.0 ++ bytes)
      × Reads (get_patches values paths (length patches) s.1) bytes patches
unfolding encode_patches get_patches
patches-Reads values paths [] s t fits plain h =
    ([], ap (λ (x : Bytes × ℕ). x.0) (sym (ok-injective h)) ∙ sym (append-nil s.0), Reads-pure [])
patches-Reads values paths (patch ∷ patches) s t fits plain h =
    let (new, k) = throw_if-eq-ok (is_some (find patch.property values)) _ _ h in
    let (u, first, rest) = >>=-eq-ok (encode_patch text_output patch paths s) _ k in
    let w =
      patch-Wrote values patch paths s u fits.0 new
        (λ e. (plain_first patch patches paths plain e).0)
        (λ e. (plain_first patch patches paths plain e).1) first in
    let (bytes, out, r) =
      patches-Reads values paths patches u t fits.1
        (λ e. (plain_first patch patches paths plain e).2) rest in
    (
      w.bytes ++ bytes,
      out ∙ ap (λ (x : Bytes). x ++ bytes) w.output ∙ append_assoc s.0 w.bytes bytes,
      Reads-bind (get_patch values paths s.1) _ w.bytes bytes (patch, u.1) _ w.reads
          (Reads-end (get_patches values paths (length patches) u.1) _ bytes patches _ r
            (Reads-pure (patch ∷ patches))),
    )
