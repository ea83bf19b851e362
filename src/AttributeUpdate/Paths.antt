-- ===== src/AttributeUpdate/Paths.antt =====
-- The path of a patch is read back: the parts of src/attribute_wire.cpp that write no values.
use fsnet.Base.{
  suc, ℕ, ok, true, false, ltb, leb, ap, sym, ◌∙◌, length, ◌≡◌, ◌≤◌, ◌<◌, refl, List, Bool, [], ◌∷◌,
  ◌++◌, arith, Bytes,
}
use fsnet.Base.Errors.{throw_if-eq-ok, ok-injective, invalid_argument, length_error}
use fsnet.Attribute.{bad_map_key}
use fsnet.Attribute.Encode.{text_output}
use fsnet.Attribute.Written.{key_size}
use fsnet.AttributeUpdate.{PathPart, key_part, index_part}
use fsnet.AttributeUpdate.Decode.{get_path, get_paths, get_path_part, get_path_key, get_path_index}
use fsnet.AttributeUpdate.Encode.{encode_path, encode_paths}
use fsnet.Wire.{Reader, get_uint, put_uint, take_text}
use fsnet.Wire.Reads.{Reads, Reads-pure, Reads-bind, Reads-guard, Reads-uint, Reads-end, Reads-text}
use mathlib.Core.List.{append_assoc, append-nil}

-- What was added to the output by a writer that writes no nodes.
pub record Put {ℓ} {A : Type ℓ} (reader : Reader A) (s t : Bytes × ℕ) (a : A) : Type ℓ where
  pub bytes : Bytes
  pub output : t ≡ (s.0 ++ bytes, s.1)
  pub reads : Reads reader bytes a

Reads-part_key :
    (key : Bytes)
    → bad_map_key key ≡ false
    → Reads get_path_part (put_uint 1 1 ++ (put_uint 1 (length key) ++ key)) (key_part key)
unfolding get_path_part get_path_key
Reads-part_key key h =
    let (pos, small) = key_size key h in
    Reads-bind (get_uint invalid_argument 1) _ _ _ 1 _
      (Reads-uint invalid_argument 1 1 (omega arith) (omega arith))
      (Reads-bind (get_uint invalid_argument 1) _ _ key (length key) _
        (Reads-uint invalid_argument 1 (length key) (omega (arith, small)) (omega (arith, small)))
        (Reads-guard _ invalid_argument _ key (key_part key) (ground (arith, pos, small)) (
          Reads-end (take_text invalid_argument (length key)) _ key key (key_part key)
            (Reads-text invalid_argument key)
            (Reads-guard _ invalid_argument _ [] _ h (Reads-pure (key_part key))))))

Reads-part_index :
    (index : ℕ)
    → leb 256 index ≡ false
    → Reads get_path_part (put_uint 1 0 ++ put_uint 2 index) (index_part index)
unfolding get_path_part get_path_index
Reads-part_index index h =
    let small : index < 256 = ground (arith, h) in
    Reads-bind (get_uint invalid_argument 1) _ _ (put_uint 2 index) 0 _
      (Reads-uint invalid_argument 1 0 (omega arith) (omega arith))
      (Reads-end (get_uint invalid_argument 2) _ (put_uint 2 index) index _
        (Reads-uint invalid_argument 2 index (omega (arith, small)) (omega (arith, small)))
        (Reads-guard _ invalid_argument _ [] _ h (Reads-pure (index_part index))))

Reads-part :
    (part : PathPart) (path : List PathPart) (out more : Bytes)
    → Reads get_path_part out part
    → Reads (get_path (length path)) more path
    → Reads (get_path (suc (length path))) (out ++ more) (part ∷ path)
unfolding get_path
Reads-part part path out more r s =
    Reads-bind get_path_part _ out more part _ r
      (Reads-end (get_path (length path)) _ more path _ s (Reads-pure (part ∷ path)))

pub encode_path-Put :
    (path : List PathPart) (s t : Bytes × ℕ)
    → encode_path text_output path s ≡ ok t
    → Put (get_path (length path)) s t path
unfolding encode_path get_path
encode_path-Put [] s t h = record {
  bytes = [];
  output = rw (append-nil s.0) (sym (ok-injective h));
  reads = Reads-pure [];
}
encode_path-Put (key_part key ∷ path) (out, left) t h =
    let (good, k) = throw_if-eq-ok (bad_map_key key) _ _ h in
    let r =
      encode_path-Put path (((out ++ put_uint 1 1) ++ put_uint 1 (length key)) ++ key, left) t k in
    record {
      bytes = (put_uint 1 1 ++ (put_uint 1 (length key) ++ key)) ++ r.bytes;
      output = r.output ∙ ap (λ (x : Bytes). (x, left)) (simp append_assoc);
      reads = Reads-part (key_part key) path _ r.bytes (Reads-part_key key good) r.reads;
    }
encode_path-Put (index_part index ∷ path) (out, left) t h =
    let (good, k) = throw_if-eq-ok (leb 256 index) _ _ h in
    let r = encode_path-Put path ((out ++ put_uint 1 0) ++ put_uint 2 index, left) t k in
    record {
      bytes = (put_uint 1 0 ++ put_uint 2 index) ++ r.bytes;
      output = r.output ∙ ap (λ (x : Bytes). (x, left)) (simp append_assoc);
      reads = Reads-part (index_part index) path _ r.bytes (Reads-part_index index good) r.reads;
    }

pub encode_paths-Put :
    (paths : Bool) (path : List PathPart) (s t : Bytes × ℕ)
    → ltb 8 (length path) ≡ false
    → (paths ≡ false → path ≡ [])
    → encode_paths text_output paths path s ≡ ok t
    → Put (get_paths paths) s t path
unfolding encode_paths get_paths
encode_paths-Put false path s t short only h = record {
  bytes = [];
  output = rw (append-nil s.0) (sym (ok-injective h));
  reads = rw (only refl) (Reads-pure []);
}
encode_paths-Put true path (out, left) t short only h =
    let small : length path ≤ 8 = ground (arith, short) in
    let r = encode_path-Put path (out ++ put_uint 1 (length path), left) t h in
    record {
      bytes = put_uint 1 (length path) ++ r.bytes;
      output =
          r.output
          ∙ ap (λ (x : Bytes). (x, left)) (append_assoc out (put_uint 1 (length path)) r.bytes);
      reads =
          Reads-bind (get_uint invalid_argument 1) _ _ r.bytes (length path) path
            (Reads-uint invalid_argument 1 (length path) (omega (arith, small))
              (omega (arith, small)))
            (Reads-guard _ length_error _ _ _ short r.reads);
    }
