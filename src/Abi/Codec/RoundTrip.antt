-- ===== src/Abi/Codec/RoundTrip.antt =====
-- Decoding and encoding words are inverse where both are defined.
use dart_plant.Prelude.{ℕ, ◌≡◌, ◌≢◌, ◌⊎◌, refl, Bool, true, false, arith}
use dart_plant.Abi.Codec.{
  raw_word, null, smi, heap_object, Value, word, decode_gp_word, decode_fp_word, encode_gp_word,
  encode_fp_word,
}

-- A decoded word is encoded as itself, tagged or not, and so is a decoded floating-point word.
pub encode-decode :
    (raw null_value : ℕ) (is_tagged : Bool)
    → (encode_gp_word (decode_gp_word raw is_tagged null_value) is_tagged null_value ≡ word raw)
      × (encode_fp_word (decode_fp_word raw) ≡ word raw)
unfolding encode_gp_word decode_gp_word encode_fp_word decode_fp_word
encode-decode raw null_value is_tagged = (ground arith, refl)

-- A null, a small integer or a heap object that can be encoded as a tagged word is decoded to its
-- own kind, unless an integer or an object has the word of the canonical null; and only a raw word
-- can be encoded untagged, as itself.
pub decode-encode :
    (v : Value) (is_tagged : Bool) (null_value raw : ℕ)
    → encode_gp_word v is_tagged null_value ≡ word raw
    → ((is_tagged ≡ true)
          × ((v.kind ≡ null) ⊎ (((v.kind ≡ smi) ⊎ (v.kind ≡ heap_object)) × (raw ≢ null_value)))
        → (decode_gp_word raw true null_value).kind ≡ v.kind)
      × (is_tagged ≡ false → (v.kind ≡ raw_word) × (decode_gp_word raw false null_value ≡ v))
unfolding encode_gp_word decode_gp_word
decode-encode v is_tagged null_value raw h = (λ t. ground arith, λ u. ground arith)
