-- ===== src/Abi/Codec.antt =====
-- Words and values at an ABI boundary (src/abi/value_codec.cpp, include/dartplant/invocation.h).
-- Bit 0 of a word is written `% 2`; the output pointers are never null.
pub mod RoundTrip
use dart_plant.Prelude.{ℕ, ◌%◌, ◌==◌, if◌then◌else◌, Bool, true, false, not, ◌&&◌, ◌||◌}
use dart_plant.Status.{Status, unsupported_abi, profile_mismatch}

-- `DartPlantValueKind`
pub data Kind : Type 0 where
  unknown raw_word null bool smi double heap_object int64 : Kind

-- `DartPlantValue`
pub record Value : Type 0 where
  pub kind : Kind
  pub raw : ℕ

-- A word, or the status of a refusal.
pub data Encoded : Type 0 where
  word : ℕ → Encoded
  refused : Status → Encoded

-- `dartplant_vm_abi_is_tagged_smi`
abbrev pub is_tagged_smi : ℕ → Bool
is_tagged_smi raw = raw % 2 == 0

-- `dartplant_vm_abi_is_tagged_heap_object`
abbrev pub is_tagged_heap_object : ℕ → Bool
is_tagged_heap_object raw = raw % 2 == 1

-- `dartplant_vm_abi_decode_gp_word`
unfoldable pub decode_gp_word : ℕ → Bool → ℕ → Value
decode_gp_word raw is_tagged null_value =
    if not is_tagged
    then record { kind = raw_word; raw = raw }
    else if not (null_value == 0) && raw == null_value
    then record { kind = null; raw = raw }
    else record { kind = if is_tagged_heap_object raw then heap_object else smi; raw = raw }

-- `dartplant_vm_abi_decode_fp_word`
unfoldable pub decode_fp_word : ℕ → Value
decode_fp_word raw = record { kind = double; raw = raw }

encode_tagged : Kind → ℕ → ℕ → Encoded
encode_tagged null raw null_value =
    if null_value == 0 then refused unsupported_abi else word null_value
encode_tagged smi raw null_value = if is_tagged_smi raw then word raw else refused profile_mismatch
encode_tagged heap_object raw null_value =
    if is_tagged_heap_object raw then word raw else refused profile_mismatch
encode_tagged bool raw null_value = refused unsupported_abi
encode_tagged double raw null_value = refused unsupported_abi
encode_tagged int64 raw null_value = refused unsupported_abi
encode_tagged raw_word raw null_value = word raw
encode_tagged unknown raw null_value = word raw

encode_raw : Kind → ℕ → Encoded
encode_raw raw_word raw = word raw
encode_raw _ raw = refused unsupported_abi

-- `dartplant_vm_abi_encode_gp_word`
unfoldable pub encode_gp_word : Value → Bool → ℕ → Encoded
unfolding encode_tagged encode_raw
encode_gp_word v is_tagged null_value =
    if is_tagged then encode_tagged v.kind v.raw null_value else encode_raw v.kind v.raw

encode_fp : Kind → ℕ → Encoded
encode_fp double raw = word raw
encode_fp raw_word raw = word raw
encode_fp unknown raw = word raw
encode_fp _ raw = refused profile_mismatch

-- `dartplant_vm_abi_encode_fp_word`
unfoldable pub encode_fp_word : Value → Encoded
unfolding encode_fp
encode_fp_word v = encode_fp v.kind v.raw
