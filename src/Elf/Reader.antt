-- ===== src/Elf/Reader.antt =====
-- What a reader of one ELF address space offers, and the fixed-width values read through it
-- (`ElfVaReader` of src/elf/dynamic_view.h, src/elf/dynamic_view.cpp). Bytes are numbers below 256,
-- and values are little-endian, as `ParseElf64ProgramHeaders` demands.
use dart_plant.Prelude.{
  ℕ, ◌+◌, ◌*◌, ◌==◌, leb, if◌then◌else◌, Bool, false, Option, none, some, List, [], ◌∷◌, take, drop,
}

-- `ElfVaReader`
pub record Reader : Type 0 where
  pub readable_bytes : ℕ → Option ℕ
  pub read : ℕ → ℕ → Option (List ℕ)

abbrev pub little_endian : List ℕ → ℕ
little_endian [] = 0
little_endian (b ∷ bs) = b + 256 * little_endian bs

-- The field of `size` bytes at `offset` of a structure.
abbrev pub field : List ℕ → ℕ → ℕ → ℕ
field bytes offset size = little_endian (take size (drop offset bytes))

-- `ReadValue<uint32_t>`
unfoldable pub read_u32 : Reader → ℕ → Option ℕ
read_u32 reader va = elim (reader.read va 4) [
  | none ↦ none
  | some bytes ↦ some (little_endian bytes)
]

-- `ReadValue<Elf64_Addr>`
unfoldable pub read_u64 : Reader → ℕ → Option ℕ
read_u64 reader va = elim (reader.read va 8) [
  | none ↦ none
  | some bytes ↦ some (little_endian bytes)
]

-- `DynamicAnchorReadable`
unfoldable pub anchor_readable : Reader → ℕ → ℕ → Bool
anchor_readable reader va minimum_size =
    if va == 0 then false else elim (reader.readable_bytes va) [
      | none ↦ false
      | some remaining ↦ leb minimum_size remaining
    ]
