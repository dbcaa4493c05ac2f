-- ===== src/Elf/Readers.antt =====
-- The three readers (src/elf/dynamic_view.cpp): over a loaded image, over the part of a loaded image
-- that the file backs, and over the file. The memory of the process is a function from addresses to
-- bytes. The headers are the reader's own, a read of nothing is refused.
pub mod Bounds
pub mod SameBytes
use dart_plant.Prelude.{
  ℕ, zero, suc, ◌+◌, ◌-◌, ◌==◌, ltb, leb, min, if◌then◌else◌, Bool, true, false, not, ◌&&◌, ◌||◌,
  Option, none, some, List, [], ◌∷◌, take, drop, length, bit_and,
}
use dart_plant.Elf.Checked.{u64_max}
use dart_plant.Elf.Segments.{Header, is_load, pf_r, va_to_file_offset}
use dart_plant.Elf.Reader.{Reader}

-- `memcpy` of `size` bytes from an address
abbrev pub copy : (ℕ → ℕ) → ℕ → ℕ → List ℕ
copy memory address zero = []
copy memory address (suc size) = memory address ∷ copy memory (suc address) size

-- The readers' check that the range at `load_bias + va` does not wrap, and the copy.
copy_at : (ℕ → ℕ) → ℕ → ℕ → ℕ → Option (List ℕ)
copy_at memory load_bias va size =
    if ltb (u64_max - load_bias) va || ltb (u64_max - (load_bias + va)) size
    then none
    else some (copy memory (load_bias + va) size)

-- The tests of one round of `LoadedElfReader::ReadableBytes`.
in_memory : Header → ℕ → Bool
in_memory h va =
    is_load h
    && (not (bit_and h.flags pf_r == 0)
        && (leb h.virtual_address va && ltb (va - h.virtual_address) h.memory_size))

-- `LoadedElfReader::ReadableBytes`
unfoldable pub loaded_readable_bytes : List Header → ℕ → Option ℕ
unfolding in_memory
loaded_readable_bytes [] va = none
loaded_readable_bytes (h ∷ hs) va =
    let rest = loaded_readable_bytes hs va in
    if in_memory h va then some (h.memory_size - (va - h.virtual_address)) else rest

-- `LoadedElfReader::Read`
unfoldable pub loaded_read : (ℕ → ℕ) → ℕ → List Header → ℕ → ℕ → Option (List ℕ)
unfolding loaded_readable_bytes copy_at
loaded_read memory load_bias hs va size = elim (loaded_readable_bytes hs va) [
  | none ↦ none
  | some remaining ↦
      if size == 0 || ltb remaining size then none else copy_at memory load_bias va size
]

-- `FileBackedLoadedElfReader::ReadableBytes`: the locals `file_offset` and `remaining`, set
-- together, after a PT_LOAD of the file holds the address.
abbrev pub Backing : Type 0
Backing = Option (ℕ × ℕ)

-- A second PT_LOAD must put the address at the same offset; the shorter remainder counts.
merge_backing : Backing → ℕ → ℕ → Option (ℕ × ℕ)
merge_backing none offset remaining = some (offset, remaining)
merge_backing (some (before, left)) offset remaining =
    if before == offset then some (offset, min left remaining) else none

-- One round for a header that holds the address; `none` ends the search with a refusal.
accept_backing : Backing → Header → ℕ → Option (ℕ × ℕ)
unfolding merge_backing
accept_backing found h va =
    if bit_and h.flags pf_r == 0
    then none
    else merge_backing found (h.offset + (va - h.virtual_address))
        (h.file_size - (va - h.virtual_address))

-- Whether the round is not left by a `continue`.
holds : Header → ℕ → Bool
holds h va =
    is_load h
    && (leb h.virtual_address va
        && (ltb (va - h.virtual_address) h.file_size
            && leb h.offset (u64_max - (va - h.virtual_address))))

backing_from : Backing → List Header → ℕ → Backing
backing_from found [] va = found
backing_from found (h ∷ hs) va = elim (holds h va) [
  | false ↦ backing_from found hs va
  | true ↦ elim (accept_backing found h va) [
    | none ↦ none
    | some next ↦ backing_from (some next) hs va
  ]
]

unfoldable pub backed_readable_bytes : List Header → ℕ → Option ℕ
unfolding backing_from holds accept_backing
backed_readable_bytes hs va = elim (backing_from none hs va) [
  | none ↦ none
  | some (offset, remaining) ↦ some remaining
]

-- `FileBackedLoadedElfReader::Read`
unfoldable pub backed_read : (ℕ → ℕ) → ℕ → List Header → ℕ → ℕ → Option (List ℕ)
unfolding backed_readable_bytes copy_at
backed_read memory load_bias hs va size = elim (backed_readable_bytes hs va) [
  | none ↦ none
  | some remaining ↦ elim (va_to_file_offset hs va size) [
    | none ↦ none
    | some offset ↦
        if size == 0 || ltb remaining size then none else copy_at memory load_bias va size
  ]
]

-- `FileElfReader::ReadableBytes`
unfoldable pub file_readable_bytes : List ℕ → List Header → ℕ → Option ℕ
file_readable_bytes bytes [] va = none
file_readable_bytes bytes (h ∷ hs) va =
    let rest = file_readable_bytes bytes hs va in
    let delta = va - h.virtual_address in
    let file_available = length bytes - h.offset in
    if is_load h
      && (leb h.virtual_address va
          && (ltb delta h.file_size && (leb h.offset (length bytes) && ltb delta file_available)))
    then some (min (h.file_size - delta) (file_available - delta))
    else rest

-- `FileElfReader::Read`
unfoldable pub file_read : List ℕ → List Header → ℕ → ℕ → Option (List ℕ)
file_read bytes hs va size = elim (va_to_file_offset hs va size) [
  | none ↦ none
  | some offset ↦
      if size == 0 || (ltb (length bytes) offset || ltb (length bytes - offset) size)
      then none
      else some (take size (drop offset bytes))
]

-- `LoadedElfReader`, `FileBackedLoadedElfReader` and `FileElfReader`
abbrev pub loaded_reader : (ℕ → ℕ) → ℕ → List Header → Reader
loaded_reader memory load_bias hs = record {
  readable_bytes = loaded_readable_bytes hs;
  read = loaded_read memory load_bias hs;
}

abbrev pub backed_reader : (ℕ → ℕ) → ℕ → List Header → Reader
backed_reader memory load_bias hs = record {
  readable_bytes = backed_readable_bytes hs;
  read = backed_read memory load_bias hs;
}

abbrev pub file_reader : List ℕ → List Header → Reader
file_reader bytes hs = record {
  readable_bytes = file_readable_bytes bytes hs;
  read = file_read bytes hs;
}
