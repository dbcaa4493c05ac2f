-- ===== src/Elf/Notes.antt =====
-- GNU build ids in note segments (src/elf/module_image.cpp). A build id is the text of its
-- hexadecimal digits. The parser's cursor is the rest of the segment; its loop is given as many
-- rounds as the segment has bytes, and has no result if it uses them up.
pub mod Total
pub mod Merge
use dart_plant.Prelude.{
  ℕ, zero, suc, ◌+◌, ◌-◌, ◌*◌, ◌/◌, ◌%◌, ◌==◌, ltb, leb, if◌then◌else◌, Bool, true, false, not,
  ◌&&◌, ◌||◌, Option, none, some, List, [], ◌∷◌, length, take, drop, same_bytes, bit_and,
}
use dart_plant.Elf.Checked.{u64_max}
use dart_plant.Elf.Reader.{field}
use dart_plant.Elf.Segments.{Header, pf_r, validate_load_layout, canonical_file_backing}
use dart_plant.Elf.Readers.{copy}

-- `ElfBuildIdResult`
pub data BuildId : Type 0 where
  found : List ℕ → BuildId
  not_found ambiguous malformed : BuildId

-- `AlignUp4`, for a 32-bit size, where it cannot fail
abbrev pub align_up4 : ℕ → ℕ
align_up4 n = (n + 3) / 4 * 4

abbrev hex_digit : ℕ → ℕ
hex_digit n = if ltb n 10 then 48 + n else 87 + n

-- `BytesToHex`
abbrev bytes_to_hex : List ℕ → List ℕ
bytes_to_hex [] = []
bytes_to_hex (b ∷ bs) = hex_digit (b / 16) ∷ hex_digit (b % 16) ∷ bytes_to_hex bs

abbrev all_zero : List ℕ → Bool
all_zero [] = true
all_zero (b ∷ bs) = b == 0 && all_zero bs

-- A build id that is not the one found before ends the loop.
add_candidate : Option (List ℕ) → List ℕ → Option (Option (List ℕ))
add_candidate none candidate = some (some candidate)
add_candidate (some before) candidate =
    if same_bytes before candidate then some (some candidate) else none

-- The build id after a note: `none` for a second one that differs.
read_note : List ℕ → ℕ → ℕ → List ℕ → Option (List ℕ) → Option (Option (List ℕ))
unfolding add_candidate
read_note header name_size desc_size rest build_id =
    if field header 8 4 == 3
      && (name_size == 4
          && (not (desc_size == 0) && same_bytes (take 4 rest) (71 ∷ 78 ∷ 85 ∷ 0 ∷ [])))
    then add_candidate build_id (bytes_to_hex (take desc_size (drop (align_up4 name_size) rest)))
    else some build_id

conclude : Option (List ℕ) → BuildId
conclude none = not_found
conclude (some build_id) = found build_id

-- The loop of `ParseGnuBuildIdNotes`
parse_from : ℕ → List ℕ → Option (List ℕ) → Option BuildId
parse_from fuel [] build_id = some (conclude build_id)
parse_from zero (b ∷ bs) build_id = none
parse_from (suc fuel) (b ∷ bs) build_id =
    let notes = b ∷ bs in
    let header = take 12 notes in
    let rest = drop 12 notes in
    let name_size = field header 0 4 in
    let desc_size = field header 4 4 in
    elim (ltb (length notes) 12) [
      | true ↦ some (if all_zero notes then conclude build_id else malformed)
      | false ↦ elim (ltb (length rest) (align_up4 name_size + align_up4 desc_size)) [
        | true ↦ some malformed
        | false ↦ elim (read_note header name_size desc_size rest build_id) [
          | none ↦ some ambiguous
          | some next ↦ parse_from fuel (drop (align_up4 name_size + align_up4 desc_size) rest) next
        ]
      ]
    ]

-- `ParseGnuBuildIdNotes`
unfoldable pub parse_notes : List ℕ → Option BuildId
unfolding parse_from read_note conclude
parse_notes notes = parse_from (length notes) notes none

-- `MergeElfBuildIdResults`
unfoldable pub merge : BuildId → BuildId → BuildId
merge malformed b = malformed
merge not_found b = b
merge ambiguous malformed = malformed
merge ambiguous (found b) = ambiguous
merge ambiguous not_found = ambiguous
merge ambiguous ambiguous = ambiguous
merge (found a) malformed = malformed
merge (found a) ambiguous = ambiguous
merge (found a) not_found = found a
merge (found a) (found b) = if same_bytes a b then found a else ambiguous

-- The notes of one segment in memory, if it is canonically backed and does not wrap.
segment_notes : (ℕ → ℕ) → ℕ → List Header → Header → BuildId
segment_notes memory load_bias hs h =
    if not (canonical_file_backing hs h pf_r)
      || (ltb (u64_max - load_bias) h.virtual_address
          || ltb (u64_max - (load_bias + h.virtual_address)) h.file_size)
    then malformed
    else (elim (parse_notes (copy memory (load_bias + h.virtual_address) h.file_size)) [
      | none ↦ malformed
      | some result ↦ result
    ])

is_malformed : BuildId → Bool
is_malformed malformed = true
is_malformed _ = false

read_from : (ℕ → ℕ) → ℕ → List Header → BuildId → List Header → BuildId
read_from memory load_bias hs aggregate [] = aggregate
read_from memory load_bias hs aggregate (h ∷ rest) = elim (h.kind == 4) [
  | false ↦ read_from memory load_bias hs aggregate rest
  | true ↦ elim (is_malformed (merge aggregate (segment_notes memory load_bias hs h))) [
    | true ↦ malformed
    | false ↦
        read_from memory load_bias hs (merge aggregate (segment_notes memory load_bias hs h)) rest
  ]
]

-- `ReadLoadedGnuBuildIdNotes`
unfoldable pub read_loaded_notes : (ℕ → ℕ) → ℕ → List Header → BuildId
unfolding read_from segment_notes is_malformed
read_loaded_notes memory load_bias hs =
    let aggregate = read_from memory load_bias hs not_found hs in
    if validate_load_layout hs then aggregate else malformed
