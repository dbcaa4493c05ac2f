-- ===== src/Elf/Segments.antt =====
-- Program headers and the translation of virtual addresses to file offsets (src/elf/elf_types.h,
-- src/elf/dynamic_view.cpp). The constants are those of the ELF format.
pub mod Disjoint
pub mod Translate
use Prim.Native.Nat.{min}
use dart_plant.Prelude.{
  ℕ, ◌+◌, ◌-◌, ◌%◌, ltb, leb, ◌==◌, if◌then◌else◌, Bool, true, false, not, ◌&&◌, ◌||◌, Option, none,
  some, List, [], ◌∷◌, bit_and,
}
use dart_plant.Elf.Checked.{u64_max, range_fits, checked_add}

abbrev pub pt_load : ℕ
pt_load = 1

abbrev pub pf_r : ℕ
pf_r = 4

-- `ElfProgramHeaderView`
pub record Header : Type 0 where
  pub kind : ℕ  -- `type`
  pub flags : ℕ
  pub offset : ℕ
  pub virtual_address : ℕ
  pub file_size : ℕ
  pub memory_size : ℕ
  pub alignment : ℕ

abbrev pub is_load : Header → Bool
is_load h = h.kind == pt_load

-- `IsValidLoadAlignment`
valid_alignment : ℕ → ℕ → ℕ → Bool
valid_alignment alignment offset virtual_address =
    leb alignment 1
    || (bit_and alignment (alignment - 1) == 0 && virtual_address % alignment == offset % alignment)

-- The locals of `ValidateElfLoadLayout`: the address and end of the last PT_LOAD.
abbrev pub Previous : Type 0
Previous = Option (ℕ × ℕ)

behind : Previous → ℕ → Bool
behind none virtual_address = false
behind (some (va, end)) virtual_address = ltb virtual_address va || ltb virtual_address end

-- One round for a PT_LOAD; `none` is a refusal.
check_load : Previous → Header → Option (ℕ × ℕ)
unfolding valid_alignment behind
check_load previous h = elim (checked_add h.virtual_address h.memory_size) [
  | none ↦ none
  | some load_end ↦
      if ltb h.memory_size h.file_size
        || (not (valid_alignment h.alignment h.offset h.virtual_address)
            || behind previous h.virtual_address)
      then none
      else some (h.virtual_address, load_end)
]

validate_from : Previous → List Header → Bool
validate_from previous [] = true
validate_from previous (h ∷ hs) =
    if is_load h
    then (elim (check_load previous h) [ none ↦ false | some p ↦ validate_from (some p) hs ])
    else validate_from previous hs

-- `ValidateElfLoadLayout`
unfoldable pub validate_load_layout : List Header → Bool
unfolding validate_from check_load
validate_load_layout hs = validate_from none hs

-- `ValidateElfLoadFileBounds`, for a file of `size` bytes
unfoldable pub validate_file_bounds : ℕ → List Header → Bool
validate_file_bounds size [] = true
validate_file_bounds size (h ∷ hs) =
    not (is_load h && not (range_fits h.offset h.file_size size)) && validate_file_bounds size hs

-- `ValidateElfLoadSegments`
unfoldable pub validate_load_segments : ℕ → List Header → Bool
unfolding validate_load_layout validate_file_bounds
validate_load_segments size hs = validate_load_layout hs && validate_file_bounds size hs

-- One round of `ElfVaToFileOffset`: the offset that this header gives, if it holds the range.
candidate_offset : Header → ℕ → ℕ → Option ℕ
candidate_offset h va size =
    if not (is_load h) || ltb va h.virtual_address
    then none
    else let delta = va - h.virtual_address in
      if leb h.file_size delta || (ltb (h.file_size - delta) size || ltb (u64_max - delta) h.offset)
      then none
      else some (h.offset + delta)

-- An offset that is not the one found before makes the address ambiguous.
disagrees : Option ℕ → ℕ → Bool
disagrees none candidate = false
disagrees (some result) candidate = not (result == candidate)

translate_from : Option ℕ → List Header → ℕ → ℕ → Option ℕ
translate_from result [] va size = result
translate_from result (h ∷ hs) va size = elim (candidate_offset h va size) [
  | none ↦ translate_from result hs va size
  | some candidate ↦
      if disagrees result candidate then none else translate_from (some candidate) hs va size
]

-- `ElfVaToFileOffset`
unfoldable pub va_to_file_offset : List Header → ℕ → ℕ → Option ℕ
unfolding translate_from candidate_offset disagrees
va_to_file_offset hs va size = if size == 0 then none else translate_from none hs va size

-- `ElfVaRangeHasFlags`
unfoldable pub range_has_flags : List Header → ℕ → ℕ → ℕ → Bool → Bool
range_has_flags [] va size flags loaded = false
range_has_flags (h ∷ hs) va size flags loaded =
    let available = if loaded then h.memory_size else h.file_size in
    let delta = va - h.virtual_address in
    (not (size == 0)
      && (is_load h
          && (bit_and h.flags flags == flags
              && (leb h.virtual_address va
                  && (ltb delta available && leb size (available - delta))))))
    || range_has_flags hs va size flags loaded

-- `ElfProgramHeaderHasCanonicalFileBacking`
unfoldable pub canonical_file_backing : List Header → Header → ℕ → Bool
unfolding va_to_file_offset range_has_flags
canonical_file_backing hs h flags =
    if h.file_size == 0 || ltb h.memory_size h.file_size
    then false
    else (elim (va_to_file_offset hs h.virtual_address h.file_size) [
      | none ↦ false
      | some offset ↦
          offset == h.offset && range_has_flags hs h.virtual_address h.file_size flags false
    ])

-- `FindElfProgramHeader`
pub data HeaderLookup : Type 0 where
  found : Header → HeaderLookup
  missing ambiguous : HeaderLookup

find_from : HeaderLookup → List Header → ℕ → HeaderLookup
find_from result [] kind = result
find_from (found h') (h ∷ hs) kind =
    if h.kind == kind then ambiguous else find_from (found h') hs kind
find_from missing (h ∷ hs) kind = find_from (if h.kind == kind then found h else missing) hs kind
find_from ambiguous (h ∷ hs) kind = ambiguous

unfoldable pub find_header : List Header → ℕ → HeaderLookup
unfolding find_from
find_header hs kind = find_from missing hs kind
