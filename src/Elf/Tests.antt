-- ===== src/Elf/Tests.antt =====
-- A small image with one PT_LOAD at address 16: a SysV hash table, two symbols, a string table and a
-- dynamic section.
use dart_plant.Prelude.{
  ℕ, zero, suc, ◌+◌, ◌-◌, ◌≤◌, ◌<◌, ◌≡◌, refl, ap, true, none, some, List, [], ◌∷◌, ◌++◌, get_elem?,
  get_or, length, arith, replicate,
}
use dart_plant.Elf.Checked.{u64_max, checked_add, checked_mul, checked_mul_add}
use dart_plant.Elf.Segments.{Header, validate_load_layout, validate_file_bounds, va_to_file_offset}
use dart_plant.Elf.Segments.Disjoint.{validate_load_layout-disjoint}
use dart_plant.Elf.Segments.Translate.{BackedBy, va_to_file_offset-backed}
use dart_plant.Elf.Reader.{Reader, read_u32, anchor_readable}
use dart_plant.Elf.Readers.{
  loaded_read, loaded_readable_bytes, backed_read, backed_readable_bytes, file_read,
  file_readable_bytes, file_reader, copy,
}
use dart_plant.Elf.Readers.Bounds.{IsReadable, loaded_read-in_segment}
use dart_plant.Elf.Readers.SameBytes.{IsMapped, backed_read-file_read}
use dart_plant.Elf.Dynamic.{View, read_dynamic_view, symbol_size}
use dart_plant.Elf.Dynamic.Accepted.{IsAnchored, IsTable}
use dart_plant.Elf.Dynamic.Tagged.{Describes, read_dynamic_view-Describes}
use dart_plant.Elf.Symbols.{Symbol, found, match_symbol, sysv_hash, remember, conclude, next_of}
use dart_plant.Elf.Symbols.Found.{IsFoundIn}
use dart_plant.Elf.Sysv.{find_sysv}
use dart_plant.Elf.Notes.{BuildId, not_found, ambiguous, parse_notes, merge}
use dart_plant.Elf.Notes.Total.{parse_notes-some}
use dart_plant.Elf.Notes.Merge.{merge_comm_assoc}
use dart_plant.Elf.Lookup.{find_symbol, find_symbol-found}

abbrev text : Header
text = record {
  kind = 1;
  flags = 4;
  offset = 0;
  virtual_address = 16;
  file_size = 176;
  memory_size = 200;
  alignment = 1;
}

abbrev data_segment : Header
data_segment = record {
  kind = 1;
  flags = 6;
  offset = 176;
  virtual_address = 256;
  file_size = 0;
  memory_size = 32;
  alignment = 1;
}

abbrev headers : List Header
headers = text ∷ data_segment ∷ []

abbrev word32 : ℕ → List ℕ
word32 n = n ∷ 0 ∷ 0 ∷ 0 ∷ []

abbrev word64 : ℕ → List ℕ
word64 n = n ∷ replicate 7 0

abbrev hash_table : List ℕ
hash_table = word32 1 ++ word32 2 ++ word32 1 ++ word32 0 ++ word32 0 ++ word32 0

abbrev symbols : List ℕ
symbols = replicate 24 0 ++ word32 1 ++ (18 ∷ 0 ∷ 7 ∷ 0 ∷ []) ++ word64 64 ++ word64 4

abbrev strings : List ℕ
strings = 0 ∷ 102 ∷ 0 ∷ replicate 5 0

abbrev dynamic : List ℕ
dynamic =
    word64 4
    ++ word64 16
    ++ word64 5
    ++ word64 88
    ++ word64 6
    ++ word64 40
    ++ word64 10
    ++ word64 3
    ++ word64 11
    ++ word64 24
    ++ replicate 16 0

abbrev file : List ℕ
file = hash_table ++ symbols ++ strings ++ dynamic

abbrev memory : ℕ → ℕ
memory address = get_or file (address - 4112) 0

abbrev reader : Reader
reader = file_reader file headers

abbrev view : View
view = record {
  symtab_va = 40;
  strtab_va = 88;
  strtab_size = 3;
  symbol_entry_size = 24;
  sysv_hash_va = some 16;
  gnu_hash_va = none;
}

abbrev symbol_f : Symbol
symbol_f = record { value = 64; size = 4; info = 18; other = 0; section_index = 7 }

layout : validate_load_layout headers ≡ true
unfolding validate_load_layout checked_add
layout = refl

bounds : validate_file_bounds (length file) headers ≡ true
unfolding validate_file_bounds
bounds = refl

offset_90 : va_to_file_offset headers 90 2 ≡ some 74
unfolding va_to_file_offset
offset_90 = refl

loaded : loaded_read memory 4096 headers 88 2 ≡ some (0 ∷ 102 ∷ [])
unfolding loaded_read loaded_readable_bytes
loaded = refl

backed : backed_read memory 4096 headers 88 2 ≡ some (0 ∷ 102 ∷ [])
unfolding backed_read backed_readable_bytes va_to_file_offset
backed = refl

the_view : read_dynamic_view reader 96 96 ≡ some view
unfolding read_dynamic_view checked_mul_add checked_mul checked_add anchor_readable file_read
    file_readable_bytes va_to_file_offset
the_view = refl

finds : find_symbol reader view (102 ∷ []) ≡ found symbol_f
unfolding find_symbol find_sysv match_symbol sysv_hash read_u32 checked_mul_add checked_mul
    checked_add anchor_readable file_read file_readable_bytes va_to_file_offset remember conclude
    next_of
finds = refl

mapped : IsMapped memory 4096 file headers
mapped zero h e l k lt =
    let offset : h.offset ≡ 0 = ground (arith, e) in
    let address : h.virtual_address ≡ 16 = ground (arith, e) in
    let same : 4096 + (h.virtual_address + k) - 4112 ≡ h.offset + k =
      omega (arith, offset, address) in
    ap (λ a. get_or file a 0) same
mapped (suc zero) h e l k lt =
    let empty : h.file_size ≡ 0 = ground (arith, e) in omega (arith, empty, lt)
mapped (suc (suc i)) h e l k lt = ground (arith, e)

validate_load_layout-disjoint_example : 216 ≤ 256
validate_load_layout-disjoint_example =
    validate_load_layout-disjoint headers 0 1 text data_segment layout (omega arith) refl refl refl
      refl

va_to_file_offset-backed_example : BackedBy headers 90 2 74
va_to_file_offset-backed_example = va_to_file_offset-backed headers 90 2 74 offset_90

loaded_read-in_segment_example :
    (0 ∷ 102 ∷ [] ≡ copy memory 4184 2)
    × (0 < 2)
    × (4186 ≤ u64_max)
    × ((i : ℕ) × (h : Header) × (get_elem? headers i ≡ some h) × IsReadable h 88 2)
loaded_read-in_segment_example =
    loaded_read-in_segment memory 4096 headers 88 2 (0 ∷ 102 ∷ []) (omega arith) loaded

backed_read-file_read_example : file_read file headers 88 2 ≡ some (0 ∷ 102 ∷ [])
backed_read-file_read_example =
    backed_read-file_read memory 4096 file headers 88 2 (0 ∷ 102 ∷ []) mapped bounds backed

read_dynamic_view-Describes_example :
    ((n : ℕ) × (n < 6) × Describes reader 96 n view)
    × IsAnchored reader 88 3
    × IsAnchored reader 40 symbol_size
    × (view.symbol_entry_size ≡ symbol_size)
    × IsTable reader (some 16) 8
    × IsTable reader none 16
read_dynamic_view-Describes_example = read_dynamic_view-Describes reader 96 96 view the_view

find_symbol-found_example : IsFoundIn reader view (102 ∷ []) symbol_f
find_symbol-found_example = find_symbol-found reader view (102 ∷ []) symbol_f finds

-- A GNU build id of two bytes, and padding
abbrev notes : List ℕ
notes =
    word32 4
    ++ word32 2
    ++ word32 3
    ++ (71 ∷ 78 ∷ 85 ∷ 0 ∷ [])
    ++ (171 ∷ 205 ∷ 0 ∷ 0 ∷ [])
    ++ replicate 4 0

abbrev abcd : BuildId
abcd = BuildId.found (97 ∷ 98 ∷ 99 ∷ 100 ∷ [])

build_id : parse_notes notes ≡ some abcd
unfolding parse_notes
build_id = refl

parse_notes-some_example : (r : BuildId) × (parse_notes notes ≡ some r)
parse_notes-some_example = parse_notes-some notes

merge_comm_assoc_example :
    (merge abcd not_found ≡ merge not_found abcd)
    × (merge (merge abcd not_found) ambiguous ≡ merge abcd (merge not_found ambiguous))
merge_comm_assoc_example = merge_comm_assoc abcd not_found ambiguous
