-- ===== src/Elf/Dynamic.antt =====
-- The dynamic section (`ReadElfDynamicView` of src/elf/dynamic_view.cpp). The tags are those of the
-- ELF format, and `d_tag` is read as an unsigned number.
pub mod Accepted
pub mod Entries
pub mod Tagged
use dart_plant.Prelude.{
  ℕ, zero, suc, ◌+◌, ◌*◌, ◌/◌, ◌%◌, ◌==◌, ltb, leb, if◌then◌else◌, Bool, true, false, not, ◌&&◌,
  ◌||◌, Option, none, some, List, [], ◌∷◌,
}
use dart_plant.Elf.Checked.{checked_mul_add}
use dart_plant.Elf.Reader.{Reader, field, anchor_readable}

-- `ElfDynamicView`
pub record View : Type 0 where
  pub symtab_va : ℕ
  pub strtab_va : ℕ
  pub strtab_size : ℕ
  pub symbol_entry_size : ℕ
  pub sysv_hash_va : Option ℕ
  pub gnu_hash_va : Option ℕ

-- The optional locals of `ReadElfDynamicView`.
pub record Tags : Type 0 where
  pub symtab : Option ℕ
  pub strtab : Option ℕ
  pub strsz : Option ℕ
  pub syment : Option ℕ
  pub hash : Option ℕ
  pub gnu_hash : Option ℕ

abbrev pub no_tags : Tags
no_tags = record {
  symtab = none;
  strtab = none;
  strsz = none;
  syment = none;
  hash = none;
  gnu_hash = none;
}

-- `sizeof(Elf64_Dyn)` and `sizeof(Elf64_Sym)`
abbrev pub entry_size : ℕ
entry_size = 16

abbrev pub symbol_size : ℕ
symbol_size = 24

-- `SetDynamicSingleton`: the slot afterwards; `none` is a refusal.
pub set_singleton : ℕ → Option ℕ → Option (Option ℕ)
set_singleton value none = some (some value)
set_singleton value (some before) = if before == value then some (some value) else none

-- The switch over `d_tag`.
store_tag : Tags → ℕ → ℕ → Option Tags
unfolding set_singleton
store_tag t tag value =
    if tag == 6
    then elim (set_singleton value t.symtab) [
      | none ↦ none
      | some s ↦ some (record t { symtab = s })
    ]
    else if tag == 5
    then elim (set_singleton value t.strtab) [
      | none ↦ none
      | some s ↦ some (record t { strtab = s })
    ]
    else if tag == 10
    then elim (set_singleton value t.strsz) [ none ↦ none | some s ↦ some (record t { strsz = s }) ]
    else if tag == 11
    then elim (set_singleton value t.syment) [
      | none ↦ none
      | some s ↦ some (record t { syment = s })
    ]
    else if tag == 4
    then elim (set_singleton value t.hash) [ none ↦ none | some s ↦ some (record t { hash = s }) ]
    else if tag == 1879047925
    then elim (set_singleton value t.gnu_hash) [
      | none ↦ none
      | some s ↦ some (record t { gnu_hash = s })
    ]
    else some t

-- The bytes of the entry of this index.
read_entry : Reader → ℕ → ℕ → Option (List ℕ)
read_entry reader dynamic_va index = elim (checked_mul_add dynamic_va index entry_size) [
  | none ↦ none
  | some va ↦ reader.read va entry_size
]

-- The loop over the entries from `index`, of which `left` remain; running out of entries without a
-- DT_NULL is a refusal.
read_tags : Reader → ℕ → ℕ → ℕ → Tags → Option Tags
read_tags reader dynamic_va zero index t = none
read_tags reader dynamic_va (suc left) index t = elim (read_entry reader dynamic_va index) [
  | none ↦ none
  | some bytes ↦ elim (field bytes 0 8 == 0) [
    | true ↦ some t
    | false ↦ elim (store_tag t (field bytes 0 8) (field bytes 8 8)) [
      | none ↦ none
      | some next ↦ read_tags reader dynamic_va left (suc index) next
    ]
  ]
]

value_or_zero : Option ℕ → ℕ
value_or_zero none = 0
value_or_zero (some n) = n

view_of : Tags → View
unfolding value_or_zero
view_of t = record {
  symtab_va = value_or_zero t.symtab;
  strtab_va = value_or_zero t.strtab;
  strtab_size = value_or_zero t.strsz;
  symbol_entry_size = value_or_zero t.syment;
  sysv_hash_va = t.hash;
  gnu_hash_va = t.gnu_hash;
}

-- An absent table is fine, one that is named must be readable.
table_readable : Reader → Option ℕ → ℕ → Bool
table_readable reader none size = true
table_readable reader (some va) size = anchor_readable reader va size

-- The tests on the finished view.
accepted : Reader → View → Bool
unfolding table_readable
accepted reader v =
    not (v.symtab_va == 0)
    && (not (v.strtab_va == 0)
        && (not (v.strtab_size == 0)
            && (v.symbol_entry_size == symbol_size
                && (anchor_readable reader v.symtab_va symbol_size
                    && (anchor_readable reader v.strtab_va v.strtab_size
                        && (table_readable reader v.sysv_hash_va 8
                            && table_readable reader v.gnu_hash_va 16))))))

-- The tests on the section before its entries are read.
section_readable : Reader → ℕ → ℕ → Bool
section_readable reader dynamic_va dynamic_size = elim (reader.readable_bytes dynamic_va) [
  | none ↦ false
  | some backing ↦
      not (dynamic_va == 0)
      && (leb entry_size dynamic_size
          && (dynamic_size % entry_size == 0 && leb dynamic_size backing))
]

-- `ReadElfDynamicView`; `none` is kMalformed.
unfoldable pub read_dynamic_view : Reader → ℕ → ℕ → Option View
unfolding section_readable read_tags read_entry store_tag view_of accepted
read_dynamic_view reader dynamic_va dynamic_size =
    let tags = read_tags reader dynamic_va (dynamic_size / entry_size) 0 no_tags in
    if section_readable reader dynamic_va dynamic_size
    then (elim tags [
      | none ↦ none
      | some t ↦ if accepted reader (view_of t) then some (view_of t) else none
    ])
    else none
