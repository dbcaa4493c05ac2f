-- ===== src/Elf/Symbols.antt =====
-- Symbol lookup through the hash tables (src/elf/dynamic_view.cpp). Names are lists of bytes. The
-- loops end because the source counts them: SysV chains by `visited`, GNU chains by `chain_index`.
pub mod Found
use dart_plant.Prelude.{
  ℕ, zero, suc, ◌+◌, ◌-◌, ◌*◌, ◌/◌, ◌%◌, ◌^◌, ◌==◌, ltb, leb, if◌then◌else◌, Bool, true, false, not,
  ◌&&◌, ◌||◌, Option, none, some, List, [], ◌∷◌, foldl, bit_and, bit_or, bit_xor, same_bytes,
}
use dart_plant.Elf.Checked.{checked_add, checked_mul, checked_mul_add}
use dart_plant.Elf.Reader.{Reader, field, read_u32, read_u64, anchor_readable}
use dart_plant.Elf.Dynamic.{View, symbol_size}

-- `ElfDynamicSymbol`
pub record Symbol : Type 0 where
  pub value : ℕ
  pub size : ℕ
  pub info : ℕ
  pub other : ℕ
  pub section_index : ℕ

-- `ElfDynamicLookupResult`, without kUnavailable, which no lookup returns
pub data Lookup : Type 0 where
  found : Symbol → Lookup
  not_found malformed : Lookup

-- One round of `SysvHash`
sysv_round : ℕ → ℕ → ℕ
sysv_round hash value =
    let shifted = (hash * 16 + value) % 2 ^ 32 in
    let high = bit_and shifted 4026531840 in
    let mixed = if high == 0 then shifted else bit_xor shifted (high / 2 ^ 24) in
    bit_and mixed (2 ^ 32 - 1 - high)

-- `SysvHash`
unfoldable pub sysv_hash : List ℕ → ℕ
unfolding sysv_round
sysv_hash name = foldl sysv_round 0 name

gnu_round : ℕ → ℕ → ℕ
gnu_round hash value = (hash * 33 + value) % 2 ^ 32

-- `GnuHash`
unfoldable pub gnu_hash : List ℕ → ℕ
unfolding gnu_round
gnu_hash name = foldl gnu_round 5381 name

-- The loop of `ReadSymbolName`, with `left` bytes of the table remaining.
read_name : Reader → ℕ → ℕ → ℕ → Option (List ℕ)
read_name reader start zero index = none
read_name reader start (suc left) index = elim (checked_add start index) [
  | none ↦ none
  | some va ↦ elim (reader.read va 1) [
    | none ↦ none
    | some bytes ↦ elim (field bytes 0 1) [
      | zero ↦ some []
      | suc b ↦ elim (read_name reader start left (suc index)) [
        | none ↦ none
        | some rest ↦ some (suc b ∷ rest)
      ]
    ]
  ]
]

-- `ReadSymbolName`, of the symbol whose `st_name` is `name_offset`
unfoldable pub read_symbol_name : Reader → View → ℕ → Option (List ℕ)
unfolding read_name
read_symbol_name reader v name_offset = elim (checked_add v.strtab_va name_offset) [
  | none ↦ none
  | some start ↦
      if leb v.strtab_size name_offset
      then none
      else read_name reader start (v.strtab_size - name_offset) 0
]

-- The 24 bytes of the symbol of this index.
unfoldable pub read_symbol : Reader → View → ℕ → Option (List ℕ)
read_symbol reader v index =
    if v.symbol_entry_size == symbol_size
    then (elim (checked_mul_add v.symtab_va index v.symbol_entry_size) [
      | none ↦ none
      | some va ↦ reader.read va symbol_size
    ])
    else none

unfoldable pub symbol_of : List ℕ → Symbol
symbol_of bytes = record {
  value = field bytes 8 8;
  size = field bytes 16 8;
  info = field bytes 4 1;
  other = field bytes 5 1;
  section_index = field bytes 6 2;
}

-- A symbol of the wanted name must be defined.
judge : List ℕ → List ℕ → Symbol → Lookup
judge wanted actual s =
    if same_bytes actual wanted
    then (if s.section_index == 0 || s.value == 0 then malformed else found s)
    else not_found

-- `MatchSymbol`
unfoldable pub match_symbol : Reader → View → List ℕ → ℕ → Lookup
unfolding read_symbol read_symbol_name symbol_of judge
match_symbol reader v wanted index = elim (read_symbol reader v index) [
  | none ↦ malformed
  | some bytes ↦ elim (read_symbol_name reader v (field bytes 0 4)) [
    | none ↦ malformed
    | some actual ↦ judge wanted actual (symbol_of bytes)
  ]
]

-- `SameDynamicSymbol`
same_symbol : Symbol → Symbol → Bool
same_symbol a b =
    a.value == b.value
    && (a.size == b.size
        && (a.info == b.info && (a.other == b.other && a.section_index == b.section_index)))

-- The candidate after a match (`RememberDynamicSymbol` and the tests around it); `none` ends the
-- search as malformed.
unfoldable pub remember : Lookup → Option Symbol → Option (Option Symbol)
unfolding same_symbol
remember malformed candidate = none
remember not_found candidate = some candidate
remember (found s) none = some (some s)
remember (found s) (some before) = if same_symbol before s then some (some s) else none

unfoldable pub conclude : Option Symbol → Lookup
conclude none = not_found
conclude (some s) = found s

-- The chain entry of a symbol.
unfoldable pub next_of : Reader → ℕ → ℕ → Option ℕ
next_of reader chains_va index = elim (checked_mul_add chains_va index 4) [
  | none ↦ none
  | some va ↦ read_u32 reader va
]
