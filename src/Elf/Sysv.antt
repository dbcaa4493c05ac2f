-- ===== src/Elf/Sysv.antt =====
-- `FindSysvSymbol` (src/elf/dynamic_view.cpp). The loop ends because the source counts its rounds.
pub mod Found
use dart_plant.Prelude.{
  ℕ, zero, suc, ◌+◌, ◌-◌, ◌*◌, ◌%◌, ◌==◌, ltb, if◌then◌else◌, Bool, true, false, not, ◌&&◌, ◌||◌,
  Option, none, some, List,
}
use dart_plant.Elf.Checked.{checked_add, checked_mul, checked_mul_add}
use dart_plant.Elf.Reader.{Reader, field, read_u32, anchor_readable}
use dart_plant.Elf.Dynamic.{View, symbol_size}
use dart_plant.Elf.Symbols.{
  Symbol, Lookup, found, not_found, malformed, sysv_hash, match_symbol, remember, conclude, next_of,
}

-- The loop of `FindSysvSymbol`; `left` is `chain_count - visited`.
walk_sysv : Reader → View → List ℕ → ℕ → ℕ → ℕ → Option Symbol → ℕ → Lookup
walk_sysv reader v name chains_va chain_count zero candidate index =
    if index == 0 then conclude candidate else malformed
walk_sysv reader v name chains_va chain_count (suc left) candidate index = elim (index == 0) [
  | true ↦ conclude candidate
  | false ↦ elim (ltb index chain_count) [
    | false ↦ malformed
    | true ↦ elim (remember (match_symbol reader v name index) candidate) [
      | none ↦ malformed
      | some kept ↦ elim (next_of reader chains_va index) [
        | none ↦ malformed
        | some next ↦ elim (next == index) [
          | true ↦ malformed
          | false ↦ walk_sysv reader v name chains_va chain_count left kept next
        ]
      ]
    ]
  ]
]

-- The locals of `FindSysvSymbol` that its loop uses.
pub record Table : Type 0 where
  pub chains_va : ℕ
  pub chain_count : ℕ
  pub first : ℕ

-- The sizes of the table (with its header) and of the symbols it covers, if they fit 64 bits.
table_sizes : ℕ → ℕ → ℕ → Option (ℕ × ℕ)
table_sizes bucket_count chain_count symbol_entry_size = elim (checked_mul bucket_count 4) [
  | none ↦ none
  | some buckets_size ↦ elim (checked_mul chain_count 4) [
    | none ↦ none
    | some chains_size ↦ elim (checked_add 8 buckets_size) [
      | none ↦ none
      | some with_buckets ↦ elim (checked_add with_buckets chains_size) [
        | none ↦ none
        | some table_size ↦ elim (checked_mul chain_count symbol_entry_size) [
          | none ↦ none
          | some dynsym_size ↦ some (table_size, dynsym_size)
        ]
      ]
    ]
  ]
]

-- The symbol index in the bucket of the name, and the address of the chains.
read_bucket : Reader → List ℕ → ℕ → ℕ → ℕ → Option Table
read_bucket reader name hash_va bucket_count chain_count = elim (checked_add hash_va 8) [
  | none ↦ none
  | some buckets_va ↦ elim (checked_mul_add buckets_va (sysv_hash name % bucket_count) 4) [
    | none ↦ none
    | some bucket_va ↦ elim (read_u32 reader bucket_va) [
      | none ↦ none
      | some first ↦ elim (checked_add buckets_va (bucket_count * 4)) [
        | none ↦ none
        | some chains_va ↦
            some (record { chains_va = chains_va; chain_count = chain_count; first = first })
      ]
    ]
  ]
]

-- The tests of `FindSysvSymbol` on the table as a whole.
table_fits : Reader → View → ℕ → ℕ → ℕ → Bool
unfolding table_sizes
table_fits reader v hash_va bucket_count chain_count =
    elim (table_sizes bucket_count chain_count v.symbol_entry_size) [
      | none ↦ false
      | some (table_size, dynsym_size) ↦
          not (bucket_count == 0)
          && (not (chain_count == 0)
              && (v.symbol_entry_size == symbol_size
                  && (anchor_readable reader hash_va table_size
                      && anchor_readable reader v.symtab_va dynsym_size)))
    ]

-- What `FindSysvSymbol` does before its loop.
open_table : Reader → View → List ℕ → ℕ → Option Table
unfolding table_fits read_bucket
open_table reader v name hash_va = elim (reader.read hash_va 8) [
  | none ↦ none
  | some header ↦
      if table_fits reader v hash_va (field header 0 4) (field header 4 4)
      then read_bucket reader name hash_va (field header 0 4) (field header 4 4)
      else none
]

-- `FindSysvSymbol`, at the address of the table
unfoldable pub find_sysv : Reader → View → List ℕ → ℕ → Lookup
unfolding open_table walk_sysv remember conclude next_of
find_sysv reader v name hash_va = elim (open_table reader v name hash_va) [
  | none ↦ malformed
  | some t ↦ walk_sysv reader v name t.chains_va t.chain_count t.chain_count none t.first
]
