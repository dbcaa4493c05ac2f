-- ===== src/Elf/Gnu.antt =====
-- `FindGnuSymbol` (src/elf/dynamic_view.cpp). The loop ends because the source counts `chain_index`
-- up to the entries that are readable.
pub mod Found
use dart_plant.Prelude.{
  ℕ, zero, suc, ◌+◌, ◌-◌, ◌*◌, ◌/◌, ◌%◌, ◌^◌, ◌==◌, ltb, leb, if◌then◌else◌, Bool, true, false, not,
  ◌&&◌, ◌||◌, Option, none, some, List, bit_and, bit_or,
}
use dart_plant.Elf.Checked.{checked_add, checked_mul, checked_mul_add}
use dart_plant.Elf.Reader.{Reader, field, read_u32, read_u64, anchor_readable}
use dart_plant.Elf.Dynamic.{View}
use dart_plant.Elf.Symbols.{
  Symbol, Lookup, found, not_found, malformed, gnu_hash, match_symbol, remember, conclude, next_of,
}

-- The candidate after the entry of a symbol, which is looked at only when its hash agrees up to the
-- end-of-chain bit.
visit : Reader → View → List ℕ → ℕ → ℕ → Option Symbol → ℕ → Option (Option Symbol)
unfolding remember
visit reader v name hash chain_hash candidate index =
    if bit_or chain_hash 1 == bit_or hash 1
    then remember (match_symbol reader v name index) candidate
    else some candidate

-- The loop of `FindGnuSymbol`; `left` is `max_chain_entries - chain_index`.
walk_gnu : Reader → View → List ℕ → ℕ → ℕ → ℕ → ℕ → Option Symbol → ℕ → Lookup
walk_gnu reader v name hash chains_va zero chain_index candidate index = malformed
walk_gnu reader v name hash chains_va (suc left) chain_index candidate index =
    elim (next_of reader chains_va chain_index) [
      | none ↦ malformed
      | some chain_hash ↦ elim (visit reader v name hash chain_hash candidate index) [
        | none ↦ malformed
        | some kept ↦ elim (bit_and chain_hash 1 == 0) [
          | false ↦ conclude kept
          | true ↦ elim (index == 2 ^ 32 - 1) [
            | true ↦ malformed
            | false ↦ walk_gnu reader v name hash chains_va left (suc chain_index) kept (suc index)
          ]
        ]
      ]
    ]

-- The header of the table.
pub record Shape : Type 0 where
  pub bucket_count : ℕ
  pub symbol_offset : ℕ
  pub bloom_words : ℕ
  pub bloom_shift : ℕ

shape_of : List ℕ → Shape
shape_of header = record {
  bucket_count = field header 0 4;
  symbol_offset = field header 4 4;
  bloom_words = field header 8 4;
  bloom_shift = field header 12 4;
}

shape_ok : Shape → Bool
shape_ok s =
    not (s.bucket_count == 0)
    && (not (s.bloom_words == 0)
        && (ltb s.bloom_shift 32 && bit_and s.bloom_words (s.bloom_words - 1) == 0))

-- The fixed part of the table, and where its parts lie: `bloom_base`, `buckets_va`, `chains_va`.
pub record Places : Type 0 where
  pub bloom_base : ℕ
  pub buckets_va : ℕ
  pub buckets_size : ℕ
  pub fixed_size : ℕ

place : ℕ → Shape → Option Places
place hash_va s = elim (checked_add hash_va 16) [
  | none ↦ none
  | some bloom_base ↦ elim (checked_mul s.bloom_words 8) [
    | none ↦ none
    | some bloom_size ↦ elim (checked_add bloom_base bloom_size) [
      | none ↦ none
      | some buckets_va ↦ elim (checked_mul s.bucket_count 4) [
        | none ↦ none
        | some buckets_size ↦ elim (checked_add 16 bloom_size) [
          | none ↦ none
          | some fixed ↦ elim (checked_add fixed buckets_size) [
            | none ↦ none
            | some fixed_size ↦ some (record {
              bloom_base = bloom_base;
              buckets_va = buckets_va;
              buckets_size = buckets_size;
              fixed_size = fixed_size;
            })
          ]
        ]
      ]
    ]
  ]
]

-- Whether the Bloom filter admits the hash; `none` when its word cannot be read.
bloom_admits : Reader → Shape → ℕ → ℕ → Option Bool
bloom_admits reader s bloom_base hash =
    elim (checked_mul_add bloom_base (bit_and (hash / 64) (s.bloom_words - 1)) 8) [
      | none ↦ none
      | some va ↦ elim (read_u64 reader va) [
        | none ↦ none
        | some bloom ↦
            let mask = bit_or (2 ^ (hash % 64)) (2 ^ ((hash / 2 ^ s.bloom_shift) % 64)) in
            some (bit_and bloom mask == mask)
      ]
    ]

-- From the bucket's symbol to the end of its chain.
walk_bucket : Reader → View → List ℕ → ℕ → Shape → Places → ℕ → Lookup
unfolding walk_gnu visit
walk_bucket reader v name hash s p first =
    if first == 0
    then not_found
    else if ltb first s.symbol_offset
    then malformed
    else (elim (checked_add p.buckets_va p.buckets_size) [
      | none ↦ malformed
      | some chains_va ↦ elim (reader.readable_bytes chains_va) [
        | none ↦ malformed
        | some remaining ↦
            let chain_index = first - s.symbol_offset in
            walk_gnu reader v name hash chains_va (remaining / 4 - chain_index) chain_index none
              first
      ]
    ])

-- `FindGnuSymbol` after the tests on the table.
search_table : Reader → View → List ℕ → Shape → Places → Lookup
unfolding bloom_admits walk_bucket
search_table reader v name s p = elim (bloom_admits reader s p.bloom_base (gnu_hash name)) [
  | none ↦ malformed
  | some false ↦ not_found
  | some true ↦ elim (next_of reader p.buckets_va (gnu_hash name % s.bucket_count)) [
    | none ↦ malformed
    | some first ↦ walk_bucket reader v name (gnu_hash name) s p first
  ]
]

-- `FindGnuSymbol`, at the address of the table
unfoldable pub find_gnu : Reader → View → List ℕ → ℕ → Lookup
unfolding shape_of shape_ok place search_table remember conclude next_of
find_gnu reader v name hash_va = elim (reader.read hash_va 16) [
  | none ↦ malformed
  | some header ↦ elim (place hash_va (shape_of header)) [
    | none ↦ malformed
    | some p ↦
        if shape_ok (shape_of header) && anchor_readable reader hash_va p.fixed_size
        then search_table reader v name (shape_of header) p
        else malformed
  ]
]
