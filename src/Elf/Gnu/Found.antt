-- ===== src/Elf/Gnu/Found.antt =====
-- The GNU search finds only symbols of the name.
use dart_plant.Prelude.{
  ℕ, zero, suc, ◌-◌, ◌/◌, ◌%◌, ◌^◌, ◌≡◌, ◌==◌, ltb, true, false, ◌&&◌, Option, none, some, List,
  Bool-cases, Option-cases, inl, inr, arith, bit_and, bit_or,
}
use dart_plant.Elf.Checked.{checked_add}
use dart_plant.Elf.Reader.{Reader, anchor_readable}
use dart_plant.Elf.Dynamic.{View}
use dart_plant.Elf.Symbols.{Symbol, found, gnu_hash, next_of}
use dart_plant.Elf.Symbols.Found.{IsFoundIn, IsKept, remember-IsKept, conclude-found}
use dart_plant.Elf.Gnu.{
  Shape, Places, visit, walk_gnu, walk_bucket, bloom_admits, search_table, place, shape_of,
  shape_ok, find_gnu,
}

visit-IsKept :
    (reader : Reader) (v : View) (name : List ℕ) (hash chain_hash : ℕ)
    (candidate kept : Option Symbol) (index : ℕ)
    → visit reader v name hash chain_hash candidate index ≡ some kept
    → IsKept reader v name candidate
    → IsKept reader v name kept
unfolding visit
visit-IsKept reader v name hash chain_hash candidate kept index e k =
    elim (Bool-cases (bit_or chain_hash 1 == bit_or hash 1)) [
      | inl same ↦ remember-IsKept reader v name index candidate kept (rw same at e) k
      | inr other ↦ let unchanged : candidate ≡ kept = ground (arith, other, e) in rw unchanged at k
    ]

walk_gnu-found :
    (reader : Reader) (v : View) (name : List ℕ) (hash chains_va left chain_index : ℕ)
    (candidate : Option Symbol) (index : ℕ) (s : Symbol)
    → IsKept reader v name candidate
    → walk_gnu reader v name hash chains_va left chain_index candidate index ≡ found s
    → IsFoundIn reader v name s
unfolding walk_gnu
walk_gnu-found reader v name hash chains_va zero chain_index candidate index s k e =
    ground (arith, e)
walk_gnu-found reader v name hash chains_va (suc left) chain_index candidate index s k e =
    elim (Option-cases (next_of reader chains_va chain_index)) [
      | inl unreadable ↦ ground (arith, unreadable, e)
      | inr (chain_hash, read) ↦
          elim (Option-cases (visit reader v name hash chain_hash candidate index)) [
            | inl bad ↦ ground (arith, read, bad, e)
            | inr (kept, good) ↦
                let next_kept =
                  visit-IsKept reader v name hash chain_hash candidate kept index good k in
                elim (Bool-cases (bit_and chain_hash 1 == 0)) [
                  | inr last ↦
                      conclude-found reader v name kept s (rw (read, good, last, walk_gnu) at e)
                        next_kept
                  | inl more ↦ elim (Bool-cases (index == 2 ^ 32 - 1)) [
                    | inl full ↦ ground (arith, read, good, more, full, e)
                    | inr on ↦
                        walk_gnu-found reader v name hash chains_va left (suc chain_index) kept
                          (suc index) s next_kept (rw (read, good, more, on, walk_gnu) at e)
                  ]
                ]
          ]
    ]

walk_bucket-found :
    (reader : Reader) (v : View) (name : List ℕ) (hash : ℕ) (t : Shape) (p : Places) (first : ℕ)
    (s : Symbol)
    → walk_bucket reader v name hash t p first ≡ found s
    → IsFoundIn reader v name s
unfolding walk_bucket
walk_bucket-found reader v name hash t p first s e = elim (Bool-cases (first == 0)) [
  | inl empty ↦ ground (arith, empty, e)
  | inr some_first ↦ elim (Bool-cases (ltb first t.symbol_offset)) [
    | inl low ↦ ground (arith, some_first, low, e)
    | inr high ↦ elim (Option-cases (checked_add p.buckets_va p.buckets_size)) [
      | inl overflow ↦ ground (arith, some_first, high, overflow, e)
      | inr (chains_va, place) ↦ elim (Option-cases (reader.readable_bytes chains_va)) [
        | inl outside ↦ ground (arith, some_first, high, place, outside, e)
        | inr (remaining, inside) ↦
            walk_gnu-found reader v name hash chains_va (remaining / 4 - (first - t.symbol_offset))
              (first - t.symbol_offset) none first s tt
              (rw (some_first, high, place, inside, walk_bucket) at e)
      ]
    ]
  ]
]

search_table-found :
    (reader : Reader) (v : View) (name : List ℕ) (t : Shape) (p : Places) (s : Symbol)
    → search_table reader v name t p ≡ found s
    → IsFoundIn reader v name s
unfolding search_table
search_table-found reader v name t p s e =
    elim (Option-cases (bloom_admits reader t p.bloom_base (gnu_hash name))) [
      | inl unreadable ↦ ground (arith, unreadable, e)
      | inr (false, refused) ↦ ground (arith, refused, e)
      | inr (true, admitted) ↦
          elim (Option-cases (next_of reader p.buckets_va (gnu_hash name % t.bucket_count))) [
            | inl unreadable ↦ ground (arith, admitted, unreadable, e)
            | inr (first, read) ↦
                walk_bucket-found reader v name (gnu_hash name) t p first s
                  (rw (admitted, read, search_table) at e)
          ]
    ]

pub find_gnu-found :
    (reader : Reader) (v : View) (name : List ℕ) (hash_va : ℕ) (s : Symbol)
    → find_gnu reader v name hash_va ≡ found s
    → IsFoundIn reader v name s
unfolding find_gnu
find_gnu-found reader v name hash_va s e = elim (Option-cases (reader.read hash_va 16)) [
  | inl unreadable ↦ ground (arith, unreadable, e)
  | inr (header, read) ↦ elim (Option-cases (place hash_va (shape_of header))) [
    | inl overflow ↦ ground (arith, read, overflow, e)
    | inr (p, placed) ↦
        elim (Bool-cases
          (shape_ok (shape_of header) && anchor_readable reader hash_va p.fixed_size)) [
            | inr bad ↦ ground (arith, read, placed, bad, e)
            | inl good ↦
                search_table-found reader v name (shape_of header) p s
                  (rw (read, placed, good, find_gnu) at e)
          ]
  ]
]
