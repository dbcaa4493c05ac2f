-- ===== src/Elf/Sysv/Found.antt =====
-- The SysV search finds only symbols of the name.
use dart_plant.Prelude.{
  ℕ, zero, suc, ◌≡◌, ◌==◌, ltb, Option, none, List, Bool-cases, Option-cases, inl, inr, arith,
}
use dart_plant.Elf.Reader.{Reader}
use dart_plant.Elf.Dynamic.{View}
use dart_plant.Elf.Symbols.{Symbol, found, match_symbol, remember, next_of}
use dart_plant.Elf.Symbols.Found.{IsFoundIn, IsKept, remember-IsKept, conclude-found}
use dart_plant.Elf.Sysv.{walk_sysv, open_table, find_sysv}

walk_sysv-found :
    (reader : Reader) (v : View) (name : List ℕ) (chains_va chain_count left : ℕ)
    (candidate : Option Symbol) (index : ℕ) (s : Symbol)
    → IsKept reader v name candidate
    → walk_sysv reader v name chains_va chain_count left candidate index ≡ found s
    → IsFoundIn reader v name s
unfolding walk_sysv
walk_sysv-found reader v name chains_va chain_count zero candidate index s k e =
    elim (Bool-cases (index == 0)) [
      | inl end ↦ conclude-found reader v name candidate s (rw end at e) k
      | inr more ↦ ground (arith, more, e)
    ]
walk_sysv-found reader v name chains_va chain_count (suc left) candidate index s k e =
    elim (Bool-cases (index == 0)) [
      | inl end ↦ conclude-found reader v name candidate s (rw (end, walk_sysv) at e) k
      | inr more ↦ elim (Bool-cases (ltb index chain_count)) [
        | inr outside ↦ ground (arith, more, outside, e)
        | inl inside ↦ elim (Option-cases (remember (match_symbol reader v name index) candidate)) [
          | inl bad ↦ ground (arith, more, inside, bad, e)
          | inr (kept, good) ↦ elim (Option-cases (next_of reader chains_va index)) [
            | inl unreadable ↦ ground (arith, more, inside, good, unreadable, e)
            | inr (next, read) ↦ elim (Bool-cases (next == index)) [
              | inl loop ↦ ground (arith, more, inside, good, read, loop, e)
              | inr on ↦
                  walk_sysv-found reader v name chains_va chain_count left kept next s
                    (remember-IsKept reader v name index candidate kept good k)
                    (rw (more, inside, good, read, on, walk_sysv) at e)
            ]
          ]
        ]
      ]
    ]

pub find_sysv-found :
    (reader : Reader) (v : View) (name : List ℕ) (hash_va : ℕ) (s : Symbol)
    → find_sysv reader v name hash_va ≡ found s
    → IsFoundIn reader v name s
unfolding find_sysv
find_sysv-found reader v name hash_va s e = elim (Option-cases (open_table reader v name hash_va)) [
  | inl refused ↦ ground (arith, refused, e)
  | inr (t, opened) ↦
      walk_sysv-found reader v name t.chains_va t.chain_count t.chain_count none t.first s tt
        (rw (opened, find_sysv) at e)
]
