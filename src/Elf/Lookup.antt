-- ===== src/Elf/Lookup.antt =====
-- `FindElfDynamicSymbol` (src/elf/dynamic_view.cpp).
use dart_plant.Prelude.{ℕ, ◌≡◌, inl, inr, none, some, List, [], ◌∷◌, Option-cases, arith}
use dart_plant.Elf.Reader.{Reader}
use dart_plant.Elf.Dynamic.{View}
use dart_plant.Elf.Symbols.{Symbol, Lookup, found, malformed}
use dart_plant.Elf.Symbols.Found.{IsFoundIn}
use dart_plant.Elf.Sysv.{find_sysv}
use dart_plant.Elf.Sysv.Found.{find_sysv-found}
use dart_plant.Elf.Gnu.{find_gnu}
use dart_plant.Elf.Gnu.Found.{find_gnu-found}

-- `FindElfDynamicSymbol`
unfoldable pub find_symbol : Reader → View → List ℕ → Lookup
find_symbol reader v [] = malformed
find_symbol reader v (c ∷ name) = elim v.gnu_hash_va [
  | some hash_va ↦ find_gnu reader v (c ∷ name) hash_va
  | none ↦ elim v.sysv_hash_va [
    | some hash_va ↦ find_sysv reader v (c ∷ name) hash_va
    | none ↦ malformed
  ]
]

-- A symbol that `find_symbol` returns, through either hash table, stands in the symbol table under
-- exactly the wanted name, and is defined: its value and its section are not 0.
pub find_symbol-found :
    (reader : Reader) (v : View) (name : List ℕ) (s : Symbol)
    → find_symbol reader v name ≡ found s
    → IsFoundIn reader v name s
unfolding find_symbol
find_symbol-found reader v [] s e = ground (arith, e)
find_symbol-found reader v (c ∷ name) s e = elim (Option-cases v.gnu_hash_va) [
  | inr (hash_va, gnu) ↦ find_gnu-found reader v (c ∷ name) hash_va s (rw (gnu, find_symbol) at e)
  | inl no_gnu ↦ elim (Option-cases v.sysv_hash_va) [
    | inr (hash_va, sysv) ↦
        find_sysv-found reader v (c ∷ name) hash_va s (rw (no_gnu, sysv, find_symbol) at e)
    | inl no_table ↦ ground (arith, no_gnu, no_table, e)
  ]
]
