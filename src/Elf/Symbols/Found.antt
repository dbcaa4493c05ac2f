-- ===== src/Elf/Symbols/Found.antt =====
-- What a match of one symbol says, and that the searches remember nothing but matches.
use dart_plant.Prelude.{
  same_bytes, same_bytes-eq, ℕ, ◌≢◌, ◌≡◌, refl, sym, true, Option, none, some, List, Bool-cases,
  Option-cases, subst, inl, inr, arith,
}
use dart_plant.Elf.Reader.{Reader, field}
use dart_plant.Elf.Dynamic.{View}
use dart_plant.Elf.Symbols.{
  Symbol, Lookup, found, not_found, malformed, match_symbol, read_symbol, read_symbol_name,
  symbol_of, judge, remember, conclude, same_symbol,
}

-- The symbol is the one that the symbol table holds at some index, its name there is `name`, and it
-- is defined.
abbrev pub IsFoundIn : Reader → View → List ℕ → Symbol → Type 0
IsFoundIn reader v name s =
    (s.value ≢ 0)
    × (s.section_index ≢ 0)
    × ((index : ℕ) × (bytes : List ℕ) × (read_symbol reader v index ≡ some bytes)
        × (read_symbol_name reader v (field bytes 0 4) ≡ some name)
        × (s ≡ symbol_of bytes))

judge-found :
    (wanted actual : List ℕ) (t s : Symbol)
    → judge wanted actual t ≡ found s
    → (same_bytes actual wanted ≡ true) × (s.section_index ≢ 0) × (s.value ≢ 0) × (t ≡ s)
unfolding judge
judge-found wanted actual t s e = ground arith

match_symbol-found :
    (reader : Reader) (v : View) (name : List ℕ) (index : ℕ) (s : Symbol)
    → match_symbol reader v name index ≡ found s
    → IsFoundIn reader v name s
unfolding match_symbol
match_symbol-found reader v name index s e = elim (Option-cases (read_symbol reader v index)) [
  | inl unreadable ↦ ground (arith, unreadable, e)
  | inr (bytes, read) ↦ elim (Option-cases (read_symbol_name reader v (field bytes 0 4))) [
    | inl unnamed ↦ ground (arith, read, unnamed, e)
    | inr (actual, named) ↦
        let (same, section, value, is) =
          judge-found name actual (symbol_of bytes) s (rw (read, named, match_symbol) at e) in
        (value, section, (index, bytes, read, rw (same_bytes-eq actual name same) at named, sym is))
  ]
]

-- A candidate is a symbol found.
abbrev pub IsKept : Reader → View → List ℕ → Option Symbol → Type 0
IsKept reader v name none = Unit
IsKept reader v name (some s) = IsFoundIn reader v name s

some_eq : {A : Type 0} (a b : A) → some a ≡ some b → a ≡ b
some_eq a b e = cc

remembered :
    (reader : Reader) (v : View) (name : List ℕ) (match : Lookup) (candidate kept : Option Symbol)
    → ((s : Symbol) → match ≡ found s → IsFoundIn reader v name s)
    → remember match candidate ≡ some kept
    → IsKept reader v name candidate
    → IsKept reader v name kept
unfolding remember
remembered reader v name malformed candidate kept sound e k = ground arith
remembered reader v name not_found candidate kept sound e k = rw (some_eq candidate kept e) at k
remembered reader v name (found s) none kept sound e k =
    subst (λ o. IsKept reader v name o) (some_eq (some s) kept e) (sound s refl)
remembered reader v name (found s) (some before) kept sound e k =
    elim (Bool-cases (same_symbol before s)) [
      | inl same ↦
          subst (λ o. IsKept reader v name o) (some_eq (some s) kept (rw (same, remember) at e))
            (sound s refl)
      | inr other ↦ ground (arith, other, e)
    ]

pub remember-IsKept :
    (reader : Reader) (v : View) (name : List ℕ) (index : ℕ) (candidate kept : Option Symbol)
    → remember (match_symbol reader v name index) candidate ≡ some kept
    → IsKept reader v name candidate
    → IsKept reader v name kept
remember-IsKept reader v name index candidate kept =
    remembered reader v name (match_symbol reader v name index) candidate kept
      (match_symbol-found reader v name index)

pub conclude-found :
    (reader : Reader) (v : View) (name : List ℕ) (candidate : Option Symbol) (s : Symbol)
    → conclude candidate ≡ found s
    → IsKept reader v name candidate
    → IsFoundIn reader v name s
unfolding conclude
conclude-found reader v name none s e k = ground arith
conclude-found reader v name (some t) s e k = let same : t ≡ s = cc in rw same at k
