-- ===== src/Elf/Dynamic/Accepted.antt =====
-- What an accepted dynamic section has.
use dart_plant.Prelude.{
  ℕ, ◌/◌, ◌%◌, ◌≤◌, ◌≢◌, ◌≡◌, true, Option, none, some, Bool-cases, Option-cases, inl, inr, arith,
}
use dart_plant.Elf.Reader.{Reader, anchor_readable}
use dart_plant.Elf.Dynamic.{
  View, no_tags, symbol_size, entry_size, table_readable, accepted, section_readable, read_tags,
  view_of, read_dynamic_view,
}

-- The whole range is readable and does not start at 0.
abbrev pub IsAnchored : Reader → ℕ → ℕ → Type 0
IsAnchored reader va size =
    (va ≢ 0) × ((remaining : ℕ) × (reader.readable_bytes va ≡ some remaining) × (size ≤ remaining))

abbrev pub IsTable : Reader → Option ℕ → ℕ → Type 0
IsTable reader none size = Unit
IsTable reader (some va) size = IsAnchored reader va size

anchored :
    (reader : Reader) (va size : ℕ)
    → anchor_readable reader va size ≡ true
    → IsAnchored reader va size
unfolding anchor_readable
anchored reader va size e = elim (Option-cases (reader.readable_bytes va)) [
  | inl nothing ↦ ground (arith, nothing, e)
  | inr (remaining, left) ↦ (ground (arith, left, e), (remaining, left, ground (arith, left, e)))
]

table :
    (reader : Reader) (o : Option ℕ) (size : ℕ)
    → table_readable reader o size ≡ true
    → IsTable reader o size
unfolding table_readable
table reader none size e = tt
table reader (some va) size e = anchored reader va size e

view_parts :
    (reader : Reader) (v : View)
    → accepted reader v ≡ true
    → (v.strtab_size ≢ 0)
      × (v.symbol_entry_size ≡ symbol_size)
      × (anchor_readable reader v.symtab_va symbol_size ≡ true)
      × (anchor_readable reader v.strtab_va v.strtab_size ≡ true)
      × (table_readable reader v.sysv_hash_va 8 ≡ true)
      × (table_readable reader v.gnu_hash_va 16 ≡ true)
unfolding accepted
view_parts reader v e = ground arith

section_parts :
    (reader : Reader) (dynamic_va dynamic_size : ℕ)
    → section_readable reader dynamic_va dynamic_size ≡ true
    → IsAnchored reader dynamic_va dynamic_size × (dynamic_size % entry_size ≡ 0)
unfolding section_readable
section_parts reader dynamic_va dynamic_size e =
    elim (Option-cases (reader.readable_bytes dynamic_va)) [
      | inl nothing ↦ ground (arith, nothing, e)
      | inr (backing, left) ↦ (
        (ground (arith, left, e), (backing, left, ground (arith, left, e))),
        ground (arith, left, e),
      )
    ]

tests_passed :
    (reader : Reader) (dynamic_va dynamic_size : ℕ) (v : View)
    → read_dynamic_view reader dynamic_va dynamic_size ≡ some v
    → (section_readable reader dynamic_va dynamic_size ≡ true) × (accepted reader v ≡ true)
unfolding read_dynamic_view
tests_passed reader dynamic_va dynamic_size v e =
    elim (Option-cases (read_tags reader dynamic_va (dynamic_size / entry_size) 0 no_tags)) [
      | inl refused ↦ ground (arith, refused, e)
      | inr (t, read) ↦ elim (Bool-cases (accepted reader (view_of t))) [
        | inl good ↦ ground (arith, read, good, e)
        | inr bad ↦ ground (arith, read, bad, e)
      ]
    ]

-- A view that `read_dynamic_view` returns has a string table that is readable to its last byte, a
-- readable first symbol, symbols of 24 bytes, and readable headers of the hash tables it names; the
-- section is itself readable, not empty, and a whole number of entries.
pub read_dynamic_view-IsAnchored :
    (reader : Reader) (dynamic_va dynamic_size : ℕ) (v : View)
    → read_dynamic_view reader dynamic_va dynamic_size ≡ some v
    → IsAnchored reader v.strtab_va v.strtab_size
      × (v.strtab_size ≢ 0)
      × IsAnchored reader v.symtab_va symbol_size
      × (v.symbol_entry_size ≡ symbol_size)
      × IsTable reader v.sysv_hash_va 8
      × IsTable reader v.gnu_hash_va 16
      × IsAnchored reader dynamic_va dynamic_size
      × (dynamic_size % entry_size ≡ 0)
read_dynamic_view-IsAnchored reader dynamic_va dynamic_size v e =
    let (section, view) = tests_passed reader dynamic_va dynamic_size v e in
    let (size, entry, symtab, strtab, hash, gnu) = view_parts reader v view in
    let (here, whole) = section_parts reader dynamic_va dynamic_size section in
    (
      anchored reader v.strtab_va v.strtab_size strtab,
      size,
      anchored reader v.symtab_va symbol_size symtab,
      entry,
      table reader v.sysv_hash_va 8 hash,
      table reader v.gnu_hash_va 16 gnu,
      here,
      whole,
    )
