-- ===== src/Elf/Segments/Translate.antt =====
-- The file offset that an address of a validated layout has.
use dart_plant.Prelude.{
  ℕ, suc, ◌+◌, ◌≤◌, ◌==◌, ◌⊎◌, ◌≡◌, refl, ◌∙◌, true, Option, none, some, List, [], ◌∷◌, get_elem?,
  Bool-cases, Option-cases, inl, inr, arith,
}
use dart_plant.Elf.Segments.{
  Header, is_load, candidate_offset, disagrees, translate_from, va_to_file_offset,
}

-- The PT_LOAD `h` holds the `size` bytes at `va` in its file part, and `off` is where they lie.
abbrev pub IsBacking : Header → ℕ → ℕ → ℕ → Type 0
IsBacking h va size off =
    (is_load h ≡ true)
    × (h.virtual_address ≤ va)
    × (va + size ≤ h.virtual_address + h.file_size)
    × (off + h.virtual_address ≡ h.offset + va)

-- One of the headers backs the range at this offset.
abbrev pub BackedBy : List Header → ℕ → ℕ → ℕ → Type 0
BackedBy hs va size off =
    (i : ℕ) × (h : Header) × (get_elem? hs i ≡ some h) × IsBacking h va size off

candidate-IsBacking :
    (h : Header) (va size off : ℕ) → candidate_offset h va size ≡ some off → IsBacking h va size off
unfolding candidate_offset
candidate-IsBacking h va size off e = ground arith

translate-backed :
    (result : Option ℕ) (hs : List Header) (va size off : ℕ)
    → translate_from result hs va size ≡ some off
    → (result ≡ some off) ⊎ BackedBy hs va size off
unfolding translate_from
translate-backed result [] va size off e = inl e
translate-backed result (h ∷ hs) va size off e = elim (Option-cases (candidate_offset h va size)) [
  | inl skipped ↦
      elim (translate-backed result hs va size off (rw (skipped, translate_from) at e)) [
        | inl same ↦ inl same
        | inr (i, h', at, b) ↦ inr (suc i, h', at, b)
      ]
  | inr (c, known) ↦ elim (Bool-cases (disagrees result c)) [
    | inl bad ↦ ground (arith, known, bad)
    | inr fine ↦
        elim (translate-backed (some c) hs va size off (rw (known, fine, translate_from) at e)) [
          | inl same ↦ inr (0, h, refl, candidate-IsBacking h va size off (known ∙ same))
          | inr (i, h', at, b) ↦ inr (suc i, h', at, b)
        ]
  ]
]

-- An offset that `va_to_file_offset` returns is the one at which some PT_LOAD backs the whole
-- range in the file.
pub va_to_file_offset-backed :
    (hs : List Header) (va size off : ℕ)
    → va_to_file_offset hs va size ≡ some off
    → BackedBy hs va size off
unfolding va_to_file_offset
va_to_file_offset-backed hs va size off e = elim (Bool-cases (size == 0)) [
  | inl z ↦ ground (arith, z)
  | inr nz ↦ elim (translate-backed none hs va size off (rw nz at e)) [
    | inl bad ↦ ground (arith, bad)
    | inr b ↦ b
  ]
]
