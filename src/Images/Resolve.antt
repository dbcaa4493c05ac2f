-- ===== src/Images/Resolve.antt =====
-- The runtime address of an address of a module (`ModuleImage::Resolve` of
-- src/elf/module_image.cpp).
use dart_plant.Prelude.{
  ℕ, suc, ◌+◌, ◌-◌, ◌≤◌, ◌<◌, ◌==◌, ◌≡◌, ◌⊎◌, inl, inr, refl, ◌∙◌, ltb, leb, if◌then◌else◌, Bool,
  true, false, ◌&&◌, ◌||◌, Option, none, some, List, [], ◌∷◌, get_elem?, Bool-cases, Option-cases,
  arith,
}
use dart_plant.Elf.Checked.{u64_max}
use dart_plant.Images.Module.{ModuleImage, ExecutableRange}

-- `DartPlantAddressKind`
pub data AddressKind : Type 0 where
  runtime elf_va file_offset snapshot_offset : AddressKind

-- Whether the range's part of the file holds the offset; a range whose end wraps holds nothing.
holds_offset : ExecutableRange → ℕ → Bool
holds_offset r address =
    leb r.file_offset (u64_max - r.file_size)
    && (leb r.file_offset address && ltb address (r.file_offset + r.file_size))

-- The address that a range gives; `none` where it wraps, or differs from the one found before.
place_offset : ModuleImage → Option ℕ → ExecutableRange → ℕ → Option ℕ
place_offset m result r address =
    let base = m.load_bias + r.virtual_address in
    let delta = address - r.file_offset in
    if ltb (u64_max - m.load_bias) r.virtual_address || ltb (u64_max - base) delta
    then none
    else (elim result [
      | none ↦ some (base + delta)
      | some before ↦ if before == base + delta then some (base + delta) else none
    ])

resolve_from : ModuleImage → Option ℕ → List ExecutableRange → ℕ → Option ℕ
resolve_from m result [] address = result
resolve_from m result (r ∷ rs) address = elim (holds_offset r address) [
  | false ↦ resolve_from m result rs address
  | true ↦ elim (place_offset m result r address) [
    | none ↦ none
    | some found ↦ resolve_from m (some found) rs address
  ]
]

-- `ModuleImage::Resolve`
unfoldable pub resolve : ModuleImage → AddressKind → ℕ → Option ℕ
unfolding resolve_from holds_offset place_offset
resolve m runtime address = some address
resolve m elf_va address =
    if ltb (u64_max - m.load_bias) address then none else some (m.load_bias + address)
resolve m file_offset address = resolve_from m none m.executable_ranges address
resolve m snapshot_offset address = none

-- The range has the file offset `address`, at the runtime address `found`.
abbrev pub IsAt : ModuleImage → ExecutableRange → ℕ → ℕ → Type 0
IsAt m r address found =
    (r.file_offset ≤ address)
    × (address < r.file_offset + r.file_size)
    × (found ≡ m.load_bias + (r.virtual_address + (address - r.file_offset)))
    × (found ≤ u64_max)

-- Some executable range has the file offset `address` at the runtime address `found`.
abbrev pub IsLocatedIn : ModuleImage → List ExecutableRange → ℕ → ℕ → Type 0
IsLocatedIn m ranges address found =
    (i : ℕ) × (r : ExecutableRange) × (get_elem? ranges i ≡ some r) × IsAt m r address found

place_offset-IsAt :
    (m : ModuleImage) (result : Option ℕ) (r : ExecutableRange) (address found : ℕ)
    → m.load_bias ≤ u64_max
    → holds_offset r address ≡ true
    → place_offset m result r address ≡ some found
    → IsAt m r address found
unfolding holds_offset place_offset
place_offset-IsAt m none r address found fits h e = ground arith
place_offset-IsAt m (some before) r address found fits h e = ground arith

resolve_from-IsLocatedIn :
    (m : ModuleImage) (result : Option ℕ) (rs : List ExecutableRange) (address found : ℕ)
    → m.load_bias ≤ u64_max
    → resolve_from m result rs address ≡ some found
    → (result ≡ some found) ⊎ IsLocatedIn m rs address found
unfolding resolve_from
resolve_from-IsLocatedIn m result [] address found fits e = inl e
resolve_from-IsLocatedIn m result (r ∷ rs) address found fits e =
    elim (Bool-cases (holds_offset r address)) [
      | inr other ↦
          elim (resolve_from-IsLocatedIn m result rs address found fits
            (rw (other, resolve_from) at e)) [
              | inl same ↦ inl same
              | inr (i, r', at, l) ↦ inr (suc i, r', at, l)
            ]
      | inl here ↦ elim (Option-cases (place_offset m result r address)) [
        | inl refused ↦ ground (arith, here, refused, e)
        | inr (next, at) ↦
            elim (resolve_from-IsLocatedIn m (some next) rs address found fits
              (rw (here, at, resolve_from) at e)) [
                | inl same ↦
                    inr
                      (0, r, refl, place_offset-IsAt m result r address found fits here (at ∙ same))
                | inr (i, r', get, l) ↦ inr (suc i, r', get, l)
              ]
      ]
    ]

-- A file offset that `resolve` places is in the file part of an executable range, and gets the
-- address that `resolve` gives to the ELF address of the same byte.
pub resolve-IsLocatedIn :
    (m : ModuleImage) (address found : ℕ)
    → m.load_bias ≤ u64_max
    → resolve m file_offset address ≡ some found
    → (i : ℕ) × (r : ExecutableRange) × (get_elem? m.executable_ranges i ≡ some r)
      × (r.file_offset ≤ address)
      × (address < r.file_offset + r.file_size)
      × (resolve m elf_va (r.virtual_address + (address - r.file_offset)) ≡ some found)
unfolding resolve
resolve-IsLocatedIn m address found fits e =
    elim (resolve_from-IsLocatedIn m none m.executable_ranges address found fits e) [
      | inl bad ↦ ground (arith, bad)
      | inr (i, r, at, (low, high, is, small)) ↦ (i, r, at, low, high, ground (arith, is, small))
    ]
