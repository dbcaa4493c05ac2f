-- ===== src/Elf/Readers/Bounds.antt =====
-- Where a successful read lies.
use dart_plant.Prelude.{
  ℕ, suc, ◌+◌, ◌-◌, ◌≤◌, ◌<◌, ◌==◌, ltb, ◌||◌, if◌then◌else◌, ◌≢◌, ◌≡◌, refl, true, none, some,
  List, [], ◌∷◌, get_elem?, Bool-cases, Option-cases, inl, inr, arith, bit_and,
}
use dart_plant.Elf.Checked.{u64_max}
use dart_plant.Elf.Segments.{Header, is_load, pf_r}
use dart_plant.Elf.Readers.{in_memory, loaded_readable_bytes, loaded_read, copy_at, copy}

-- The PT_LOAD `h` is readable and holds the `size` bytes at `va` in memory.
abbrev pub IsReadable : Header → ℕ → ℕ → Type 0
IsReadable h va size =
    (is_load h ≡ true)
    × (bit_and h.flags pf_r ≢ 0)
    × (h.virtual_address ≤ va)
    × (va + size ≤ h.virtual_address + h.memory_size)

in_memory-IsReadable :
    (h : Header) (va remaining : ℕ)
    → in_memory h va ≡ true
    → some (h.memory_size - (va - h.virtual_address)) ≡ some remaining
    → IsReadable h va remaining
unfolding in_memory
in_memory-IsReadable h va remaining test e = ground arith

IsReadable-segment :
    (hs : List Header) (va remaining : ℕ)
    → loaded_readable_bytes hs va ≡ some remaining
    → (i : ℕ) × (h : Header) × (get_elem? hs i ≡ some h) × IsReadable h va remaining
unfolding loaded_readable_bytes
IsReadable-segment [] va remaining e = ground arith
IsReadable-segment (h ∷ hs) va remaining e = elim (Bool-cases (in_memory h va)) [
  | inl here ↦
      (0, h, refl, in_memory-IsReadable h va remaining here (rw (here, loaded_readable_bytes) at e))
  | inr other ↦
      let (i, h', at, r) =
        IsReadable-segment hs va remaining (rw (other, loaded_readable_bytes) at e) in
      (suc i, h', at, r)
]

checked_copy :
    (memory : ℕ → ℕ) (load_bias va size remaining : ℕ) (bytes : List ℕ)
    → load_bias ≤ u64_max
    → (if size == 0 || ltb remaining size then none else copy_at memory load_bias va size)
      ≡ some bytes
    → (bytes ≡ copy memory (load_bias + va) size)
      × (0 < size)
      × (size ≤ remaining)
      × (load_bias + va + size ≤ u64_max)
unfolding copy_at
checked_copy memory load_bias va size remaining bytes fits e = ground arith

-- A read of a loaded image returns exactly the bytes of the process at `load_bias + va`, all of them
-- in the memory of one readable PT_LOAD, and the range does not wrap.
pub loaded_read-in_segment :
    (memory : ℕ → ℕ) (load_bias : ℕ) (hs : List Header) (va size : ℕ) (bytes : List ℕ)
    → load_bias ≤ u64_max
    → loaded_read memory load_bias hs va size ≡ some bytes
    → (bytes ≡ copy memory (load_bias + va) size)
      × (0 < size)
      × (load_bias + va + size ≤ u64_max)
      × ((i : ℕ) × (h : Header) × (get_elem? hs i ≡ some h) × IsReadable h va size)
unfolding loaded_read copy_at
loaded_read-in_segment memory load_bias hs va size bytes fits e =
    elim (Option-cases (loaded_readable_bytes hs va)) [
      | inl nothing ↦ ground (arith, nothing)
      | inr (remaining, some_left) ↦
          let (i, h, at, r) = IsReadable-segment hs va remaining some_left in
          let (bytes_are, some_size, small, no_wrap) =
            checked_copy memory load_bias va size remaining bytes fits
              (rw (some_left, loaded_read) at e) in
          (bytes_are, some_size, no_wrap, (i, h, at, (r.0, r.1, r.2, omega (arith, r.3, small))))
    ]
