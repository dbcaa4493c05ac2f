-- ===== src/Elf/Readers/SameBytes.antt =====
-- A read of a mapped image and a read of its file.
use dart_plant.Prelude.{
  ℕ, zero, suc, ◌+◌, ◌-◌, ◌≤◌, ◌<◌, ◌≡◌, refl, true, some, List, [], ◌∷◌, get_elem?, get_or,
  Option-cases, inl, inr, arith, length, take, drop,
}
use dart_plant.Elf.Segments.{Header, is_load, va_to_file_offset, validate_file_bounds}
use dart_plant.Elf.Segments.Translate.{va_to_file_offset-backed}
use dart_plant.Elf.Readers.{copy_at, copy, file_read, backed_read, backed_readable_bytes}

-- The loader has put the file part of every PT_LOAD at its address.
abbrev pub IsMapped : (ℕ → ℕ) → ℕ → List ℕ → List Header → Type 0
IsMapped memory load_bias bytes hs =
    (i : ℕ) (h : Header)
    → get_elem? hs i ≡ some h
    → is_load h ≡ true
    → (k : ℕ) → k < h.file_size
    → memory (load_bias + (h.virtual_address + k)) ≡ get_or bytes (h.offset + k) 0

drop-get_or :
    (bytes : List ℕ) (o : ℕ)
    → o < length bytes
    → drop o bytes ≡ get_or bytes o 0 ∷ drop (suc o) bytes
drop-get_or [] o lt = ground arith
drop-get_or (b ∷ bs) zero lt = refl
drop-get_or (b ∷ bs) (suc o) lt = drop-get_or bs o (omega (arith, lt))

suc_add : (a b : ℕ) → suc a + b ≡ a + suc b
suc_add a b = omega arith

copy-take :
    (memory : ℕ → ℕ) (bytes : List ℕ) (address o size : ℕ)
    → o + size ≤ length bytes
    → ((k : ℕ) → k < size → memory (address + k) ≡ get_or bytes (o + k) 0)
    → copy memory address size ≡ take size (drop o bytes)
copy-take memory bytes address o zero le same = refl
copy-take memory bytes address o (suc size) le same =
    let here : address + 0 ≡ address = omega arith in
    let first : o + 0 ≡ o = omega arith in
    let head : memory address ≡ get_or bytes o 0 = rw (here, first) at (same 0 (omega arith)) in
    let rest =
      copy-take memory bytes (suc address) (suc o) size (omega (arith, le))
        (λ k lt. rw (suc_add address k, suc_add o k) (same (suc k) (omega (arith, lt)))) in
    rw (drop-get_or bytes o (omega (arith, le)), head, rest)

bounds-at :
    (size : ℕ) (hs : List Header) (i : ℕ) (h : Header)
    → validate_file_bounds size hs ≡ true
    → get_elem? hs i ≡ some h
    → is_load h ≡ true
    → h.offset + h.file_size ≤ size
unfolding validate_file_bounds
bounds-at size [] i h v e l = ground arith
bounds-at size (x ∷ hs) zero h v e l = ground arith
bounds-at size (x ∷ hs) (suc i) h v e l = bounds-at size hs i h (ground arith) e l

-- With the offset known and inside the file, the two reads differ in where they copy from alone.
read_both :
    (memory : ℕ → ℕ) (load_bias : ℕ) (bytes : List ℕ) (hs : List Header) (va size off : ℕ)
    (result : List ℕ)
    → va_to_file_offset hs va size ≡ some off
    → off + size ≤ length bytes
    → copy memory (load_bias + va) size ≡ take size (drop off bytes)
    → backed_read memory load_bias hs va size ≡ some result
    → file_read bytes hs va size ≡ some result
unfolding backed_read copy_at file_read
read_both memory load_bias bytes hs va size off result at fits same e =
    elim (Option-cases (backed_readable_bytes hs va)) [
      | inl nothing ↦ ground (arith, nothing)
      | inr (remaining, left) ↦ ground (arith, at, left, same, fits, e)
    ]

-- For an image whose file part the loader has mapped, with headers that the file's size admits,
-- every read of the loaded image's file-backed part returns what the same read of the file returns.
pub backed_read-file_read :
    (memory : ℕ → ℕ) (load_bias : ℕ) (bytes : List ℕ) (hs : List Header) (va size : ℕ)
    (result : List ℕ)
    → IsMapped memory load_bias bytes hs
    → validate_file_bounds (length bytes) hs ≡ true
    → backed_read memory load_bias hs va size ≡ some result
    → file_read bytes hs va size ≡ some result
unfolding backed_read copy_at file_read
backed_read-file_read memory load_bias bytes hs va size result mapped bounds e =
    elim (Option-cases (va_to_file_offset hs va size)) [
      | inl nothing ↦ ground (arith, nothing)
      | inr (off, at) ↦
          let (i, h, get, (load, low, high, where_)) = va_to_file_offset-backed hs va size off at in
          let inside = bounds-at (length bytes) hs i h bounds get load in
          let same =
            copy-take memory bytes (load_bias + va) off size
              (omega (arith, inside, low, high, where_))
              (λ k lt.
                let address : load_bias + (h.virtual_address + (va - h.virtual_address + k))
                    ≡ load_bias + va + k =
                  omega (arith, low) in
                let offset : h.offset + (va - h.virtual_address + k) ≡ off + k =
                  omega (arith, low, where_) in
                rw (address, offset) at
                  (mapped i h get load (va - h.virtual_address + k)
                    (omega (arith, low, high, lt)))) in
          let fits : off + size ≤ length bytes = omega (arith, inside, low, high, where_) in
          read_both memory load_bias bytes hs va size off result at fits same e
    ]
