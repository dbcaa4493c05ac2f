-- ===== src/Elf/Segments/Disjoint.antt =====
-- The PT_LOAD ranges of a validated layout.
use dart_plant.Prelude.{
  ℕ, zero, suc, ◌+◌, ◌≤◌, ◌<◌, ◌≡◌, sym, true, none, some, List, [], ◌∷◌, get_elem?, Bool-cases,
  Option-cases, inl, inr, arith,
}
use dart_plant.Elf.Checked.{checked_add}
use dart_plant.Elf.Segments.{
  Header, is_load, Previous, behind, check_load, validate_from, validate_load_layout,
}

-- Every PT_LOAD starts at `bound` or above.
abbrev pub AllFrom : ℕ → List Header → Type 0
AllFrom bound [] = Unit
AllFrom bound (h ∷ hs) = (is_load h ≡ true → bound ≤ h.virtual_address) × AllFrom bound hs

-- Every PT_LOAD has its file part inside its memory, and ends before the next one starts.
abbrev pub IsOrdered : List Header → Type 0
IsOrdered [] = Unit
IsOrdered (h ∷ hs) =
    (is_load h ≡ true
      → (h.file_size ≤ h.memory_size) × AllFrom (h.virtual_address + h.memory_size) hs)
    × IsOrdered hs

pub AllFrom-mono : (a b : ℕ) (hs : List Header) → a ≤ b → AllFrom b hs → AllFrom a hs
AllFrom-mono a b [] le h = tt
AllFrom-mono a b (x ∷ hs) le h = ((λ l. omega (arith, h.0 l)), AllFrom-mono a b hs le h.1)

abbrev end_of : Previous → ℕ
end_of none = 0
end_of (some (va, end)) = end

checked :
    (previous : Previous) (h : Header) (va end : ℕ)
    → check_load previous h ≡ some (va, end)
    → (end ≡ h.virtual_address + h.memory_size)
      × (h.file_size ≤ h.memory_size)
      × (end_of previous ≤ h.virtual_address)
unfolding check_load behind checked_add
checked previous h va end e = ground arith

ordered :
    (previous : Previous) (hs : List Header)
    → validate_from previous hs ≡ true
    → AllFrom (end_of previous) hs × IsOrdered hs
unfolding validate_from
ordered previous [] v = (tt, tt)
ordered previous (h ∷ hs) v = elim (Bool-cases (is_load h)) [
  | inr other ↦ let (a, o) = ordered previous hs (rw other at v) in (((λ l. cc), a), ((λ l. cc), o))
  | inl load ↦ elim (Option-cases (check_load previous h)) [
    | inl bad ↦ ground (arith, load, bad)
    | inr ((va, end), good) ↦
        let (e, f, b) = checked previous h va end good in
        let (a, o) = ordered (some (va, end)) hs (rw (load, good) at v) in
        let after = rw e at a in
        (
          (
            (λ l. b),
            AllFrom-mono (end_of previous) (h.virtual_address + h.memory_size) hs (omega (arith, b))
                after,
          ),
          ((λ l. (f, after)), o),
        )
  ]
]

AllFrom-get :
    (bound : ℕ) (hs : List Header) (j : ℕ) (h : Header)
    → AllFrom bound hs
    → get_elem? hs j ≡ some h
    → is_load h ≡ true
    → bound ≤ h.virtual_address
AllFrom-get bound [] j h a e l = ground arith
AllFrom-get bound (x ∷ hs) zero h a e l = ground arith
AllFrom-get bound (x ∷ hs) (suc j) h a e l = AllFrom-get bound hs j h a.1 e l

IsOrdered-get :
    (hs : List Header) (i j : ℕ) (h h' : Header)
    → IsOrdered hs
    → i < j
    → get_elem? hs i ≡ some h
    → get_elem? hs j ≡ some h'
    → is_load h ≡ true
    → is_load h' ≡ true
    → h.virtual_address + h.memory_size ≤ h'.virtual_address
IsOrdered-get [] i j h h' o lt e e' l l' = ground arith
IsOrdered-get (x ∷ hs) zero zero h h' o lt e e' l l' = ground arith
IsOrdered-get (x ∷ hs) zero (suc j) h h' o lt e e' l l' =
    let same : x ≡ h = cc in
    rw (sym same)
      (AllFrom-get (x.virtual_address + x.memory_size) hs j h' (o.0 (rw same l)).1 e' l')
IsOrdered-get (x ∷ hs) (suc i) zero h h' o lt e e' l l' = ground arith
IsOrdered-get (x ∷ hs) (suc i) (suc j) h h' o lt e e' l l' =
    IsOrdered-get hs i j h h' o.1 (omega (arith, lt)) e e' l l'

-- In a layout that `validate_load_layout` accepts, every PT_LOAD ends at or below the start of
-- every later PT_LOAD.
pub validate_load_layout-disjoint :
    (hs : List Header) (i j : ℕ) (h h' : Header)
    → validate_load_layout hs ≡ true
    → i < j
    → get_elem? hs i ≡ some h
    → get_elem? hs j ≡ some h'
    → is_load h ≡ true
    → is_load h' ≡ true
    → h.virtual_address + h.memory_size ≤ h'.virtual_address
unfolding validate_load_layout
validate_load_layout-disjoint hs i j h h' v lt e e' l l' =
    IsOrdered-get hs i j h h' (ordered none hs v).1 lt e e' l l'
