-- ===== src/Abi/Layout/Distinct.antt =====
-- No two parameters of a layout share a register or a stack slot.
use native.Mathlib.Nat.{add-zero}
use dart_plant.Prelude.{
  ℕ, zero, suc, ◌+◌, ◌-◌, ◌*◌, ◌%◌, ◌^◌, ◌≤◌, ◌<◌, ◌≡◌, ◌≢◌, refl, ap, subst, Bool, Option, none,
  some, List, [], ◌∷◌, get_or, arith, Bool-cases, ltb, ltb→lt, inl, inr,
}
use dart_plant.Abi.Types.{
  Representation, unknown, tagged, unboxed_int64, unboxed_double, pair_of_tagged,
}
use dart_plant.Abi.Evidence.{ResolvedSlot, FunctionResolution}
use dart_plant.Abi.Layout.{
  ok, Location, gp_register, fpu_register, entry_stack, Profile, CallLayout, choose, pick, assign,
  count_stack, place_one, place, locate, register_limit, build_layout, compute_layout,
}
use dart_plant.Abi.Layout.Verdict.{
  all_locations, build_layout_parts, compute_layout-build_layout, nonzero_word,
}
use dart_plant.Abi.Layout.Stack.{
  slot_fits, entry_sp_slot-exact, stack_location-exact, count_stack-le,
}

-- The first `n` registers of a list differ from one another.
abbrev pub DistinctUpTo : ℕ → List ℕ → Type 0
DistinctUpTo n regs = (i j : ℕ) → i < j → j < n → get_or regs i 0 ≢ get_or regs j 0

abbrev pub Avoids : Location → List Location → Type 0
Avoids l [] = Unit
Avoids l (m ∷ ms) = (l ≢ m) × Avoids l ms

abbrev pub Distinct : List Location → Type 0
Distinct [] = Unit
Distinct (l ∷ ls) = Avoids l ls × Distinct ls

-- The locations that are left once `gp` and `fpu` registers are in use, with `top` stack slots.
data Left (p : Profile) (gp fpu top : ℕ) (l : Location) : Type 0 where
  by_gp :
      (j : ℕ)
      → gp ≤ j
      → j < p.gp_argument_register_count
      → l ≡ gp_register (get_or p.gp_argument_registers j 0)
      → Left p gp fpu top l
  by_fpu :
      (j : ℕ)
      → fpu ≤ j
      → j < p.fpu_argument_register_count
      → l ≡ fpu_register (get_or p.fpu_argument_registers j 0)
      → Left p gp fpu top l
  by_stack : (k : ℕ) → k < top → l ≡ entry_stack (k * p.word_size) → Left p gp fpu top l

abbrev AllLeft : Profile → ℕ → ℕ → ℕ → List Location → Type 0
AllLeft p gp fpu top [] = Unit
AllLeft p gp fpu top (l ∷ ls) = Left p gp fpu top l × AllLeft p gp fpu top ls

Left-mono :
    {p : Profile} {gp gp' fpu fpu' top top' : ℕ} {l : Location}
    → gp ≤ gp'
    → fpu ≤ fpu'
    → top' ≤ top
    → Left p gp' fpu' top' l
    → Left p gp fpu top l
Left-mono a b c (by_gp j x y e) = by_gp j (omega arith) y e
Left-mono a b c (by_fpu j x y e) = by_fpu j (omega arith) y e
Left-mono a b c (by_stack k x e) = by_stack k (omega arith) e

AllLeft-mono :
    (p : Profile) {gp gp' fpu fpu' top top' : ℕ} (ls : List Location)
    → gp ≤ gp'
    → fpu ≤ fpu'
    → top' ≤ top
    → AllLeft p gp' fpu' top' ls
    → AllLeft p gp fpu top ls
AllLeft-mono p [] a b c h = tt
AllLeft-mono p (l ∷ ls) a b c h = (Left-mono a b c h.0, AllLeft-mono p ls a b c h.1)

avoid-Left :
    {p : Profile} {gp fpu top : ℕ} (l : Location) (ls : List Location)
    → ((m : Location) → Left p gp fpu top m → l ≢ m)
    → AllLeft p gp fpu top ls
    → Avoids l ls
avoid-Left l [] f h = tt
avoid-Left l (m ∷ ms) f h = (f m h.0, avoid-Left l ms f h.1)

-- A chosen register was free before and is not free after.
record Taken (p : Profile) (gp fpu gp' fpu' : ℕ) (o : Option Location) : Type 0 where
  up_gp : gp ≤ gp'
  up_fpu : fpu ≤ fpu'
  was : (top : ℕ) (l : Location) → o ≡ some l → Left p gp fpu top l
  is_new : (top : ℕ) (l m : Location) → o ≡ some l → Left p gp' fpu' top m → l ≢ m

module _ (p : Profile) (dg : DistinctUpTo p.gp_argument_register_count p.gp_argument_registers)
    (df : DistinctUpTo p.fpu_argument_register_count p.fpu_argument_registers) where
  none-Taken : (gp fpu : ℕ) → Taken p gp fpu gp fpu none
  none-Taken gp fpu = record {
    up_gp = omega arith;
    up_fpu = omega arith;
    was = λ top l e. cc;
    is_new = λ top l m e. cc;
  }

  gp_new :
      (gp fpu top : ℕ) (m : Location)
      → Left p (gp + 1) fpu top m
      → gp_register (get_or p.gp_argument_registers gp 0) ≢ m
  gp_new gp fpu top m (by_gp j x y e) q = ground (arith, dg gp j)
  gp_new gp fpu top m (by_fpu j x y e) q = ground arith
  gp_new gp fpu top m (by_stack k x e) q = ground arith

  fpu_new :
      (gp fpu top : ℕ) (m : Location)
      → Left p gp (fpu + 1) top m
      → fpu_register (get_or p.fpu_argument_registers fpu 0) ≢ m
  fpu_new gp fpu top m (by_fpu j x y e) q = ground (arith, df fpu j)
  fpu_new gp fpu top m (by_gp j x y e) q = ground arith
  fpu_new gp fpu top m (by_stack k x e) q = ground arith

  gp-Taken :
      (gp fpu : ℕ)
      → gp < p.gp_argument_register_count
      → Taken p gp fpu (gp + 1) fpu (some (gp_register (get_or p.gp_argument_registers gp 0)))
  gp-Taken gp fpu h = record {
    up_gp = omega arith;
    up_fpu = omega arith;
    was = λ top l e. by_gp gp (omega arith) h (ground arith);
    is_new = λ top l m e left q. gp_new gp fpu top m left (ground arith);
  }

  fpu-Taken :
      (gp fpu : ℕ)
      → fpu < p.fpu_argument_register_count
      → Taken p gp fpu gp (fpu + 1) (some (fpu_register (get_or p.fpu_argument_registers fpu 0)))
  fpu-Taken gp fpu h = record {
    up_gp = omega arith;
    up_fpu = omega arith;
    was = λ top l e. by_fpu fpu (omega arith) h (ground arith);
    is_new = λ top l m e left q. fpu_new gp fpu top m left (ground arith);
  }

  choose-Taken :
      (rep : Representation) (gp fpu : ℕ)
      → let (o, gp', fpu') = choose p rep gp fpu in Taken p gp fpu gp' fpu' o
  unfolding choose
  choose-Taken unknown gp fpu = none-Taken gp fpu
  choose-Taken pair_of_tagged gp fpu = none-Taken gp fpu
  choose-Taken tagged gp fpu = elim (Bool-cases (ltb gp p.gp_argument_register_count)) [
    | inl e ↦ rw e (gp-Taken gp fpu (ltb→lt _ _ e))
    | inr e ↦ rw e (none-Taken gp fpu)
  ]
  choose-Taken unboxed_int64 gp fpu = elim (Bool-cases (ltb gp p.gp_argument_register_count)) [
    | inl e ↦ rw e (gp-Taken gp fpu (ltb→lt _ _ e))
    | inr e ↦ rw e (none-Taken gp fpu)
  ]
  choose-Taken unboxed_double gp fpu = elim (Bool-cases (ltb fpu p.fpu_argument_register_count)) [
    | inl e ↦ rw e (fpu-Taken gp fpu (ltb→lt _ _ e))
    | inr e ↦ rw e (none-Taken gp fpu)
  ]

  pick-Taken :
      (limit : ℕ) (rep : Representation) (gp fpu : ℕ)
      → let (o, gp', fpu') = pick p limit rep gp fpu in Taken p gp fpu gp' fpu' o
  unfolding pick
  pick-Taken zero rep gp fpu = none-Taken gp fpu
  pick-Taken (suc limit) rep gp fpu = choose-Taken rep gp fpu

  -- The locations of the parameters from some point on, with `top` of them on the stack.
  record Placed (gp fpu top : ℕ) (r : List Location × ℕ) : Type 0 where
    slot : r.1 % 2 ^ 32 ≡ (p.fp_to_entry_sp_slot_delta + top) % 2 ^ 32
    left : AllLeft p gp fpu top r.0
    distinct : Distinct r.0

  module _ (word : p.word_size ≢ 0) where
    stack_new :
        (gp fpu top : ℕ) (m : Location) → Left p gp fpu top m → entry_stack (top * p.word_size) ≢ m
    stack_new gp fpu top m (by_gp j x y e) q = ground arith
    stack_new gp fpu top m (by_fpu j x y e) q = ground arith
    stack_new gp fpu top m (by_stack k x e) q =
        let e' : top * p.word_size ≡ k * p.word_size = ground arith in grind arith

    place_one-Placed :
        (o : Option Location) (rest : List (Option Location)) (gp fpu gp' fpu' : ℕ)
        (r : List Location × ℕ)
        → count_stack (o ∷ rest) * p.word_size ≤ 2 ^ 31
        → Taken p gp fpu gp' fpu' o
        → Placed gp' fpu' (count_stack rest) r
        → Placed gp fpu (count_stack (o ∷ rest)) (place_one p o r)
    unfolding place_one count_stack
    place_one-Placed none rest gp fpu gp' fpu' r fits t q =
        let top = count_stack rest in
        let (bytes, slots) = slot_fits top p.word_size word fits in
        let e = entry_sp_slot-exact p r.1 top q.slot slots in
        let at = stack_location-exact top p.word_size (omega (arith, bytes)) in
        rw (e, at)
          (record {
            slot = omega (arith, q.slot);
            left = (
              by_stack top (omega arith) refl,
              AllLeft-mono p r.0 t.up_gp t.up_fpu (omega arith) q.left,
            );
            distinct = (avoid-Left _ r.0 (stack_new gp' fpu' top) q.left, q.distinct);
          })
    place_one-Placed (some l) rest gp fpu gp' fpu' r fits t q = record {
      slot = q.slot;
      left = (
        t.was (count_stack rest) l refl,
        AllLeft-mono p r.0 t.up_gp t.up_fpu (omega arith) q.left,
      );
      distinct =
          (avoid-Left l r.0 (λ m k. t.is_new (count_stack rest) l m refl k) q.left, q.distinct);
    }

    place-Placed :
        (limit gp fpu : ℕ) (ss : List ResolvedSlot)
        → count_stack (assign p limit gp fpu ss) * p.word_size ≤ 2 ^ 31
        → Placed gp fpu
            (count_stack (assign p limit gp fpu ss))
            (place p (assign p limit gp fpu ss))
    unfolding place assign
    place-Placed limit gp fpu [] fits =
        unfold count_stack in record { slot = simp add-zero; left = tt; distinct = tt }
    place-Placed limit gp fpu (s ∷ ss) fits =
        let (o, gp', fpu') = pick p limit s.representation gp fpu in
        let rest = assign p (limit - 1) gp' fpu' ss in
        place_one-Placed o rest gp fpu gp' fpu' (place p rest) fits
          (pick-Taken limit s.representation gp fpu)
          (place-Placed (limit - 1) gp' fpu' ss (count_stack-le o rest p.word_size fits))

-- With a profile whose argument registers differ, no two parameters of a computed layout whose
-- parameters take at most 2 ^ 31 bytes of stack share a register or a stack offset.
pub compute_layout-Distinct :
    (abi : FunctionResolution) (p : Profile) (closure_call : Bool) (l : CallLayout)
    → DistinctUpTo p.gp_argument_register_count p.gp_argument_registers
    → DistinctUpTo p.fpu_argument_register_count p.fpu_argument_registers
    → compute_layout abi p closure_call ≡ (ok, some l)
    → l.stack_words * p.word_size ≤ 2 ^ 31
    → Distinct (all_locations l.parameters)
compute_layout-Distinct abi p closure_call l dg df h fits =
    let word = nonzero_word abi p closure_call (ap (λ r. r.0) h) in
    let e = compute_layout-build_layout abi p closure_call l h in
    let fits' = subst (λ (k : CallLayout). k.stack_words * p.word_size ≤ 2 ^ 31) e fits in
    rw e (
      unfold locate build_layout in
      rw (build_layout_parts abi p).1
        (place-Placed p dg df word (register_limit abi) 0 0 abi.parameters fits').distinct)
