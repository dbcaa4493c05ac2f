-- ===== src/Abi/Layout/Stack.antt =====
-- The words that the parameters of a layout take on the entry stack.
use native.Mathlib.Nat.{add-zero}
use native.Mathlib.Numerals.{add-one}
use dart_plant.Prelude.{
  ℕ, zero, suc, ◌+◌, ◌-◌, ◌*◌, ◌%◌, ◌^◌, ◌≤◌, ◌<◌, ◌≡◌, ◌≢◌, refl, ap, subst, ◌∙◌, Bool, Option,
  none, some, List, [], ◌∷◌, arith,
}
use dart_plant.Abi.Types.{Representation, unboxed_double}
use dart_plant.Abi.Evidence.{ResolvedSlot, FunctionResolution}
use dart_plant.Abi.Layout.{
  ok, Location, gp_register, fpu_register, entry_stack, Profile, CallLayout, choose, pick, assign,
  count_stack, place_one, entry_sp_slot, stack_location, place, locate, register_limit,
  build_layout, compute_layout,
}
use dart_plant.Abi.Layout.Verdict.{
  all_locations, build_layout_parts, compute_layout-build_layout, nonzero_word,
}

-- The stack slots of the parameters.
abbrev pub stack_offsets : List Location → List ℕ
stack_offsets [] = []
stack_offsets (entry_stack o ∷ ls) = o ∷ stack_offsets ls
stack_offsets (gp_register r ∷ ls) = stack_offsets ls
stack_offsets (fpu_register r ∷ ls) = stack_offsets ls

-- The offsets of `n` words, the last first.
abbrev pub descending : ℕ → ℕ → List ℕ
descending word zero = []
descending word (suc n) = n * word ∷ descending word n

no_offset :
    (p : Profile) (rep : Representation) (gp fpu : ℕ) (l : Location) (ls : List Location)
    → (choose p rep gp fpu).0 ≡ some l
    → stack_offsets (l ∷ ls) ≡ stack_offsets ls
unfolding choose
no_offset p unboxed_double gp fpu l ls e = ground arith
no_offset p rep gp fpu l ls e = ground arith

no_offset_pick :
    (p : Profile) (limit : ℕ) (rep : Representation) (gp fpu : ℕ) (l : Location)
    (ls : List Location)
    → (pick p limit rep gp fpu).0 ≡ some l
    → stack_offsets (l ∷ ls) ≡ stack_offsets ls
unfolding pick
no_offset_pick p zero rep gp fpu l ls e = cc
no_offset_pick p (suc limit) rep gp fpu l ls e = no_offset p rep gp fpu l ls e

-- Where it does not wrap, a slot and an offset are the true ones.
pub entry_sp_slot-exact :
    (p : Profile) (slot n : ℕ)
    → slot % 2 ^ 32 ≡ (p.fp_to_entry_sp_slot_delta + n) % 2 ^ 32
    → n < 2 ^ 32
    → entry_sp_slot p slot ≡ n
unfolding entry_sp_slot
entry_sp_slot-exact p slot n s h = omega arith

pub stack_location-exact :
    (slot word : ℕ) → slot * word < 2 ^ 32 → stack_location slot word ≡ entry_stack (slot * word)
unfolding stack_location
stack_location-exact slot word h = ap entry_stack (omega arith)

pub slot_fits :
    (n word : ℕ) → word ≢ 0 → (n + 1) * word ≤ 2 ^ 31 → (n * word ≤ 2 ^ 31) × (n < 2 ^ 32)
slot_fits n word h k = let one : 1 ≤ word = omega (arith, h) in (grind arith, grind arith)

place_one_offsets :
    (p : Profile) (o : Option Location) (r : List Location × ℕ) (rest : List (Option Location))
    → p.word_size ≢ 0
    → count_stack (o ∷ rest) * p.word_size ≤ 2 ^ 31
    → ((l : Location) (ls : List Location) → o ≡ some l → stack_offsets (l ∷ ls) ≡ stack_offsets ls)
    → r.1 % 2 ^ 32 ≡ (p.fp_to_entry_sp_slot_delta + count_stack rest) % 2 ^ 32
    → stack_offsets r.0 ≡ descending p.word_size (count_stack rest)
    → ((place_one p o r).1 % 2 ^ 32
        ≡ (p.fp_to_entry_sp_slot_delta + count_stack (o ∷ rest)) % 2 ^ 32)
      × (stack_offsets (place_one p o r).0 ≡ descending p.word_size (count_stack (o ∷ rest)))
unfolding place_one count_stack
place_one_offsets p none r rest word fits f s h =
    let (bytes, slots) = slot_fits (count_stack rest) p.word_size word fits in
    let e = entry_sp_slot-exact p r.1 (count_stack rest) s slots in
    let at =
      ap (λ (n : ℕ). stack_location n p.word_size) e
      ∙ stack_location-exact (count_stack rest) p.word_size (omega (arith, bytes)) in
    (omega (arith, s), ap (λ (l : Location). stack_offsets (l ∷ r.0)) at ∙ rw (h, add-one) refl)
place_one_offsets p (some l) r rest word fits f s h = (s, f l r.0 refl ∙ h)

pub count_stack-le :
    (o : Option Location) (rest : List (Option Location)) (word : ℕ)
    → count_stack (o ∷ rest) * word ≤ 2 ^ 31
    → count_stack rest * word ≤ 2 ^ 31
unfolding count_stack
count_stack-le none rest word h = grind arith
count_stack-le (some l) rest word h = h

place_offsets :
    (p : Profile) (limit gp fpu : ℕ) (ss : List ResolvedSlot)
    → let os = assign p limit gp fpu ss in
      p.word_size ≢ 0
      → count_stack os * p.word_size ≤ 2 ^ 31
      → ((place p os).1 % 2 ^ 32 ≡ (p.fp_to_entry_sp_slot_delta + count_stack os) % 2 ^ 32)
        × (stack_offsets (place p os).0 ≡ descending p.word_size (count_stack os))
unfolding place assign
place_offsets p limit gp fpu [] word fits =
    (unfold count_stack in simp add-zero, unfold count_stack in refl)
place_offsets p limit gp fpu (s ∷ ss) word fits =
    let (o, gp', fpu') = pick p limit s.representation gp fpu in
    let rest = assign p (limit - 1) gp' fpu' ss in
    let ih =
      place_offsets p (limit - 1) gp' fpu' ss word (count_stack-le o rest p.word_size fits) in
    place_one_offsets p o (place p rest) rest word fits
      (λ l ls e. no_offset_pick p limit s.representation gp fpu l ls e) ih.0 ih.1

-- In a computed layout whose parameters take at most 2 ^ 31 bytes of stack, the parameters on the
-- stack take the words of the entry stack from the last parameter, at offset 0, to the first: their
-- offsets, in parameter order, run down word by word from the one below `stack_words`, with none
-- left out and none wrapped around.
pub compute_layout-stack_words :
    (abi : FunctionResolution) (p : Profile) (closure_call : Bool) (l : CallLayout)
    → compute_layout abi p closure_call ≡ (ok, some l)
    → l.stack_words * p.word_size ≤ 2 ^ 31
    → stack_offsets (all_locations l.parameters) ≡ descending p.word_size l.stack_words
compute_layout-stack_words abi p closure_call l h fits =
    let word = nonzero_word abi p closure_call (ap (λ r. r.0) h) in
    let e = compute_layout-build_layout abi p closure_call l h in
    let fits' = subst (λ (k : CallLayout). k.stack_words * p.word_size ≤ 2 ^ 31) e fits in
    rw e (
      unfold locate build_layout in
      rw (build_layout_parts abi p).1
        (place_offsets p (register_limit abi) 0 0 abi.parameters word fits').1)
