-- ===== src/Abi/Layout/Reference.antt =====
-- Where each parameter of a layout goes, in closed form (src/abi/calling_convention.cpp).
use native.Mathlib.Nat.{add-zero}
use dart_plant.Prelude.{
  ℕ, suc, ◌+◌, ◌*◌, ◌%◌, ◌^◌, ◌≤◌, ◌≡◌, ◌≢◌, refl, sym, ap, subst, ◌∙◌, Bool, Option, none, some,
  List, [], ◌∷◌, ◌++◌, length, get_elem?, arith,
}
use dart_plant.Abi.Evidence.{ResolvedSlot, FunctionResolution}
use dart_plant.Abi.Layout.{
  ok, Location, entry_stack, Profile, ValueLayout, CallLayout, assign, count_stack, place_one,
  stack_location, place, locate, with_locations, register_limit, build_layout, compute_layout,
}
use dart_plant.Abi.Layout.Verdict.{compute_layout-build_layout, nonzero_word}
use dart_plant.Abi.Layout.Stack.{
  slot_fits, entry_sp_slot-exact, stack_location-exact, count_stack-le,
}
use dart_plant.Abi.Layout.Registers.{
  gp_user, fpu_user, gp_users, fpu_users, register_of, without_register, registers,
  count_stack-registers, length-registers, assign-split,
}

-- A parameter goes to its register, or to the stack above all later parameters that go there.
unfoldable pub expected_location :
    Profile → ℕ → ℕ → ℕ → ℕ → ResolvedSlot → List ResolvedSlot → Location
expected_location p limit i g f s after = elim (register_of p limit i g f s.representation) [
  | none ↦ entry_stack (
      without_register p limit (suc i) (gp_user s.representation + g)
        (fpu_user s.representation + f) after
      * p.word_size)
  | some l ↦ l
]

-- The frame slot after these parameters.
place-slot :
    (p : Profile) (os : List (Option Location))
    → (place p os).1 % 2 ^ 32 ≡ (p.fp_to_entry_sp_slot_delta + count_stack os) % 2 ^ 32
unfolding place place_one count_stack
place-slot p [] = simp add-zero
place-slot p (none ∷ os) = let ih = place-slot p os in omega (arith, ih)
place-slot p (some l ∷ os) = place-slot p os

-- Where the one parameter goes whose register is `o`, before those of `os`.
spot : Profile → Option Location → List (Option Location) → Location
spot p none os = entry_stack (count_stack os * p.word_size)
spot p (some l) os = l

place-spot :
    (p : Profile) (o : Option Location) (os : List (Option Location))
    → p.word_size ≢ 0
    → count_stack (o ∷ os) * p.word_size ≤ 2 ^ 31
    → get_elem? (place p (o ∷ os)).0 0 ≡ some (spot p o os)
unfolding place place_one count_stack spot
place-spot p none os word fits =
    let (bytes, slots) = slot_fits (count_stack os) p.word_size word fits in
    let e = entry_sp_slot-exact p (place p os).1 (count_stack os) (place-slot p os) slots in
    ap some (
      ap (λ (n : ℕ). stack_location n p.word_size) e
      ∙ stack_location-exact (count_stack os) p.word_size (omega (arith, bytes)))
place-spot p (some l) os word fits = refl

place-suc :
    (p : Profile) (o : Option Location) (os : List (Option Location)) (i : ℕ)
    → get_elem? (place p (o ∷ os)).0 (suc i) ≡ get_elem? (place p os).0 i
unfolding place place_one
place-suc p none os i = refl
place-suc p (some l) os i = refl

place-at :
    (p : Profile) (xs : List (Option Location)) (o : Option Location) (os : List (Option Location))
    → p.word_size ≢ 0
    → count_stack (xs ++ (o ∷ os)) * p.word_size ≤ 2 ^ 31
    → get_elem? (place p (xs ++ (o ∷ os))).0 (length xs) ≡ some (spot p o os)
place-at p [] o os word fits = place-spot p o os word fits
place-at p (x ∷ xs) o os word fits =
    place-suc p x (xs ++ (o ∷ os)) (length xs)
    ∙ place-at p xs o os word (count_stack-le x (xs ++ (o ∷ os)) p.word_size fits)

place-at_length :
    (p : Profile) (xs : List (Option Location)) (o : Option Location) (os : List (Option Location))
    (n : ℕ)
    → length xs ≡ n
    → p.word_size ≢ 0
    → count_stack (xs ++ (o ∷ os)) * p.word_size ≤ 2 ^ 31
    → get_elem? (place p (xs ++ (o ∷ os))).0 n ≡ some (spot p o os)
place-at_length p xs o os n e word fits =
    subst (λ (m : ℕ). get_elem? (place p (xs ++ (o ∷ os))).0 m ≡ some (spot p o os)) e
      (place-at p xs o os word fits)

with_locations-at :
    (before after : List ResolvedSlot) (s : ResolvedSlot) (ls : List Location) (l : Location)
    → get_elem? ls (length before) ≡ some l
    → get_elem? (with_locations (before ++ (s ∷ after)) ls) (length before)
      ≡ some (record { representation = s.representation; locations = l ∷ [] })
unfolding with_locations
with_locations-at [] after s [] l h = cc
with_locations-at [] after s (m ∷ ls) l h = ground (arith, h)
with_locations-at (b ∷ before) after s [] l h = cc
with_locations-at (b ∷ before) after s (m ∷ ls) l h = with_locations-at before after s ls l h

spot-expected :
    (p : Profile) (limit i g f : ℕ) (s : ResolvedSlot) (after : List ResolvedSlot)
    → spot p (register_of p limit i g f s.representation) (
        registers p limit
          (suc i)
          (gp_user s.representation + g)
          (fpu_user s.representation + f)
          after)
      ≡ expected_location p limit i g f s after
unfolding spot expected_location
spot-expected p limit i g f s after =
    let e =
      count_stack-registers p limit (suc i) (gp_user s.representation + g)
        (fpu_user s.representation + f) after in
    ground (arith, e)

locate-expected_location :
    (p : Profile) (limit : ℕ) (before after : List ResolvedSlot) (s : ResolvedSlot)
    → p.word_size ≢ 0
    → count_stack (assign p limit 0 0 (before ++ (s ∷ after))) * p.word_size ≤ 2 ^ 31
    → get_elem? (locate p limit (before ++ (s ∷ after))) (length before)
      ≡ some
          (expected_location p limit (length before) (gp_users before) (fpu_users before) s after)
unfolding locate
locate-expected_location p limit before after s word fits =
    let split = assign-split p limit before after s in
    let fits' =
      subst (λ (os : List (Option Location)). count_stack os * p.word_size ≤ 2 ^ 31) split fits in
    let exact = length-registers p limit 0 0 0 before in
    let found = place-at_length p _ _ _ (length before) exact word fits' in
    subst
      (λ (os : List (Option Location)).
        get_elem? (place p os).0 (length before)
        ≡ some (
            expected_location p limit (length before) (gp_users before) (fpu_users before) s after))
      (sym split)
      (found
        ∙ ap some
            (spot-expected p limit (length before) (gp_users before) (fpu_users before) s after))

-- In a computed layout whose parameters take at most 2 ^ 31 bytes of stack, each parameter has its
-- representation and one location, given in closed form. If it stands within the register limit, and
-- fewer parameters of its kind stand before it than there are registers of that kind, this is the
-- profile's register of that number. Otherwise it is the word of the entry stack above those of all
-- later parameters that get no register.
pub compute_layout-expected_location :
    (abi : FunctionResolution) (p : Profile) (closure_call : Bool) (l : CallLayout)
    (before after : List ResolvedSlot) (s : ResolvedSlot)
    → compute_layout abi p closure_call ≡ (ok, some l)
    → abi.parameters ≡ before ++ (s ∷ after)
    → l.stack_words * p.word_size ≤ 2 ^ 31
    → get_elem? l.parameters (length before)
      ≡ some (record {
        representation = s.representation;
        locations =
            expected_location p
              (register_limit abi)
              (length before)
              (gp_users before)
              (fpu_users before)
              s
              after
            ∷ [];
      })
compute_layout-expected_location abi p closure_call l before after s h parts fits =
    let word = nonzero_word abi p closure_call (ap (λ r. r.0) h) in
    let e = compute_layout-build_layout abi p closure_call l h in
    let fits' = subst (λ (k : CallLayout). k.stack_words * p.word_size ≤ 2 ^ 31) e fits in
    let limit = register_limit abi in
    let fits'' =
      subst (λ (ss : List ResolvedSlot). count_stack (assign p limit 0 0 ss) * p.word_size ≤ 2 ^ 31)
        parts (unfold build_layout in fits') in
    let value : ValueLayout = record {
      representation = s.representation;
      locations =
          expected_location p limit (length before) (gp_users before) (fpu_users before) s after
          ∷ [];
    } in
    rw e (
      unfold build_layout in
      subst
        (λ (ss : List ResolvedSlot).
          get_elem? (with_locations ss (locate p limit ss)) (length before) ≡ some value)
        (sym parts)
        (with_locations-at before after s _ _
          (locate-expected_location p limit before after s word fits'')))
