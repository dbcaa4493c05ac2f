-- ===== src/Abi/Layout/Verdict.antt =====
-- When a layout is computed, and what it says of each parameter.
use dart_plant.Prelude.{
  ℕ, suc, ◌-◌, ◌≡◌, ◌≢◌, ◌↔◌, refl, ap, ◌∙◌, Bool, true, false, not, ◌&&◌, Option, none, some, List,
  [], ◌∷◌, ◌++◌, map, length, arith,
}
use dart_plant.Abi.Evidence.{ResolvedSlot, FunctionResolution, slot_proven, all_proven}
use dart_plant.Abi.Layout.{
  ok, Location, Profile, ValueLayout, CallLayout, validate_profile, supported_result, all_supported,
  assign, place_one, place, locate, with_locations, register_limit, build_layout, compute_layout,
  empty_layout,
}

-- What a layout needs of a function and a profile.
pub record Admissible (abi : FunctionResolution) (p : Profile) (closure_call : Bool) : Type 0 where
  pub valid : validate_profile p ≡ true
  pub agreed : abi.conflicting ≡ false
  pub result : slot_proven abi.result ≡ true
  pub parameters : all_proven abi.parameters ≡ true
  pub stack_cc : abi.has_stack_calling_convention ≡ true
  pub optional_info : abi.has_optional_parameter_info ≡ true
  pub max_regs : abi.has_max_parameters_in_registers ≡ true
  pub optional : abi.has_optional_parameters && not closure_call ≡ false
  pub result_supported : supported_result abi.result.representation ≡ true
  pub supported : all_supported abi.parameters ≡ true

-- A layout is computed exactly for the admissible functions; a layout that is stored under another
-- status is the empty one.
pub compute_layout-ok_iff :
    (abi : FunctionResolution) (p : Profile) (closure_call : Bool)
    → (((compute_layout abi p closure_call).0 ≡ ok) ↔ Admissible abi p closure_call)
      × ((l : CallLayout)
          → (compute_layout abi p closure_call).0 ≢ ok
          → (compute_layout abi p closure_call).1 ≡ some l
          → l ≡ empty_layout)
unfolding compute_layout
compute_layout-ok_iff abi p closure_call =
    (((λ h. ground arith), (λ v. ground arith)), (λ l h e. ground arith))

length-assign :
    (p : Profile) (limit gp fpu : ℕ) (ss : List ResolvedSlot)
    → length (assign p limit gp fpu ss) ≡ length ss
unfolding assign
length-assign p limit gp fpu [] = refl
length-assign p limit gp fpu (s ∷ ss) = ap suc (length-assign p (limit - 1) _ _ ss)

length-place_one :
    (p : Profile) (l : Option Location) (r : List Location × ℕ)
    → length (place_one p l r).0 ≡ suc (length r.0)
unfolding place_one
length-place_one p none r = refl
length-place_one p (some l) r = refl

length-place : (p : Profile) (ls : List (Option Location)) → length (place p ls).0 ≡ length ls
unfolding place
length-place p [] = refl
length-place p (l ∷ ls) = length-place_one p l (place p ls) ∙ ap suc (length-place p ls)

-- The locations of the parameters, in order.
abbrev pub all_locations : List ValueLayout → List Location
all_locations [] = []
all_locations (v ∷ vs) = v.locations ++ all_locations vs

with_locations_parts :
    (ss : List ResolvedSlot) (ls : List Location)
    → length ls ≡ length ss
    → (map (λ v. v.representation) (with_locations ss ls) ≡ map (λ s. s.representation) ss)
      × (all_locations (with_locations ss ls) ≡ ls)
unfolding with_locations
with_locations_parts [] [] h = (refl, refl)
with_locations_parts [] (l ∷ ls) h = absurd (omega arith)
with_locations_parts (s ∷ ss) [] h = absurd (omega arith)
with_locations_parts (s ∷ ss) (l ∷ ls) h =
    let (r, a) = with_locations_parts ss ls (omega arith) in
    (ap (λ x. s.representation ∷ x) r, ap (λ x. l ∷ x) a)

-- The stored layout has, for each parameter, its representation and, read off in order, the
-- locations that `locate` gives.
pub build_layout_parts :
    (abi : FunctionResolution) (p : Profile)
    → (map (λ v. v.representation) (build_layout abi p).parameters
        ≡ map (λ s. s.representation) abi.parameters)
      × (all_locations (build_layout abi p).parameters
          ≡ locate p (register_limit abi) abi.parameters)
unfolding build_layout locate
build_layout_parts abi p =
    with_locations_parts abi.parameters _
      (length-place p _ ∙ length-assign p (register_limit abi) 0 0 abi.parameters)

pub compute_layout-build_layout :
    (abi : FunctionResolution) (p : Profile) (closure_call : Bool) (l : CallLayout)
    → compute_layout abi p closure_call ≡ (ok, some l)
    → l ≡ build_layout abi p
unfolding compute_layout
compute_layout-build_layout abi p closure_call l h = ground arith

pub nonzero_word :
    (abi : FunctionResolution) (p : Profile) (closure_call : Bool)
    → (compute_layout abi p closure_call).0 ≡ ok
    → p.word_size ≢ 0
unfolding compute_layout validate_profile
nonzero_word abi p closure_call h = ground arith
