-- ===== src/Abi/Layout.antt =====
-- Where a Dart AOT call puts its arguments and its result (src/abi/call_layout.h and
-- src/abi/calling_convention.cpp). An int32_t is its bit pattern, a number below 2 ^ 32, and its
-- arithmetic wraps; where the source's would overflow, C++ leaves the value undefined. The counts
-- are unbounded: a uint32_t counts the parameters of a resolution. Of `DartCallLayout` only the
-- fields that the computation sets are modelled.
pub mod Verdict
pub mod Distinct
pub mod Stack
pub mod Registers
pub mod Reference
pub mod Resolved
use dart_plant.Prelude.{
  ℕ, zero, suc, ◌+◌, ◌-◌, ◌*◌, ◌%◌, ◌^◌, ◌==◌, ltb, leb, if◌then◌else◌, Bool, true, false, not,
  ◌&&◌, ◌||◌, Option, none, some, List, [], ◌∷◌, get_or, map,
}
use dart_plant.Abi.Types.{
  Representation, unknown, tagged, unboxed_int64, unboxed_double, pair_of_tagged,
}
use dart_plant.Abi.Evidence.{ResolvedSlot, FunctionResolution, slot_proven, all_proven}

-- `DartCallLayoutStatus`
pub data LayoutStatus : Type 0 where
  ok incomplete_evidence conflicting_evidence unsupported_representation : LayoutStatus
  optional_arguments_unsupported invalid_calling_convention : LayoutStatus

-- `DartAbiLocation`; the stack offset is an int32_t.
pub data Location : Type 0 where
  gp_register : ℕ → Location
  fpu_register : ℕ → Location
  entry_stack : ℕ → Location

-- `DartCallingConventionProfile`
pub record Profile : Type 0 where
  pub word_size : ℕ
  pub dart_sp_register : ℕ
  pub gp_argument_registers : List ℕ
  pub gp_argument_register_count : ℕ
  pub fpu_argument_registers : List ℕ
  pub fpu_argument_register_count : ℕ
  pub tagged_result_gp_register : ℕ
  pub unboxed_int64_result_gp_register : ℕ
  pub unboxed_double_result_fpu_register : ℕ
  pub pair_of_tagged_result_gp_registers : ℕ × ℕ
  pub fp_to_entry_sp_slot_delta : ℕ

-- `DartParameterLayout`; the locations are those that its count covers.
pub record ValueLayout : Type 0 where
  pub representation : Representation
  pub locations : List Location

-- `DartCallLayout`
pub record CallLayout : Type 0 where
  pub parameters : List ValueLayout
  pub result : ValueLayout
  pub stack_words : ℕ
  pub dart_sp_register : ℕ

abbrev pub empty_layout : CallLayout
empty_layout = record {
  parameters = [];
  result = record { representation = unknown; locations = [] };
  stack_words = 0;
  dart_sp_register = 0;
}

-- `Arm64AotCallingConventionProfile`
abbrev pub arm64_aot_profile : Profile
arm64_aot_profile = record {
  word_size = 8;
  dart_sp_register = 15;
  gp_argument_registers = 1 ∷ 2 ∷ 3 ∷ 5 ∷ 6 ∷ 7 ∷ 0 ∷ 0 ∷ [];
  gp_argument_register_count = 6;
  fpu_argument_registers = 0 ∷ 1 ∷ 2 ∷ 3 ∷ 4 ∷ 5 ∷ 0 ∷ 0 ∷ [];
  fpu_argument_register_count = 6;
  tagged_result_gp_register = 0;
  unboxed_int64_result_gp_register = 0;
  unboxed_double_result_fpu_register = 0;
  pair_of_tagged_result_gp_registers = (0, 1);
  fp_to_entry_sp_slot_delta = 2;
}

-- `ValidateProfile`; the register arrays have eight places.
unfoldable pub validate_profile : Profile → Bool
validate_profile p =
    not (p.word_size == 0)
    && (leb p.word_size (2 ^ 31 - 1)
        && (leb p.gp_argument_register_count 8 && leb p.fpu_argument_register_count 8))

-- `IsSupportedParameterRepresentation`
abbrev pub supported_parameter : Representation → Bool
supported_parameter tagged = true
supported_parameter unboxed_int64 = true
supported_parameter unboxed_double = true
supported_parameter _ = false

-- `IsSupportedResultRepresentation`
abbrev pub supported_result : Representation → Bool
supported_result unknown = false
supported_result _ = true

abbrev pub all_supported : List ResolvedSlot → Bool
all_supported [] = true
all_supported (s ∷ ss) = supported_parameter s.representation && all_supported ss

-- A free register of the kind that `rep` needs, with the counts of registers in use after it.
choose : Profile → Representation → ℕ → ℕ → Option Location × ℕ × ℕ
choose p unboxed_double gp fpu =
    if ltb fpu p.fpu_argument_register_count
    then (some (fpu_register (get_or p.fpu_argument_registers fpu 0)), gp, fpu + 1)
    else (none, gp, fpu)
choose p tagged gp fpu =
    if ltb gp p.gp_argument_register_count
    then (some (gp_register (get_or p.gp_argument_registers gp 0)), gp + 1, fpu)
    else (none, gp, fpu)
choose p unboxed_int64 gp fpu =
    if ltb gp p.gp_argument_register_count
    then (some (gp_register (get_or p.gp_argument_registers gp 0)), gp + 1, fpu)
    else (none, gp, fpu)
choose p _ gp fpu = (none, gp, fpu)

-- The first `limit` parameters may take registers.
pick : Profile → ℕ → Representation → ℕ → ℕ → Option Location × ℕ × ℕ
pick p zero rep gp fpu = (none, gp, fpu)
pick p (suc limit) rep gp fpu = choose p rep gp fpu

-- The loop over the parameters; `none` needs the stack. `limit` counts down what is left of the
-- register limit.
pub assign : Profile → ℕ → ℕ → ℕ → List ResolvedSlot → List (Option Location)
assign p limit gp fpu [] = []
assign p limit gp fpu (s ∷ ss) =
    let (l, gp', fpu') = pick p limit s.representation gp fpu in
    l ∷ assign p (limit - 1) gp' fpu' ss

pub count_stack : List (Option Location) → ℕ
count_stack [] = 0
count_stack (none ∷ ls) = count_stack ls + 1
count_stack (some l ∷ ls) = count_stack ls

-- `EntryStack`
unfoldable pub stack_location : ℕ → ℕ → Location
stack_location slot word_size = entry_stack (slot * word_size % 2 ^ 32)

-- The slot above the entry stack pointer of this frame slot, a difference of int32_t.
pub entry_sp_slot : Profile → ℕ → ℕ
entry_sp_slot p fp_slot = (fp_slot + (2 ^ 32 - p.fp_to_entry_sp_slot_delta % 2 ^ 32)) % 2 ^ 32

-- The loop over the parameters from the last to the first, from frame slot `slot` on: the
-- locations, and the slot after those that it took.
place_one : Profile → Option Location → List Location × ℕ → List Location × ℕ
unfolding entry_sp_slot stack_location
place_one p none (ls, slot) =
    (stack_location (entry_sp_slot p slot) p.word_size ∷ ls, (slot + 1) % 2 ^ 32)
place_one p (some l) (ls, slot) = (l ∷ ls, slot)

place : Profile → List (Option Location) → List Location × ℕ
place p [] = ([], p.fp_to_entry_sp_slot_delta)
place p (l ∷ ls) = place_one p l (place p ls)

pub locate : Profile → ℕ → List ResolvedSlot → List Location
locate p limit slots = (place p (assign p limit 0 0 slots)).0

with_locations : List ResolvedSlot → List Location → List ValueLayout
with_locations [] ls = []
with_locations (s ∷ ss) [] = []
with_locations (s ∷ ss) (l ∷ ls) =
    record { representation = s.representation; locations = l ∷ [] } ∷ with_locations ss ls

result_locations : Profile → Representation → List Location
result_locations p unknown = []
result_locations p tagged = gp_register p.tagged_result_gp_register ∷ []
result_locations p unboxed_int64 = gp_register p.unboxed_int64_result_gp_register ∷ []
result_locations p unboxed_double = fpu_register p.unboxed_double_result_fpu_register ∷ []
result_locations p pair_of_tagged =
    gp_register p.pair_of_tagged_result_gp_registers.0
    ∷ gp_register p.pair_of_tagged_result_gp_registers.1
    ∷ []

pub register_limit : FunctionResolution → ℕ
register_limit abi =
    if abi.must_use_stack_calling_convention then 0 else abi.max_parameters_in_registers

-- The layout that is computed once every check has passed.
pub build_layout : FunctionResolution → Profile → CallLayout
build_layout abi p = record {
  parameters = with_locations abi.parameters (locate p (register_limit abi) abi.parameters);
  result = record {
    representation = abi.result.representation;
    locations = result_locations p abi.result.representation;
  };
  stack_words = count_stack (assign p (register_limit abi) 0 0 abi.parameters);
  dart_sp_register = p.dart_sp_register;
}

-- `ComputeDartCallLayout`: the status, and what is stored through the out parameter.
unfoldable pub compute_layout :
    FunctionResolution → Profile → Bool → LayoutStatus × Option CallLayout
unfolding build_layout register_limit locate place place_one entry_sp_slot stack_location assign
    pick choose count_stack with_locations result_locations validate_profile
compute_layout abi p closure_call =
    if not (validate_profile p)
    then (invalid_calling_convention, none)
    else if abi.conflicting
    then (conflicting_evidence, some empty_layout)
    else if not (slot_proven abi.result)
        || (not (all_proven abi.parameters)
            || (not abi.has_stack_calling_convention
                || (not abi.has_optional_parameter_info
                    || not abi.has_max_parameters_in_registers)))
    then (incomplete_evidence, some empty_layout)
    else if abi.has_optional_parameters && not closure_call
    then (optional_arguments_unsupported, some empty_layout)
    else if not (supported_result abi.result.representation) || not (all_supported abi.parameters)
    then (unsupported_representation, some empty_layout)
    else (ok, some (build_layout abi p))

abbrev pub succeeded : LayoutStatus → Bool
succeeded ok = true
succeeded _ = false

-- `ComputeArm64AotCallLayout`
unfoldable pub compute_arm64_layout : FunctionResolution → Bool × Option CallLayout
unfolding compute_layout
compute_arm64_layout abi =
    let (status, layout) = compute_layout abi arm64_aot_profile false in (succeeded status, layout)
