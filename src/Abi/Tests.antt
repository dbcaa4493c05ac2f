-- ===== src/Abi/Tests.antt =====
-- Evidence, layouts and words at concrete inputs.
use dart_plant.Prelude.{
  get_elem?, ◌^◌, ◌≡◌, ◌↔◌, inl, inr, refl, true, false, some, List, [], ◌∷◌, arith,
}
use dart_plant.Abi.Types.{
  Representation, unknown, tagged, unboxed_int64, unboxed_double, unproven, proven, compiler_oracle,
  aot_code_analysis, source_mask,
}
use dart_plant.Abi.Evidence.{
  SlotEvidence, FunctionEvidence, FunctionResolution, ResolvedSlot, resolve_slot, resolve_function,
}
use dart_plant.Abi.Evidence.Slots.{Agree, informed, resolve_slot_verdict}
use dart_plant.Abi.Evidence.Agreement.{Consistent, fully_proven-Consistent}
use dart_plant.Abi.Layout.{
  ok, gp_register, entry_stack, arm64_aot_profile, build_layout, compute_layout, validate_profile,
  stack_location,
}
use dart_plant.Abi.Layout.Verdict.{all_locations}
use dart_plant.Abi.Layout.Registers.{register_of}
use dart_plant.Abi.Layout.Reference.{expected_location, compute_layout-expected_location}
use dart_plant.Abi.Layout.Distinct.{DistinctUpTo, Distinct, compute_layout-Distinct}
use dart_plant.Abi.Layout.Stack.{stack_offsets, descending, compute_layout-stack_words}
use dart_plant.Abi.Layout.Resolved.{fully_proven-compute_layout}
use dart_plant.Abi.Codec.{smi, word, encode_gp_word, decode_gp_word, encode_fp_word, decode_fp_word}
use dart_plant.Abi.Codec.RoundTrip.{encode-decode, decode-encode}

abbrev says : Representation → SlotEvidence
says rep = record { representation = rep; source = compiler_oracle; proof = proven }

abbrev silent : SlotEvidence
silent = record { representation = unknown; source = aot_code_analysis; proof = unproven }

-- f(receiver, int64, double) with two parameters in registers.
abbrev oracle : FunctionEvidence
oracle = record {
  parameters = says tagged ∷ says unboxed_int64 ∷ says unboxed_double ∷ [];
  result = says tagged;
  has_stack_calling_convention = true;
  must_use_stack_calling_convention = false;
  has_overrides_with_less_direct_parameters = false;
  has_optional_parameter_info = true;
  has_optional_parameters = false;
  has_max_parameters_in_registers = true;
  max_parameters_in_registers = 2;
  is_closure = false;
}

abbrev analysis : FunctionEvidence
analysis = record oracle {
  parameters = silent ∷ says unboxed_int64 ∷ [];
  result = silent;
  has_max_parameters_in_registers = false;
  max_parameters_in_registers = 0;
}

abbrev providers : List FunctionEvidence
providers = oracle ∷ analysis ∷ []

abbrev resolved : FunctionResolution
resolved = resolve_function providers 3

resolve_slot_verdict_example :
    ((((resolve_slot (silent ∷ says tagged ∷ [])).proof ≡ proven)
        × ((resolve_slot (silent ∷ says tagged ∷ [])).representation ≡ tagged))
      ↔ ((informed (silent ∷ says tagged ∷ []) ≡ true) × Agree tagged (silent ∷ says tagged ∷ [])))
    × (((resolve_slot (silent ∷ says tagged ∷ [])).proof ≡ unproven)
        ↔ (informed (silent ∷ says tagged ∷ []) ≡ false))
resolve_slot_verdict_example = resolve_slot_verdict (silent ∷ says tagged ∷ []) tagged

resolved_registers :
    all_locations (build_layout resolved arm64_aot_profile).parameters
    ≡ gp_register 1 ∷ gp_register 2 ∷ entry_stack 0 ∷ []
unfolding resolve_function resolve_slot source_mask compute_layout
resolved_registers = refl

fully_proven-Consistent_example : Consistent resolved providers
unfolding resolve_function resolve_slot source_mask
fully_proven-Consistent_example = (fully_proven-Consistent providers 3 refl).6

abbrev resolved_says : Representation → ResolvedSlot
resolved_says rep = record { representation = rep; proof = proven; source_mask = 1 }

-- A frame of five words of 2 ^ 30 bytes wraps around.
wide_words_collide : stack_location 4 (2 ^ 30) ≡ stack_location 0 (2 ^ 30)
unfolding stack_location
wide_words_collide = refl

compute_layout-expected_location_example :
    get_elem? (build_layout resolved arm64_aot_profile).parameters 1
    ≡ some (record { representation = unboxed_int64; locations = gp_register 2 ∷ [] })
unfolding resolve_function resolve_slot source_mask compute_layout expected_location register_of
compute_layout-expected_location_example =
    compute_layout-expected_location resolved arm64_aot_profile false _ (resolved_says tagged ∷ [])
      (resolved_says unboxed_double ∷ []) (resolved_says unboxed_int64) refl refl (omega arith)

gp_distinct : DistinctUpTo 6 arm64_aot_profile.gp_argument_registers
gp_distinct i j h k e = ground arith

fpu_distinct : DistinctUpTo 6 arm64_aot_profile.fpu_argument_registers
fpu_distinct i j h k e = ground arith

compute_layout-Distinct_example :
    Distinct (all_locations (build_layout resolved arm64_aot_profile).parameters)
unfolding resolve_function resolve_slot source_mask compute_layout
compute_layout-Distinct_example =
    compute_layout-Distinct resolved arm64_aot_profile false _ gp_distinct fpu_distinct refl
      (omega arith)

compute_layout-stack_words_example :
    stack_offsets (all_locations (build_layout resolved arm64_aot_profile).parameters)
    ≡ descending 8 1
unfolding resolve_function resolve_slot source_mask compute_layout
compute_layout-stack_words_example =
    compute_layout-stack_words resolved arm64_aot_profile false _ refl (omega arith)

fully_proven-compute_layout_example : (compute_layout resolved arm64_aot_profile false).0 ≡ ok
unfolding resolve_function resolve_slot source_mask validate_profile
fully_proven-compute_layout_example =
    fully_proven-compute_layout providers 3 arm64_aot_profile refl refl refl refl

encode-decode_example :
    (encode_gp_word (decode_gp_word 42 true 0x1001) true 0x1001 ≡ word 42)
    × (encode_fp_word (decode_fp_word 42) ≡ word 42)
encode-decode_example = encode-decode 42 0x1001 true

decode-encode_example : (decode_gp_word 42 true 0x1001).kind ≡ smi
unfolding encode_gp_word
decode-encode_example =
    (decode-encode (record { kind = smi; raw = 42 }) true 0x1001 42 refl).0
      (refl, inr (inl refl, omega arith))
