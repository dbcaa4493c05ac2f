-- ===== src/Abi/Layout/Resolved.antt =====
-- From resolved evidence to a layout.
use dart_plant.Prelude.{ℕ, ◌≡◌, refl, true, false, List, arith}
use dart_plant.Abi.Evidence.{FunctionEvidence, ResolvedSlot, resolve_function, slot_proven}
use dart_plant.Abi.Evidence.Agreement.{fully_proven-Consistent}
use dart_plant.Abi.Layout.{
  ok, Profile, supported_result, all_supported, validate_profile, compute_layout,
}
use dart_plant.Abi.Layout.Verdict.{compute_layout-ok_iff}

proven-supported :
    (s : ResolvedSlot) → slot_proven s ≡ true → supported_result s.representation ≡ true
proven-supported s h = ground arith

-- Evidence that fully proves a function without optional parameters leads to a layout on every
-- valid profile, if its parameters have representations that a call can carry.
pub fully_proven-compute_layout :
    (ps : List FunctionEvidence) (count : ℕ) (p : Profile)
    → validate_profile p ≡ true
    → (resolve_function ps count).fully_proven ≡ true
    → (resolve_function ps count).has_optional_parameters ≡ false
    → all_supported (resolve_function ps count).parameters ≡ true
    → (compute_layout (resolve_function ps count) p false).0 ≡ ok
fully_proven-compute_layout ps count p v h o s =
    let facts = fully_proven-Consistent ps count h in
    (compute_layout-ok_iff (resolve_function ps count) p false).0.1 (record {
      valid = v;
      agreed = facts.0;
      result = facts.1;
      parameters = facts.2;
      stack_cc = facts.3;
      optional_info = facts.4;
      max_regs = facts.5;
      optional = rw o refl;
      result_supported = proven-supported (resolve_function ps count).result facts.1;
      supported = s;
    })
