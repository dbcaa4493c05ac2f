-- ===== src/Abi/Types.antt =====
-- Machine representations and the state of a proof about one (src/abi/representation.h and
-- src/abi/evidence.h).
use dart_plant.Prelude.{ℕ, Bool, true, false}

-- `DartAbiRepresentation`
pub data Representation : Type 0 where
  unknown tagged unboxed_int64 unboxed_double pair_of_tagged : Representation

-- `DartAbiProofState`
pub data ProofState : Type 0 where
  unproven proven conflicting : ProofState

-- `DartAbiEvidenceSource`
pub data Source : Type 0 where
  unknown_source compiler_oracle aot_code_analysis verified_fixture : Source

-- `EvidenceSourceMask`
unfoldable pub source_mask : Source → ℕ
source_mask unknown_source = 0
source_mask compiler_oracle = 1
source_mask aot_code_analysis = 2
source_mask verified_fixture = 4

abbrev pub is_unknown : Representation → Bool
is_unknown unknown = true
is_unknown _ = false

abbrev pub same_representation : Representation → Representation → Bool
same_representation unknown unknown = true
same_representation tagged tagged = true
same_representation unboxed_int64 unboxed_int64 = true
same_representation unboxed_double unboxed_double = true
same_representation pair_of_tagged pair_of_tagged = true
same_representation _ _ = false

abbrev pub is_unproven : ProofState → Bool
is_unproven unproven = true
is_unproven _ = false

abbrev pub is_proven : ProofState → Bool
is_proven proven = true
is_proven _ = false

abbrev pub is_conflicting : ProofState → Bool
is_conflicting conflicting = true
is_conflicting _ = false
