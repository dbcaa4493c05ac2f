-- ===== src/Abi/Evidence.antt =====
-- Joining the evidence of several providers about one function (src/abi/evidence.h and
-- src/abi/evidence_solver.cpp).
pub mod Slots
pub mod Agreement
use Prim.Native.Nat.{bit_or}
use dart_plant.Prelude.{
  ℕ, zero, suc, ◌+◌, ◌==◌, if◌then◌else◌, Bool, true, false, not, ◌&&◌, ◌||◌, Option, none, some,
  List, [], ◌∷◌, get_elem?,
}
use dart_plant.Abi.Types.{
  Representation, unknown, ProofState, unproven, proven, conflicting, Source, source_mask,
  is_unknown, same_representation, is_unproven, is_proven, is_conflicting,
}

-- `DartAbiSlotEvidence`
pub record SlotEvidence : Type 0 where
  pub representation : Representation
  pub source : Source
  pub proof : ProofState

-- `DartAbiResolvedSlot`
pub record ResolvedSlot : Type 0 where
  pub representation : Representation
  pub proof : ProofState
  pub source_mask : ℕ

abbrev pub unresolved : ResolvedSlot
unresolved = record { representation = unknown; proof = unproven; source_mask = 0 }

-- An item that says nothing is passed over.
abbrev pub ignored : SlotEvidence → Bool
ignored item = is_unproven item.proof || is_unknown item.representation

conflict : ResolvedSlot → ResolvedSlot
conflict r = record r { representation = unknown; proof = conflicting }

-- One round of the loop of `ResolveSlotEvidence`.
pub resolve_item : ResolvedSlot → SlotEvidence → ResolvedSlot
unfolding conflict
resolve_item r item =
    if ignored item
    then r
    else if is_conflicting item.proof
    then conflict marked
    else if is_unproven r.proof
    then record marked { representation = item.representation; proof = proven }
    else if is_proven r.proof && not (same_representation r.representation item.representation)
    then conflict marked
    else marked
  where
    marked : ResolvedSlot
    marked = record r { source_mask = bit_or r.source_mask (source_mask item.source) }

pub resolve_from : ResolvedSlot → List SlotEvidence → ResolvedSlot
resolve_from r [] = r
resolve_from r (item ∷ items) = resolve_from (resolve_item r item) items

-- `ResolveSlotEvidence`
unfoldable pub resolve_slot : List SlotEvidence → ResolvedSlot
unfolding resolve_from resolve_item
resolve_slot items = resolve_from unresolved items

-- `DartFunctionAbiEvidence`
pub record FunctionEvidence : Type 0 where
  pub parameters : List SlotEvidence
  pub result : SlotEvidence
  pub has_stack_calling_convention : Bool
  pub must_use_stack_calling_convention : Bool
  pub has_overrides_with_less_direct_parameters : Bool
  pub has_optional_parameter_info : Bool
  pub has_optional_parameters : Bool
  pub has_max_parameters_in_registers : Bool
  pub max_parameters_in_registers : ℕ
  pub is_closure : Bool

-- `DartFunctionAbiResolution`
pub record FunctionResolution : Type 0 where
  pub parameters : List ResolvedSlot
  pub result : ResolvedSlot
  pub has_stack_calling_convention : Bool
  pub must_use_stack_calling_convention : Bool
  pub has_overrides_with_less_direct_parameters : Bool
  pub has_optional_parameter_info : Bool
  pub has_optional_parameters : Bool
  pub has_max_parameters_in_registers : Bool
  pub max_parameters_in_registers : ℕ
  pub is_closure : Bool
  pub fully_proven : Bool
  pub conflicting : Bool

-- What the providers with as many parameters say about parameter `index`.
slot_evidence : ℕ → List FunctionEvidence → List SlotEvidence
slot_evidence index [] = []
slot_evidence index (p ∷ ps) = elim (get_elem? p.parameters index) [
  | none ↦ slot_evidence index ps
  | some item ↦ item ∷ slot_evidence index ps
]

result_evidence : List FunctionEvidence → List SlotEvidence
result_evidence [] = []
result_evidence (p ∷ ps) = p.result ∷ result_evidence ps

-- The parameters from `index` on.
resolve_parameters : ℕ → ℕ → List FunctionEvidence → List ResolvedSlot
resolve_parameters index zero ps = []
resolve_parameters index (suc n) ps =
    resolve_slot (slot_evidence index ps) ∷ resolve_parameters (index + 1) n ps

bool_eq : Bool → Bool → Bool
bool_eq true b = b
bool_eq false b = not b

-- The locals of the loop over the providers; `none` is a fact not seen so far.
record Scan : Type 0 where
  stack_cc : Option Bool
  optional : Option Bool
  max_regs : Option ℕ
  closure : Option Bool
  overrides : Bool
  conflicting : Bool

-- `if (!seen) { seen = true; value = v; } else if (value != v) conflicting = true;`
clashes : {A : Type 0} → (A → A → Bool) → Option A → A → Bool
clashes eq none v = false
clashes eq (some old) v = not (eq old v)

first_seen : {A : Type 0} → Option A → A → Option A
first_seen none v = some v
first_seen (some old) v = some old

observe_closure : FunctionEvidence → Scan → Scan
observe_closure p s = record s {
  closure = first_seen s.closure p.is_closure;
  conflicting = s.conflicting || clashes bool_eq s.closure p.is_closure;
}

observe_optional : FunctionEvidence → Scan → Scan
observe_optional p s =
    if p.has_optional_parameter_info
    then record s {
      optional = first_seen s.optional p.has_optional_parameters;
      conflicting = s.conflicting || clashes bool_eq s.optional p.has_optional_parameters;
    }
    else s

observe_stack : FunctionEvidence → Scan → Scan
observe_stack p s =
    if p.has_stack_calling_convention
    then record s {
      stack_cc = first_seen s.stack_cc p.must_use_stack_calling_convention;
      conflicting = s.conflicting || clashes bool_eq s.stack_cc p.must_use_stack_calling_convention;
    }
    else s

observe_max_regs : FunctionEvidence → Scan → Scan
observe_max_regs p s =
    if p.has_max_parameters_in_registers
    then record s {
      max_regs = first_seen s.max_regs p.max_parameters_in_registers;
      conflicting = s.conflicting || clashes ◌==◌ s.max_regs p.max_parameters_in_registers;
    }
    else s

observe_overrides : FunctionEvidence → Scan → Scan
observe_overrides p s = record s {
  overrides = s.overrides || p.has_overrides_with_less_direct_parameters;
}

observe : FunctionEvidence → Scan → Scan
observe p s =
    observe_max_regs p
      (observe_stack p (observe_optional p (observe_closure p (observe_overrides p s))))

scan : Scan → List FunctionEvidence → Scan
scan s [] = s
scan s (p ∷ ps) = scan (observe p s) ps

abbrev nothing_seen : Scan
nothing_seen = record {
  stack_cc = none;
  optional = none;
  max_regs = none;
  closure = none;
  overrides = false;
  conflicting = false;
}

abbrev pub seen : {A : Type 0} → Option A → Bool
seen none = false
seen (some a) = true

abbrev pub value_or : {A : Type 0} → A → Option A → A
value_or d none = d
value_or d (some a) = a

abbrev pub slot_proven : ResolvedSlot → Bool
slot_proven slot = is_proven slot.proof && not (is_unknown slot.representation)

abbrev pub all_proven : List ResolvedSlot → Bool
all_proven [] = true
all_proven (s ∷ ss) = slot_proven s && all_proven ss

abbrev pub any_conflicting : List ResolvedSlot → Bool
any_conflicting [] = false
any_conflicting (s ∷ ss) = is_conflicting s.proof || any_conflicting ss

-- The part of `ResolveFunctionAbiEvidence` after the loop over the providers.
finish : List ResolvedSlot → ResolvedSlot → Scan → FunctionResolution
finish parameters result s = record {
  parameters = parameters;
  result = result;
  has_stack_calling_convention = has_stack;
  must_use_stack_calling_convention = value_or false s.stack_cc;
  has_overrides_with_less_direct_parameters = s.overrides;
  has_optional_parameter_info = has_optional;
  has_optional_parameters = value_or false s.optional;
  has_max_parameters_in_registers = has_max;
  max_parameters_in_registers = value_or 0 s.max_regs;
  is_closure = value_or false s.closure;
  fully_proven =
      not clash
      && (has_stack
          && (has_optional && (has_max && (slot_proven result && all_proven parameters))));
  conflicting = clash;
}
  where
    has_stack : Bool
    has_stack = seen s.stack_cc && not s.conflicting

    has_optional : Bool
    has_optional = seen s.optional && not s.conflicting

    has_max : Bool
    has_max = seen s.max_regs && not s.conflicting

    clash : Bool
    clash = s.conflicting || (any_conflicting parameters || is_conflicting result.proof)

-- `ResolveFunctionAbiEvidence`
unfoldable pub resolve_function : List FunctionEvidence → ℕ → FunctionResolution
unfolding finish scan observe observe_closure observe_optional observe_stack observe_max_regs
    observe_overrides clashes first_seen bool_eq resolve_parameters slot_evidence result_evidence
resolve_function ps count =
    finish (resolve_parameters 0 count ps) (resolve_slot (result_evidence ps))
      (scan nothing_seen ps)
