-- ===== src/Abi/Evidence/Agreement.antt =====
-- What a fully proven function says of its providers.
use dart_plant.Prelude.{ℕ, ◌≡◌, refl, true, false, some, List, [], ◌∷◌, arith}
use dart_plant.Abi.Evidence.{
  FunctionEvidence, FunctionResolution, Scan, nothing_seen, observe, observe_closure,
  observe_optional, observe_stack, observe_max_regs, observe_overrides, clashes, first_seen,
  bool_eq, scan, finish, resolve_function, all_proven, slot_proven, value_or,
}

-- The loop has taken over what a provider says.
record Heard (p : FunctionEvidence) (s : Scan) : Type 0 where
  stack :
      p.has_stack_calling_convention ≡ true → s.stack_cc ≡ some p.must_use_stack_calling_convention
  optional : p.has_optional_parameter_info ≡ true → s.optional ≡ some p.has_optional_parameters
  max_regs :
      p.has_max_parameters_in_registers ≡ true → s.max_regs ≡ some p.max_parameters_in_registers
  closure : s.closure ≡ some p.is_closure

observe-conflicting :
    (p : FunctionEvidence) (s : Scan) → (observe p s).conflicting ≡ false → s.conflicting ≡ false
unfolding observe observe_closure observe_optional observe_stack observe_max_regs observe_overrides
observe-conflicting p s h = ground arith

observe-Heard :
    (p : FunctionEvidence) (s : Scan) → (observe p s).conflicting ≡ false → Heard p (observe p s)
unfolding observe observe_closure observe_optional observe_stack observe_max_regs observe_overrides
    clashes first_seen bool_eq
observe-Heard p s h = record {
  stack = ground arith;
  optional = ground arith;
  max_regs = ground arith;
  closure = ground arith;
}

keeps-Heard : (p q : FunctionEvidence) (s : Scan) → Heard p s → Heard p (observe q s)
unfolding observe observe_closure observe_optional observe_stack observe_max_regs observe_overrides
    first_seen
keeps-Heard p q s h = record {
  stack = ground arith;
  optional = ground arith;
  max_regs = ground arith;
  closure = ground arith;
}

scan-conflicting :
    (s : Scan) (ps : List FunctionEvidence)
    → (scan s ps).conflicting ≡ false
    → s.conflicting ≡ false
unfolding scan
scan-conflicting s [] h = h
scan-conflicting s (p ∷ ps) h = observe-conflicting p s (scan-conflicting (observe p s) ps h)

scan-Heard :
    (p : FunctionEvidence) (s : Scan) (ps : List FunctionEvidence) → Heard p s → Heard p (scan s ps)
unfolding scan
scan-Heard p s [] h = h
scan-Heard p s (q ∷ ps) h = scan-Heard p (observe q s) ps (keeps-Heard p q s h)

-- Every provider says the same as the resolution, on each fact that it has.
abbrev pub Consistent : FunctionResolution → List FunctionEvidence → Type 0
Consistent r [] = Unit
Consistent r (p ∷ ps) =
    ((p.has_stack_calling_convention ≡ true
        → r.must_use_stack_calling_convention ≡ p.must_use_stack_calling_convention)
      × (p.has_optional_parameter_info ≡ true
          → r.has_optional_parameters ≡ p.has_optional_parameters)
      × (p.has_max_parameters_in_registers ≡ true
          → r.max_parameters_in_registers ≡ p.max_parameters_in_registers)
      × (r.is_closure ≡ p.is_closure))
    × Consistent r ps

-- What the resolution says of the facts beside the slots.
record Tells (s : Scan) (r : FunctionResolution) : Type 0 where
  stack : r.must_use_stack_calling_convention ≡ value_or false s.stack_cc
  optional : r.has_optional_parameters ≡ value_or false s.optional
  max_regs : r.max_parameters_in_registers ≡ value_or 0 s.max_regs
  closure : r.is_closure ≡ value_or false s.closure

told :
    (p : FunctionEvidence) (s : Scan) (r : FunctionResolution)
    → Tells s r
    → Heard p s
    → (p.has_stack_calling_convention ≡ true
        → r.must_use_stack_calling_convention ≡ p.must_use_stack_calling_convention)
      × (p.has_optional_parameter_info ≡ true
          → r.has_optional_parameters ≡ p.has_optional_parameters)
      × (p.has_max_parameters_in_registers ≡ true
          → r.max_parameters_in_registers ≡ p.max_parameters_in_registers)
      × (r.is_closure ≡ p.is_closure)
told p s r t h = (ground arith, ground arith, ground arith, ground arith)

scan-Consistent :
    (s : Scan) (ps : List FunctionEvidence) (r : FunctionResolution)
    → (scan s ps).conflicting ≡ false
    → Tells (scan s ps) r
    → Consistent r ps
unfolding scan
scan-Consistent s [] r h t = tt
scan-Consistent s (p ∷ ps) r h t = (
  told p (scan s (p ∷ ps)) r t
      (scan-Heard p (observe p s) ps (observe-Heard p s (scan-conflicting (observe p s) ps h))),
  scan-Consistent (observe p s) ps r h t,
)

-- A resolution that counts as fully proven has no conflict, every slot of it is proven, the facts
-- that the call layout needs are known, and every provider that states such a fact, or whether the
-- function is a closure, states the resolution's value.
pub fully_proven-Consistent :
    (ps : List FunctionEvidence) (count : ℕ)
    → (resolve_function ps count).fully_proven ≡ true
    → let r = resolve_function ps count in
      (r.conflicting ≡ false)
      × (slot_proven r.result ≡ true)
      × (all_proven r.parameters ≡ true)
      × (r.has_stack_calling_convention ≡ true)
      × (r.has_optional_parameter_info ≡ true)
      × (r.has_max_parameters_in_registers ≡ true)
      × Consistent r ps
unfolding finish resolve_function
fully_proven-Consistent ps count h = (
  ground arith,
  ground arith,
  ground arith,
  ground arith,
  ground arith,
  ground arith,
  scan-Consistent nothing_seen ps (resolve_function ps count) (ground arith)
      (record { stack = refl; optional = refl; max_regs = refl; closure = refl }),
)
