-- ===== src/Arm64/Patches/Kept.antt =====
-- An installation keeps the pristine code (src/interceptor/arm64_bridge.cpp,
-- `InstallArm64ReturnInterception` and its rollback).
use dart_plant.Prelude.{
  ℕ, ◌-◌, ◌==◌, ◌≡◌, ◌≤◌, refl, ◌∙◌, ap, subst, ltb, true, false, ◌||◌, List, [], ◌∷◌, ◌++◌, map,
  take, drop, Bool-cases, inl, inr, arith,
}
use dart_plant.Arm64.Flow.{Outcome, out_of_fuel, refused, collected, collect_reachable_returns}
use dart_plant.Arm64.Flow.Sites.{Patch, lists, ascends, ascends_above}
use dart_plant.Arm64.Patches.{
  WriteAnswers, Machine, Payload, Owner, Code, destroy_unpublished, destroy_unused, increment,
}
use dart_plant.Arm64.Patches.Install.{
  roll_back, keep_residual, Acquisition, acquired, gave_up, acquire_sites, conclude, held_once,
  reversed, add_consumers, Request, install_returns, install_found, is_bad_code_range,
}
use dart_plant.Arm64.Patches.Pristine.{
  original_at, unpatched, pristine_word, are_apart, original_at-held_once,
  original_at-add_consumers, original_at-reversed, AreWritten,
}
use dart_plant.Arm64.Patches.Installed.{Acquired, are_new, acquire_sites-Acquired}
use dart_plant.Arm64.Patches.RollBack.{
  unpatched_nil, or_else_nothing, unpatched-append, roll_back-unpatched,
}
use dart_plant.Arm64.Flow.Exact.{Answers, collect_reachable_returns-Answers}
use dart_plant.Arm64.Patches.Install.{with_entry}

destroy_unused-return_patches :
    (payload : Payload) → (destroy_unused payload).return_patches ≡ payload.return_patches
unfolding destroy_unused destroy_unpublished
destroy_unused-return_patches payload = ground arith

keep_residual_empty :
    (payload : Payload) (owner : Owner)
    → (keep_residual payload owner []).0.return_patches ≡ payload.return_patches
unfolding keep_residual
keep_residual_empty payload owner = destroy_unused-return_patches payload

keep_residual_more :
    (payload : Payload) (owner : Owner) (p : Patch) (ps : List Patch)
    → (keep_residual payload owner (p ∷ ps)).0.return_patches
      ≡ payload.return_patches ++ map held_once (p ∷ ps)
unfolding keep_residual
keep_residual_more payload owner p ps = destroy_unused-return_patches (record payload {
  return_patches = payload.return_patches ++ map held_once (p ∷ ps);
  return_interception_consumers = increment payload.return_interception_consumers;
})

-- The residual patches of a rollback, behind those that were there.
keep_residual-unpatched :
    (memory memory' : ℕ → ℕ) (payload : Payload) (owner : Owner) (residual : List Patch) (at : ℕ)
    → unpatched memory residual at ≡ memory' at
    → unpatched memory (keep_residual payload owner residual).0.return_patches at
      ≡ unpatched memory' payload.return_patches at
unfolding unpatched original_at
keep_residual-unpatched memory memory' payload owner [] at e =
    ap (λ ps. unpatched memory ps at) (keep_residual_empty payload owner) ∙ ground (arith, e)
keep_residual-unpatched memory memory' payload owner (p ∷ ps) at e =
    let held : unpatched memory (map held_once (p ∷ ps)) at ≡ memory' at =
      ground (arith, e, original_at-held_once at (p ∷ ps)) in
    ap (λ qs. unpatched memory qs at) (keep_residual_more payload owner p ps)
    ∙ unpatched-append memory memory' payload.return_patches (map held_once (p ∷ ps)) at held

add_consumers-unpatched :
    (memory : ℕ → ℕ) (sites : List ℕ) (ps : List Patch) (at : ℕ)
    → unpatched memory (add_consumers sites ps) at ≡ unpatched memory ps at
unfolding unpatched
add_consumers-unpatched memory sites ps at = ground (arith, original_at-add_consumers at sites ps)

reversed-unpatched :
    (memory : ℕ → ℕ) (newly : List Patch) (at : ℕ)
    → are_apart newly ≡ true
    → unpatched memory (reversed newly []) at ≡ unpatched memory newly at
unfolding unpatched original_at
reversed-unpatched memory newly at e =
    ground (arith, original_at-reversed at newly [] e, or_else_nothing (original_at at newly))

-- The end of the installation, after the loop, whether it succeeded or gave up.
conclude-pristine_word :
    (answers : WriteAnswers) (owner : Owner) (memory : ℕ → ℕ) (payload : Payload)
    (machine : Machine) (after : Payload) (a : Acquisition) (at : ℕ)
    → ((n : ℕ) → (answers n).0 ≡ true → (answers n).1 ≡ true)
    → Acquired memory payload [] (record { machine = machine; payload = after; acquisition = a })
    → pristine_word
        (conclude answers owner (record { machine = machine; payload = after; acquisition = a })).0
        at
      ≡ unpatched memory payload.return_patches at
unfolding conclude
conclude-pristine_word answers owner memory payload machine after (acquired newly consumed sites) at
      atomic acq =
    let same =
      reversed-unpatched machine.memory newly at acq.apart
      ∙ (acq.kept at ∙ unpatched_nil memory at) in
    unpatched-append machine.memory memory
      (add_consumers (reversed consumed []) after.return_patches) (reversed newly []) at same
    ∙ (add_consumers-unpatched memory (reversed consumed []) after.return_patches at
        ∙ ap (λ ps. unpatched memory ps at) acq.patches)
conclude-pristine_word answers owner memory payload machine after (gave_up newly) at atomic acq =
    let back = roll_back-unpatched answers atomic machine newly at acq.written acq.apart in
    let (left, residual) = roll_back answers machine newly in
    keep_residual-unpatched left.memory memory after owner residual at
      (back ∙ (acq.kept at ∙ unpatched_nil memory at))
    ∙ ap (λ ps. unpatched memory ps at) acq.patches

ascends_above-lists :
    (bound a : ℕ) (ps : List Patch) → ascends_above bound ps ≡ true → a ≤ bound → lists a ps ≡ false
unfolding ascends_above lists
ascends_above-lists bound a [] e low = refl
ascends_above-lists bound a (p ∷ ps) e low =
    let rest = ascends_above-lists p.address a ps (ground (arith, e)) (ground (arith, e, low)) in
    ground (arith, e, low, rest)

ascends_above-are_new :
    (bound : ℕ) (ps : List Patch) → ascends_above bound ps ≡ true → are_new ps [] ≡ true
unfolding ascends_above are_new lists
ascends_above-are_new bound [] e = refl
ascends_above-are_new bound (p ∷ ps) e =
    let apart = ascends_above-lists p.address p.address ps (ground (arith, e)) (omega arith) in
    let rest = ascends_above-are_new p.address ps (ground (arith, e)) in ground (arith, apart, rest)

ascends-are_new : (ps : List Patch) → ascends ps ≡ true → are_new ps [] ≡ true
unfolding ascends are_new lists
ascends-are_new [] e = refl
ascends-are_new (p ∷ ps) e =
    let apart = ascends_above-lists p.address p.address ps (ground (arith, e)) (omega arith) in
    let rest = ascends_above-are_new p.address ps (ground (arith, e)) in ground (arith, apart, rest)

collected-are_new :
    (bytes : List ℕ) (start : ℕ) (cs : List Patch)
    → collect_reachable_returns bytes start ≡ collected cs
    → are_new cs [] ≡ true
collected-are_new bytes start cs e =
    let (fine, free, (ascending, fresh, exact)) =
      subst (λ o. Answers bytes start o) e (collect_reachable_returns-Answers bytes start) in
    ascends-are_new cs ascending

with_entry-return_patches :
    (payload : Payload) (stub : ℕ)
    → (with_entry payload stub).return_patches ≡ payload.return_patches
with_entry-return_patches payload stub = ground arith

destroy_unused-unpatched :
    (memory : ℕ → ℕ) (payload : Payload) (stub at : ℕ)
    → unpatched memory (destroy_unused (with_entry payload stub)).return_patches at
      ≡ unpatched memory payload.return_patches at
destroy_unused-unpatched memory payload stub at =
    ap (λ ps. unpatched memory ps at)
      (destroy_unused-return_patches (with_entry payload stub)
        ∙ with_entry-return_patches payload stub)

install_found-pristine_word :
    (request : Request) (code : Code) (bytes : List ℕ) (start at : ℕ) (outcome : Outcome)
    → ((n : ℕ) → (request.answers n).0 ≡ true → (request.answers n).1 ≡ true)
    → collect_reachable_returns bytes start ≡ outcome
    → pristine_word (install_found request code (with_entry code.payload request.stub) outcome).0 at
      ≡ pristine_word code at
unfolding install_found AreWritten are_apart
install_found-pristine_word request code bytes start at out_of_fuel atomic e =
    destroy_unused-unpatched code.machine.memory code.payload request.stub at
install_found-pristine_word request code bytes start at refused atomic e =
    destroy_unused-unpatched code.machine.memory code.payload request.stub at
install_found-pristine_word request code bytes start at (collected cs) atomic e =
    elim (Bool-cases request.can_reserve) [
      | inr full ↦
          rw (full, install_found)
            (destroy_unused-unpatched code.machine.memory code.payload request.stub at)
      | inl room ↦
          let payload = with_entry code.payload request.stub in
          let p =
            acquire_sites request.answers request.can_retain code.machine payload cs [] [] [] in
          let acq =
            acquire_sites-Acquired request.answers atomic request.can_retain code.machine payload cs
              [] [] [] (collected-are_new bytes start cs e) refl tt in
          let done =
            conclude-pristine_word request.answers code.owner code.machine.memory payload p.machine
              p.payload p.acquisition at atomic acq in
          rw (room, install_found)
            (done
              ∙ ap (λ ps. unpatched code.machine.memory ps at)
                  (with_entry-return_patches code.payload request.stub))
    ]

-- When a memory write that fails has stored nothing, installing return interception keeps the word
-- that the code has at each address when the payload's patches are taken away, whether the
-- installation succeeds, is refused, or gives up and rolls back, and however many writes fail.
pub install_returns-pristine_word :
    (request : Request) (start size : ℕ) (code : Code) (at : ℕ)
    → ((n : ℕ) → (request.answers n).0 ≡ true → (request.answers n).1 ≡ true)
    → pristine_word (install_returns request start size code).0 at ≡ pristine_word code at
unfolding install_returns
install_returns-pristine_word request start size code at atomic =
    let payload = with_entry code.payload request.stub in
    let pristine = take size (drop (start - payload.start) payload.pristine_bytes) in
    elim (Bool-cases (start == 0 || ltb size 4)) [
      | inl small ↦ rw (small, install_returns) refl
      | inr a ↦ elim (Bool-cases (is_bad_code_range code.payload start size)) [
        | inl bad ↦ rw (a, bad, install_returns) refl
        | inr b ↦ elim (Bool-cases (payload.return_entry == 0)) [
          | inl no_stub ↦ rw (a, b, no_stub, install_returns) refl
          | inr c ↦
              rw (a, b, c, install_returns)
                (install_found-pristine_word request code pristine start at
                  (collect_reachable_returns pristine start) atomic refl)
        ]
      ]
    ]
