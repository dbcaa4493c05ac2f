-- ===== src/Arm64/Patches/RollBack.antt =====
-- Rolling new patches back keeps the pristine code (src/interceptor/arm64_bridge.cpp,
-- `rollback_newly_installed`).
use dart_plant.Prelude.{
  ℕ, ◌==◌, ◌≡◌, refl, sym, ◌∙◌, ap, subst, if◌then◌else◌, true, false, Option, none, some, List, [],
  ◌∷◌, ◌++◌, Bool-cases, inl, inr, arith,
}
use dart_plant.Arm64.Flow.Sites.{Patch, lists}
use dart_plant.Arm64.Patches.{WriteAnswers, Machine, store, write_instruction}
use dart_plant.Arm64.Patches.Install.{roll_back}
use dart_plant.Arm64.Patches.Pristine.{
  original_at, unpatched, are_apart, or_else, lists-original_at, original_at-append, AreWritten,
  AreWritten-store,
}
use dart_plant.Arm64.Patches.Installed.{failed_write}
use dart_plant.Arm64.Patches.Restored.{write_instruction-store}

unpatched_cons :
    (memory : ℕ → ℕ) (p : Patch) (ps : List Patch) (at : ℕ)
    → unpatched memory (p ∷ ps) at
      ≡ (if p.address == at then p.original_instruction else unpatched memory ps at)
unfolding unpatched original_at
unpatched_cons memory p ps at = ground arith

unpatched_away :
    (memory : ℕ → ℕ) (ps : List Patch) (at : ℕ)
    → lists at ps ≡ false
    → unpatched memory ps at ≡ memory at
unfolding unpatched
unpatched_away memory ps at e = ground (arith, lists-original_at at ps e)

unpatched-store_away :
    (memory : ℕ → ℕ) (ps : List Patch) (a word at : ℕ)
    → (a == at) ≡ false
    → unpatched (store memory a word) ps at ≡ unpatched memory ps at
unfolding unpatched
unpatched-store_away memory ps a word at e =
    let apart : (at == a) ≡ false = ground (arith, e) in ground (arith, apart)

-- What is left when one patch is rolled back and the older ones too.
one_more :
    (memory memory' : ℕ → ℕ) (p : Patch) (older residual : List Patch) (at : ℕ)
    → lists p.address older ≡ false
    → memory p.address ≡ p.original_instruction
    → unpatched memory' residual at ≡ unpatched memory older at
    → unpatched memory' residual at ≡ unpatched memory (p ∷ older) at
one_more memory memory' p older residual at fresh original ih =
    elim (Bool-cases (p.address == at)) [
      | inl here ↦
          let same : p.address ≡ at = ground (arith, here) in
          let away =
            unpatched_away memory older at (subst (λ a. lists a older ≡ false) same fresh) in
          let there : memory at ≡ p.original_instruction =
            subst (λ a. memory a ≡ p.original_instruction) same original in
          ground (arith, ih, away, there, here, unpatched_cons memory p older at)
      | inr other ↦ ground (arith, ih, other, unpatched_cons memory p older at)
    ]

restored_one :
    (memory : ℕ → ℕ) (p : Patch) (older : List Patch) (at : ℕ)
    → lists p.address older ≡ false
    → unpatched (store memory p.address p.original_instruction) older at
      ≡ unpatched memory (p ∷ older) at
restored_one memory p older at fresh = elim (Bool-cases (p.address == at)) [
  | inl here ↦
      let same : p.address ≡ at = ground (arith, here) in
      let there : (at == p.address) ≡ true = ground (arith, here) in
      let away =
        unpatched_away (store memory p.address p.original_instruction) older at
          (subst (λ a. lists a older ≡ false) same fresh) in
      ground (arith, away, there, here, unpatched_cons memory p older at)
  | inr other ↦
      let away = unpatched-store_away memory older p.address p.original_instruction at other in
      ground (arith, away, other, unpatched_cons memory p older at)
]

same_head :
    (memory memory' : ℕ → ℕ) (p : Patch) (xs ys : List Patch) (at : ℕ)
    → unpatched memory xs at ≡ unpatched memory' ys at
    → unpatched memory (p ∷ xs) at ≡ unpatched memory' (p ∷ ys) at
same_head memory memory' p xs ys at e =
    rw (unpatched_cons memory p xs at, unpatched_cons memory' p ys at, e) refl

pub unpatched_nil : (memory : ℕ → ℕ) (at : ℕ) → unpatched memory [] at ≡ memory at
unfolding unpatched original_at
unpatched_nil memory at = refl

pub or_else_nothing : (o : Option ℕ) → or_else o none ≡ o
or_else_nothing none = refl
or_else_nothing (some w) = refl

-- Patches put behind others show only where the others have none.
pub unpatched-append :
    (memory memory' : ℕ → ℕ) (ps xs : List Patch) (at : ℕ)
    → unpatched memory xs at ≡ memory' at
    → unpatched memory (ps ++ xs) at ≡ unpatched memory' ps at
unfolding unpatched
unpatched-append memory memory' ps xs at e = ground (arith, e, original_at-append at ps xs)

module _ (answers : WriteAnswers)
    (atomic : (n : ℕ) → (answers n).0 ≡ true → (answers n).1 ≡ true) where
  pub roll_back-unpatched :
      (machine : Machine) (ps : List Patch) (at : ℕ)
      → AreWritten machine.memory ps
      → are_apart ps ≡ true
      → unpatched (roll_back answers machine ps).0.memory (roll_back answers machine ps).1 at
        ≡ unpatched machine.memory ps at
  unfolding roll_back AreWritten are_apart
  roll_back-unpatched machine [] at w e = refl
  roll_back-unpatched machine (p ∷ older) at (here, w) e =
      let fresh : lists p.address older ≡ false = ground (arith, e) in
      let rest : are_apart older ≡ true = ground (arith, e) in
      let write = write_instruction answers machine p.address p.original_instruction in
      let patched : (machine.memory p.address == p.patched_instruction) ≡ true =
        ground (arith, here) in
      elim (Bool-cases (machine.memory p.address == p.original_instruction)) [
        | inl original ↦
            rw (original, roll_back)
              (one_more machine.memory _ p older _ at fresh (ground (arith, original))
                (roll_back-unpatched machine older at w rest))
        | inr changed ↦ elim (Bool-cases write.1) [
          | inl done ↦
              let stored =
                write_instruction-store answers machine p.address p.original_instruction done in
              let w' =
                subst (λ f. AreWritten f older) (sym stored)
                  (AreWritten-store machine.memory p.address p.original_instruction older fresh
                    w) in
              let ih = roll_back-unpatched write.0 older at w' rest in
              rw (changed, patched, done, roll_back)
                (ih
                  ∙ (ap (λ f. unpatched f older at) stored
                      ∙ restored_one machine.memory p older at fresh))
          | inr failed ↦
              let kept =
                failed_write answers atomic machine p.address p.original_instruction failed in
              let still : (write.0.memory p.address == p.patched_instruction) ≡ true =
                subst (λ f. (f p.address == p.patched_instruction) ≡ true) (sym kept) patched in
              let w' = subst (λ f. AreWritten f older) (sym kept) w in
              let ih = roll_back-unpatched write.0 older at w' rest in
              rw (changed, patched, failed, still, roll_back)
                (same_head _ machine.memory p _ older at (ih ∙ ap (λ f. unpatched f older at) kept))
        ]
      ]
