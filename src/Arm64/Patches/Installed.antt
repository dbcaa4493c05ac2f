-- ===== src/Arm64/Patches/Installed.antt =====
-- What the loop of an installation keeps of the code (src/interceptor/arm64_bridge.cpp,
-- `InstallArm64ReturnInterception`).
use dart_plant.Prelude.{
  ℕ, ◌==◌, ◌≡◌, refl, sym, ◌∙◌, ap, subst, Bool, true, false, not, ◌&&◌, List, [], ◌∷◌, Bool-cases,
  Option-cases, inl, inr, arith,
}
use dart_plant.Arm64.Decode.{encode_direct_branch}
use dart_plant.Arm64.Flow.Sites.{Patch, lists}
use dart_plant.Arm64.Patches.{
  WriteAnswers, Machine, Payload, store, write_instruction, find_patch, retain_published,
}
use dart_plant.Arm64.Patches.Install.{
  Acquisition, acquired, gave_up, Progress, is_managed, installed_patch, acquire_sites,
}
use dart_plant.Arm64.Patches.Pristine.{
  unpatched, are_apart, unpatched-store, AreWritten, AreWritten-store,
}
use dart_plant.Arm64.Patches.Restored.{write_instruction-store}

abbrev pub newly_of : Acquisition → List Patch
newly_of (acquired newly consumed sites) = newly
newly_of (gave_up newly) = newly

-- What the loop over the candidates leaves, from a machine and the new patches so far.
pub record Acquired (memory : ℕ → ℕ) (payload : Payload) (newly : List Patch) (p : Progress)
    : Type 0 where
  pub patches : p.payload.return_patches ≡ payload.return_patches
  pub written : AreWritten p.machine.memory (newly_of p.acquisition)
  pub apart : are_apart (newly_of p.acquisition) ≡ true
  pub kept :
      (at : ℕ) → unpatched p.machine.memory (newly_of p.acquisition) at ≡ unpatched memory newly at

-- None of the candidates stands at the address of another or of a new patch.
unfoldable pub are_new : List Patch → List Patch → Bool
are_new [] newly = true
are_new (c ∷ cs) newly =
    not (lists c.address newly) && (not (lists c.address cs) && are_new cs newly)

are_new-more :
    (cs newly : List Patch) (p : Patch)
    → are_new cs newly ≡ true
    → lists p.address cs ≡ false
    → are_new cs (p ∷ newly) ≡ true
unfolding are_new lists
are_new-more [] newly p e f = refl
are_new-more (c ∷ cs) newly p e f =
    let ih = are_new-more cs newly p (ground (arith, e)) (ground (arith, f)) in
    let other : (p.address == c.address) ≡ false = ground (arith, f) in ground (arith, e, ih, other)

retain_published-patches :
    (can_retain : Bool) (payload : Payload)
    → (retain_published can_retain payload).0.return_patches ≡ payload.return_patches
unfolding retain_published
retain_published-patches can_retain payload = ground arith

new_apart :
    (c : Patch) (branch : ℕ) (newly : List Patch)
    → lists c.address newly ≡ false
    → are_apart newly ≡ true
    → are_apart (installed_patch c branch ∷ newly) ≡ true
unfolding are_apart
new_apart c branch newly f e = ground (arith, f, e)

new_written :
    (memory : ℕ → ℕ) (c : Patch) (branch : ℕ) (newly : List Patch)
    → lists c.address newly ≡ false
    → AreWritten memory newly
    → AreWritten (store memory c.address branch) (installed_patch c branch ∷ newly)
unfolding AreWritten
new_written memory c branch newly f w =
    let here : (c.address == c.address) ≡ true = ground arith in
    (rw here refl, AreWritten-store memory c.address branch newly f w)

widen :
    (memory memory' : ℕ → ℕ) (payload kept : Payload) (c : Patch) (branch : ℕ) (newly : List Patch)
    (p : Progress)
    → memory' ≡ store memory c.address branch
    → kept.return_patches ≡ payload.return_patches
    → memory c.address ≡ c.original_instruction
    → lists c.address newly ≡ false
    → Acquired memory' kept (installed_patch c branch ∷ newly) p
    → Acquired memory payload newly p
widen memory memory' payload kept c branch newly p stored same original fresh acq = record {
  patches = acq.patches ∙ same;
  written = acq.written;
  apart = acq.apart;
  kept = λ at.
      acq.kept at
      ∙ (ap (λ f. unpatched f (installed_patch c branch ∷ newly) at) stored
          ∙ unpatched-store memory newly (installed_patch c branch) branch at original fresh);
}

module _ (answers : WriteAnswers)
    (atomic : (n : ℕ) → (answers n).0 ≡ true → (answers n).1 ≡ true) where
  -- A write that fails has stored nothing.
  pub failed_write :
      (machine : Machine) (address word : ℕ)
      → (write_instruction answers machine address word).1 ≡ false
      → (write_instruction answers machine address word).0.memory ≡ machine.memory
  unfolding write_instruction
  failed_write machine address word e = elim (Bool-cases ((answers machine.writes).0)) [
    | inl opens ↦ absurd (ground (arith, e, opens, atomic machine.writes opens))
    | inr stuck ↦ rw stuck refl
  ]

  stays :
      (machine machine' : Machine) (payload payload' : Payload) (newly : List Patch)
      (consumed sites : List ℕ) (a : Acquisition)
      → newly_of a ≡ newly
      → machine'.memory ≡ machine.memory
      → payload'.return_patches ≡ payload.return_patches
      → AreWritten machine.memory newly
      → are_apart newly ≡ true
      → Acquired machine.memory payload newly
          (record { machine = machine'; payload = payload'; acquisition = a })
  stays machine machine' payload payload' newly consumed sites a n m p w e = record {
    patches = p;
    written =
        subst (λ f. AreWritten f (newly_of a)) (sym m)
          (subst (λ ps. AreWritten machine.memory ps) (sym n) w);
    apart = subst (λ ps. are_apart ps ≡ true) (sym n) e;
    kept =
        λ at. ap (λ f. unpatched f (newly_of a) at) m ∙ ap (λ ps. unpatched machine.memory ps at) n;
  }

  pub acquire_sites-Acquired :
      (can_retain : Bool) (machine : Machine) (payload : Payload) (cs newly : List Patch)
      (consumed sites : List ℕ)
      → are_new cs newly ≡ true
      → are_apart newly ≡ true
      → AreWritten machine.memory newly
      → Acquired machine.memory payload newly
          (acquire_sites answers can_retain machine payload cs newly consumed sites)
  unfolding acquire_sites are_new
  acquire_sites-Acquired can_retain machine payload [] newly consumed sites fresh e w =
      stays machine machine payload payload newly consumed sites (acquired newly consumed sites)
        refl refl refl w e
  acquire_sites-Acquired can_retain machine payload (c ∷ cs) newly consumed sites fresh e w =
      let quit =
        stays machine machine payload payload newly consumed sites (gave_up newly) refl refl refl w
          e in
      elim (Option-cases (find_patch c.address payload.return_patches)) [
        | inr (existing, found) ↦ elim (Bool-cases (is_managed machine c existing)) [
          | inr foreign ↦ rw (found, foreign, acquire_sites) quit
          | inl ours ↦
              rw (found, ours, acquire_sites)
                (acquire_sites-Acquired can_retain machine payload cs newly (c.address ∷ consumed)
                  (c.address ∷ sites) (ground (arith, fresh)) e w)
        ]
        | inl absent ↦ elim (Bool-cases (machine.memory c.address == c.original_instruction)) [
          | inr foreign ↦ rw (absent, foreign, acquire_sites) quit
          | inl original ↦
              elim (Option-cases (encode_direct_branch c.address payload.return_entry)) [
                | inl far ↦ rw (absent, original, far, acquire_sites) quit
                | inr (branch, near) ↦
                    let kept = (retain_published can_retain payload).0 in
                    let same = retain_published-patches can_retain payload in
                    let write = write_instruction answers machine c.address branch in
                    elim (Bool-cases ((retain_published can_retain payload).1)) [
                      | inr lost ↦
                          rw (absent, original, near, lost, acquire_sites)
                            (stays machine machine payload kept newly consumed sites (gave_up newly)
                              refl refl same w e)
                      | inl retained ↦ elim (Bool-cases write.1) [
                        | inr failed ↦
                            rw (absent, original, near, retained, failed, acquire_sites)
                              (stays machine write.0 payload kept newly consumed sites
                                (gave_up newly) refl (failed_write machine c.address branch failed)
                                same w e)
                        | inl done ↦
                            let stored =
                              write_instruction-store answers machine c.address branch done in
                            let new = installed_patch c branch in
                            let ih =
                              acquire_sites-Acquired can_retain write.0 kept cs (new ∷ newly)
                                consumed (c.address ∷ sites)
                                (are_new-more cs newly new (ground (arith, fresh))
                                  (ground (arith, fresh)))
                                (new_apart c branch newly (ground (arith, fresh)) e)
                                (subst (λ f. AreWritten f (new ∷ newly)) (sym stored)
                                  (new_written machine.memory c branch newly (ground (arith, fresh))
                                    w)) in
                            rw (absent, original, near, retained, done, acquire_sites)
                              (widen machine.memory write.0.memory payload kept c branch newly
                                (acquire_sites answers can_retain write.0 kept cs (new ∷ newly)
                                  consumed (c.address ∷ sites))
                                stored same (ground (arith, original)) (ground (arith, fresh)) ih)
                      ]
                    ]
              ]
        ]
      ]
