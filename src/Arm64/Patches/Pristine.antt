-- ===== src/Arm64/Patches/Pristine.antt =====
-- The code as it is without the patches of a payload (src/interceptor/arm64_bridge.cpp).
use dart_plant.Prelude.{
  ℕ, ◌==◌, ◌≡◌, refl, ◌∙◌, subst, if◌then◌else◌, Bool, true, false, not, ◌&&◌, Option, none, some,
  List, [], ◌∷◌, ◌++◌, map, Bool-cases, inl, inr, arith,
}
use dart_plant.Arm64.Flow.Sites.{Patch, lists}
use dart_plant.Arm64.Patches.{Code, store, change_patch, increment}
use dart_plant.Arm64.Patches.Install.{held_once, add_consumers, reversed}

-- The original instruction of the first patch at the address
unfoldable pub original_at : ℕ → List Patch → Option ℕ
original_at at [] = none
original_at at (patch ∷ rest) =
    if patch.address == at then some patch.original_instruction else original_at at rest

-- Memory with the original instruction at each of the patches
unfoldable pub unpatched : (ℕ → ℕ) → List Patch → ℕ → ℕ
unfolding original_at
unpatched memory patches at = elim (original_at at patches) [ none ↦ memory at | some word ↦ word ]

-- The word that the code has at the address when the payload's patches are taken away
abbrev pub pristine_word : Code → ℕ → ℕ
pristine_word code at = unpatched code.machine.memory code.payload.return_patches at

-- Whether no two of the patches are at the same address.
unfoldable pub are_apart : List Patch → Bool
unfolding lists
are_apart [] = true
are_apart (patch ∷ rest) = not (lists patch.address rest) && are_apart rest

abbrev pub or_else : Option ℕ → Option ℕ → Option ℕ
or_else none other = other
or_else (some word) other = some word

pub lists-original_at :
    (at : ℕ) (patches : List Patch) → lists at patches ≡ false → original_at at patches ≡ none
unfolding lists original_at
lists-original_at at [] e = refl
lists-original_at at (p ∷ ps) e = ground (arith, e, lists-original_at at ps)

pub original_at-append :
    (at : ℕ) (xs ys : List Patch)
    → original_at at (xs ++ ys) ≡ or_else (original_at at xs) (original_at at ys)
unfolding original_at
original_at-append at [] ys = refl
original_at-append at (x ∷ xs) ys = ground (arith, original_at-append at xs ys)

pub original_at-held_once :
    (at : ℕ) (xs : List Patch) → original_at at (map held_once xs) ≡ original_at at xs
unfolding original_at
original_at-held_once at [] = refl
original_at-held_once at (x ∷ xs) = ground (arith, original_at-held_once at xs)

original_at-change_patch :
    (change : Patch → Patch) (a at : ℕ) (xs : List Patch)
    → ((p : Patch) → (change p).address ≡ p.address)
    → ((p : Patch) → (change p).original_instruction ≡ p.original_instruction)
    → original_at at (change_patch change a xs) ≡ original_at at xs
unfolding original_at change_patch
original_at-change_patch change a at [] f g = refl
original_at-change_patch change a at (x ∷ xs) f g =
    ground (arith, original_at-change_patch change a at xs f g, f x, g x)

pub original_at-add_consumers :
    (at : ℕ) (sites : List ℕ) (xs : List Patch)
    → original_at at (add_consumers sites xs) ≡ original_at at xs
unfolding add_consumers
original_at-add_consumers at [] xs = refl
original_at-add_consumers at (s ∷ sites) xs =
    original_at-add_consumers at sites
      (change_patch (λ patch. record patch { consumers = increment patch.consumers }) s xs)
    ∙ original_at-change_patch (λ patch. record patch { consumers = increment patch.consumers }) s
        at xs (λ p. refl) (λ p. refl)

pub original_at-reversed :
    (at : ℕ) (xs done : List Patch)
    → are_apart xs ≡ true
    → original_at at (reversed xs done) ≡ or_else (original_at at xs) (original_at at done)
unfolding original_at are_apart
original_at-reversed at [] done e = refl
original_at-reversed at (x ∷ xs) done e =
    let ih = original_at-reversed at xs (x ∷ done) (ground (arith, e)) in
    elim (Bool-cases (x.address == at)) [
      | inl here ↦
          let same : x.address ≡ at = ground (arith, here) in
          let none_left =
            lists-original_at at xs (subst (λ a. lists a xs ≡ false) same (ground (arith, e))) in
          ground (arith, ih, here, none_left)
      | inr other ↦ ground (arith, ih, other)
    ]

-- A patch put at an address that held its original changes nothing of the pristine code.
pub unpatched-store :
    (memory : ℕ → ℕ) (newly : List Patch) (p : Patch) (word at : ℕ)
    → memory p.address ≡ p.original_instruction
    → lists p.address newly ≡ false
    → unpatched (store memory p.address word) (p ∷ newly) at ≡ unpatched memory newly at
unfolding unpatched original_at
unpatched-store memory newly p word at e fresh = elim (Bool-cases (p.address == at)) [
  | inl here ↦
      let same : p.address ≡ at = ground (arith, here) in
      let none_there = lists-original_at at newly (subst (λ a. lists a newly ≡ false) same fresh) in
      let there : memory at ≡ p.original_instruction =
        subst (λ a. memory a ≡ p.original_instruction) same e in
      ground (arith, here, none_there, there)
  | inr other ↦
      let apart : (at == p.address) ≡ false = ground (arith, other) in ground (arith, other, apart)
]

-- Every patch's branch stands in memory.
unfoldable pub AreWritten : (ℕ → ℕ) → List Patch → Type 0
AreWritten memory [] = Unit {0}
AreWritten memory (p ∷ ps) = (memory p.address ≡ p.patched_instruction) × AreWritten memory ps

pub AreWritten-store :
    (memory : ℕ → ℕ) (address word : ℕ) (ps : List Patch)
    → lists address ps ≡ false
    → AreWritten memory ps
    → AreWritten (store memory address word) ps
unfolding AreWritten lists
AreWritten-store memory address word [] e w = tt
AreWritten-store memory address word (p ∷ ps) e (here, rest) =
    let apart : (p.address == address) ≡ false = ground (arith, e) in
    (rw apart here, AreWritten-store memory address word ps (ground (arith, e)) rest)
