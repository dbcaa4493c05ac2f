-- ===== src/Arm64/Flow/Sites.antt =====
-- Return patches and their order (`Arm64ReturnPatch` of src/core/method_model.h, and the end of
-- `CollectReachableArm64Returns` in src/interceptor/arm64_bridge.cpp). No two patches that the walk
-- adds have the same address, so any sort gives the result of `std::sort`.
use dart_plant.Prelude.{
  ℕ, ◌≤◌, ◌≡◌, refl, ltb, leb, ◌==◌, if◌then◌else◌, Bool, true, false, ◌||◌, ◌&&◌, List, [], ◌∷◌,
  ◌++◌, arith, Bool-cases, inl, inr, subst, ◌∙◌,
}
use dart_plant.Arm64.Decode.{ret}

pub record Patch : Type 0 where
  pub address : ℕ
  pub original_instruction : ℕ
  pub patched_instruction : ℕ
  pub consumers : ℕ

unfoldable pub insert_by_address : Patch → List Patch → List Patch
insert_by_address patch [] = patch ∷ []
insert_by_address patch (first ∷ rest) =
    if ltb patch.address first.address
    then patch ∷ first ∷ rest
    else first ∷ insert_by_address patch rest

-- `std::sort` by address
unfoldable pub sorted_by_address : List Patch → List Patch
unfolding insert_by_address
sorted_by_address [] = []
sorted_by_address (patch ∷ rest) = insert_by_address patch (sorted_by_address rest)

-- What `std::unique` keeps after a kept patch at `address`.
unfoldable pub unique_after : ℕ → List Patch → List Patch
unique_after address [] = []
unique_after address (patch ∷ rest) =
    if patch.address == address
    then unique_after address rest
    else patch ∷ unique_after patch.address rest

-- `std::unique` by address, with `erase`
unfoldable pub unique_by_address : List Patch → List Patch
unfolding unique_after
unique_by_address [] = []
unique_by_address (patch ∷ rest) = patch ∷ unique_after patch.address rest

-- Whether some patch is at `address`.
unfoldable pub lists : ℕ → List Patch → Bool
lists address [] = false
lists address (patch ∷ rest) = patch.address == address || lists address rest

-- Whether the addresses ascend strictly from above `bound` on.
unfoldable pub ascends_above : ℕ → List Patch → Bool
ascends_above bound [] = true
ascends_above bound (patch ∷ rest) = ltb bound patch.address && ascends_above patch.address rest

-- Whether the addresses ascend strictly.
unfoldable pub ascends : List Patch → Bool
unfolding ascends_above
ascends [] = true
ascends (patch ∷ rest) = ascends_above patch.address rest

-- Whether the addresses are `bound` or more and never descend.
unfoldable pub is_sorted_from : ℕ → List Patch → Bool
is_sorted_from bound [] = true
is_sorted_from bound (patch ∷ rest) = leb bound patch.address && is_sorted_from patch.address rest

pub is_sorted_from-insert_by_address :
    (bound : ℕ) (patch : Patch) (patches : List Patch)
    → bound ≤ patch.address
    → is_sorted_from bound patches ≡ true
    → is_sorted_from bound (insert_by_address patch patches) ≡ true
unfolding is_sorted_from insert_by_address
is_sorted_from-insert_by_address bound patch [] low s = ground arith
is_sorted_from-insert_by_address bound patch (first ∷ rest) low s =
    elim (Bool-cases (ltb patch.address first.address)) [
      | inl less ↦ ground arith
      | inr more ↦
          let below : first.address ≤ patch.address = ground arith in
          let tail : is_sorted_from first.address rest ≡ true = ground arith in
          let rec = is_sorted_from-insert_by_address first.address patch rest below tail in
          rw more (ground (arith, rec))
    ]

pub is_sorted_from-sorted_by_address :
    (patches : List Patch) → is_sorted_from 0 (sorted_by_address patches) ≡ true
unfolding sorted_by_address is_sorted_from
is_sorted_from-sorted_by_address [] = refl
is_sorted_from-sorted_by_address (patch ∷ rest) =
    is_sorted_from-insert_by_address 0 patch (sorted_by_address rest) (omega arith)
      (is_sorted_from-sorted_by_address rest)

lists-insert_by_address :
    (a : ℕ) (patch : Patch) (patches : List Patch)
    → lists a (insert_by_address patch patches) ≡ (patch.address == a || lists a patches)
unfolding lists insert_by_address
lists-insert_by_address a patch [] = refl
lists-insert_by_address a patch (first ∷ rest) =
    ground (arith, lists-insert_by_address a patch rest)

lists-sorted_by_address :
    (a : ℕ) (patches : List Patch) → lists a (sorted_by_address patches) ≡ lists a patches
unfolding lists sorted_by_address
lists-sorted_by_address a [] = refl
lists-sorted_by_address a (patch ∷ rest) =
    rw (lists-insert_by_address a patch (sorted_by_address rest), lists-sorted_by_address a rest)
      refl

lists-unique_after :
    (a address : ℕ) (patches : List Patch)
    → (address == a || lists a (unique_after address patches)) ≡ (address == a || lists a patches)
unfolding lists unique_after
lists-unique_after a address [] = refl
lists-unique_after a address (patch ∷ rest) =
    let kept = lists-unique_after a patch.address rest in
    let skipped = lists-unique_after a address rest in ground (arith, kept, skipped)

lists-unique_by_address :
    (a : ℕ) (patches : List Patch) → lists a (unique_by_address patches) ≡ lists a patches
unfolding lists unique_by_address
lists-unique_by_address a [] = refl
lists-unique_by_address a (patch ∷ rest) = lists-unique_after a patch.address rest

ascends_above-unique_after :
    (address : ℕ) (patches : List Patch)
    → is_sorted_from address patches ≡ true
    → ascends_above address (unique_after address patches) ≡ true
unfolding ascends_above unique_after is_sorted_from
ascends_above-unique_after address [] s = refl
ascends_above-unique_after address (patch ∷ rest) s = elim (Bool-cases (patch.address == address)) [
  | inl same ↦
      let eq : patch.address ≡ address = ground arith in
      let tail : is_sorted_from address rest ≡ true =
        subst (λ b. is_sorted_from b rest ≡ true) eq (ground arith) in
      rw same (ascends_above-unique_after address rest tail)
  | inr other ↦
      let tail : is_sorted_from patch.address rest ≡ true = ground arith in
      let rec = ascends_above-unique_after patch.address rest tail in rw other (ground (arith, rec))
]

pub ascends-unique_by_address :
    (patches : List Patch)
    → is_sorted_from 0 patches ≡ true
    → ascends (unique_by_address patches) ≡ true
unfolding ascends unique_by_address is_sorted_from
ascends-unique_by_address [] s = refl
ascends-unique_by_address (patch ∷ rest) s =
    ascends_above-unique_after patch.address rest (ground arith)

pub lists-unique_by_address-sorted_by_address :
    (a : ℕ) (patches : List Patch)
    → lists a (unique_by_address (sorted_by_address patches)) ≡ lists a patches
lists-unique_by_address-sorted_by_address a patches =
    lists-unique_by_address a (sorted_by_address patches) ∙ lists-sorted_by_address a patches

pub lists-append : (a : ℕ) (xs ys : List Patch) → lists a (xs ++ ys) ≡ (lists a xs || lists a ys)
unfolding lists
lists-append a [] ys = refl
lists-append a (x ∷ xs) ys = ground (arith, lists-append a xs ys)

-- Whether every patch is a `RET` that nobody has patched or holds.
unfoldable pub are_fresh : List Patch → Bool
are_fresh [] = true
are_fresh (patch ∷ rest) =
    (patch.original_instruction == ret && (patch.patched_instruction == 0 && patch.consumers == 0))
    && are_fresh rest

pub are_fresh-append :
    (xs ys : List Patch) → are_fresh xs ≡ true → are_fresh ys ≡ true → are_fresh (xs ++ ys) ≡ true
unfolding are_fresh
are_fresh-append [] ys fx fy = fy
are_fresh-append (x ∷ xs) ys fx fy =
    let rec = are_fresh-append xs ys (ground arith) fy in ground (arith, rec)

are_fresh-insert_by_address :
    (patch : Patch) (patches : List Patch)
    → are_fresh (patch ∷ patches) ≡ true
    → are_fresh (insert_by_address patch patches) ≡ true
unfolding are_fresh insert_by_address
are_fresh-insert_by_address patch [] f = f
are_fresh-insert_by_address patch (first ∷ rest) f =
    let rec = are_fresh-insert_by_address patch rest (ground arith) in ground (arith, rec)

are_fresh-sorted_by_address :
    (patches : List Patch) → are_fresh patches ≡ true → are_fresh (sorted_by_address patches) ≡ true
unfolding are_fresh sorted_by_address
are_fresh-sorted_by_address [] f = refl
are_fresh-sorted_by_address (patch ∷ rest) f =
    let rec = are_fresh-sorted_by_address rest (ground arith) in
    are_fresh-insert_by_address patch (sorted_by_address rest) (ground (arith, rec))

are_fresh-unique_after :
    (address : ℕ) (patches : List Patch)
    → are_fresh patches ≡ true
    → are_fresh (unique_after address patches) ≡ true
unfolding are_fresh unique_after
are_fresh-unique_after address [] f = refl
are_fresh-unique_after address (patch ∷ rest) f =
    let kept = are_fresh-unique_after patch.address rest (ground arith) in
    let skipped = are_fresh-unique_after address rest (ground arith) in
    ground (arith, kept, skipped)

are_fresh-unique_by_address :
    (patches : List Patch) → are_fresh patches ≡ true → are_fresh (unique_by_address patches) ≡ true
unfolding are_fresh unique_by_address
are_fresh-unique_by_address [] f = refl
are_fresh-unique_by_address (patch ∷ rest) f =
    let kept = are_fresh-unique_after patch.address rest (ground arith) in ground (arith, kept)

pub are_fresh-unique_by_address-sorted_by_address :
    (patches : List Patch)
    → are_fresh patches ≡ true
    → are_fresh (unique_by_address (sorted_by_address patches)) ≡ true
are_fresh-unique_by_address-sorted_by_address patches f =
    are_fresh-unique_by_address (sorted_by_address patches) (are_fresh-sorted_by_address patches f)
