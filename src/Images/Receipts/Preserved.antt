-- ===== src/Images/Receipts/Preserved.antt =====
-- Receipts go to unchanged owners alone.
use dart_plant.Prelude.{
  ℕ, zero, suc, ◌≡◌, ◌⊎◌, refl, subst, Bool, true, some, List, [], ◌∷◌, find_if, find_if-some, map,
  get_elem?, Option-cases, inl, inr, arith,
}
use dart_plant.Images.Image.{Image, LoadState, same_image_identity}
use dart_plant.Images.Set.{ImageSet}
use dart_plant.Images.Receipts.{same_owner, preserve, preserve_semantic_bindings}

-- The two images are the same mapping under the same owner, in the same generation and epochs.
abbrev pub IsSameOwner : Image → Image → Type 0
IsSameOwner i old =
    (i.id ≡ old.id)
    × (i.incarnation_epoch ≡ old.incarnation_epoch)
    × (i.runtime_generation ≡ old.runtime_generation)
    × (i.engine_incarnation_epoch ≡ old.engine_incarnation_epoch)
    × (i.isolate_group_incarnation_epoch ≡ old.isolate_group_incarnation_epoch)
    × (same_image_identity i old ≡ true)

same_owner-IsSameOwner : (i old : Image) → same_owner i old ≡ true → IsSameOwner i old
unfolding same_owner
same_owner-IsSameOwner i old e = (
  ground (arith, e),
  ground (arith, e),
  ground (arith, e),
  ground (arith, e),
  ground (arith, e),
  ground (arith, e),
)

-- The receipts of an image
abbrev pub receipts : Image → ℕ × Bool × LoadState
receipts i = (i.live_entry_count, i.deferred_program_hash_vm_bound, i.deferred_load_state)

abbrev pub HasReceipts : List Image → Image → Image → Type 0
HasReceipts previous i j =
    (j ≡ i)
    ⊎ ((k : ℕ) × (old : Image) × (get_elem? previous k ≡ some old)
        × IsSameOwner i old
        × (receipts j ≡ receipts old))

preserve-HasReceipts :
    (previous : List Image) (i : Image) → HasReceipts previous i (preserve previous i)
unfolding preserve
preserve-HasReceipts previous i = elim (Option-cases (find_if (same_owner i) previous)) [
  | inl nothing ↦ rw (nothing, preserve) (inl refl)
  | inr (old, found) ↦
      let (test, (k, at)) = find_if-some (same_owner i) previous old found in
      rw (found, preserve) (inr (k, old, at, same_owner-IsSameOwner i old test, refl))
]

map-HasReceipts :
    (previous is : List Image) (k : ℕ) (i j : Image)
    → get_elem? is k ≡ some i
    → get_elem? (map (preserve previous) is) k ≡ some j
    → HasReceipts previous i j
map-HasReceipts previous [] k i j e e' = ground (arith, e)
map-HasReceipts previous (x ∷ is) zero i j e e' =
    let same : x ≡ i = cc in
    let head : preserve previous x ≡ j = cc in
    subst (λ t. HasReceipts previous t j) same
      (subst (λ t. HasReceipts previous x t) head (preserve-HasReceipts previous x))
map-HasReceipts previous (x ∷ is) (suc k) i j e e' = map-HasReceipts previous is k i j e e'

-- An image changes under `preserve_semantic_bindings` only if one of the previous images is the
-- same mapping under the same owner, in the same generation and epochs; the image then has that
-- image's receipts.
pub preserve_semantic_bindings-HasReceipts :
    (s previous : ImageSet) (k : ℕ) (i j : Image)
    → get_elem? s.images k ≡ some i
    → get_elem? (preserve_semantic_bindings s previous).images k ≡ some j
    → HasReceipts previous.images i j
unfolding preserve_semantic_bindings
preserve_semantic_bindings-HasReceipts s previous = map-HasReceipts previous.images s.images
