-- ===== src/Images/Receipts/Retired.antt =====
-- A retired owner stays retired.
use dart_plant.Prelude.{
  ℕ, ◌≡◌, refl, subst, false, none, some, List, [], ◌∷◌, Bool-cases, Option-cases, inl, inr, arith,
}
use dart_plant.Images.Image.{Image, retired}
use dart_plant.Images.Set.{ImageSet}
use dart_plant.Images.Receipts.{
  update_first, finish, owned_by, drain, begin_drain, retire, retire_image,
}

retired_refuses :
    (id epoch : ℕ) (is js : List Image)
    → update_first (owned_by id epoch) retire_image is ≡ some js
    → update_first (owned_by id epoch) drain js ≡ none
unfolding update_first owned_by drain
retired_refuses id epoch [] js e = ground (arith, e)
retired_refuses id epoch (i ∷ is) js e = elim (Bool-cases (owned_by id epoch i)) [
  | inl mine ↦
      let first : record i { lifecycle = retired } ∷ is ≡ js = ground (arith, mine, e) in
      subst (λ ks. update_first (owned_by id epoch) drain ks ≡ none) first (ground (arith, mine))
  | inr other ↦ elim (Option-cases (update_first (owned_by id epoch) retire_image is)) [
    | inl nothing ↦ ground (arith, other, nothing, e)
    | inr (ks, done) ↦
        let rest : i ∷ ks ≡ js = ground (arith, other, done, e) in
        let refused = retired_refuses id epoch is ks done in
        subst (λ ls. update_first (owned_by id epoch) drain ls ≡ none) rest
          (ground (arith, other, refused))
  ]
]

unowned_refuses :
    (id epoch : ℕ) (is : List Image)
    → update_first (owned_by id epoch) retire_image is ≡ none
    → update_first (owned_by id epoch) drain is ≡ none
unfolding update_first owned_by drain
unowned_refuses id epoch [] e = refl
unowned_refuses id epoch (i ∷ is) e = elim (Bool-cases (owned_by id epoch i)) [
  | inl mine ↦ ground (arith, mine, e)
  | inr other ↦ elim (Option-cases (update_first (owned_by id epoch) retire_image is)) [
    | inl nothing ↦ ground (arith, other, unowned_refuses id epoch is nothing)
    | inr (ks, done) ↦ ground (arith, other, done, e)
  ]
]

-- After `retire` of an owner, `begin_drain` of the same owner refuses and changes nothing, whether
-- the set had such an image or not.
pub begin_drain-retire :
    (s : ImageSet) (id epoch : ℕ)
    → begin_drain (retire s id epoch).0 id epoch ≡ ((retire s id epoch).0, false)
unfolding begin_drain retire finish
begin_drain-retire s id epoch =
    elim (Option-cases (update_first (owned_by id epoch) retire_image s.images)) [
      | inl nothing ↦ rw (nothing, unowned_refuses id epoch s.images nothing)
      | inr (js, done) ↦ rw (done, retired_refuses id epoch s.images js done)
    ]
