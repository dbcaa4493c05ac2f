-- ===== src/Images/Set/Owners.antt =====
-- Owner tokens across a refresh: an image's identifier with its incarnation epoch.
use dart_plant.Prelude.{
  ℕ, zero, suc, ◌+◌, ◌^◌, ◌≤◌, ◌<◌, ◌==◌, ◌≡◌, ◌≢◌, ◌⊎◌, inl, inr, refl, subst, true, ◌&&◌, some,
  List, [], ◌∷◌, ◌++◌, find_if, find_if-some, map, get_elem?, length, length-map, Bool-cases,
  Option-cases, arith,
}
use dart_plant.Images.Image.{Image, same_kind, same_image_identity}
use dart_plant.Images.Set.{ImageSet, issued_by, inherit, owned, take_in, number, reconcile}

-- The image is one of the previous images, mapped as it was and under the same owner.
abbrev pub IsSurvivor : List Image → Image → Type 0
IsSurvivor previous r =
    (i : ℕ) × (old : Image) × (get_elem? previous i ≡ some old)
    × (same_image_identity r old ≡ true)
    × (r.id ≡ old.id)
    × (r.incarnation_epoch ≡ old.incarnation_epoch)

-- A survivor, or under an epoch that the previous set had not given out.
abbrev pub IsCurrent : ImageSet → Image → Type 0
IsCurrent previous r =
    (previous.next_incarnation_epoch ≤ r.incarnation_epoch) ⊎ IsSurvivor previous.images r

abbrev pub AllCurrent : ImageSet → List Image → Type 0
AllCurrent previous [] = Unit
AllCurrent previous (i ∷ is) = IsCurrent previous i × AllCurrent previous is

AllCurrent-append :
    (previous : ImageSet) (is : List Image) (i : Image)
    → AllCurrent previous is
    → IsCurrent previous i
    → AllCurrent previous (is ++ (i ∷ []))
AllCurrent-append previous [] i a c = (c, tt)
AllCurrent-append previous (x ∷ is) i a c = (a.0, AllCurrent-append previous is i a.1 c)

AllCurrent-get :
    (previous : ImageSet) (is : List Image) (k : ℕ) (r : Image)
    → AllCurrent previous is
    → get_elem? is k ≡ some r
    → IsCurrent previous r
AllCurrent-get previous [] k r a e = ground (arith, e)
AllCurrent-get previous (x ∷ is) zero r a e = let same : x ≡ r = cc in rw same at a.0
AllCurrent-get previous (x ∷ is) (suc k) r a e = AllCurrent-get previous is k r a.1 e

issued-get :
    (previous : ImageSet) (is : List Image) (k : ℕ) (old : Image)
    → issued_by previous is ≡ true
    → get_elem? is k ≡ some old
    → (old.id ≢ 0) × (old.incarnation_epoch ≢ 0)
unfolding issued_by
issued-get previous [] k old v e = ground (arith, e)
issued-get previous (x ∷ is) zero old v e = ground (arith, v, e)
issued-get previous (x ∷ is) (suc k) old v e = issued-get previous is k old (ground (arith, v)) e

-- The identity of an image does not depend on its owner.
relabel :
    (i old : Image) (id epoch : ℕ)
    → same_image_identity i old ≡ true
    → same_image_identity (record i { id = id; incarnation_epoch = epoch }) old ≡ true
unfolding same_image_identity
relabel i old id epoch e = e

-- What `inherit` gives: a survivor's owner, or no epoch.
IsInherited : List Image → Image → Type 0
IsInherited previous j = (j.incarnation_epoch ≡ 0) ⊎ IsSurvivor previous j

AllInherited : List Image → List Image → Type 0
AllInherited previous [] = Unit
AllInherited previous (j ∷ js) = IsInherited previous j × AllInherited previous js

inherit-IsInherited :
    (previous : List Image) (i : Image) → IsInherited previous (inherit previous i)
unfolding inherit IsInherited
inherit-IsInherited previous i =
    elim (Option-cases (find_if (λ old. same_image_identity i old) previous)) [
      | inr (exact, found) ↦
          let (test, (k, at)) =
            find_if-some (λ old. same_image_identity i old) previous exact found in
          rw (found, inherit)
            (inr (k, exact, at, relabel i exact exact.id exact.incarnation_epoch test, refl, refl))
      | inl fresh ↦
          elim (Option-cases (
            find_if (λ old. same_kind i.kind old.kind && i.loading_unit_id == old.loading_unit_id)
              previous)) [
                | inr (logical, found) ↦ rw (fresh, found, inherit) (inl refl)
                | inl nothing ↦ rw (fresh, nothing, inherit) (inl refl)
              ]
    ]

map-AllInherited : (previous is : List Image) → AllInherited previous (map (inherit previous) is)
unfolding AllInherited
map-AllInherited previous [] = tt
map-AllInherited previous (i ∷ is) = (inherit-IsInherited previous i, map-AllInherited previous is)

IsSurvivor-owned :
    (previous s : ImageSet) (j : Image)
    → issued_by previous previous.images ≡ true
    → IsSurvivor previous.images j
    → IsSurvivor previous.images (owned s j) × (j.incarnation_epoch ≢ 0)
unfolding owned
IsSurvivor-owned previous s j v (k, old, at, same, id, epoch) =
    let (some_id, some_epoch) = issued-get previous previous.images k old v at in
    (
      (
        k,
        old,
        at,
        relabel j old _ _ same,
        ground (arith, id, some_id),
        ground (arith, epoch, some_epoch),
      ),
      omega (arith, epoch, some_epoch),
    )

owned-IsCurrent :
    (previous s : ImageSet) (j : Image)
    → issued_by previous previous.images ≡ true
    → IsInherited previous.images j
    → previous.next_incarnation_epoch ≤ s.next_incarnation_epoch
    → IsCurrent previous (owned s j)
unfolding IsInherited owned
owned-IsCurrent previous s j v (inl unset) le = inl (ground (arith, unset, le))
owned-IsCurrent previous s j v (inr survivor) le = inr (IsSurvivor-owned previous s j v survivor).0

-- A round moves the epoch counter by at most one, and never back.
take_in-epoch :
    (s : ImageSet) (j : Image)
    → s.next_incarnation_epoch + 1 < 2 ^ 64
    → (s.next_incarnation_epoch ≤ (take_in s j).next_incarnation_epoch)
      × ((take_in s j).next_incarnation_epoch ≤ s.next_incarnation_epoch + 1)
unfolding take_in
take_in-epoch s j room = ground arith

number-AllCurrent :
    (previous s : ImageSet) (js : List Image)
    → issued_by previous previous.images ≡ true
    → AllInherited previous.images js
    → AllCurrent previous s.images
    → previous.next_incarnation_epoch ≤ s.next_incarnation_epoch
    → s.next_incarnation_epoch + length js < 2 ^ 64
    → AllCurrent previous (number s js).images
      × (previous.next_incarnation_epoch ≤ (number s js).next_incarnation_epoch)
unfolding number AllInherited take_in
number-AllCurrent previous s [] v h a le room = (a, le)
number-AllCurrent previous s (j ∷ js) v h a le room =
    let (up, by_one) = take_in-epoch s j (omega (arith, room)) in
    number-AllCurrent previous (take_in s j) js v h.1
      (AllCurrent-append previous s.images (owned s j) a (owned-IsCurrent previous s j v h.0 le))
      (omega (arith, le, up)) (omega (arith, room, by_one))

-- The second loop's set before it starts
abbrev start : ImageSet → ImageSet → ImageSet
start s previous = record {
  next_id = previous.next_id;
  next_incarnation_epoch = previous.next_incarnation_epoch;
  root_id = s.root_id;
  images = [];
}

reconcile-number :
    (s previous result : ImageSet)
    → reconcile s previous ≡ (result, true)
    → (issued_by previous previous.images ≡ true)
      × (number (start s previous) (map (inherit previous.images) s.images) ≡ result)
unfolding reconcile
reconcile-number s previous result e = elim (Bool-cases (issued_by previous previous.images)) [
  | inr bad ↦ ground (arith, bad, e)
  | inl good ↦ (good, ground (arith, good, e))
]

-- After a refresh that succeeds, with the epoch counter away from its end, an image of the new set
-- that carries an epoch which the previous set had given out is one of the previous set's images:
-- mapped unchanged, under the same identifier and epoch. The epoch counter does not go back.
pub reconcile-IsSurvivor :
    (s previous result : ImageSet) (k : ℕ) (r : Image)
    → previous.next_incarnation_epoch + length s.images < 2 ^ 64
    → reconcile s previous ≡ (result, true)
    → get_elem? result.images k ≡ some r
    → r.incarnation_epoch < previous.next_incarnation_epoch
    → IsSurvivor previous.images r
      × (previous.next_incarnation_epoch ≤ result.next_incarnation_epoch)
reconcile-IsSurvivor s previous result k r room e at old =
    let (issued, is) = reconcile-number s previous result e in
    let js = map (inherit previous.images) s.images in
    let as_many : length js ≡ length s.images = length-map s.images (inherit previous.images) in
    let (current, up) =
      number-AllCurrent previous (start s previous) js issued
        (map-AllInherited previous.images s.images) tt (omega arith)
        (omega (arith, room, as_many)) in
    let (current', up') =
      subst
        (λ t.
          AllCurrent previous t.images
          × (previous.next_incarnation_epoch ≤ t.next_incarnation_epoch))
        is (current, up) in
    elim (AllCurrent-get previous result.images k r current' at) [
      | inl fresh ↦ absurd (omega (arith, fresh, old))
      | inr survivor ↦ (survivor, up')
    ]
