-- ===== src/Images/Set/Separate.antt =====
-- The images of a set keep apart, so that an address has one image.
use dart_plant.Prelude.{
  ℕ, zero, suc, ◌+◌, ◌≤◌, ◌<◌, ◌==◌, ◌≡◌, ◌≢◌, refl, ◌∙◌, subst, true, false, ◌||◌, none, some,
  List, [], ◌∷◌, ◌++◌, get_elem?, Bool-cases, inl, inr, arith,
}
use dart_plant.Images.Module.{ModuleImage, Snapshot, same_module, ranges_overlap}
use dart_plant.Images.Image.{Image, deferred, contains_runtime_range}
use dart_plant.Images.Set.{
  ImageSet, new_image, set_root, add_deferred, usable, admissible, any_clash, clashes, select,
  find_by_runtime_range,
}

-- Two images differ in their loading unit and their module, and their instructions do not overlap.
abbrev pub IsApart : Image → Image → Type 0
IsApart i j =
    (i.loading_unit_id ≢ j.loading_unit_id)
    × (same_module i.module_image j.module_image ≡ false)
    × (ranges_overlap i.snapshot.isolate_instructions_runtime i.snapshot.isolate_instructions_size
          j.snapshot.isolate_instructions_runtime j.snapshot.isolate_instructions_size
        ≡ false)

abbrev pub ApartFrom : Image → List Image → Type 0
ApartFrom i [] = Unit
ApartFrom i (j ∷ js) = IsApart i j × ApartFrom i js

-- Every image is apart from every later one.
abbrev pub IsSeparate : List Image → Type 0
IsSeparate [] = Unit
IsSeparate (i ∷ is) = ApartFrom i is × IsSeparate is

ApartFrom-append :
    (i : Image) (js : List Image) (j : Image)
    → ApartFrom i js
    → IsApart i j
    → ApartFrom i (js ++ (j ∷ []))
ApartFrom-append i [] j a e = (e, tt)
ApartFrom-append i (x ∷ js) j a e = (a.0, ApartFrom-append i js j a.1 e)

clashes-IsApart :
    (i j : Image) → clashes j.module_image j.snapshot j.loading_unit_id i ≡ false → IsApart i j
unfolding clashes
clashes-IsApart i j c = (ground (arith, c), ground (arith, c), ground (arith, c))

IsSeparate-append :
    (is : List Image) (j : Image)
    → any_clash j.module_image j.snapshot j.loading_unit_id is ≡ false
    → IsSeparate is
    → IsSeparate (is ++ (j ∷ []))
unfolding any_clash
IsSeparate-append [] j c s = (tt, tt)
IsSeparate-append (i ∷ is) j c s = (
  ApartFrom-append i is j s.0 (clashes-IsApart i j (ground (arith, c))),
  IsSeparate-append is j (ground (arith, c)) s.1,
)

-- `add_deferred` keeps the images of the set apart, whether it succeeds or refuses, and `set_root`
-- leaves a set in which they are.
pub add_deferred-IsSeparate :
    (s : ImageSet) (m : ModuleImage) (snapshot : Snapshot) (unit generation : ℕ)
    → IsSeparate s.images
    → IsSeparate (add_deferred s m snapshot unit generation).0.images
      × IsSeparate (set_root s m snapshot generation).0.images
unfolding add_deferred set_root
add_deferred-IsSeparate s m snapshot unit generation h = (
  (elim (Bool-cases (admissible s m snapshot unit)) [
    | inr refused ↦ rw (refused, add_deferred) h
    | inl fine ↦ elim (Bool-cases (any_clash m snapshot unit s.images)) [
      | inl clash ↦ rw (fine, clash, add_deferred) h
      | inr clear ↦ elim (Bool-cases (s.next_id == 0 || s.next_incarnation_epoch == 0)) [
        | inl exhausted ↦ rw (fine, clear, exhausted, add_deferred) h
        | inr fresh ↦
            rw (fine, clear, fresh, add_deferred)
              (IsSeparate-append s.images
                (new_image s.next_id s.next_incarnation_epoch deferred unit generation m snapshot)
                clear h)
      ]
    ]
  ]),
  (elim (Bool-cases (usable m snapshot)) [
    | inl good ↦ rw (good, set_root) (tt, tt)
    | inr bad ↦ rw (bad, set_root) tt
  ]),
)

contained :
    (i : Image) (address size : ℕ)
    → contains_runtime_range i address size ≡ true
    → (i.snapshot.isolate_instructions_runtime ≤ address)
      × (address < i.snapshot.isolate_instructions_runtime + i.snapshot.isolate_instructions_size)
unfolding contains_runtime_range
contained i address size e = ground arith

disjoint : (a n b m x : ℕ) → ranges_overlap a n b m ≡ false → a ≤ x → x < a + n → b ≤ x → b + m ≤ x
unfolding ranges_overlap
disjoint a n b m x e l u l' = ground arith

not_both :
    (i j : Image) (address size : ℕ)
    → IsApart i j
    → contains_runtime_range i address size ≡ true
    → contains_runtime_range j address size ≡ false
not_both i j address size a e = elim (Bool-cases (contains_runtime_range j address size)) [
  | inr other ↦ other
  | inl both ↦
      let (l, u) = contained i address size e in
      let (l', u') = contained j address size both in
      absurd (
        omega (
          arith,
          u',
          disjoint i.snapshot.isolate_instructions_runtime i.snapshot.isolate_instructions_size
              j.snapshot.isolate_instructions_runtime j.snapshot.isolate_instructions_size address
              a.2 l u l',
        ))
]

ApartFrom-get :
    (i : Image) (js : List Image) (k : ℕ) (j : Image)
    → ApartFrom i js
    → get_elem? js k ≡ some j
    → IsApart i j
ApartFrom-get i [] k j a e = ground (arith, e)
ApartFrom-get i (x ∷ js) zero j a e = let same : x ≡ j = cc in subst (λ t. IsApart i t) same a.0
ApartFrom-get i (x ∷ js) (suc k) j a e = ApartFrom-get i js k j a.1 e

select-some :
    (i : Image) (js : List Image) (address size : ℕ)
    → ApartFrom i js
    → contains_runtime_range i address size ≡ true
    → select (λ j. contains_runtime_range j address size) (some i) js ≡ some i
unfolding select
select-some i [] address size a e = refl
select-some i (j ∷ js) address size a e =
    rw (not_both i j address size a.0 e) (select-some i js address size a.1 e)

select-get :
    (is : List Image) (k : ℕ) (i : Image) (address size : ℕ)
    → IsSeparate is
    → get_elem? is k ≡ some i
    → contains_runtime_range i address size ≡ true
    → select (λ j. contains_runtime_range j address size) none is ≡ some i
unfolding select
select-get [] k i address size s e c = ground (arith, e)
select-get (x ∷ is) zero i address size s e c =
    let same : x ≡ i = cc in
    let first : contains_runtime_range x address size ≡ true = rw same c in
    rw first (select-some x is address size s.0 first ∙ e)
select-get (x ∷ is) (suc k) i address size s e c =
    elim (Bool-cases (contains_runtime_range x address size)) [
      | inr outside ↦ rw outside (select-get is k i address size s.1 e c)
      | inl inside ↦
          ground (arith, c, not_both x i address size (ApartFrom-get x is k i s.0 e) inside)
    ]

-- In a set whose images are apart, `find_by_runtime_range` returns the image that contains the
-- range, whichever place it has in the set.
pub find_by_runtime_range-get :
    (s : ImageSet) (k : ℕ) (i : Image) (address size : ℕ)
    → IsSeparate s.images
    → get_elem? s.images k ≡ some i
    → contains_runtime_range i address size ≡ true
    → find_by_runtime_range s address size ≡ some i
unfolding find_by_runtime_range
find_by_runtime_range-get s k i address size = select-get s.images k i address size
