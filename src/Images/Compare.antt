-- ===== src/Images/Compare.antt =====
-- The comparisons of two sets of images (src/runtime/runtime_image_set.cpp).
use dart_plant.Prelude.{
  ℕ, zero, suc, ◌==◌, ◌≡◌, refl, subst, Bool, true, false, not, ◌&&◌, ◌||◌, none, some, List, [],
  ◌∷◌, length, find_if, find_if-some, get_elem?, Bool-cases, Option-cases, inl, inr, arith,
}
use dart_plant.Images.Image.{Image, LoadState, is_deferred, same_image_identity}
use dart_plant.Images.Set.{ImageSet, find_by_id}
use dart_plant.Images.Receipts.{same_state}

has_identity : List Image → Image → Bool
has_identity images i = elim (find_if (λ candidate. same_image_identity i candidate) images) [
  | none ↦ false
  | some candidate ↦ true
]

all_have : List Image → List Image → Bool
unfolding has_identity
all_have [] others = true
all_have (i ∷ is) others = has_identity others i && all_have is others

-- `SameIdentity`
unfoldable pub same_identity : ImageSet → ImageSet → Bool
unfolding all_have
same_identity s other = length s.images == length other.images && all_have s.images other.images

-- `ContainsIdentity`
unfoldable pub contains_identity : ImageSet → Image → Bool
contains_identity s i = elim (find_if (λ candidate. same_image_identity candidate i) s.images) [
  | none ↦ false
  | some candidate ↦ true
]

-- The other set has this deferred image under the same owner; its load state counts if asked.
has_owner : Bool → ImageSet → Image → Bool
has_owner with_state other i = elim (find_by_id other i.id) [
  | none ↦ false
  | some candidate ↦
      is_deferred candidate.kind
      && (candidate.incarnation_epoch == i.incarnation_epoch
          && (candidate.loading_unit_id == i.loading_unit_id
              && (not with_state
                  || same_state candidate.deferred_load_state i.deferred_load_state)))
]

all_owned : Bool → ImageSet → List Image → Bool
unfolding has_owner
all_owned with_state other [] = true
all_owned with_state other (i ∷ is) =
    (not (is_deferred i.kind) || has_owner with_state other i) && all_owned with_state other is

-- `SameDeferredLoadStates`
unfoldable pub same_deferred_load_states : ImageSet → ImageSet → Bool
unfolding all_owned
same_deferred_load_states s other =
    length s.images == length other.images
    && (all_owned true other s.images && all_owned false s other.images)

-- A deferred image of `images` under the same owner and in the same load state
abbrev pub HasLoadState : List Image → Image → Type 0
HasLoadState images i =
    (k : ℕ) × (j : Image) × (get_elem? images k ≡ some j)
    × (is_deferred j.kind ≡ true)
    × (j.id ≡ i.id)
    × (j.incarnation_epoch ≡ i.incarnation_epoch)
    × (j.loading_unit_id ≡ i.loading_unit_id)
    × (j.deferred_load_state ≡ i.deferred_load_state)

same_state-eq : (a b : LoadState) → same_state a b ≡ true → a ≡ b
same_state-eq LoadState.unbound LoadState.unbound e = refl
same_state-eq LoadState.not_loaded LoadState.not_loaded e = refl
same_state-eq LoadState.loaded LoadState.loaded e = refl
same_state-eq LoadState.unbound LoadState.not_loaded e = ground (arith, e)
same_state-eq LoadState.unbound LoadState.loaded e = ground (arith, e)
same_state-eq LoadState.not_loaded LoadState.unbound e = ground (arith, e)
same_state-eq LoadState.not_loaded LoadState.loaded e = ground (arith, e)
same_state-eq LoadState.loaded LoadState.unbound e = ground (arith, e)
same_state-eq LoadState.loaded LoadState.not_loaded e = ground (arith, e)

find_by_id-some :
    (s : ImageSet) (id : ℕ) (j : Image)
    → find_by_id s id ≡ some j
    → (j.id ≡ id) × ((k : ℕ) × (get_elem? s.images k ≡ some j))
unfolding find_by_id
find_by_id-some s id j e = elim (Bool-cases (id == 0)) [
  | inl zero_id ↦ ground (arith, zero_id, e)
  | inr other ↦
      let (test, at) = find_if-some (λ i. i.id == id) s.images j (rw other at e) in
      (ground (arith, test), at)
]

has_owner-HasLoadState :
    (other : ImageSet) (i : Image) → has_owner true other i ≡ true → HasLoadState other.images i
unfolding has_owner
has_owner-HasLoadState other i e = elim (Option-cases (find_by_id other i.id)) [
  | inl missing ↦ ground (arith, missing, e)
  | inr (j, found) ↦
      let (same, (k, at)) = find_by_id-some other i.id j found in
      let tests = rw (found, has_owner) at e in
      (
        k,
        j,
        at,
        ground (arith, tests),
        same,
        ground (arith, tests),
        ground (arith, tests),
        same_state-eq j.deferred_load_state i.deferred_load_state (ground (arith, tests)),
      )
]

all_owned-get :
    (other : ImageSet) (is : List Image) (k : ℕ) (i : Image)
    → all_owned true other is ≡ true
    → get_elem? is k ≡ some i
    → is_deferred i.kind ≡ true
    → has_owner true other i ≡ true
unfolding all_owned
all_owned-get other [] k i e at d = ground (arith, at)
all_owned-get other (x ∷ is) zero i e at d =
    let same : x ≡ i = cc in
    let test : (not (is_deferred x.kind) || has_owner true other x) ≡ true = ground (arith, e) in
    let mine = subst (λ t. (not (is_deferred t.kind) || has_owner true other t) ≡ true) same test in
    ground (arith, mine, d)
all_owned-get other (x ∷ is) (suc k) i e at d = all_owned-get other is k i (ground (arith, e)) at d

-- When `same_deferred_load_states` holds, every deferred image of the first set is in the second
-- set under the same owner and in the same load state.
pub same_deferred_load_states-HasLoadState :
    (s other : ImageSet) (k : ℕ) (i : Image)
    → same_deferred_load_states s other ≡ true
    → get_elem? s.images k ≡ some i
    → is_deferred i.kind ≡ true
    → HasLoadState other.images i
unfolding same_deferred_load_states
same_deferred_load_states-HasLoadState s other k i e at d =
    has_owner-HasLoadState other i (all_owned-get other s.images k i (ground (arith, e)) at d)
