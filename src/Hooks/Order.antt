-- ===== src/Hooks/Order.antt =====
-- Operations on a hook keep the order of its listeners (src/core/hook_registry.cpp).
pub mod Kept
pub mod Adding
pub mod Unhooking
pub mod Reached
use dart_plant.Prelude.{
  ℕ, zero, suc, ◌+◌, ◌-◌, ◌≤◌, ◌<◌, ◌≡◌, ◌≢◌, refl, sym, ◌∙◌, ◌==◌, ltb, if◌then◌else◌, Bool, true,
  false, not, ◌&&◌, ◌||◌, Option, none, some, List, [], ◌∷◌, ◌++◌, get_elem?, set,
  get_elem?-set_self, get_elem?-set_ne, length, arith, Bool-cases, Option-cases, inl, inr, subst,
}
use native.Mathlib.Decide.{ℕ_discrete}
use dart_plant.Hooks.Listeners.{
  Listener, HookRefs, precedes, release_if_idle, change_record, insert_listener,
}
use dart_plant.Hooks.Listeners.Sorted.{ordered_pair, goes_before, is_sorted, is_older}
use dart_plant.Hooks.Record.{detach, detach_all, passes, remaining}
use dart_plant.Hooks.Invoke.{Outside, entered, enter_all, is_admitted, leave, without}
use dart_plant.Hooks.Adapters.{get_elem?-inside}

-- What the order reads of a listener
unfoldable pub key : List Listener → ℕ → Option (ℕ × ℕ)
key records i = elim (get_elem? records i) [
  | none ↦ none
  | some l ↦ some (l.priority, l.registration_order)
]

-- The keys of the first records are those of the second.
unfoldable pub SameKeys : List Listener → List Listener → Type 0
SameKeys records records' = (i : ℕ) → key records' i ≡ key records i

key-set :
    (records : List Listener) (i j : ℕ) (l l' : Listener)
    → get_elem? records i ≡ some l
    → l'.priority ≡ l.priority
    → l'.registration_order ≡ l.registration_order
    → key (set records i l') j ≡ key records j
unfolding key
key-set records i j l l' at p o = elim (ℕ_discrete i j) [
  | yes same ↦
      let self = get_elem?-set_self records i l' (get_elem?-inside records i l at) in
      let here : get_elem? (set records i l') j ≡ some l' =
        subst (λ k. get_elem? (set records i l') k ≡ some l') same self in
      let there : get_elem? records j ≡ some l =
        subst (λ k. get_elem? records k ≡ some l) same at in
      ground (arith, here, there, p, o)
  | no apart ↦ rw (get_elem?-set_ne records l' apart, key) refl
]

pub detach-SameKeys :
    (i : ℕ) (records : List Listener) (refs : HookRefs) → SameKeys records (detach i records refs).0
unfolding detach SameKeys release_if_idle
detach-SameKeys i records refs j = elim (Option-cases (get_elem? records i)) [
  | inl absent ↦ rw (absent, detach) refl
  | inr (l, at) ↦
      rw (at, detach)
        (key-set records i j l (release_if_idle (record l { active = false }) refs).0 at
          (ground arith) (ground arith))
]

pub detach_all-SameKeys :
    (is : List ℕ) (records : List Listener) (refs : HookRefs)
    → SameKeys records (detach_all is records refs).0
unfolding detach_all SameKeys
detach_all-SameKeys [] records refs j = refl
detach_all-SameKeys (i ∷ is) records refs j =
    let (left, after) = detach i records refs in
    detach_all-SameKeys is left after j ∙ detach-SameKeys i records refs j

pub leave-SameKeys :
    (i : ℕ) (records : List Listener) (refs : HookRefs) → SameKeys records (leave i records refs).0
unfolding leave SameKeys release_if_idle
leave-SameKeys i records refs j = elim (Option-cases (get_elem? records i)) [
  | inl absent ↦ rw (absent, leave) refl
  | inr (l, at) ↦ rw (at, leave) (key-set records i j l _ at (ground arith) (ground arith))
]

entered-SameKeys :
    (i : ℕ) (records : List Listener) → SameKeys records (change_record entered i records)
unfolding change_record SameKeys
entered-SameKeys i records j = elim (Option-cases (get_elem? records i)) [
  | inl absent ↦ rw (absent, change_record) refl
  | inr (l, at) ↦ rw (at, change_record) (key-set records i j l (entered l) at refl refl)
]

pub enter_all-SameKeys :
    (outside : Outside) (records : List Listener) (is : List ℕ)
    → SameKeys records (enter_all outside records is).0
unfolding enter_all SameKeys
enter_all-SameKeys outside records [] j = refl
enter_all-SameKeys outside records (i ∷ is) j = elim (Option-cases (get_elem? records i)) [
  | inl absent ↦ rw (absent, enter_all) (enter_all-SameKeys outside records is j)
  | inr (l, at) ↦ elim (Bool-cases (is_admitted outside l)) [
    | inr refused ↦ rw (at, refused, enter_all) (enter_all-SameKeys outside records is j)
    | inl ok ↦
        rw (at, ok, enter_all)
          (enter_all-SameKeys outside (change_record entered i records) is j
            ∙ entered-SameKeys i records j)
  ]
]

-- Sorted, and older than the next registration
unfoldable pub is_ordered : List Listener → ℕ → List ℕ → Bool
unfolding is_sorted is_older
is_ordered records bound is = is_sorted records is && is_older records bound is
