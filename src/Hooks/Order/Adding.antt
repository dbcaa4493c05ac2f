-- ===== src/Hooks/Order/Adding.antt =====
-- A new listener is put in order (src/core/hook_registry.cpp, `InsertListenerLocked`).
use dart_plant.Prelude.{
  ℕ, zero, suc, ◌+◌, ◌<◌, ◌≡◌, refl, true, some, List, [], ◌∷◌, ◌++◌, get_elem?, length, arith,
  Option-cases, inl, inr,
}
use dart_plant.Hooks.Listeners.{Listener, insert_listener}
use dart_plant.Hooks.Listeners.Sorted.{
  is_sorted, is_older, goes_before, ordered_pair, is_sorted-insert_listener,
}
use dart_plant.Hooks.Order.{is_ordered}

get_elem?-append_left :
    {A : Type 0} (xs ys : List A) (i : ℕ) (x : A)
    → get_elem? xs i ≡ some x
    → get_elem? (xs ++ ys) i ≡ some x
get_elem?-append_left [] ys i x e = ground arith
get_elem?-append_left (y ∷ xs) ys zero x e = e
get_elem?-append_left (y ∷ xs) ys (suc i) x e = get_elem?-append_left xs ys i x e

get_elem?-append_last :
    {A : Type 0} (xs : List A) (y : A) → get_elem? (xs ++ (y ∷ [])) (length xs) ≡ some y
get_elem?-append_last [] y = refl
get_elem?-append_last (x ∷ xs) y = get_elem?-append_last xs y

ordered_pair-append :
    (rs ys : List Listener) (i j : ℕ)
    → ordered_pair rs i j ≡ true
    → ordered_pair (rs ++ ys) i j ≡ true
unfolding ordered_pair
ordered_pair-append rs ys i j p = elim (Option-cases (get_elem? rs i)) [
  | inl absent ↦ absurd (ground (arith, p, absent))
  | inr (a, at_i) ↦ elim (Option-cases (get_elem? rs j)) [
    | inl absent ↦ absurd (ground (arith, p, at_i, absent))
    | inr (b, at_j) ↦
        let here = get_elem?-append_left rs ys i a at_i in
        let there = get_elem?-append_left rs ys j b at_j in
        ground (arith, p, at_i, at_j, here, there)
  ]
]

goes_before-append :
    (rs ys : List Listener) (i : ℕ) (js : List ℕ)
    → goes_before rs i js ≡ true
    → goes_before (rs ++ ys) i js ≡ true
unfolding goes_before
goes_before-append rs ys i [] s = refl
goes_before-append rs ys i (j ∷ js) s =
    let ih = goes_before-append rs ys i js (ground (arith, s)) in
    let pair = ordered_pair-append rs ys i j (ground (arith, s)) in ground (arith, ih, pair)

is_ordered-append :
    (rs ys : List Listener) (bound : ℕ) (is : List ℕ)
    → is_ordered rs bound is ≡ true
    → is_ordered (rs ++ ys) bound is ≡ true
unfolding is_ordered is_sorted is_older
is_ordered-append rs ys bound [] s = refl
is_ordered-append rs ys bound (i ∷ is) s = elim (Option-cases (get_elem? rs i)) [
  | inl absent ↦ absurd (ground (arith, s, absent))
  | inr (l, at) ↦
      let ih = is_ordered-append rs ys bound is (ground (arith, s)) in
      let before = goes_before-append rs ys i is (ground (arith, s)) in
      let here = get_elem?-append_left rs ys i l at in ground (arith, ih, before, here, at, s)
]

is_older-insert_listener :
    (rs : List Listener) (value : Listener) (bound index : ℕ) (is : List ℕ)
    → get_elem? rs index ≡ some value
    → value.registration_order < bound
    → is_older rs bound is ≡ true
    → is_older rs bound (insert_listener rs value index is) ≡ true
unfolding is_older insert_listener
is_older-insert_listener rs value bound index [] at low s = ground (arith, at, low)
is_older-insert_listener rs value bound index (i ∷ is) at low s =
    let ih = is_older-insert_listener rs value bound index is at low (ground (arith, s)) in
    ground (arith, ih, at, low, s)

is_older_suc :
    (rs : List Listener) (bound : ℕ) (is : List ℕ)
    → is_older rs bound is ≡ true
    → is_older rs (bound + 1) is ≡ true
unfolding is_older
is_older_suc rs bound [] s = refl
is_older_suc rs bound (i ∷ is) s = ground (arith, s, is_older_suc rs bound is (ground (arith, s)))

is_ordered-parts :
    (rs : List Listener) (bound : ℕ) (is : List ℕ)
    → is_ordered rs bound is ≡ true
    → (is_sorted rs is ≡ true) × (is_older rs bound is ≡ true)
unfolding is_ordered
is_ordered-parts rs bound is s = (ground (arith, s), ground (arith, s))

pub is_ordered-insert_listener :
    (rs : List Listener) (l : Listener) (is : List ℕ)
    → is_ordered rs l.registration_order is ≡ true
    → is_ordered
        (rs ++ (l ∷ []))
        (l.registration_order + 1)
        (insert_listener (rs ++ (l ∷ [])) l (length rs) is)
      ≡ true
unfolding is_ordered
is_ordered-insert_listener rs l is s =
    let all = rs ++ (l ∷ []) in
    let at = get_elem?-append_last rs l in
    let (sorted, older) =
      is_ordered-parts all l.registration_order is
        (is_ordered-append rs (l ∷ []) l.registration_order is s) in
    let sorted' = is_sorted-insert_listener all l (length rs) is at older sorted in
    let older' =
      is_older-insert_listener all l (l.registration_order + 1) (length rs) is at (omega arith)
        (is_older_suc all l.registration_order is older) in
    ground (arith, sorted', older')
