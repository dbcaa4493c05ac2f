-- ===== src/Hooks/Order/Kept.antt =====
-- Which changes of the records and the indices keep the order (src/core/hook_registry.cpp).
use dart_plant.Prelude.{ℕ, ◌≡◌, refl, Bool, true, List, [], ◌∷◌, arith, Bool-cases, inl, inr}
use dart_plant.Hooks.Listeners.{Listener}
use dart_plant.Hooks.Listeners.Sorted.{comes_first, ordered_pair, goes_before, is_sorted, is_older}
use dart_plant.Hooks.Record.{passes, remaining}
use dart_plant.Hooks.Invoke.{without}
use dart_plant.Hooks.Order.{key, SameKeys, is_ordered}

ordered_pair-SameKeys :
    (rs rs' : List Listener) (i j : ℕ)
    → key rs' i ≡ key rs i
    → key rs' j ≡ key rs j
    → ordered_pair rs' i j ≡ ordered_pair rs i j
unfolding key ordered_pair comes_first
ordered_pair-SameKeys rs rs' i j a b = ground (arith, a, b)

goes_before-SameKeys :
    (rs rs' : List Listener) (i : ℕ) (js : List ℕ)
    → SameKeys rs rs'
    → goes_before rs' i js ≡ goes_before rs i js
unfolding goes_before SameKeys
goes_before-SameKeys rs rs' i [] same = refl
goes_before-SameKeys rs rs' i (j ∷ js) same =
    rw (ordered_pair-SameKeys rs rs' i j (same i) (same j), goes_before-SameKeys rs rs' i js same)
      refl

pub is_ordered-SameKeys :
    (rs rs' : List Listener) (bound : ℕ) (is : List ℕ)
    → SameKeys rs rs'
    → is_ordered rs' bound is ≡ is_ordered rs bound is
unfolding is_ordered is_sorted is_older SameKeys key
is_ordered-SameKeys rs rs' bound [] same = refl
is_ordered-SameKeys rs rs' bound (i ∷ is) same =
    let ih = is_ordered-SameKeys rs rs' bound is same in
    let before = goes_before-SameKeys rs rs' i is same in ground (arith, ih, before, same i)

-- Fewer indices
goes_before-remaining :
    (test : Listener → Bool) (rs : List Listener) (i : ℕ) (js : List ℕ)
    → goes_before rs i js ≡ true
    → goes_before rs i (remaining test rs js) ≡ true
unfolding goes_before remaining
goes_before-remaining test rs i [] s = refl
goes_before-remaining test rs i (j ∷ js) s =
    let ih = goes_before-remaining test rs i js (ground (arith, s)) in
    elim (Bool-cases (passes test rs j)) [
      | inl gone ↦ rw (gone, remaining) ih
      | inr kept ↦ rw (kept, remaining) (ground (arith, ih, s))
    ]

pub is_ordered-remaining :
    (test : Listener → Bool) (rs : List Listener) (bound : ℕ) (is : List ℕ)
    → is_ordered rs bound is ≡ true
    → is_ordered rs bound (remaining test rs is) ≡ true
unfolding is_ordered is_sorted is_older remaining
is_ordered-remaining test rs bound [] s = refl
is_ordered-remaining test rs bound (i ∷ is) s =
    let ih = is_ordered-remaining test rs bound is (ground (arith, s)) in
    let before = goes_before-remaining test rs i is (ground (arith, s)) in
    elim (Bool-cases (passes test rs i)) [
      | inl gone ↦ rw (gone, remaining) ih
      | inr kept ↦ rw (kept, remaining) (ground (arith, ih, before, s))
    ]

goes_before-without :
    (rs : List Listener) (i k : ℕ) (js : List ℕ)
    → goes_before rs i js ≡ true
    → goes_before rs i (without k js) ≡ true
unfolding goes_before without
goes_before-without rs i k [] s = refl
goes_before-without rs i k (j ∷ js) s =
    ground (arith, s, goes_before-without rs i k js (ground (arith, s)))

pub is_ordered-without :
    (rs : List Listener) (bound k : ℕ) (is : List ℕ)
    → is_ordered rs bound is ≡ true
    → is_ordered rs bound (without k is) ≡ true
unfolding is_ordered is_sorted is_older without
is_ordered-without rs bound k [] s = refl
is_ordered-without rs bound k (i ∷ is) s =
    let ih = is_ordered-without rs bound k is (ground (arith, s)) in
    let before = goes_before-without rs i k is (ground (arith, s)) in ground (arith, ih, before, s)
