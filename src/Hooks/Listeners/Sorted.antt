-- ===== src/Hooks/Listeners/Sorted.antt =====
-- The order in which listeners are called (src/core/hook_registry.cpp, `InsertListenerLocked`).
use dart_plant.Prelude.{
  ℕ, ◌<◌, ◌≡◌, refl, ◌==◌, ltb, Bool, true, false, ◌&&◌, ◌||◌, none, some, List, [], ◌∷◌, get_elem?,
  Bool-cases, Option-cases, inl, inr, arith,
}
use dart_plant.Hooks.Listeners.{Listener, precedes, insert_listener}

-- The order of calls: the higher priority first, and the earlier registration among equals.
unfoldable pub comes_first : Listener → Listener → Bool
comes_first a b =
    ltb b.priority a.priority
    || (a.priority == b.priority && ltb a.registration_order b.registration_order)

-- Whether both indices are there and the first listener comes first.
unfoldable pub ordered_pair : List Listener → ℕ → ℕ → Bool
unfolding comes_first
ordered_pair records i j = elim (get_elem? records i) [
  | none ↦ false
  | some a ↦ elim (get_elem? records j) [ none ↦ false | some b ↦ comes_first a b ]
]

-- Whether the first index goes before each of the others.
unfoldable pub goes_before : List Listener → ℕ → List ℕ → Bool
unfolding ordered_pair
goes_before records i [] = true
goes_before records i (j ∷ js) = ordered_pair records i j && goes_before records i js

-- Whether each listener is called before all later ones.
unfoldable pub is_sorted : List Listener → List ℕ → Bool
unfolding goes_before
is_sorted records [] = true
is_sorted records (i ∷ is) = goes_before records i is && is_sorted records is

-- Whether every index has a listener with a registration order below `bound`.
unfoldable pub is_older : List Listener → ℕ → List ℕ → Bool
is_older records bound [] = true
is_older records bound (i ∷ is) =
    (elim (get_elem? records i) [ none ↦ false | some a ↦ ltb a.registration_order bound ])
    && is_older records bound is

comes_first_trans :
    (a b c : Listener) → comes_first a b ≡ true → comes_first b c ≡ true → comes_first a c ≡ true
unfolding comes_first
comes_first_trans a b c p q = ground arith

precedes-comes_first : (a b : Listener) → precedes a b ≡ true → comes_first a b ≡ true
unfolding precedes comes_first
precedes-comes_first a b p = ground arith

-- A listener that is not placed before an older one comes after it.
comes_first-precedes :
    (a b : Listener)
    → b.registration_order < a.registration_order
    → precedes a b ≡ false
    → comes_first b a ≡ true
unfolding precedes comes_first
comes_first-precedes a b older p = ground arith

ordered_pair_trans :
    (records : List Listener) (i j k : ℕ)
    → ordered_pair records i j ≡ true
    → ordered_pair records j k ≡ true
    → ordered_pair records i k ≡ true
unfolding ordered_pair
ordered_pair_trans records i j k p q = elim (Option-cases (get_elem? records i)) [
  | inl absent ↦ absurd (ground (arith, p, absent))
  | inr (a, at_i) ↦ elim (Option-cases (get_elem? records j)) [
    | inl absent ↦ absurd (ground (arith, p, at_i, absent))
    | inr (b, at_j) ↦ elim (Option-cases (get_elem? records k)) [
      | inl absent ↦ absurd (ground (arith, q, at_j, absent))
      | inr (c, at_k) ↦
          let t = comes_first_trans a b c in
          ground (
            arith,
            p,
            q,
            at_i,
            at_j,
            at_k,
            t (ground (arith, p, at_i, at_j)) (ground (arith, q, at_j, at_k)),
          )
    ]
  ]
]

goes_before_trans :
    (records : List Listener) (i j : ℕ) (js : List ℕ)
    → ordered_pair records i j ≡ true
    → goes_before records j js ≡ true
    → goes_before records i js ≡ true
unfolding goes_before
goes_before_trans records i j [] p q = refl
goes_before_trans records i j (k ∷ ks) p q =
    let rest = goes_before_trans records i j ks p (ground arith) in
    let first : ordered_pair records i k ≡ true =
      ordered_pair_trans records i j k p (ground arith) in
    ground (arith, rest, first)

goes_before-insert_listener :
    (records : List Listener) (value : Listener) (index i : ℕ) (js : List ℕ)
    → goes_before records i (insert_listener records value index js)
      ≡ (ordered_pair records i index && goes_before records i js)
unfolding goes_before insert_listener
goes_before-insert_listener records value index i [] = refl
goes_before-insert_listener records value index i (j ∷ js) =
    let rest = goes_before-insert_listener records value index i js in
    elim (Option-cases (get_elem? records j)) [
      | inl absent ↦ ground (arith, absent)
      | inr (current, at_j) ↦ elim (Bool-cases (precedes value current)) [
        | inl before ↦ ground (arith, at_j, before)
        | inr after ↦ ground (arith, at_j, after, rest)
      ]
    ]

ordered_at :
    (records : List Listener) (i j : ℕ) (a b : Listener)
    → get_elem? records i ≡ some a
    → get_elem? records j ≡ some b
    → comes_first a b ≡ true
    → ordered_pair records i j ≡ true
unfolding ordered_pair
ordered_at records i j a b at_i at_j p = ground (arith, at_i, at_j, p)

pub is_sorted-insert_listener :
    (records : List Listener) (value : Listener) (index : ℕ) (js : List ℕ)
    → get_elem? records index ≡ some value
    → is_older records value.registration_order js ≡ true
    → is_sorted records js ≡ true
    → is_sorted records (insert_listener records value index js) ≡ true
unfolding is_sorted is_older insert_listener
is_sorted-insert_listener records value index [] at older s = ground arith
is_sorted-insert_listener records value index (j ∷ js) at older s =
    elim (Option-cases (get_elem? records j)) [
      | inl absent ↦ absurd (ground (arith, older, absent))
      | inr (current, at_j) ↦ elim (Bool-cases (precedes value current)) [
        | inl before ↦
            let pair : ordered_pair records index j ≡ true =
              ordered_at records index j value current at at_j
                (precedes-comes_first value current before) in
            let others = goes_before_trans records index j js pair (ground (arith, s)) in
            ground (arith, at_j, before, pair, others, s)
        | inr after ↦
            let ih =
              is_sorted-insert_listener records value index js at (ground (arith, older))
                (ground (arith, s)) in
            let turn = comes_first-precedes value current (ground (arith, older, at_j)) after in
            let pair : ordered_pair records j index ≡ true =
              ordered_at records j index current value at_j at turn in
            let moved = goes_before-insert_listener records value index j js in
            ground (arith, at_j, after, ih, pair, moved, s)
      ]
    ]
