-- ===== src/Arm64/Flow/Invariant.antt =====
-- What holds of a walk at every turn of the loop (src/interceptor/arm64_bridge.cpp,
-- `CollectReachableArm64Returns`).
use dart_plant.Prelude.{
  ℕ, ◌==◌, ◌≡◌, ◌<◌, refl, sym, Bool, true, false, ◌&&◌, ◌||◌, some, List, ◌∷◌, ◌++◌, length,
  length-set, get_or, set, arith, Bool-cases, inl, inr, subst,
}
use dart_plant.Arm64.Decode.{is_dart_return}
use dart_plant.Arm64.Flow.{Body, Walk, instruction_at, pc_of, successors, return_at}
use dart_plant.Arm64.Flow.Sites.{lists, lists-append, are_fresh, are_fresh-append}
use dart_plant.Arm64.Flow.Reach.{
  Reaches, onward, has, has-append, seen, get_or-set, successors_inside,
}

abbrev pub is_return : Body → ℕ → Bool
is_return body i = is_dart_return (instruction_at body.code i)

-- The successors of the index are there, and the walk has seen them.
abbrev pub IsClosed : Body → Walk → ℕ → Type 0
IsClosed body walk i =
    (targets : List ℕ) × (successors body i ≡ some targets)
    × ((j : ℕ) → has j targets ≡ true → seen walk j ≡ true)

-- The address is that of a visited return.
abbrev pub IsReturn : Body → Walk → ℕ → Type 0
IsReturn body walk a =
    (i : ℕ) × (get_or walk.visited i false ≡ true) × (is_return body i ≡ true) × (a ≡ pc_of body i)

pub record Inv (body : Body) (walk : Walk) : Type 0 where
  pub size : length walk.visited ≡ body.instruction_count
  pub inside : (i : ℕ) → has i walk.pending ≡ true → i < body.instruction_count
  pub reached : (i : ℕ) → seen walk i ≡ true → Reaches body i
  pub closed : (i : ℕ) → get_or walk.visited i false ≡ true → IsClosed body walk i
  pub started : seen walk 0 ≡ true
  pub sound : (a : ℕ) → lists a walk.out_returns ≡ true → IsReturn body walk a
  pub complete :
      (i : ℕ)
      → get_or walk.visited i false ≡ true
      → is_return body i ≡ true
      → lists (pc_of body i) walk.out_returns ≡ true
  pub fresh : are_fresh walk.out_returns ≡ true

return_at-IsFresh : (body : Body) (i : ℕ) → are_fresh (return_at body i) ≡ true
unfolding return_at are_fresh is_dart_return
return_at-IsFresh body i = ground arith

lists-return_at :
    (body : Body) (i a : ℕ) → lists a (return_at body i) ≡ (is_return body i && pc_of body i == a)
unfolding return_at lists
lists-return_at body i a = ground arith

-- An index that was visited before is dropped, and the walk has seen the same.
seen_skip :
    (walk : Walk) (i j : ℕ) (rest : List ℕ)
    → walk.pending ≡ i ∷ rest
    → get_or walk.visited i false ≡ true
    → seen (record walk { pending = rest }) j ≡ seen walk j
unfolding seen has
seen_skip walk i j rest is old = rw is (elim (Bool-cases (i == j)) [
  | inl same ↦
      let eq : i ≡ j = ground arith in
      let old_j : get_or walk.visited j false ≡ true =
        subst (λ k. get_or walk.visited k false ≡ true) eq old in
      rw old_j refl
  | inr other ↦ rw other refl
])

abbrev pub after_of : Body → Walk → ℕ → List ℕ → List ℕ → Walk
after_of body walk i rest next = record {
  visited = set walk.visited i true;
  pending = next ++ rest;
  out_returns = walk.out_returns ++ return_at body i;
}

-- A visit adds what the instruction pushes to what the walk has seen.
seen_visit :
    (body : Body) (walk : Walk) (i j : ℕ) (rest next : List ℕ)
    → walk.pending ≡ i ∷ rest
    → i < length walk.visited
    → seen (after_of body walk i rest next) j ≡ (seen walk j || has j next)
unfolding seen has
seen_visit body walk i j rest next is inside =
    let v = get_or-set walk.visited i j inside in
    let p = has-append j next rest in rw (is, v, p) (ground arith)

pub Inv-skip :
    (body : Body) (walk : Walk) (i : ℕ) (rest : List ℕ)
    → walk.pending ≡ i ∷ rest
    → Inv body walk
    → get_or walk.visited i false ≡ true
    → Inv body (record walk { pending = rest })
unfolding has
Inv-skip body walk i rest is inv old =
    let same = λ (j : ℕ). seen_skip walk i j rest is old in
    record {
      size = inv.size;
      inside = λ j h. inv.inside j (rw is (ground (arith, h)));
      reached = λ j h. inv.reached j (rw (sym (same j)) h);
      closed = λ j h.
          let (targets, e, all) = inv.closed j h in (targets, e, λ k m. rw (same k) (all k m));
      started = rw (same 0) inv.started;
      sound = inv.sound;
      complete = inv.complete;
      fresh = inv.fresh;
    }

pub top_of : (i : ℕ) (pending rest : List ℕ) → pending ≡ i ∷ rest → has i pending ≡ true
unfolding has
top_of i pending rest is = rw is (ground arith)

pub seen_top : (walk : Walk) (i : ℕ) → has i walk.pending ≡ true → seen walk i ≡ true
unfolding seen
seen_top walk i h = ground (arith, h)

inside-visit :
    (body : Body) (walk : Walk) (i j : ℕ) (rest next : List ℕ)
    → walk.pending ≡ i ∷ rest
    → Inv body walk
    → successors body i ≡ some next
    → has j (next ++ rest) ≡ true
    → j < body.instruction_count
unfolding has
inside-visit body walk i j rest next is inv e h = elim (Bool-cases (has j next)) [
  | inl new ↦ successors_inside body i j next e new
  | inr old ↦
      let both = has-append j next rest in inv.inside j (rw is (ground (arith, h, both, old)))
]

reached-visit :
    (body : Body) (walk : Walk) (i j : ℕ) (next : List ℕ)
    → Inv body walk
    → Reaches body i
    → successors body i ≡ some next
    → (seen walk j || has j next) ≡ true
    → Reaches body j
reached-visit body walk i j next inv here e h = elim (Bool-cases (has j next)) [
  | inl new ↦ onward i j next here e new
  | inr old ↦ inv.reached j (ground (arith, h, old))
]

closed-visit :
    (body : Body) (walk : Walk) (i j : ℕ) (rest next : List ℕ)
    → Inv body walk
    → successors body i ≡ some next
    → ((k : ℕ) → seen (after_of body walk i rest next) k ≡ (seen walk k || has k next))
    → (i == j || get_or walk.visited j false) ≡ true
    → IsClosed body (after_of body walk i rest next) j
closed-visit body walk i j rest next inv e same h = elim (Bool-cases (i == j)) [
  | inl new ↦
      let eq : i ≡ j = ground arith in
      (
        next,
        subst (λ k. successors body k ≡ some next) eq e,
        λ k m. rw (same k) (ground (arith, m)),
      )
  | inr old ↦
      let (targets, is, all) = inv.closed j (ground (arith, h, old)) in
      (targets, is, λ k m. rw (same k, all k m) refl)
]

sound-visit :
    (body : Body) (walk : Walk) (i a : ℕ) (rest next : List ℕ)
    → Inv body walk
    → ((j : ℕ) → get_or (set walk.visited i true) j false ≡ (i == j || get_or walk.visited j false))
    → (lists a walk.out_returns || (is_return body i && pc_of body i == a)) ≡ true
    → IsReturn body (after_of body walk i rest next) a
sound-visit body walk i a rest next inv v h = elim (Bool-cases (lists a walk.out_returns)) [
  | inl old ↦
      let (j, seen_j, r, at) = inv.sound a old in (j, rw (v j, seen_j) (ground arith), r, at)
  | inr new ↦
      let r : is_return body i ≡ true = ground (arith, h, new) in
      let at : a ≡ pc_of body i = ground (arith, h, new) in (i, rw (v i) (ground arith), r, at)
]

complete-visit :
    (body : Body) (walk : Walk) (i j : ℕ)
    → Inv body walk
    → (i == j || get_or walk.visited j false) ≡ true
    → is_return body j ≡ true
    → (lists (pc_of body j) walk.out_returns || (is_return body i && pc_of body i == pc_of body j))
      ≡ true
complete-visit body walk i j inv h r = elim (Bool-cases (i == j)) [
  | inl new ↦
      let eq : j ≡ i = ground arith in
      let r_i : is_return body i ≡ true = subst (λ k. is_return body k ≡ true) eq r in
      let at : (pc_of body i == pc_of body j) ≡ true = ground (arith, eq) in
      rw (r_i, at) (ground arith)
  | inr old ↦ rw (inv.complete j (ground (arith, h, old)) r) refl
]

pub Inv-visit :
    (body : Body) (walk : Walk) (i : ℕ) (rest next : List ℕ)
    → walk.pending ≡ i ∷ rest
    → Inv body walk
    → successors body i ≡ some next
    → Inv body (after_of body walk i rest next)
Inv-visit body walk i rest next is inv e =
    let top : has i walk.pending ≡ true = top_of i walk.pending rest is in
    let inside_i : i < length walk.visited = subst (λ n. i < n) (sym inv.size) (inv.inside i top) in
    let here : Reaches body i = inv.reached i (seen_top walk i top) in
    let v = λ (j : ℕ). get_or-set walk.visited i j inside_i in
    let same = λ (j : ℕ). seen_visit body walk i j rest next is inside_i in
    let out = λ (a : ℕ). lists-append a walk.out_returns (return_at body i) in
    record {
      size = rw (length-set walk.visited i true) inv.size;
      inside = λ j h. inside-visit body walk i j rest next is inv e h;
      reached = λ j h. reached-visit body walk i j next inv here e (rw (sym (same j)) h);
      closed = λ j h. closed-visit body walk i j rest next inv e same (rw (sym (v j)) h);
      started = rw (same 0, inv.started) refl;
      sound = λ a h.
          sound-visit body walk i a rest next inv v
            (rw (sym (lists-return_at body i a), sym (out a)) h);
      complete = λ j h r.
          rw (out (pc_of body j), lists-return_at body i (pc_of body j))
            (complete-visit body walk i j inv (rw (sym (v j)) h) r);
      fresh =
          are_fresh-append walk.out_returns (return_at body i) inv.fresh (return_at-IsFresh body i);
    }
