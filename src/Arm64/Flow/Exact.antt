-- ===== src/Arm64/Flow/Exact.antt =====
-- What the walk answers (src/interceptor/arm64_bridge.cpp, `CollectReachableArm64Returns`).
use dart_plant.Prelude.{
  ℕ, zero, suc, ◌≡◌, ◌≢◌, ◌<◌, ◌↔◌, ◌⊎◌, refl, sym, ◌∙◌, true, false, none, some, List, [], ◌∷◌,
  length-replicate, get_or, replicate, arith, Bool-cases, Option-cases, List-cases, inl, inr, subst,
}
use dart_plant.Arm64.Flow.{
  Body, Walk, Outcome, out_of_fuel, refused, collected, pc_of, successors, visit, explore, finish,
  first_walk, enough_fuel, is_bad_range, body_of, collect_reachable_returns,
}
use dart_plant.Arm64.Flow.Sites.{
  Patch, lists, are_fresh, ascends, ascends-unique_by_address, is_sorted_from-sorted_by_address,
  lists-unique_by_address-sorted_by_address, are_fresh-unique_by_address-sorted_by_address,
  unique_by_address, sorted_by_address,
}
use dart_plant.Arm64.Flow.Reach.{Reaches, entry, onward, has, seen, get_or_inside}
use dart_plant.Arm64.Flow.Invariant.{
  Inv, is_return, Inv-skip, Inv-visit, top_of, seen_top, after_of,
}
use dart_plant.Arm64.Flow.Terminates.{
  explore_empty, explore_starved, explore-refused, explore-visit, explore_first-terminates,
}

-- An instruction that control flow reaches is refused.
abbrev pub IsStuck : Body → Type 0
IsStuck body = (i : ℕ) × Reaches body i × (successors body i ≡ none)

-- The address is that of a return that control flow reaches.
abbrev pub IsReachedReturn : Body → ℕ → Type 0
IsReachedReturn body a = (i : ℕ) × Reaches body i × (is_return body i ≡ true) × (a ≡ pc_of body i)

-- What the loop leaves behind when it ends.
abbrev Explored : Body → Outcome → Type 0
Explored body out_of_fuel = Unit {0}
Explored body refused = IsStuck body
Explored body (collected out) =
    (walk : Walk) × Inv body walk × (walk.pending ≡ []) × (out ≡ walk.out_returns)

visit-Inv :
    (body : Body) (walk after : Walk) (i : ℕ) (rest : List ℕ)
    → walk.pending ≡ i ∷ rest
    → Inv body walk
    → visit body walk i rest ≡ some after
    → Inv body after
unfolding visit
visit-Inv body walk after i rest is inv e =
    let inside_i =
      subst (λ n. i < n) (sym inv.size) (inv.inside i (top_of i walk.pending rest is)) in
    let both = get_or_inside walk.visited i inside_i in
    elim (Bool-cases (get_or walk.visited i true)) [
      | inl old ↦
          let eq : record walk { pending = rest } ≡ after = ground arith in
          subst (λ w. Inv body w) eq (Inv-skip body walk i rest is inv (sym both ∙ old))
      | inr new ↦ elim (Option-cases (successors body i)) [
        | inl stuck ↦ absurd (ground arith)
        | inr (next, s) ↦
            let eq : after_of body walk i rest next ≡ after = ground arith in
            subst (λ w. Inv body w) eq (Inv-visit body walk i rest next is inv s)
      ]
    ]

visit-IsStuck :
    (body : Body) (walk : Walk) (i : ℕ) (rest : List ℕ)
    → walk.pending ≡ i ∷ rest
    → Inv body walk
    → visit body walk i rest ≡ none
    → IsStuck body
unfolding visit
visit-IsStuck body walk i rest is inv e =
    let here = inv.reached i (seen_top walk i (top_of i walk.pending rest is)) in
    (i, here, ground arith)

explore-Explored :
    (body : Body) (fuel : ℕ) (walk : Walk) → Inv body walk → Explored body (explore body fuel walk)
explore-Explored body zero walk inv = elim (List-cases walk.pending) [
  | inl empty ↦
      subst (λ o. Explored body o) (sym (explore_empty body 0 walk empty)) (walk, inv, empty, refl)
  | inr (i, rest, is) ↦ subst (λ o. Explored body o) (sym (explore_starved body i walk rest is)) tt
]
explore-Explored body (suc more) walk inv = elim (List-cases walk.pending) [
  | inl empty ↦
      subst (λ o. Explored body o) (sym (explore_empty body (suc more) walk empty))
        (walk, inv, empty, refl)
  | inr (i, rest, is) ↦ elim (Option-cases (visit body walk i rest)) [
    | inl stuck ↦
        subst (λ o. Explored body o) (sym (explore-refused body more i walk rest is stuck))
          (visit-IsStuck body walk i rest is inv stuck)
    | inr (after, e) ↦
        subst (λ o. Explored body o) (sym (explore-visit body more i walk after rest is e))
          (explore-Explored body more after (visit-Inv body walk after i rest is inv e))
  ]
]

not_seen : (count i : ℕ) → get_or (replicate count false) i false ≡ false
not_seen zero i = refl
not_seen (suc n) zero = refl
not_seen (suc n) (suc i) = not_seen n i

first_walk-Inv :
    (body : Body) → 0 < body.instruction_count → Inv body (first_walk body.instruction_count)
unfolding seen has lists are_fresh
first_walk-Inv body some_code =
    let fresh = not_seen body.instruction_count in
    record {
      size = length-replicate body.instruction_count false;
      inside = λ i h. ground (arith, h);
      reached = λ i h.
          let zero_i : 0 ≡ i = ground (arith, h, fresh i) in
          subst (λ k. Reaches body k) zero_i entry;
      closed = λ i h. absurd (ground (arith, h, fresh i));
      started = ground arith;
      sound = λ a h. absurd (ground (arith, h));
      complete = λ i h r. absurd (ground (arith, h, fresh i));
      fresh = refl;
    }

seen_empty :
    (walk : Walk) (i : ℕ)
    → walk.pending ≡ []
    → seen walk i ≡ true
    → get_or walk.visited i false ≡ true
unfolding seen has
seen_empty walk i empty h = ground (arith, h, empty)

-- When nothing is pending, every instruction that control flow reaches was visited.
Reaches-IsVisited :
    (body : Body) (walk : Walk) (i : ℕ)
    → Inv body walk
    → walk.pending ≡ []
    → Reaches body i
    → get_or walk.visited i false ≡ true
Reaches-IsVisited body walk i inv empty entry = seen_empty walk 0 empty inv.started
Reaches-IsVisited body walk i inv empty (onward j k targets r e h) =
    let visited_j = Reaches-IsVisited body walk j inv empty r in
    let (others, is, all) = inv.closed j visited_j in
    let eq : targets ≡ others = ground arith in
    seen_empty walk i empty (all i (subst (λ ts. has i ts ≡ true) eq h))

not-IsStuck : (body : Body) (walk : Walk) → Inv body walk → walk.pending ≡ [] → ¬ IsStuck body
not-IsStuck body walk inv empty (i, r, stuck) =
    let (targets, is, all) = inv.closed i (Reaches-IsVisited body walk i inv empty r) in
    ground arith

lists-IsReachedReturn :
    (body : Body) (walk : Walk) (a : ℕ)
    → Inv body walk
    → walk.pending ≡ []
    → (lists a walk.out_returns ≡ true) ↔ IsReachedReturn body a
unfolding seen
lists-IsReachedReturn body walk a inv empty = (
  λ h.
      let (i, visited_i, r, at) = inv.sound a h in
      (i, inv.reached i (ground (arith, visited_i)), r, at),
  λ (i, reach, r, at). rw at (inv.complete i (Reaches-IsVisited body walk i inv empty reach) r),
)

-- The patches are the returns that control flow reaches, fresh and in order.
abbrev pub AreReturns : Body → List Patch → Type 0
AreReturns body patches =
    (ascends patches ≡ true)
    × (are_fresh patches ≡ true)
    × ((a : ℕ) → (lists a patches ≡ true) ↔ IsReachedReturn body a)

-- What an outcome of the walk says of the code: the returns are exactly those that control flow
-- reaches, as fresh patches in order, and no instruction that it reaches is refused; or, when the
-- walk is refused, the range is bad, such an instruction is, or it reaches no return.
abbrev pub Answers : List ℕ → ℕ → Outcome → Type 0
Answers code start out_of_fuel = ⊥
Answers code start refused =
    (is_bad_range code start ≡ true)
    ⊎ (IsStuck (body_of code start) ⊎ (¬ ((a : ℕ) × IsReachedReturn (body_of code start) a)))
Answers code start (collected patches) =
    (is_bad_range code start ≡ false)
    × (¬ IsStuck (body_of code start))
    × AreReturns (body_of code start) patches

AreReturns-unique_by_address :
    (body : Body) (walk : Walk)
    → Inv body walk
    → walk.pending ≡ []
    → AreReturns body (unique_by_address (sorted_by_address walk.out_returns))
AreReturns-unique_by_address body walk inv empty =
    let out = walk.out_returns in
    (
      ascends-unique_by_address (sorted_by_address out) (is_sorted_from-sorted_by_address out),
      are_fresh-unique_by_address-sorted_by_address out inv.fresh,
      λ a.
          subst (λ b. (b ≡ true) ↔ IsReachedReturn body a)
            (sym (lists-unique_by_address-sorted_by_address a out))
            (lists-IsReachedReturn body walk a inv empty),
    )

finish_empty :
    (out : List Patch)
    → unique_by_address (sorted_by_address out) ≡ []
    → finish (collected out) ≡ refused
unfolding finish
finish_empty out e = ground arith

finish_kept :
    (out : List Patch) (p : Patch) (ps : List Patch)
    → unique_by_address (sorted_by_address out) ≡ p ∷ ps
    → finish (collected out) ≡ collected (p ∷ ps)
unfolding finish
finish_kept out p ps e = ground arith

no_returns : (body : Body) → AreReturns body [] → ¬ ((a : ℕ) × IsReachedReturn body a)
unfolding lists
no_returns body (asc, fresh, exact) (a, r) = ground (arith, (exact a).1 r)

finish-Answers :
    (code : List ℕ) (start : ℕ) (outcome : Outcome)
    → is_bad_range code start ≡ false
    → outcome ≢ out_of_fuel
    → Explored (body_of code start) outcome
    → Answers code start (finish outcome)
unfolding finish
finish-Answers code start out_of_fuel fine total found = absurd (total refl)
finish-Answers code start refused fine total found = inr (inl found)
finish-Answers code start (collected out) fine total (walk, inv, empty, same) =
    let body = body_of code start in
    let patches = unique_by_address (sorted_by_address out) in
    let good : AreReturns body patches =
      subst (λ o. AreReturns body (unique_by_address (sorted_by_address o))) (sym same)
        (AreReturns-unique_by_address body walk inv empty) in
    elim (List-cases patches) [
      | inl nothing ↦
          subst (λ o. Answers code start o) (sym (finish_empty out nothing))
            (inr (inr (no_returns body (subst (λ ps. AreReturns body ps) nothing good))))
      | inr (p, ps, is) ↦
          subst (λ o. Answers code start o) (sym (finish_kept out p ps is))
            (fine, not-IsStuck body walk inv empty, subst (λ ps. AreReturns body ps) is good)
    ]

-- For any code and start, the walk ends within its fuel. When it collects returns, they are fresh
-- patches in ascending order, at exactly the addresses of the returns that control flow reaches from
-- the first instruction, and control flow reaches no instruction that is refused. When it is
-- refused, the range is bad, or control flow reaches a refused instruction or no return.
pub collect_reachable_returns-Answers :
    (code : List ℕ) (start : ℕ) → Answers code start (collect_reachable_returns code start)
unfolding collect_reachable_returns is_bad_range
collect_reachable_returns-Answers code start = elim (Bool-cases (is_bad_range code start)) [
  | inl bad ↦
      let eq : collect_reachable_returns code start ≡ refused = ground (arith, bad) in
      subst (λ o. Answers code start o) (sym eq) (inl bad)
  | inr fine ↦
      let body = body_of code start in
      let count = body.instruction_count in
      let outcome = explore body (enough_fuel count) (first_walk count) in
      let eq : collect_reachable_returns code start ≡ finish outcome = ground (arith, fine) in
      let some_code : 0 < count = ground (arith, fine) in
      subst (λ o. Answers code start o) (sym eq)
        (finish-Answers code start outcome fine (explore_first-terminates body) (
          explore-Explored body (enough_fuel count) (first_walk count)
            (first_walk-Inv body some_code)))
]
