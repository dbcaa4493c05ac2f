-- ===== src/Arm64/Flow/Terminates.antt =====
-- The walk never runs out of fuel.
use dart_plant.Prelude.{
  ℕ, zero, suc, ◌+◌, ◌*◌, ◌/◌, ◌≡◌, ◌≢◌, ◌<◌, ◌≤◌, refl, Bool, true, false, none, some, List, [],
  ◌∷◌, length, length-append, get_or, set, replicate, arith, Bool-cases, Option-cases, inl, inr,
  List-cases,
}
use dart_plant.Arm64.Flow.{
  Body, Walk, Outcome, out_of_fuel, refused, collected, fall_through, successors, visit, explore,
  finish, first_walk, enough_fuel, is_bad_range, body_of, collect_reachable_returns,
}
use dart_plant.Arm64.Flow.Sites.{unique_by_address, sorted_by_address}

unfoldable unvisited : List Bool → ℕ
unvisited [] = 0
unvisited (true ∷ rest) = unvisited rest
unvisited (false ∷ rest) = suc (unvisited rest)

unvisited-set :
    (visited : List Bool) (i : ℕ)
    → get_or visited i true ≡ false
    → suc (unvisited (set visited i true)) ≡ unvisited visited
unfolding unvisited
unvisited-set [] i e = ground arith
unvisited-set (true ∷ rest) zero e = ground arith
unvisited-set (false ∷ rest) zero e = refl
unvisited-set (true ∷ rest) (suc i) e = unvisited-set rest i e
unvisited-set (false ∷ rest) (suc i) e = omega (arith, unvisited-set rest i e)

unvisited-replicate : (n : ℕ) → unvisited (replicate n false) ≡ n
unfolding unvisited
unvisited-replicate zero = refl
unvisited-replicate (suc n) = omega (arith, unvisited-replicate n)

length-successors :
    (body : Body) (i : ℕ) (next : List ℕ) → successors body i ≡ some next → length next ≤ 2
unfolding successors fall_through
length-successors body i next e = ground (arith, e)

abbrev work : Walk → ℕ
work walk = 2 * unvisited walk.visited + length walk.pending

work-visit :
    (body : Body) (walk after : Walk) (i : ℕ) (rest : List ℕ)
    → visit body walk i rest ≡ some after
    → work after < 2 * unvisited walk.visited + suc (length rest)
unfolding visit
work-visit body walk after i rest e = elim (Bool-cases (get_or walk.visited i true)) [
  | inl seen ↦ ground arith
  | inr unseen ↦ elim (Option-cases (successors body i)) [
    | inl stuck ↦ ground arith
    | inr (next, is) ↦
        let short = length-successors body i next is in
        let fewer = unvisited-set walk.visited i unseen in
        let long = length-append next rest in ground (arith, short, fewer, long)
  ]
]

pub explore_empty :
    (body : Body) (fuel : ℕ) (walk : Walk)
    → walk.pending ≡ []
    → explore body fuel walk ≡ collected walk.out_returns
unfolding explore
explore_empty body zero walk e = rw (e, explore) refl
explore_empty body (suc more) walk e = rw (e, explore) refl

pub explore_starved :
    (body : Body) (i : ℕ) (walk : Walk) (rest : List ℕ)
    → walk.pending ≡ i ∷ rest
    → explore body 0 walk ≡ out_of_fuel
unfolding explore
explore_starved body i walk rest e = ground arith

pub explore-refused :
    (body : Body) (more i : ℕ) (walk : Walk) (rest : List ℕ)
    → walk.pending ≡ i ∷ rest
    → visit body walk i rest ≡ none
    → explore body (suc more) walk ≡ refused
unfolding explore
explore-refused body more i walk rest e stuck = ground arith

pub explore-visit :
    (body : Body) (more i : ℕ) (walk after : Walk) (rest : List ℕ)
    → walk.pending ≡ i ∷ rest
    → visit body walk i rest ≡ some after
    → explore body (suc more) walk ≡ explore body more after
unfolding explore
explore-visit body more i walk after rest e stuck = ground arith

explore-terminates :
    (body : Body) (fuel : ℕ) (walk : Walk) → work walk ≤ fuel → explore body fuel walk ≢ out_of_fuel
explore-terminates body zero walk w = elim (List-cases walk.pending) [
  | inl empty ↦ rw (explore_empty body 0 walk empty) (ground arith)
  | inr (i, rest, is) ↦
      let long : length walk.pending ≡ suc (length rest) = rw is refl in
      absurd (omega (arith, w, long))
]
explore-terminates body (suc more) walk w = elim (List-cases walk.pending) [
  | inl empty ↦ rw (explore_empty body (suc more) walk empty) (ground arith)
  | inr (i, rest, is) ↦
      let long : length walk.pending ≡ suc (length rest) = rw is refl in
      elim (Option-cases (visit body walk i rest)) [
        | inl stuck ↦ rw (explore-refused body more i walk rest is stuck) (ground arith)
        | inr (after, e) ↦
            let less = work-visit body walk after i rest e in
            let rec = explore-terminates body more after (omega (arith, less, long, w)) in
            rw (explore-visit body more i walk after rest is e) rec
      ]
]

finish-total : (outcome : Outcome) → outcome ≢ out_of_fuel → finish outcome ≢ out_of_fuel
unfolding finish
finish-total out_of_fuel h = h
finish-total refused h = h
finish-total (collected out) h = elim (List-cases (unique_by_address (sorted_by_address out))) [
  | inl empty ↦ ground arith
  | inr (patch, rest, is) ↦ ground arith
]

pub explore_first-terminates :
    (body : Body)
    → explore body (enough_fuel body.instruction_count) (first_walk body.instruction_count)
      ≢ out_of_fuel
explore_first-terminates body =
    let count = body.instruction_count in
    let all = unvisited-replicate count in
    explore-terminates body (enough_fuel count) (first_walk count) (omega (arith, all))

-- For any code and any start, the walk over the code ends within its fuel: it is refused or collects
-- returns.
pub collect_reachable_returns-terminates :
    (code : List ℕ) (start : ℕ) → collect_reachable_returns code start ≢ out_of_fuel
unfolding collect_reachable_returns
collect_reachable_returns-terminates code start = elim (Bool-cases (is_bad_range code start)) [
  | inl bad ↦ rw bad (ground arith)
  | inr fine ↦ rw fine (
      finish-total
        (explore (body_of code start) (enough_fuel (length code / 4))
          (first_walk (length code / 4)))
        (explore_first-terminates (body_of code start)))
]
