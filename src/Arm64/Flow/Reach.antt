-- ===== src/Arm64/Flow/Reach.antt =====
-- The instructions that control flow reaches, independently of the walk, and what a walk has seen
-- (src/interceptor/arm64_bridge.cpp, `CollectReachableArm64Returns`).
use dart_plant.Prelude.{
  ℕ, zero, suc, ◌==◌, ◌≡◌, ◌<◌, refl, Bool, true, false, ◌||◌, some, List, [], ◌∷◌, ◌++◌, length,
  get_or, set, arith,
}
use dart_plant.Arm64.Flow.{Body, Walk, enqueue, fall_through, successors}

-- Whether the list holds the index.
unfoldable pub has : ℕ → List ℕ → Bool
has i [] = false
has i (x ∷ xs) = x == i || has i xs

-- Control flow reaches the first instruction, and each successor of one that it reaches.
pub data Reaches (body : Body) : ℕ → Type 0 where
  entry : Reaches body 0
  onward :
      (i j : ℕ) (targets : List ℕ)
      → Reaches body i
      → successors body i ≡ some targets
      → has j targets ≡ true
      → Reaches body j

pub has-append : (i : ℕ) (xs ys : List ℕ) → has i (xs ++ ys) ≡ (has i xs || has i ys)
unfolding has
has-append i [] ys = refl
has-append i (x ∷ xs) ys = ground (arith, has-append i xs ys)

-- Whether a walk has visited the index or will.
unfoldable pub seen : Walk → ℕ → Bool
seen walk i = get_or walk.visited i false || has i walk.pending

pub get_or-set :
    (visited : List Bool) (i j : ℕ)
    → i < length visited
    → get_or (set visited i true) j false ≡ (i == j || get_or visited j false)
get_or-set [] i j inside = ground arith
get_or-set (v ∷ rest) zero zero inside = refl
get_or-set (v ∷ rest) zero (suc j) inside = ground arith
get_or-set (v ∷ rest) (suc i) zero inside = ground arith
get_or-set (v ∷ rest) (suc i) (suc j) inside = ground (arith, get_or-set rest i j (omega arith))

pub get_or_inside :
    (visited : List Bool) (i : ℕ)
    → i < length visited
    → get_or visited i true ≡ get_or visited i false
get_or_inside [] i inside = ground arith
get_or_inside (v ∷ rest) zero inside = refl
get_or_inside (v ∷ rest) (suc i) inside = get_or_inside rest i (omega arith)

pub successors_inside :
    (body : Body) (i j : ℕ) (targets : List ℕ)
    → successors body i ≡ some targets
    → has j targets ≡ true
    → j < body.instruction_count
unfolding successors fall_through enqueue has
successors_inside body i j targets e h = ground (arith, e, h)
