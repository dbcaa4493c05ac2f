-- ===== src/Prelude/Search.antt =====
-- Equality of byte strings, and the first element that passes a test.
use Prim.Native.Nat.{ℕ, suc}
use mathlib.Core.Path.{◌≡◌, refl}
use mathlib.Core.Bool.{Bool, true, false, ◌&&◌}
use mathlib.Core.List.{List, [], ◌∷◌}
use mathlib.Core.Logic.{inl, inr}
use mathlib.Core.Option.{Option, none, some}
use native.Mathlib.Omega.{arith}
use dart_plant.Prelude.Tests.{◌==◌, if◌then◌else◌, Bool-cases}
use dart_plant.Prelude.Lists.{get_elem?}

abbrev pub same_bytes : List ℕ → List ℕ → Bool
same_bytes [] [] = true
same_bytes [] (y ∷ ys) = false
same_bytes (x ∷ xs) [] = false
same_bytes (x ∷ xs) (y ∷ ys) = x == y && same_bytes xs ys

pub same_bytes-eq : (xs ys : List ℕ) → same_bytes xs ys ≡ true → xs ≡ ys
same_bytes-eq [] [] e = refl
same_bytes-eq [] (y ∷ ys) e = ground arith
same_bytes-eq (x ∷ xs) [] e = ground arith
same_bytes-eq (x ∷ xs) (y ∷ ys) e =
    let head : x ≡ y = ground arith in rw (head, same_bytes-eq xs ys (ground arith))

-- `std::find_if`
abbrev pub find_if {ℓ} : {A : Type ℓ} → (A → Bool) → List A → Option A
find_if test [] = none
find_if test (x ∷ xs) = let rest = find_if test xs in if test x then some x else rest

pub find_if-some :
    {A : Type 0} (test : A → Bool) (xs : List A) (a : A)
    → find_if test xs ≡ some a
    → (test a ≡ true) × ((i : ℕ) × (get_elem? xs i ≡ some a))
find_if-some test [] a e = ground arith
find_if-some test (x ∷ xs) a e = elim (Bool-cases (test x)) [
  | inl here ↦ let same : x ≡ a = ground (arith, here, e) in (rw same at here, (0, rw same))
  | inr other ↦
      let (t, (i, at)) = find_if-some test xs a (rw (other, find_if) at e) in (t, (suc i, at))
]
