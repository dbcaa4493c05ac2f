-- ===== src/Prelude/Threads.antt =====
-- Numbered threads, each at a place of its own: one moves, and places are counted by weight.
use Prim.Native.Nat.{ℕ, zero, suc, ◌+◌, ◌≤◌, ◌<◌}
use mathlib.Core.Path.{◌≡◌, refl}
use mathlib.Core.Logic.{ite}
use native.Mathlib.Decide.{ℕ_discrete, dec_lt}
use native.Mathlib.Omega.{arith}

-- Thread `i` goes to `p`; the others stay.
abbrev pub move {ℓ} : {P : Type ℓ} → (ℕ → P) → ℕ → P → ℕ → P
move at i p j = ite (ℕ_discrete j i) p (at j)

module _ {ℓ} {P : Type ℓ} (weigh : P → ℕ) where
  unfoldable pub weight : ℕ → (ℕ → P) → ℕ
  weight zero at = 0
  weight (suc n) at = weigh (at n) + weight n at

  weight-move_above :
      (n : ℕ) (at : ℕ → P) (i : ℕ) (p : P) → n ≤ i → weight n (move at i p) ≡ weight n at
  unfolding weight
  weight-move_above zero at i p h = refl
  weight-move_above (suc n) at i p h = ground (arith, weight-move_above n at i p)

  -- A move exchanges the weight of the old place for that of the new one.
  pub weight-move :
      (n : ℕ) (at : ℕ → P) (i : ℕ) (p : P)
      → i < n
      → weight n (move at i p) + weigh (at i) ≡ weigh p + weight n at
  unfolding weight
  weight-move zero at i p h = absurd (omega arith)
  weight-move (suc n) at i p h = elim (dec_lt i n) [
    | yes inner ↦ ground (arith, weight-move n at i p inner)
    | no top ↦ ground (arith, weight-move_above n at i p)
  ]

  pub weigh-le-weight : (n : ℕ) (at : ℕ → P) (i : ℕ) → i < n → weigh (at i) ≤ weight n at
  unfolding weight
  weigh-le-weight zero at i h = absurd (omega arith)
  weigh-le-weight (suc n) at i h = elim (dec_lt i n) [
    | yes inner ↦ omega (arith, weigh-le-weight n at i inner)
    | no top ↦ ground arith
  ]

  pub weight-still : (n : ℕ) (p : P) → weigh p ≡ 0 → weight n (λ _. p) ≡ 0
  unfolding weight
  weight-still zero p h = refl
  weight-still (suc n) p h = omega (arith, weight-still n p h)
