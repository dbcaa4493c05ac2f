-- ===== src/Elf/Checked.antt =====
-- 64-bit arithmetic that refuses to wrap (src/elf/dynamic_view.cpp).
use dart_plant.Prelude.{
  ℕ, ◌+◌, ◌-◌, ◌*◌, ◌/◌, ◌^◌, ◌≤◌, ◌≡◌, ltb, leb, ◌==◌, if◌then◌else◌, Bool, not, ◌&&◌, Option,
  none, some, arith,
}

abbrev pub u64_max : ℕ
u64_max = 2 ^ 64 - 1

-- `RangeFits`
abbrev pub range_fits : ℕ → ℕ → ℕ → Bool
range_fits start size limit = leb start limit && leb size (limit - start)

-- `CheckedAddVa`
unfoldable pub checked_add : ℕ → ℕ → Option ℕ
checked_add base offset = if ltb (u64_max - offset) base then none else some (base + offset)

-- `CheckedMul`
unfoldable pub checked_mul : ℕ → ℕ → Option ℕ
checked_mul left right =
    if not (left == 0) && ltb (u64_max / left) right then none else some (left * right)

-- `CheckedMulAddVa`
unfoldable pub checked_mul_add : ℕ → ℕ → ℕ → Option ℕ
unfolding checked_mul checked_add
checked_mul_add base index stride = elim (checked_mul index stride) [
  | none ↦ none
  | some offset ↦ checked_add base offset
]

-- The sum of two 64-bit words, if and only if it is one.
pub checked_add_lem :
    (base offset : ℕ)
    → offset ≤ u64_max
    → checked_add base offset ≡ (if leb (base + offset) u64_max then some (base + offset) else none)
unfolding checked_add
checked_add_lem base offset h = ground arith
