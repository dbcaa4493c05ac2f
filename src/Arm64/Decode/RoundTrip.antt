-- ===== src/Arm64/Decode/RoundTrip.antt =====
-- Encoding a direct branch and decoding it.
use dart_plant.Prelude.{ℕ, ◌+◌, ◌/◌, ◌%◌, ◌^◌, ◌<◌, ◌≡◌, ◌≢◌, refl, true, false, some, arith}
use dart_plant.Arm64.Decode.{
  Branch, bits, sign_extend, times_4, decode_direct_branch, distance, in_reach,
  encode_direct_branch, is_dart_return, is_terminal_trap, is_indirect_branch,
}

encoded :
    (from to word : ℕ)
    → encode_direct_branch from to ≡ some word
    → (distance from to % 4 ≡ 0)
      × (in_reach (distance from to) ≡ true)
      × (word ≡ 335544320 + distance from to / 4 % 2 ^ 26)
unfolding encode_direct_branch
encoded from to word e = ground (arith, e)

-- For a distance in reach, the 26-bit field gives the distance back.
field_back :
    (delta : ℕ)
    → delta < 2 ^ 64
    → delta % 4 ≡ 0
    → in_reach delta ≡ true
    → times_4 (sign_extend (delta / 4 % 2 ^ 26) 26) ≡ delta
unfolding sign_extend
field_back delta small aligned reach = ground arith

-- A word with the opcode of `B` decodes as an unconditional branch.
opcode_b :
    (imm : ℕ)
    → imm < 2 ^ 26
    → decode_direct_branch (335544320 + imm)
      ≡ some (record { delta = times_4 (sign_extend imm 26); conditional = false })
unfolding decode_direct_branch
opcode_b imm small =
    let top : bits (335544320 + imm) 26 6 ≡ 5 = omega (arith, small) in
    let low : bits (335544320 + imm) 0 26 ≡ imm = omega (arith, small) in rw (top, low) refl

plain_b :
    (imm : ℕ)
    → imm < 2 ^ 26
    → (is_dart_return (335544320 + imm) ≡ false)
      × (is_terminal_trap (335544320 + imm) ≡ false)
      × (is_indirect_branch (335544320 + imm) ≡ false)
unfolding is_dart_return is_terminal_trap is_indirect_branch
plain_b imm small =
    let trap : bits (335544320 + imm) 21 11 ≢ 1697 = omega (arith, small) in
    let indirect : bits (335544320 + imm) 25 7 ≢ 107 = omega (arith, small) in
    (ground (arith, small), ground (arith, trap), ground (arith, indirect))

arrives : (from to : ℕ) → from < 2 ^ 64 → to < 2 ^ 64 → (from + distance from to) % 2 ^ 64 ≡ to
arrives from to f t = omega (arith, f, t)

-- A branch that `encode_direct_branch` encodes from one 64-bit address to another is decoded as an
-- unconditional branch over a distance that leads from the first address to the second, and it is no
-- return, trap or indirect branch.
pub decode_direct_branch-encode_direct_branch :
    (from to word : ℕ)
    → from < 2 ^ 64
    → to < 2 ^ 64
    → encode_direct_branch from to ≡ some word
    → ((b : Branch) × (decode_direct_branch word ≡ some b)
        × (b.conditional ≡ false)
        × ((from + b.delta) % 2 ^ 64 ≡ to))
      × (is_dart_return word ≡ false)
      × (is_terminal_trap word ≡ false)
      × (is_indirect_branch word ≡ false)
decode_direct_branch-encode_direct_branch from to word f t e =
    let (aligned, reach, is) = encoded from to word e in
    let delta = distance from to in
    let imm = delta / 4 % 2 ^ 26 in
    let small : imm < 2 ^ 26 = omega arith in
    let back = field_back delta (omega arith) aligned reach in
    let (r, trap, indirect) = plain_b imm small in
    (
      (
        record { delta = times_4 (sign_extend imm 26); conditional = false },
        rw is (opcode_b imm small),
        refl,
        rw back (arrives from to f t),
      ),
      rw is r,
      rw is trap,
      rw is indirect,
    )
