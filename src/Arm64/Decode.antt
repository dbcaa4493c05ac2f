-- ===== src/Arm64/Decode.antt =====
-- AArch64 instructions that end or move control flow (src/interceptor/arm64_bridge.cpp). A word is a
-- number below 2 ^ 32. A test of masked bits reads the fields that the mask covers, and a 64-bit
-- signed number is its two's complement below 2 ^ 64.
pub mod RoundTrip
use dart_plant.Prelude.{
  ℕ, ◌+◌, ◌-◌, ◌*◌, ◌/◌, ◌%◌, ◌^◌, ◌==◌, ltb, leb, if◌then◌else◌, Bool, true, false, not, ◌&&◌,
  ◌||◌, Option, none, some,
}

-- The field of `width` bits from bit `low` on.
abbrev pub bits : ℕ → ℕ → ℕ → ℕ
bits word low width = word / 2 ^ low % 2 ^ width

-- `RET x30`
abbrev pub ret : ℕ
ret = 3596551104

-- `IsDartReturn`
unfoldable pub is_dart_return : ℕ → Bool
is_dart_return instruction = instruction == ret

-- `IsTerminalTrap`: mask 0xffe0001f, value 0xd4200000
unfoldable pub is_terminal_trap : ℕ → Bool
is_terminal_trap instruction = bits instruction 21 11 == 1697 && bits instruction 0 5 == 0

-- `SignExtend`: the exclusive or moves a value by the sign bit.
unfoldable pub sign_extend : ℕ → ℕ → ℕ
sign_extend value width =
    if ltb value (2 ^ (width - 1)) then value else value + (2 ^ 64 - 2 ^ width)

-- `IsIndirectBranch`: mask 0xfe000000, value 0xd6000000; bits 21 and 22 tell a returning call.
unfoldable pub is_indirect_branch : ℕ → Bool
is_indirect_branch instruction =
    bits instruction 25 7 == 107
    && not (not (bits instruction 21 1 == 0) && bits instruction 22 1 == 0)

-- The distance of a branch, and whether it is conditional
pub record Branch : Type 0 where
  pub delta : ℕ
  pub conditional : Bool

-- `<< 2` on 64 bits
abbrev pub times_4 : ℕ → ℕ
times_4 n = n * 4 % 2 ^ 64

-- `DecodeDirectBranch`; the masks are 0xfc000000, 0xff000010 and 0x7e000000 twice.
unfoldable pub decode_direct_branch : ℕ → Option Branch
unfolding sign_extend
decode_direct_branch instruction =
    if bits instruction 26 6 == 5
    then some
        (record { delta = times_4 (sign_extend (bits instruction 0 26) 26); conditional = false })
    else if bits instruction 24 8 == 84 && bits instruction 4 1 == 0
    then some
        (record { delta = times_4 (sign_extend (bits instruction 5 19) 19); conditional = true })
    else if bits instruction 25 6 == 26
    then some
        (record { delta = times_4 (sign_extend (bits instruction 5 19) 19); conditional = true })
    else if bits instruction 25 6 == 27
    then some
        (record { delta = times_4 (sign_extend (bits instruction 5 14) 14); conditional = true })
    else none

-- `kArm64BranchReach`
abbrev pub branch_reach : ℕ
branch_reach = 2 ^ 27

-- `to - from` on 64 bits
abbrev pub distance : ℕ → ℕ → ℕ
distance from to = (to + 2 ^ 64 - from) % 2 ^ 64

-- Whether the signed `delta` is above `-kArm64BranchReach` and below `kArm64BranchReach`.
abbrev pub in_reach : ℕ → Bool
in_reach delta = ltb delta branch_reach || ltb (2 ^ 64 - branch_reach) delta

-- `EncodeDirectBranch`
unfoldable pub encode_direct_branch : ℕ → ℕ → Option ℕ
encode_direct_branch from to =
    let delta = distance from to in
    if not (from % 4 == 0) || (not (to % 4 == 0) || (not (delta % 4 == 0) || not (in_reach delta)))
    then none
    else some (335544320 + delta / 4 % 2 ^ 26)
