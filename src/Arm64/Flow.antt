-- ===== src/Arm64/Flow.antt =====
-- The walk that finds the return instructions of a function (src/interceptor/arm64_bridge.cpp, and
-- `Arm64ReturnPatch` of src/core/method_model.h). The code is its bytes. The stack of pending
-- indices has its back at the head. A refused walk returns no list, since no caller reads it.
pub mod Sites
pub mod Reach
pub mod Invariant
pub mod Terminates
pub mod Exact
use dart_plant.Prelude.{
  ℕ, zero, suc, ◌+◌, ◌-◌, ◌*◌, ◌/◌, ◌%◌, ◌^◌, ◌==◌, ltb, leb, if◌then◌else◌, Bool, true, false, not,
  ◌&&◌, ◌||◌, Option, none, some, List, [], ◌∷◌, ◌++◌, length, get_or, set, replicate,
}
use dart_plant.Elf.Reader.{field}
use dart_plant.Arm64.Decode.{
  Branch, is_dart_return, is_terminal_trap, is_indirect_branch, decode_direct_branch,
}
use dart_plant.Arm64.Flow.Sites.{Patch, sorted_by_address, unique_by_address}

-- `memcpy` of one instruction
abbrev pub instruction_at : List ℕ → ℕ → ℕ
instruction_at code index = field code (index * 4) 4

-- A function's code, where it starts and how many instructions it has
pub record Body : Type 0 where
  pub code : List ℕ
  pub logical_start : ℕ
  pub instruction_count : ℕ

-- `logical_start + index * sizeof(uint32_t)`
abbrev pub pc_of : Body → ℕ → ℕ
pc_of body index = body.logical_start + index * 4

-- `enqueue`: the index of a target, or none when it lies outside.
unfoldable pub enqueue : Body → ℕ → Option ℕ
enqueue body target =
    let start = body.logical_start in
    let index = (target - start) / 4 in
    if ltb target start
      || (leb (start + body.instruction_count * 4) target || not (target % 4 == 0))
    then none
    else if leb body.instruction_count index
    then none
    else some index

-- The fallthrough instruction, pushed above `pending`.
unfoldable pub fall_through : Body → ℕ → List ℕ → Option (List ℕ)
fall_through body index pending =
    if leb body.instruction_count (index + 1) then none else some ((index + 1) ∷ pending)

-- The indices that one instruction pushes, or none when it is refused.
unfoldable pub successors : Body → ℕ → Option (List ℕ)
unfolding enqueue
successors body index =
    let instruction = instruction_at body.code index in
    if is_dart_return instruction
    then some []
    else if is_terminal_trap instruction
    then some []
    else if is_indirect_branch instruction
    then none
    else elim (decode_direct_branch instruction) [
      | none ↦ fall_through body index []
      | some branch ↦
          let target = (pc_of body index + branch.delta) % 2 ^ 64 in
          if leb (2 ^ 63) target then none else elim (enqueue body target) [
            | none ↦ none
            | some there ↦
                if branch.conditional
                then fall_through body index (there ∷ [])
                else some (there ∷ [])
          ]
    ]

pub record Walk : Type 0 where
  pub visited : List Bool
  pub pending : List ℕ
  pub out_returns : List Patch

-- What one instruction adds to the returns.
unfoldable pub return_at : Body → ℕ → List Patch
return_at body index =
    let instruction = instruction_at body.code index in
    if is_dart_return instruction
    then record {
      address = pc_of body index;
      original_instruction = instruction;
      patched_instruction = 0;
      consumers = 0;
    }
      ∷ []
    else []

-- The body of the loop, for the index on top of the stack and what is left below it.
unfoldable pub visit : Body → Walk → ℕ → List ℕ → Option Walk
visit body walk index rest =
    if get_or walk.visited index true
    then some (record walk { pending = rest })
    else elim (successors body index) [
      | none ↦ none
      | some next ↦ some (record {
        visited = set walk.visited index true;
        pending = next ++ rest;
        out_returns = walk.out_returns ++ return_at body index;
      })
    ]

pub data Outcome : Type 0 where
  out_of_fuel : Outcome
  refused : Outcome
  collected : List Patch → Outcome

-- The loop
unfoldable pub explore : Body → ℕ → Walk → Outcome
unfolding visit
explore body zero walk = elim walk.pending [
  | [] ↦ collected walk.out_returns
  | index ∷ rest ↦ out_of_fuel
]
explore body (suc more) walk = elim walk.pending [
  | [] ↦ collected walk.out_returns
  | index ∷ rest ↦ elim (visit body walk index rest) [
    | none ↦ refused
    | some after ↦ explore body more after
  ]
]

abbrev pub first_walk : ℕ → Walk
first_walk count = record { visited = replicate count false; pending = 0 ∷ []; out_returns = [] }

-- The end of the walk: sorted, without repeats, and not empty.
unfoldable pub finish : Outcome → Outcome
finish out_of_fuel = out_of_fuel
finish refused = refused
finish (collected out) = elim (unique_by_address (sorted_by_address out)) [
  | [] ↦ refused
  | patch ∷ patches ↦ collected (patch ∷ patches)
]

abbrev pub body_of : List ℕ → ℕ → Body
body_of code start = record {
  code = code;
  logical_start = start;
  instruction_count = length code / 4;
}

-- The tests before the walk
unfoldable pub is_bad_range : List ℕ → ℕ → Bool
is_bad_range code start =
    ltb (length code) 4
    || (not (start % 4 == 0)
        || (not (length code % 4 == 0) || ltb (2 ^ 64 - 1 - length code) start))

-- Each instruction pushes at most two indices and is visited once.
abbrev pub enough_fuel : ℕ → ℕ
enough_fuel count = 2 * count + 1

-- `CollectReachableArm64Returns`
unfoldable pub collect_reachable_returns : List ℕ → ℕ → Outcome
unfolding is_bad_range explore finish
collect_reachable_returns code start =
    let count = length code / 4 in
    if is_bad_range code start
    then refused
    else finish (explore (body_of code start) (enough_fuel count) (first_walk count))
