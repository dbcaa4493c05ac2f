-- ===== src/Arm64/Tests.antt =====
-- The AArch64 walk on a function of three instructions (src/interceptor/arm64_bridge.cpp).
use dart_plant.Prelude.{ℕ, ◌+◌, ◌%◌, ◌^◌, ◌≡◌, refl, true, false, List, [], ◌∷◌, some, arith}
use dart_plant.Arm64.Decode.{
  Branch, decode_direct_branch, encode_direct_branch, is_dart_return, is_terminal_trap,
  is_indirect_branch,
}
use dart_plant.Arm64.Decode.RoundTrip.{decode_direct_branch-encode_direct_branch}
use dart_plant.Arm64.Flow.{
  visit, successors, fall_through, return_at, refused, collected, collect_reachable_returns,
}
use dart_plant.Arm64.Flow.Sites.{Patch, unique_by_address, sorted_by_address}
use dart_plant.Arm64.Patches.{Code, WriteAnswers}
use dart_plant.Status.{ok}
use dart_plant.Arm64.Patches.Install.{Request, install_returns}
use dart_plant.Arm64.Patches.Pristine.{pristine_word}
use dart_plant.Arm64.Patches.Kept.{install_returns-pristine_word}
use dart_plant.Arm64.Patches.Restore.{restore_returns}
use dart_plant.Arm64.Patches.Restored.{expected_word, restore_returns-expected_word}
use dart_plant.Arm64.Flow.Exact.{Answers, collect_reachable_returns-Answers}

-- `CBZ x0, +8`, then two returns.
abbrev three : List ℕ
three = 64 ∷ 0 ∷ 0 ∷ 180 ∷ 192 ∷ 3 ∷ 95 ∷ 214 ∷ 192 ∷ 3 ∷ 95 ∷ 214 ∷ []

abbrev fresh_at : ℕ → Patch
fresh_at address = record {
  address = address;
  original_instruction = 3596551104;
  patched_instruction = 0;
  consumers = 0;
}

three_collected :
    collect_reachable_returns three 4096 ≡ collected (fresh_at 4100 ∷ fresh_at 4104 ∷ [])
unfolding collect_reachable_returns successors fall_through is_dart_return is_terminal_trap
    is_indirect_branch decode_direct_branch unique_by_address sorted_by_address return_at visit
three_collected = refl

-- A start that is not aligned is refused.
unaligned_refused : collect_reachable_returns three 4097 ≡ refused
unfolding collect_reachable_returns
unaligned_refused = refl

encoded_4096 : encode_direct_branch 4096 8192 ≡ some 335545344
unfolding encode_direct_branch
encoded_4096 = refl

decode_direct_branch-encode_direct_branch_example :
    ((b : Branch) × (decode_direct_branch 335545344 ≡ some b)
      × (b.conditional ≡ false)
      × ((4096 + b.delta) % 2 ^ 64 ≡ 8192))
    × (is_dart_return 335545344 ≡ false)
    × (is_terminal_trap 335545344 ≡ false)
    × (is_indirect_branch 335545344 ≡ false)
decode_direct_branch-encode_direct_branch_example =
    decode_direct_branch-encode_direct_branch 4096 8192 335545344 (omega arith) (omega arith)
      encoded_4096

collect_reachable_returns-Answers_example :
    Answers three 4096 (collect_reachable_returns three 4096)
collect_reachable_returns-Answers_example = collect_reachable_returns-Answers three 4096

-- A return at 4100 that branches to a veneer, held by one hook, and one at 4104 that two hold.
abbrev patch_at : ℕ → ℕ → Patch
patch_at address consumers = record {
  address = address;
  original_instruction = 3596551104;
  patched_instruction = 335545344;
  consumers = consumers;
}

abbrev patched : Code
patched = record {
  machine = record { memory = λ _. 335545344; writes = 0 };
  payload = record {
    start = 4096;
    instructions_length = 12;
    pristine_bytes = three;
    return_entry = 8192;
    return_entry_published = true;
    return_patches = patch_at 4100 1 ∷ patch_at 4104 2 ∷ [];
    return_interception_consumers = 2;
  };
  owner = record { payload_return_consumer = true; payload_return_sites = 4100 ∷ 4104 ∷ [] };
}

abbrev writable : WriteAnswers
writable _ = (true, true)

patched_restored : (restore_returns writable patched).1 ≡ true
unfolding restore_returns
patched_restored = refl

restore_returns-expected_word_example :
    (restore_returns writable patched).0.machine.memory 4100 ≡ expected_word patched 4100
restore_returns-expected_word_example =
    restore_returns-expected_word writable patched 4100 refl patched_restored

-- The function without patches, and what its installation is given.
abbrev fresh_code : Code
fresh_code = record {
  machine = record { memory = λ _. 3596551104; writes = 0 };
  payload = record {
    start = 4096;
    instructions_length = 12;
    pristine_bytes = three;
    return_entry = 0;
    return_entry_published = false;
    return_patches = [];
    return_interception_consumers = 0;
  };
  owner = record { payload_return_consumer = false; payload_return_sites = [] };
}

abbrev request : Request
request = record { answers = writable; stub = 8192; can_reserve = true; can_retain = true }

fresh_installed : (install_returns request 4096 12 fresh_code).1 ≡ ok
unfolding install_returns collect_reachable_returns successors is_dart_return is_terminal_trap
    is_indirect_branch decode_direct_branch fall_through unique_by_address sorted_by_address
    return_at encode_direct_branch
fresh_installed = refl

install_returns-pristine_word_example :
    pristine_word (install_returns request 4096 12 fresh_code).0 4100
    ≡ pristine_word fresh_code 4100
install_returns-pristine_word_example =
    install_returns-pristine_word request 4096 12 fresh_code 4100 (λ n e. e)
