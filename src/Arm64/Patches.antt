-- ===== src/Arm64/Patches.antt =====
-- Return interception: the returns of a function are patched to branch to a veneer, and restored
-- (src/interceptor/arm64_bridge.cpp, `DartCodePayload` of src/core/method_model.h, the return fields
-- of `DartPlantHook` in src/core/internal.h). Memory gives the word at each address. The answers of
-- the two `mprotect` calls of each write are arguments, as are the veneer's allocation and whether
-- vectors can grow. Locks are left out: each operation runs under the payload's mutex.
pub mod Install
pub mod Restore
pub mod Restored
pub mod Pristine
pub mod Installed
pub mod RollBack
pub mod Kept
use dart_plant.Prelude.{
  ℕ, suc, ◌+◌, ◌-◌, ◌*◌, ◌/◌, ◌%◌, ◌^◌, ◌==◌, ltb, leb, if◌then◌else◌, Bool, true, false, not, ◌&&◌,
  ◌||◌, Option, none, some, List, [], ◌∷◌, ◌++◌, find_if,
}
use dart_plant.Arm64.Flow.Sites.{Patch}

-- `nth` call of `WriteExecutableInstruction`: whether the page could be made writable, and whether
-- it could be made read-only again.
abbrev pub WriteAnswers : Type 0
WriteAnswers = (nth : ℕ) → Bool × Bool

pub record Machine : Type 0 where
  pub memory : ℕ → ℕ
  pub writes : ℕ

-- `DartCodePayload`
pub record Payload : Type 0 where
  pub start : ℕ
  pub instructions_length : ℕ
  pub pristine_bytes : List ℕ
  pub return_entry : ℕ
  pub return_entry_published : Bool
  pub return_patches : List Patch
  pub return_interception_consumers : ℕ

-- The fields of `DartPlantHook` about its returns
pub record Owner : Type 0 where
  pub payload_return_consumer : Bool
  pub payload_return_sites : List ℕ

pub record Code : Type 0 where
  pub machine : Machine
  pub payload : Payload
  pub owner : Owner

abbrev pub store : (ℕ → ℕ) → ℕ → ℕ → ℕ → ℕ
store memory address word at = if at == address then word else memory at

-- `WriteExecutableInstruction`
unfoldable pub write_instruction : WriteAnswers → Machine → ℕ → ℕ → Machine × Bool
write_instruction answers machine address word =
    let (opens, shuts) = answers machine.writes in
    let writes = suc machine.writes in
    if opens
    then (record { memory = store machine.memory address word; writes = writes }, shuts)
    else (record machine { writes = writes }, false)

abbrev pub is_at : ℕ → Patch → Bool
is_at address patch = patch.address == address

abbrev pub find_patch : ℕ → List Patch → Option Patch
find_patch address patches = find_if (is_at address) patches

-- `RetainPublishedReturnPayload`
unfoldable pub retain_published : Bool → Payload → Payload × Bool
retain_published can_retain payload =
    if payload.return_entry_published
    then (payload, true)
    else if can_retain
    then (record payload { return_entry_published = true }, true)
    else (payload, false)

-- `DestroyUnpublishedReturnEntry`
unfoldable pub destroy_unpublished : Payload → Payload
destroy_unpublished payload =
    if payload.return_entry == 0 || payload.return_entry_published
    then payload
    else record payload { return_entry = 0 }

abbrev pub is_empty {ℓ} : {A : Type ℓ} → List A → Bool
is_empty [] = true
is_empty (x ∷ xs) = false

-- `DestroyUnpublishedReturnEntry`, when no consumer and no patch is left.
unfoldable pub destroy_unused : Payload → Payload
unfolding destroy_unpublished
destroy_unused payload =
    if payload.return_interception_consumers == 0 && is_empty payload.return_patches
    then destroy_unpublished payload
    else payload

-- 32-bit counters
abbrev pub increment : ℕ → ℕ
increment n = (n + 1) % 2 ^ 32

-- The first patch at the address, changed.
unfoldable pub change_patch : (Patch → Patch) → ℕ → List Patch → List Patch
change_patch change address [] = []
change_patch change address (patch ∷ rest) =
    if patch.address == address
    then change patch ∷ rest
    else patch ∷ change_patch change address rest
