-- ===== src/Images/Image.antt =====
-- One image of a runtime image set (`RuntimeImage` of src/runtime/runtime_image_set.h).
use dart_plant.Prelude.{
  ℕ, ◌+◌, ◌-◌, ◌==◌, ltb, leb, if◌then◌else◌, Bool, true, false, not, ◌&&◌, ◌||◌, Option, none,
  some,
}
use dart_plant.Elf.Checked.{u64_max}
use dart_plant.Images.Module.{
  ModuleImage, Snapshot, contains_executable, same_module, same_snapshot,
}

-- `RuntimeImageKind`
pub data ImageKind : Type 0 where
  root deferred : ImageKind

-- `RuntimeImageLifecycleState`
pub data Lifecycle : Type 0 where
  staged active draining retired : Lifecycle

-- `RuntimeDeferredLoadState`
pub data LoadState : Type 0 where
  unbound not_loaded loaded : LoadState

-- `RuntimeImage`
pub record Image : Type 0 where
  pub id : ℕ
  pub incarnation_epoch : ℕ
  pub kind : ImageKind
  pub loading_unit_id : ℕ
  pub runtime_generation : ℕ
  pub engine_incarnation_epoch : ℕ
  pub isolate_group_incarnation_epoch : ℕ
  pub lifecycle : Lifecycle
  pub live_entry_count : ℕ
  pub deferred_program_hash_vm_bound : Bool
  pub deferred_load_state : LoadState
  pub module_image : ModuleImage
  pub snapshot : Snapshot

abbrev pub is_deferred : ImageKind → Bool
is_deferred root = false
is_deferred deferred = true

abbrev pub same_kind : ImageKind → ImageKind → Bool
same_kind root b = not (is_deferred b)
same_kind deferred b = is_deferred b

-- `RuntimeImage::ContainsRuntimeRange`
unfoldable pub contains_runtime_range : Image → ℕ → ℕ → Bool
contains_runtime_range i address size =
    let start = i.snapshot.isolate_instructions_runtime in
    let available = i.snapshot.isolate_instructions_size in
    not (size == 0)
    && (not (start == 0)
        && (leb start address
            && (ltb (address - start) available
                && (leb size (available - (address - start))
                    && contains_executable i.module_image address size))))

-- `RuntimeImage::RuntimeAddressToElfVa`
unfoldable pub runtime_address_to_elf_va : Image → ℕ → ℕ → Option ℕ
unfolding contains_runtime_range
runtime_address_to_elf_va i address size =
    let offset = address - i.snapshot.isolate_instructions_runtime in
    if not (contains_runtime_range i address size)
      || ltb (u64_max - offset) i.snapshot.isolate_instructions_va
    then none
    else some (i.snapshot.isolate_instructions_va + offset)

-- `SameImageIdentity`
unfoldable pub same_image_identity : Image → Image → Bool
same_image_identity a b =
    same_kind a.kind b.kind
    && (a.loading_unit_id == b.loading_unit_id
        && (same_module a.module_image b.module_image && same_snapshot a.snapshot b.snapshot))
