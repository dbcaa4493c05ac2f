-- ===== src/Images/Tests.antt =====
-- A root image and a deferred image.
use dart_plant.Images.Resolve.{file_offset, elf_va, resolve, resolve-IsLocatedIn}
use dart_plant.Images.Compare.{
  same_deferred_load_states, HasLoadState, same_deferred_load_states-HasLoadState,
}
use dart_plant.Prelude.{
  get_elem?, ◌<◌, ◌-◌, ℕ, ◌+◌, ◌≤◌, ◌≡◌, refl, true, false, Option, none, some, [], ◌∷◌, arith,
}
use dart_plant.Images.Module.{
  ExecutableRange, ModuleImage, Snapshot, contains_executable, matches, same_module, same_snapshot,
  same_hash, compatible_with_root, ranges_overlap,
}
use dart_plant.Images.Image.{Image, root, deferred, contains_runtime_range, same_image_identity}
use dart_plant.Images.Set.{
  ImageSet, cleared, new_image, set_root, add_deferred, find_by_id, find_root,
  find_by_runtime_range, reconcile,
}
use dart_plant.Images.Set.Owners.{IsSurvivor, reconcile-IsSurvivor}
use dart_plant.Images.Set.Separate.{IsSeparate, add_deferred-IsSeparate, find_by_runtime_range-get}
use dart_plant.Images.Receipts.{begin_drain, retire, preserve_semantic_bindings}
use dart_plant.Images.Receipts.Retired.{begin_drain-retire}
use dart_plant.Images.Receipts.Preserved.{HasReceipts, preserve_semantic_bindings-HasReceipts}

abbrev range_at : ℕ → ExecutableRange
range_at start = record {
  start = start;
  end = start + 4096;
  file_offset = 0;
  virtual_address = 0;
  file_size = 4096;
}

abbrev module_at : ℕ → ℕ → ModuleImage
module_at name start = record {
  name = name ∷ [];
  path = 47 ∷ name ∷ [];
  build_id = 65 ∷ [];
  load_bias = start;
  executable_ranges = range_at start ∷ [];
}

abbrev snapshot_at : ℕ → ℕ → Option ℕ → Snapshot
snapshot_at name start hash = record {
  module_name = name ∷ [];
  module_path = 47 ∷ name ∷ [];
  module_build_id = 97 ∷ [];
  snapshot_hash = 1 ∷ [];
  snapshot_features = 2 ∷ [];
  profile_name = 3 ∷ [];
  isolate_instructions_va = 64;
  isolate_instructions_size = 256;
  isolate_instructions_runtime = start;
  compressed_pointers = true;
  deferred_program_hash = hash;
}

abbrev root_image : Image
root_image = new_image 1 1 root 1 9 (module_at 97 4096) (snapshot_at 97 4096 none)

abbrev part_image : Image
part_image = new_image 2 2 deferred 2 9 (module_at 98 8192) (snapshot_at 98 8192 (some 7))

abbrev root_alone : ImageSet
root_alone = record {
  next_id = 2;
  next_incarnation_epoch = 2;
  root_id = 1;
  images = root_image ∷ [];
}

abbrev both : ImageSet
both = record {
  next_id = 3;
  next_incarnation_epoch = 3;
  root_id = 1;
  images = root_image ∷ part_image ∷ [];
}

-- The part is mapped at another address.
abbrev moved : ImageSet
moved = record {
  next_id = 3;
  next_incarnation_epoch = 3;
  root_id = 1;
  images =
      root_image
      ∷ new_image 2 2 deferred 2 9 (module_at 98 16384) (snapshot_at 98 16384 (some 7))
      ∷ [];
}

abbrev refreshed : ImageSet
refreshed = record {
  next_id = 3;
  next_incarnation_epoch = 4;
  root_id = 1;
  images =
      root_image
      ∷ new_image 2 3 deferred 2 9 (module_at 98 16384) (snapshot_at 98 16384 (some 7))
      ∷ [];
}

root_set : set_root cleared (module_at 97 4096) (snapshot_at 97 4096 none) 9 ≡ (root_alone, true)
unfolding set_root contains_executable matches
root_set = refl

part_added :
    add_deferred root_alone (module_at 98 8192) (snapshot_at 98 8192 (some 7)) 2 9 ≡ (both, true)
unfolding add_deferred find_root find_by_id contains_executable matches same_module same_hash
    compatible_with_root ranges_overlap
part_added = refl

moves : reconcile moved both ≡ (refreshed, true)
unfolding reconcile same_image_identity same_module same_snapshot
moves = refl

in_part : contains_runtime_range part_image 8200 4 ≡ true
unfolding contains_runtime_range contains_executable
in_part = refl

root-IsSeparate : IsSeparate root_alone.images
root-IsSeparate = (tt, tt)

reconcile-IsSurvivor_example : IsSurvivor both.images root_image × (3 ≤ 4)
reconcile-IsSurvivor_example =
    reconcile-IsSurvivor moved both refreshed 0 root_image (omega arith) moves refl (omega arith)

add_deferred-IsSeparate_example :
    IsSeparate
      (add_deferred root_alone (module_at 98 8192) (snapshot_at 98 8192 (some 7)) 2 9).0.images
    × IsSeparate (set_root root_alone (module_at 98 8192) (snapshot_at 98 8192 (some 7)) 9).0.images
add_deferred-IsSeparate_example =
    add_deferred-IsSeparate root_alone (module_at 98 8192) (snapshot_at 98 8192 (some 7)) 2 9
      root-IsSeparate

both-IsSeparate : IsSeparate both.images
unfolding add_deferred set_root find_root find_by_id contains_executable matches same_module
    same_hash compatible_with_root ranges_overlap
both-IsSeparate =
    (add_deferred-IsSeparate root_alone (module_at 98 8192) (snapshot_at 98 8192 (some 7)) 2 9
      root-IsSeparate).0

find_by_runtime_range-get_example : find_by_runtime_range both 8200 4 ≡ some part_image
find_by_runtime_range-get_example =
    find_by_runtime_range-get both 1 part_image 8200 4 both-IsSeparate refl in_part

begin_drain-retire_example : begin_drain (retire both 2 2).0 2 2 ≡ ((retire both 2 2).0, false)
begin_drain-retire_example = begin_drain-retire both 2 2

abbrev observed : ImageSet
observed = record both {
  images =
      record root_image { live_entry_count = 5 } ∷ record part_image { live_entry_count = 6 } ∷ [];
}

preserve_semantic_bindings-HasReceipts_example :
    HasReceipts observed.images root_image (record root_image { live_entry_count = 5 })
unfolding preserve_semantic_bindings same_image_identity same_module same_snapshot
preserve_semantic_bindings-HasReceipts_example =
    preserve_semantic_bindings-HasReceipts refreshed observed 0 root_image
      (record root_image { live_entry_count = 5 }) refl refl

offset_16 : resolve (module_at 97 4096) file_offset 16 ≡ some 4112
unfolding resolve
offset_16 = refl

resolve-IsLocatedIn_example :
    (i : ℕ) × (r : ExecutableRange) × (get_elem? (module_at 97 4096).executable_ranges i ≡ some r)
    × (r.file_offset ≤ 16)
    × (16 < r.file_offset + r.file_size)
    × (resolve (module_at 97 4096) elf_va (r.virtual_address + (16 - r.file_offset)) ≡ some 4112)
resolve-IsLocatedIn_example =
    resolve-IsLocatedIn (module_at 97 4096) 16 4112 (omega arith) offset_16

same_loads : same_deferred_load_states both both ≡ true
unfolding same_deferred_load_states find_by_id
same_loads = refl

same_deferred_load_states-HasLoadState_example : HasLoadState both.images part_image
same_deferred_load_states-HasLoadState_example =
    same_deferred_load_states-HasLoadState both both 1 part_image same_loads refl refl
