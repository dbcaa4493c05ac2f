-- ===== src/Images/Module.antt =====
-- A mapped module and the snapshot that it holds: the identities (src/core/internal.h,
-- src/elf/module_image.cpp, src/runtime/flutter_snapshot.cpp). Strings are lists of bytes.
use dart_plant.Prelude.{
  ℕ, ◌+◌, ◌-◌, ◌==◌, ltb, leb, if◌then◌else◌, Bool, true, false, not, ◌&&◌, ◌||◌, Option, none,
  some, List, [], ◌∷◌, same_bytes, map,
}
use dart_plant.Elf.Checked.{u64_max}

-- `ExecutableRange`
pub record ExecutableRange : Type 0 where
  pub start : ℕ
  pub end : ℕ
  pub file_offset : ℕ
  pub virtual_address : ℕ
  pub file_size : ℕ

-- `ModuleImage`
pub record ModuleImage : Type 0 where
  pub name : List ℕ
  pub path : List ℕ
  pub build_id : List ℕ
  pub load_bias : ℕ
  pub executable_ranges : List ExecutableRange

-- `FlutterSnapshotSource`
pub record Snapshot : Type 0 where
  pub module_name : List ℕ
  pub module_path : List ℕ
  pub module_build_id : List ℕ
  pub snapshot_hash : List ℕ
  pub snapshot_features : List ℕ
  pub profile_name : List ℕ
  pub isolate_instructions_va : ℕ
  pub isolate_instructions_size : ℕ
  pub isolate_instructions_runtime : ℕ
  pub compressed_pointers : Bool
  pub deferred_program_hash : Option ℕ

any_range : List ExecutableRange → ℕ → ℕ → Bool
any_range [] address end = false
any_range (r ∷ rs) address end = (leb r.start address && leb end r.end) || any_range rs address end

-- `ModuleImage::ContainsExecutable`
unfoldable pub contains_executable : ModuleImage → ℕ → ℕ → Bool
unfolding any_range
contains_executable m address size =
    not (size == 0)
    && (leb address (u64_max - size) && any_range m.executable_ranges address (address + size))

-- ASCII capitals to small letters.
abbrev lower : ℕ → ℕ
lower c = if leb 65 c && leb c 90 then c + 32 else c

-- `FlutterSnapshotSource::Matches`
unfoldable pub matches : Snapshot → ModuleImage → Bool
matches s m =
    same_bytes m.name s.module_name
    && (same_bytes m.path s.module_path
        && same_bytes (map lower m.build_id) (map lower s.module_build_id))

same_range : ExecutableRange → ExecutableRange → Bool
same_range a b =
    a.start == b.start
    && (a.end == b.end
        && (a.file_offset == b.file_offset
            && (a.virtual_address == b.virtual_address && a.file_size == b.file_size)))

same_ranges : List ExecutableRange → List ExecutableRange → Bool
unfolding same_range
same_ranges [] [] = true
same_ranges [] (b ∷ right) = false
same_ranges (a ∷ left) [] = false
same_ranges (a ∷ left) (b ∷ right) = same_range a b && same_ranges left right

-- `SameModule`
unfoldable pub same_module : ModuleImage → ModuleImage → Bool
unfolding same_ranges
same_module a b =
    same_bytes a.name b.name
    && (same_bytes a.path b.path
        && (same_bytes a.build_id b.build_id
            && (a.load_bias == b.load_bias && same_ranges a.executable_ranges b.executable_ranges)))

same_flag : Bool → Bool → Bool
same_flag true b = b
same_flag false b = not b

unfoldable pub same_hash : Option ℕ → Option ℕ → Bool
same_hash none none = true
same_hash none (some b) = false
same_hash (some a) none = false
same_hash (some a) (some b) = a == b

-- `SameSnapshot`
unfoldable pub same_snapshot : Snapshot → Snapshot → Bool
unfolding same_flag same_hash
same_snapshot a b =
    same_bytes a.module_name b.module_name
    && (same_bytes a.module_path b.module_path
        && (same_bytes a.module_build_id b.module_build_id
            && (same_bytes a.snapshot_hash b.snapshot_hash
                && (same_bytes a.snapshot_features b.snapshot_features
                    && (same_bytes a.profile_name b.profile_name
                        && (a.isolate_instructions_va == b.isolate_instructions_va
                            && (a.isolate_instructions_size == b.isolate_instructions_size
                                && (a.isolate_instructions_runtime == b.isolate_instructions_runtime
                                    && (same_flag a.compressed_pointers b.compressed_pointers
                                        && same_hash a.deferred_program_hash
                                            b.deferred_program_hash)))))))))

-- `CompatibleWithRoot`, of the root's snapshot
unfoldable pub compatible_with_root : Snapshot → Snapshot → Bool
unfolding same_flag
compatible_with_root root s =
    same_bytes s.snapshot_hash root.snapshot_hash
    && (same_bytes s.snapshot_features root.snapshot_features
        && (same_bytes s.profile_name root.profile_name
            && same_flag s.compressed_pointers root.compressed_pointers))

-- `RangesOverlap`: a range that is empty or wraps overlaps everything.
unfoldable pub ranges_overlap : ℕ → ℕ → ℕ → ℕ → Bool
ranges_overlap left_start left_size right_start right_size =
    (left_size == 0
      || (right_size == 0
          || (ltb (u64_max - left_start) left_size || ltb (u64_max - right_start) right_size)))
    || (ltb left_start (right_start + right_size) && ltb right_start (left_start + left_size))
