-- ===== src/Images/Set.antt =====
-- `RuntimeImageSet` (src/runtime/runtime_image_set.cpp). An operation that returns a flag returns it
-- beside the set; identifiers and epochs are 64-bit counters, with 0 for an exhausted one.
pub mod Owners
pub mod Separate
use dart_plant.Prelude.{
  ℕ, zero, suc, ◌+◌, ◌-◌, ◌%◌, ◌^◌, ◌==◌, ltb, leb, if◌then◌else◌, Bool, true, false, not, ◌&&◌,
  ◌||◌, Option, none, some, List, [], ◌∷◌, ◌++◌, find_if, map,
}
use dart_plant.Images.Module.{
  ModuleImage, Snapshot, contains_executable, matches, same_module, same_hash, compatible_with_root,
  ranges_overlap,
}
use dart_plant.Images.Image.{
  Image, ImageKind, root, deferred, Lifecycle, staged, active, draining, retired, LoadState,
  unbound, is_deferred, same_kind, contains_runtime_range, same_image_identity,
}

-- `RuntimeImageSet`
pub record ImageSet : Type 0 where
  pub next_id : ℕ
  pub next_incarnation_epoch : ℕ
  pub root_id : ℕ
  pub images : List Image

-- A counter after an increment
abbrev pub next : ℕ → ℕ
next n = (n + 1) % 2 ^ 64

-- `AllocateId` and `AllocateIncarnationEpoch`: what the counter is afterwards.
abbrev pub advance : ℕ → ℕ
advance n = if n == 0 then 0 else next n

-- `Clear`, and the set of a new object
abbrev pub cleared : ImageSet
cleared = record { next_id = 1; next_incarnation_epoch = 1; root_id = 0; images = [] }

-- The image that `SetRoot` and `AddDeferred` build.
abbrev pub new_image : ℕ → ℕ → ImageKind → ℕ → ℕ → ModuleImage → Snapshot → Image
new_image id epoch kind unit generation m snapshot = record {
  id = id;
  incarnation_epoch = epoch;
  kind = kind;
  loading_unit_id = unit;
  runtime_generation = generation;
  engine_incarnation_epoch = 0;
  isolate_group_incarnation_epoch = 0;
  lifecycle = staged;
  live_entry_count = 0;
  deferred_program_hash_vm_bound = false;
  deferred_load_state = unbound;
  module_image = m;
  snapshot = snapshot;
}

-- The tests that both operations make of a module and its snapshot.
usable : ModuleImage → Snapshot → Bool
usable m s =
    matches s m
    && (not (s.isolate_instructions_size == 0)
        && contains_executable m s.isolate_instructions_runtime s.isolate_instructions_size)

-- `SetRoot`
unfoldable pub set_root : ImageSet → ModuleImage → Snapshot → ℕ → ImageSet × Bool
unfolding usable
set_root s m snapshot generation =
    if usable m snapshot
    then (
      record {
        next_id = 2;
        next_incarnation_epoch = 2;
        root_id = 1;
        images = new_image 1 1 root 1 generation m snapshot ∷ [];
      },
      true,
    )
    else (cleared, false)

-- `FindById`
unfoldable pub find_by_id : ImageSet → ℕ → Option Image
find_by_id s id = if id == 0 then none else find_if (λ i. i.id == id) s.images

-- `Root`
unfoldable pub find_root : ImageSet → Option Image
unfolding find_by_id
find_root s = find_by_id s s.root_id

-- `FindByLoadingUnitId`
unfoldable pub find_by_loading_unit_id : ImageSet → ℕ → Option Image
find_by_loading_unit_id s unit = find_if (λ i. i.loading_unit_id == unit) s.images

-- The single image that passes a test, after `selected`
select : (Image → Bool) → Option Image → List Image → Option Image
select test selected [] = selected
select test none (i ∷ is) = select test (if test i then some i else none) is
select test (some before) (i ∷ is) =
    let rest = select test (some before) is in if test i then none else rest

-- `FindByRuntimeRange`
unfoldable pub find_by_runtime_range : ImageSet → ℕ → ℕ → Option Image
unfolding select
find_by_runtime_range s address size =
    select (λ i. contains_runtime_range i address size) none s.images

-- `FindByModule`
unfoldable pub find_by_module : ImageSet → ModuleImage → Option Image
unfolding select
find_by_module s m = select (λ i. same_module i.module_image m) none s.images

-- The tests of the loop of `AddDeferred` on one image that the set has.
clashes : ModuleImage → Snapshot → ℕ → Image → Bool
clashes m snapshot unit i =
    i.loading_unit_id == unit
    || (same_module i.module_image m
        || (ranges_overlap i.snapshot.isolate_instructions_runtime
              i.snapshot.isolate_instructions_size snapshot.isolate_instructions_runtime
              snapshot.isolate_instructions_size
            || (is_deferred i.kind
                && not
                    (same_hash i.snapshot.deferred_program_hash snapshot.deferred_program_hash))))

any_clash : ModuleImage → Snapshot → ℕ → List Image → Bool
any_clash m snapshot unit [] = false
any_clash m snapshot unit (i ∷ is) = clashes m snapshot unit i || any_clash m snapshot unit is

-- The tests of `AddDeferred` before its loop.
admissible : ImageSet → ModuleImage → Snapshot → ℕ → Bool
unfolding usable
admissible s m snapshot unit = elim (find_root s) [
  | none ↦ false
  | some r ↦
      ltb 1 unit
      && (usable m snapshot
          && (compatible_with_root r.snapshot snapshot
              && not (same_hash snapshot.deferred_program_hash none)))
]

-- `AddDeferred`; the allocations are made even if one of them fails.
unfoldable pub add_deferred : ImageSet → ModuleImage → Snapshot → ℕ → ℕ → ImageSet × Bool
unfolding admissible any_clash clashes
add_deferred s m snapshot unit generation =
    if not (admissible s m snapshot unit) || any_clash m snapshot unit s.images
    then (s, false)
    else let allocated = record s {
      next_id = advance s.next_id;
      next_incarnation_epoch = advance s.next_incarnation_epoch;
    } in
      if s.next_id == 0 || s.next_incarnation_epoch == 0 then (allocated, false) else (
        record allocated {
          images =
              s.images
              ++ (new_image s.next_id s.next_incarnation_epoch deferred unit generation m snapshot
                  ∷ []);
        },
        true,
      )

-- The tests of `ReconcileOwnershipFrom` on the previous set.
issued_by : ImageSet → List Image → Bool
issued_by previous [] = true
issued_by previous (i ∷ is) =
    (not (i.id == 0)
      && (ltb i.id previous.next_id
          && (not (i.incarnation_epoch == 0)
              && ltb i.incarnation_epoch previous.next_incarnation_epoch)))
    && issued_by previous is

-- An image with the owner it takes from the previous set; 0 where it needs a new one.
inherit : List Image → Image → Image
inherit previous i = elim (find_if (λ old. same_image_identity i old) previous) [
  | some exact ↦ record i { id = exact.id; incarnation_epoch = exact.incarnation_epoch }
  | none ↦
      elim (find_if (λ old. same_kind i.kind old.kind && i.loading_unit_id == old.loading_unit_id)
        previous) [
          | some logical ↦ record i { id = logical.id; incarnation_epoch = 0 }
          | none ↦ record i { id = 0; incarnation_epoch = 0 }
        ]
]

-- One round of the second loop: the image with its owner, and the set with it.
owned : ImageSet → Image → Image
owned s i = record i {
  id = if i.id == 0 then s.next_id else i.id;
  incarnation_epoch =
      if i.incarnation_epoch == 0 then s.next_incarnation_epoch else i.incarnation_epoch;
}

take_in : ImageSet → Image → ImageSet
unfolding owned
take_in s i = record {
  next_id = if i.id == 0 then next s.next_id else s.next_id;
  next_incarnation_epoch =
      if i.incarnation_epoch == 0 then next s.next_incarnation_epoch else s.next_incarnation_epoch;
  root_id = if is_deferred i.kind then s.root_id else (owned s i).id;
  images = s.images ++ (owned s i ∷ []);
}

-- The second loop
number : ImageSet → List Image → ImageSet
number s [] = s
number s (i ∷ is) = number (take_in s i) is

abbrev is_empty : List Image → Bool
is_empty [] = true
is_empty (i ∷ is) = false

-- `ReconcileOwnershipFrom` and `PreserveIdsFrom`
unfoldable pub reconcile : ImageSet → ImageSet → ImageSet × Bool
unfolding issued_by inherit number take_in
reconcile s previous =
    if previous.next_id == 0
      || (previous.next_incarnation_epoch == 0 || not (issued_by previous previous.images))
    then (s, false)
    else let numbered =
        number
          (record {
            next_id = previous.next_id;
            next_incarnation_epoch = previous.next_incarnation_epoch;
            root_id = s.root_id;
            images = [];
          })
          (map (inherit previous.images) s.images) in
      (numbered, is_empty s.images || not (numbered.root_id == 0))

-- The images without the first of this identifier
without : ℕ → List Image → List Image
without id [] = []
without id (i ∷ is) = let rest = without id is in if i.id == id then is else i ∷ rest

-- `RemoveById`
unfoldable pub remove_by_id : ImageSet → ℕ → ImageSet × Bool
unfolding without
remove_by_id s id = elim (find_if (λ i. i.id == id) s.images) [
  | none ↦ (s, false)
  | some i ↦
      if id == s.root_id then (s, false) else (record s { images = without id s.images }, true)
]
