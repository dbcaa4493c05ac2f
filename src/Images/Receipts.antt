-- ===== src/Images/Receipts.antt =====
-- What a runtime image set records about its images: lifecycle, generation, and the receipts of
-- observations of the VM (src/runtime/runtime_image_set.cpp).
pub mod Retired
pub mod Preserved
use dart_plant.Prelude.{
  ℕ, zero, suc, ◌+◌, ◌-◌, ◌^◌, ◌==◌, if◌then◌else◌, Bool, true, false, not, ◌&&◌, ◌||◌, Option,
  none, some, List, [], ◌∷◌, find_if, map, length, replicate,
}
use dart_plant.Images.Module.{same_hash}
use dart_plant.Images.Image.{
  Image, ImageKind, root, deferred, Lifecycle, staged, active, draining, retired, LoadState,
  unbound, not_loaded, loaded, is_deferred, same_image_identity,
}
use dart_plant.Images.Set.{ImageSet, find_by_id}

abbrev pub is_retired : Lifecycle → Bool
is_retired retired = true
is_retired _ = false

abbrev pub same_state : LoadState → LoadState → Bool
same_state unbound unbound = true
same_state not_loaded not_loaded = true
same_state loaded loaded = true
same_state _ _ = false

-- A loop that ends at the first image that passes the test; `none` when it returns false.
update_first : (Image → Bool) → (Image → Option Image) → List Image → Option (List Image)
update_first test change [] = none
update_first test change (i ∷ is) =
    let rest = update_first test change is in
    if test i
    then (elim (change i) [ none ↦ none | some j ↦ some (j ∷ is) ])
    else (elim rest [ none ↦ none | some js ↦ some (i ∷ js) ])

-- The set with these images and true, or unchanged and false.
finish : ImageSet → Option (List Image) → ImageSet × Bool
finish s none = (s, false)
finish s (some is) = (record s { images = is }, true)

owned_by : ℕ → ℕ → Image → Bool
owned_by id epoch i = i.id == id && i.incarnation_epoch == epoch

drain : Image → Option Image
drain i = if is_retired i.lifecycle then none else some (record i { lifecycle = draining })

-- `BeginDrain`
unfoldable pub begin_drain : ImageSet → ℕ → ℕ → ImageSet × Bool
unfolding update_first finish owned_by drain
begin_drain s id epoch = finish s (update_first (owned_by id epoch) drain s.images)

abbrev retire_image : Image → Option Image
retire_image i = some (record i { lifecycle = retired })

-- `Retire`
unfoldable pub retire : ImageSet → ℕ → ℕ → ImageSet × Bool
unfolding update_first finish owned_by
retire s id epoch = finish s (update_first (owned_by id epoch) retire_image s.images)

-- A loop over all images
abbrev pub with_each : (Image → Image) → ImageSet → ImageSet
with_each change s = record s { images = map change s.images }

-- `ActivateAll`
unfoldable pub activate_all : ImageSet → ImageSet
activate_all s = with_each (λ i. record i { lifecycle = active }) s

-- `BindGeneration`
unfoldable pub bind_generation : ImageSet → ℕ → ImageSet
bind_generation s generation = with_each (λ i. record i { runtime_generation = generation }) s

-- `BindOwnerEpochs`
unfoldable pub bind_owner_epochs : ImageSet → ℕ → ℕ → ImageSet
bind_owner_epochs s engine group =
    with_each
      (λ i. record i { engine_incarnation_epoch = engine; isolate_group_incarnation_epoch = group })
      s

-- `ResetLiveEntryBindings`
unfoldable pub reset_live_entry_bindings : ImageSet → ImageSet
reset_live_entry_bindings s = with_each (λ i. record i { live_entry_count = 0 }) s

-- `ResetSemanticBindings`
unfoldable pub reset_semantic_bindings : ImageSet → ImageSet
reset_semantic_bindings s =
    with_each
      (λ i. record i {
        live_entry_count = 0;
        deferred_program_hash_vm_bound = false;
        deferred_load_state = unbound;
      })
      s

-- An entry count one higher, or at its end
abbrev pub count_up : ℕ → ℕ
count_up n = if n == 2 ^ 32 - 1 then n else n + 1

-- `RecordLiveEntry`
unfoldable pub record_live_entry : ImageSet → ℕ → ImageSet × Bool
unfolding update_first finish
record_live_entry s id = finish s (
    update_first (λ i. i.id == id)
      (λ i. some (record i { live_entry_count = count_up i.live_entry_count })) s.images)

-- One more for the first image of this identifier; `none` if there is none.
count_one : ℕ → List Image → List ℕ → Option (List ℕ)
count_one id [] counts = none
count_one id (i ∷ is) [] = none
count_one id (i ∷ is) (c ∷ cs) =
    let rest = count_one id is cs in
    if i.id == id
    then some (count_up c ∷ cs)
    else (elim rest [ none ↦ none | some ds ↦ some (c ∷ ds) ])

count_all : List ℕ → List Image → List ℕ → Option (List ℕ)
count_all [] is counts = some counts
count_all (id ∷ ids) is counts = elim (count_one id is counts) [
  | none ↦ none
  | some next ↦ elim (id == 0) [ true ↦ none | false ↦ count_all ids is next ]
]

with_counts : List Image → List ℕ → List Image
with_counts [] counts = []
with_counts (i ∷ is) [] = i ∷ is
with_counts (i ∷ is) (c ∷ cs) = record i { live_entry_count = c } ∷ with_counts is cs

-- `BindLiveEntries`
unfoldable pub bind_live_entries : ImageSet → List ℕ → ImageSet × Bool
unfolding count_all count_one with_counts
bind_live_entries s ids = elim (count_all ids s.images (replicate (length s.images) 0)) [
  | none ↦ (s, false)
  | some counts ↦ (record s { images = with_counts s.images counts }, true)
]

agrees : ℕ → Image → Bool
agrees hash i = not (is_deferred i.kind) || same_hash i.snapshot.deferred_program_hash (some hash)

all_agree : ℕ → List Image → Bool
unfolding agrees
all_agree hash [] = true
all_agree hash (i ∷ is) = agrees hash i && all_agree hash is

bind_hash : Image → Image
bind_hash i = if is_deferred i.kind then record i { deferred_program_hash_vm_bound = true } else i

-- `BindDeferredProgramHash`
unfoldable pub bind_deferred_program_hash : ImageSet → ℕ → ImageSet × Bool
unfolding all_agree bind_hash
bind_deferred_program_hash s hash =
    if all_agree hash s.images
    then (record s { images = map bind_hash s.images }, true)
    else (s, false)

-- `BindDeferredLoadState`
unfoldable pub bind_deferred_load_state : ImageSet → ℕ → ℕ → Bool → ImageSet × Bool
unfolding update_first finish
bind_deferred_load_state s id unit is_loaded = finish s (
    update_first (λ i. i.id == id)
      (λ i.
        if is_deferred i.kind && i.loading_unit_id == unit
        then some (record i { deferred_load_state = if is_loaded then loaded else not_loaded })
        else none)
      s.images)

-- The test of `PreserveSemanticBindingsFrom`
same_owner : Image → Image → Bool
same_owner i old =
    i.id == old.id
    && (i.incarnation_epoch == old.incarnation_epoch
        && (i.runtime_generation == old.runtime_generation
            && (i.engine_incarnation_epoch == old.engine_incarnation_epoch
                && (i.isolate_group_incarnation_epoch == old.isolate_group_incarnation_epoch
                    && same_image_identity i old))))

preserve : List Image → Image → Image
unfolding same_owner
preserve previous i = elim (find_if (same_owner i) previous) [
  | none ↦ i
  | some old ↦ record i {
    live_entry_count = old.live_entry_count;
    deferred_program_hash_vm_bound = old.deferred_program_hash_vm_bound;
    deferred_load_state = old.deferred_load_state;
  }
]

-- `PreserveSemanticBindingsFrom`
unfoldable pub preserve_semantic_bindings : ImageSet → ImageSet → ImageSet
unfolding preserve
preserve_semantic_bindings s previous = record s {
  images = map (preserve previous.images) s.images;
}
