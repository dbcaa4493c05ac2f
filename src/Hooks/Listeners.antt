-- ===== src/Hooks/Listeners.antt =====
-- The listeners of a hook (`DartPlantListenerRecord` of src/core/internal.h,
-- src/core/hook_registry.cpp, and the adapter's hook count of src/vm/object_bridge.cpp). Invocations
-- share the records with the hook, so all records that a hook ever made stand in one list, the
-- record with id n + 1 at index n, and the hook and the invocations hold indices. A signed priority
-- is stored with 2 ^ 31 added. Callbacks, layouts and validated values are left out.
pub mod Sorted
use dart_plant.Prelude.{
  ℕ, suc, ◌+◌, ◌-◌, ◌==◌, ltb, if◌then◌else◌, Bool, true, false, not, ◌&&◌, ◌||◌, Option, none,
  some, List, [], ◌∷◌, ◌++◌, length, get_elem?, set,
}

-- The image that the listener's method belongs to
pub record ImageOwner : Type 0 where
  pub image_id : ℕ
  pub image_incarnation_epoch : ℕ

pub record Listener : Type 0 where
  pub id : ℕ
  pub priority : ℕ
  pub registration_order : ℕ
  pub vm_adapter : ℕ
  pub runtime_generation : ℕ  -- the shared counter, 0 for none
  pub expected_runtime_generation : ℕ
  pub owner : Option ImageOwner  -- of the requested method's function
  pub vm_adapter_retained : Bool
  pub active : Bool
  pub in_flight : ℕ

-- The hook count of each adapter
abbrev pub HookRefs : Type 0
HookRefs = ℕ → ℕ

abbrev pub set_refs : HookRefs → ℕ → ℕ → HookRefs
set_refs refs adapter n at = if at == adapter then n else refs at

-- `VmAdapterRetainHook`
unfoldable pub retain_hook : ℕ → HookRefs → HookRefs
retain_hook adapter refs = if adapter == 0 then refs else set_refs refs adapter (refs adapter + 1)

-- `VmAdapterReleaseHook`; subtraction stops at 0 as the code does.
unfoldable pub release_hook : ℕ → HookRefs → HookRefs
release_hook adapter refs = if adapter == 0 then refs else set_refs refs adapter (refs adapter - 1)

-- `ReleaseListenerVmAdapterIfIdle`: whether it releases, and what it leaves.
unfoldable pub releases : Listener → Bool
releases listener =
    not (listener.vm_adapter == 0)
    && (not listener.active && (listener.in_flight == 0 && listener.vm_adapter_retained))

unfoldable pub release_if_idle : Listener → HookRefs → Listener × HookRefs
unfolding releases release_hook
release_if_idle listener refs =
    if releases listener
    then (record listener { vm_adapter_retained = false }, release_hook listener.vm_adapter refs)
    else (listener, refs)

-- Whether `value` is called before `current`: the comparison of `InsertListenerLocked`.
unfoldable pub precedes : Listener → Listener → Bool
precedes value current =
    if not (value.priority == current.priority)
    then ltb current.priority value.priority
    else ltb value.registration_order current.registration_order

-- `InsertListenerLocked`: before the first listener that `value` precedes. In a sorted list this is
-- where the binary search of `std::upper_bound` ends.
unfoldable pub insert_listener : List Listener → Listener → ℕ → List ℕ → List ℕ
unfolding precedes
insert_listener records value index [] = index ∷ []
insert_listener records value index (first ∷ rest) = elim (get_elem? records first) [
  | none ↦ index ∷ first ∷ rest
  | some current ↦
      if precedes value current
      then index ∷ first ∷ rest
      else first ∷ insert_listener records value index rest
]

-- What a new listener is made of: its priority, adapter, generation and owner.
pub record Request : Type 0 where
  pub priority : ℕ
  pub vm_adapter : ℕ
  pub runtime_generation : ℕ
  pub expected_runtime_generation : ℕ
  pub method_generation : ℕ
  pub method_expected_generation : ℕ
  pub owner : Option ImageOwner

-- `MakeListenerLocked`, with the next id and the next registration order. The generation of the
-- request comes before that of its method.
unfoldable pub make_listener : Request → ℕ → ℕ → Listener
make_listener request id order = record {
  id = id;
  priority = request.priority;
  registration_order = order;
  vm_adapter = request.vm_adapter;
  runtime_generation =
      if request.runtime_generation == 0
      then request.method_generation
      else request.runtime_generation;
  expected_runtime_generation =
      if request.expected_runtime_generation == 0
      then request.method_expected_generation
      else request.expected_runtime_generation;
  owner = request.owner;
  vm_adapter_retained = not (request.vm_adapter == 0);
  active = true;
  in_flight = 0;
}

-- A listener's record, changed; nothing changes when there is none.
unfoldable pub change_record : (Listener → Listener) → ℕ → List Listener → List Listener
change_record change index records = elim (get_elem? records index) [
  | none ↦ records
  | some listener ↦ set records index (change listener)
]
