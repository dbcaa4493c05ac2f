-- ===== src/Hooks/Record.antt =====
-- `DartPlantHook` (src/core/internal.h) and what detaches its listeners
-- (src/core/hook_registry.cpp). The profile, the options and the validated values, which the
-- operations here only hand on, are left out.
use dart_plant.Prelude.{
  ℕ, ◌+◌, ◌-◌, ◌==◌, if◌then◌else◌, Bool, true, false, ◌&&◌, Option, none, some, List, [], ◌∷◌,
  get_elem?, set,
}
use dart_plant.Gate.Hook.{Published, Binding}
use dart_plant.Arm64.Patches.{Machine, Payload, Owner}
use dart_plant.Hooks.Listeners.{Listener, ImageOwner, HookRefs, release_if_idle}

-- `HookRecordState`
pub data HookState : Type 0 where
  created installing installed unhooking unhooked failed : HookState
  failed_after_published retired : HookState

abbrev pub is_unhooked : HookState → Bool
is_unhooked unhooked = true
is_unhooked _ = false

abbrev pub is_unhooking : HookState → Bool
is_unhooking unhooking = true
is_unhooking _ = false

abbrev pub is_installed : HookState → Bool
is_installed installed = true
is_installed _ = false

abbrev pub is_retired : HookState → Bool
is_retired retired = true
is_retired _ = false

pub record Hook : Type 0 where
  pub target : ℕ  -- the entry of the code target, 0 without one
  pub target_image : ImageOwner  -- of the code target
  pub state : HookState
  pub active : Bool
  pub has_method : Bool
  pub backup : ℕ
  pub backend_installed : Bool
  pub entry_published : Bool
  pub entry_ready : Bool
  pub published : Option Published
  pub host_binding : Option Binding
  pub next_listener_id : ℕ
  pub next_registration_order : ℕ
  pub in_flight : ℕ
  pub listener_handles : ℕ
  pub release_requested : Bool
  pub records : List Listener
  pub listeners : List ℕ
  pub runtime_generation : ℕ
  pub vm_adapter : ℕ
  pub vm_adapter_retained : Bool
  pub replacement_entry : ℕ
  pub exception_bridge_consumer : Bool
  pub returns : Owner

-- What a hook shares with others: the adapters' counts, the users of the exception bridge, and the
-- memory and payload of its code.
pub record World : Type 0 where
  pub hook_refs : HookRefs
  pub bridge_consumers : ℕ
  pub machine : Machine
  pub payload : Payload

-- One listener made inactive, and its adapter released if it is idle.
unfoldable pub detach : ℕ → List Listener → HookRefs → List Listener × HookRefs
unfolding release_if_idle
detach index records refs = elim (get_elem? records index) [
  | none ↦ (records, refs)
  | some listener ↦
      let (left, after) = release_if_idle (record listener { active = false }) refs in
      (set records index left, after)
]

unfoldable pub detach_all : List ℕ → List Listener → HookRefs → List Listener × HookRefs
unfolding detach
detach_all [] records refs = (records, refs)
detach_all (index ∷ rest) records refs =
    let (left, after) = detach index records refs in detach_all rest left after

-- Whether the listener at the index is there and passes the test.
abbrev pub passes : (Listener → Bool) → List Listener → ℕ → Bool
passes test records index = elim (get_elem? records index) [
  | none ↦ false
  | some listener ↦ test listener
]

-- The indices that pass, and those that do not.
unfoldable pub matching : (Listener → Bool) → List Listener → List ℕ → List ℕ
matching test records [] = []
matching test records (i ∷ is) =
    let rest = matching test records is in if passes test records i then i ∷ rest else rest

unfoldable pub remaining : (Listener → Bool) → List Listener → List ℕ → List ℕ
remaining test records [] = []
remaining test records (i ∷ is) =
    let rest = remaining test records is in if passes test records i then rest else i ∷ rest

-- `RemoveMatchingListenersLocked`, and whether any matched. No test reads what detaching changes.
unfoldable pub remove_matching : (Listener → Bool) → Hook → World → Hook × World × Bool
unfolding detach_all matching remaining
remove_matching test hook world =
    let gone = matching test hook.records hook.listeners in
    let (records, refs) = detach_all gone hook.records world.hook_refs in
    (
      record hook { records = records; listeners = remaining test hook.records hook.listeners },
      record world { hook_refs = refs },
      (elim gone [ [] ↦ false | i ∷ is ↦ true ]),
    )

-- The loop of `UnhookRecordLocked` and `RetireRuntimeImageHooks` over all listeners, and `clear`
unfoldable pub remove_all : Hook → World → Hook × World
unfolding detach_all
remove_all hook world =
    let (records, refs) = detach_all hook.listeners hook.records world.hook_refs in
    (record hook { records = records; listeners = [] }, record world { hook_refs = refs })

-- `RegisterArm64ExceptionBridgeConsumer`
unfoldable pub register_bridge_consumer : Hook → World → Hook × World
register_bridge_consumer hook world = if hook.exception_bridge_consumer then (hook, world) else (
  record hook { exception_bridge_consumer = true },
  record world { bridge_consumers = world.bridge_consumers + 1 },
)

-- `ReleaseArm64ExceptionBridgeConsumer`; subtraction stops at 0 as the code does.
unfoldable pub release_bridge_consumer : Hook → World → Hook × World
release_bridge_consumer hook world =
    if hook.exception_bridge_consumer
    then (
      record hook { exception_bridge_consumer = false },
      record world { bridge_consumers = world.bridge_consumers - 1 },
    )
    else (hook, world)

-- `CanDestroyLocked`
unfoldable pub can_destroy : Hook → Bool
can_destroy hook = is_unhooked hook.state && (hook.in_flight == 0 && hook.listener_handles == 0)
