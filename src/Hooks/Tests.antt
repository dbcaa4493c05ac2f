-- ===== src/Hooks/Tests.antt =====
-- Hooks on concrete values (src/core/hook_registry.cpp).
use dart_plant.Prelude.{ℕ, ◌≡◌, ◌≢◌, refl, true, false, none, some, [], ◌∷◌, arith}
use dart_plant.Gate.Control.{to_callback, pin_plan, route_of, store_plan}
use dart_plant.Gate.Hook.{Published, arm, acquire}
use dart_plant.Hooks.Listeners.{Request}
use dart_plant.Hooks.Listeners.Sorted.{is_sorted}
use dart_plant.Hooks.Record.{Hook, World, installed}
use dart_plant.Hooks.Invoke.{add_listener}
use dart_plant.Hooks.Interleaving.{
  outside, pinned, resting, calling, System, caller, unhooker, enter, arm_gate, init, Reach,
  start_at, next,
}
use dart_plant.Hooks.Interleaving.Safety.{Reach-backend_installed}
use dart_plant.Prelude.Threads.{move}
use dart_plant.Hooks.Adapters.{Accounts}
use dart_plant.Hooks.Adapters.Steps.{with_hook, added}
use dart_plant.Hooks.Adapters.Steps
use dart_plant.Hooks.Adapters.Invariant.{Reach-Accounts}
use dart_plant.Hooks.Adapters.Invariant
use dart_plant.Hooks.Order.Reached.{Reach-is_sorted}

abbrev gate : Published
gate = record {
  control = 0;
  callback_entry = 16;
  backup = 32;
  gate_target = 4096;
  binding = none;
  target = 4096;
  gate_entry = 48;
  gate_entry_size = 64;
  tracked = true;
  backend_installed = true;
  ever_published = true;
}

abbrev armed_system : System
armed_system = record (init gate) { gate = arm gate; state = installed; unhooker = resting }

-- One caller has gone through the armed gate.
abbrev entered_system : System
entered_system = record armed_system {
  gate = (acquire (arm gate)).0;
  in_flight = 0;
  callers = move (λ _. outside) 0 pinned;
}

armed_admits : (acquire (arm gate)).1 ≡ to_callback true
unfolding acquire arm route_of pin_plan store_plan
armed_admits = refl

entered_Reach : Reach 1 gate entered_system
entered_Reach =
    next
      (next (start_at (record { shut = refl; tracked = refl; installed = refl }))
        (unhooker (arm_gate refl)))
      (caller 0 (omega arith) (enter armed_admits))

Reach-backend_installed_example :
    (entered_system.gate.backend_installed ≡ true) × (entered_system.unhooker ≢ calling)
Reach-backend_installed_example =
    Reach-backend_installed 1 gate entered_system 0 entered_Reach (omega arith)
      (λ e. ground (arith, e))

abbrev hook : Hook
hook = record {
  target = 4096;
  target_image = record { image_id = 1; image_incarnation_epoch = 1 };
  state = installed;
  active = true;
  has_method = true;
  backup = 32;
  backend_installed = true;
  entry_published = true;
  entry_ready = true;
  published = some gate;
  host_binding = none;
  next_listener_id = 1;
  next_registration_order = 1;
  in_flight = 0;
  listener_handles = 0;
  release_requested = false;
  records = [];
  listeners = [];
  runtime_generation = 0;
  vm_adapter = 0;
  vm_adapter_retained = false;
  replacement_entry = 64;
  exception_bridge_consumer = false;
  returns = record { payload_return_consumer = false; payload_return_sites = [] };
}

abbrev world : World
world = record {
  hook_refs = λ _. 0;
  bridge_consumers = 0;
  machine = record { memory = λ _. 0; writes = 0 };
  payload = record {
    start = 4096;
    instructions_length = 4;
    pristine_bytes = [];
    return_entry = 0;
    return_entry_published = false;
    return_patches = [];
    return_interception_consumers = 0;
  };
}

abbrev with_priority : ℕ → Request
with_priority priority = record {
  priority = priority;
  vm_adapter = 7;
  runtime_generation = 0;
  expected_runtime_generation = 0;
  method_generation = 0;
  method_expected_generation = 0;
  owner = none;
}

abbrev bare : Steps.System
bare = record { hook = hook; world = world; held = [] }

abbrev low : Steps.System
low =
    with_hook bare (add_listener (with_priority 1) hook world).0
      (add_listener (with_priority 1) hook world).1

abbrev high : Steps.System
high =
    with_hook low (add_listener (with_priority 2) low.hook low.world).0
      (add_listener (with_priority 2) low.hook low.world).1

-- The second listener has the higher priority and goes first.
high_first : high.hook.listeners ≡ 1 ∷ 0 ∷ []
unfolding add_listener
high_first = refl

high_Reach : Invariant.Reach (λ _. 0) high
high_Reach =
    Invariant.next low high
      (Invariant.next bare low (Invariant.start hook world refl refl refl (λ a. refl))
        (added (with_priority 1)))
      (added (with_priority 2))

Reach-Accounts_example : Accounts (λ _. 0) high.held high.hook.records high.world.hook_refs
Reach-Accounts_example = Reach-Accounts (λ _. 0) high high_Reach

Reach-is_sorted_example : is_sorted high.hook.records high.hook.listeners ≡ true
Reach-is_sorted_example = Reach-is_sorted (λ _. 0) high high_Reach
