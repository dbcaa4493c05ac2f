-- ===== src/Hooks/Adapters/Retiring.antt =====
-- Invalidating and retiring a hook's listeners keeps the accounts (src/core/hook_registry.cpp).
use dart_plant.Prelude.{ℕ, false, ◌&&◌, List, arith, Bool-cases, inl, inr}
use dart_plant.Hooks.Listeners.{HookRefs}
use dart_plant.Hooks.Record.{
  retired, release_bridge_consumer, is_unhooked, is_retired, Hook, World, remove_all,
}
use dart_plant.Hooks.Unhook.{Replies}
use dart_plant.Hooks.Registry.{
  Owned, by_generation, has_no_listener, take_listeners, invalidate_one, retire_one, is_found,
  retire_image_one,
}
use dart_plant.Hooks.Adapters.Steps.{Inv, Keeps-Inv, remove_all-Inv, remove_matching-Inv}
use dart_plant.Hooks.Adapters.Unhooking.{unhook_record-Inv}

module _ (others : HookRefs) (held : List ℕ) where
  take_listeners-Inv :
      (owned : Owned) (hook : Hook) (world : World)
      → Inv others hook world held
      → Inv others (take_listeners owned hook world).0 (take_listeners owned hook world).1 held
  unfolding take_listeners
  take_listeners-Inv owned hook world inv = elim (Bool-cases (has_no_listener hook)) [
    | inl bare ↦ rw (bare, take_listeners) inv
    | inr some_there ↦
        rw (some_there, take_listeners)
          (remove_matching-Inv others owned.owns_listener hook world held inv)
  ]

  pub invalidate_one-Inv :
      (replies : Replies) (owned : Owned) (hook : Hook) (world : World)
      → Inv others hook world held
      → Inv others
          (invalidate_one replies owned hook world).0
          (invalidate_one replies owned hook world).1
          held
  unfolding invalidate_one
  invalidate_one-Inv replies owned hook world inv =
      let taken = take_listeners-Inv owned hook world inv in
      let (less, around, matched) = take_listeners owned hook world in
      elim (Bool-cases (is_retired hook.state)) [
        | inl over ↦ rw (over, invalidate_one) inv
        | inr a ↦ elim (Bool-cases (matched && has_no_listener less)) [
          | inl last ↦
              rw (a, last, invalidate_one) (unhook_record-Inv others held replies less around taken)
          | inr more ↦ rw (a, more, invalidate_one) taken
        ]
      ]

  release_bridge_consumer-Inv :
      (hook : Hook) (world : World)
      → Inv others hook world held
      → Inv others
          (release_bridge_consumer hook world).0
          (release_bridge_consumer hook world).1
          held
  unfolding release_bridge_consumer
  release_bridge_consumer-Inv hook world inv =
      Keeps-Inv others hook _ world _ held
        (record {
          records = ground arith;
          refs = ground arith;
          unowned = ground (arith, inv.unowned);
        })
        inv

  pub retire_one-Inv :
      (generation : ℕ) (hook : Hook) (world : World)
      → Inv others hook world held
      → Inv others (retire_one generation hook world).0 (retire_one generation hook world).1 held
  unfolding retire_one
  retire_one-Inv generation hook world inv =
      let taken = take_listeners-Inv (by_generation generation) hook world inv in
      let (less, around, matched) = take_listeners (by_generation generation) hook world in
      elim (Bool-cases (is_unhooked hook.state)) [
        | inl over ↦ rw (over, retire_one) inv
        | inr a ↦ elim (Bool-cases (matched && has_no_listener less)) [
          | inr more ↦ rw (a, more, retire_one) taken
          | inl last ↦
              rw (a, last, retire_one)
                (release_bridge_consumer-Inv (record less { active = false; state = retired })
                  around (record { unowned = taken.unowned; accounts = taken.accounts }))
        ]
      ]

  pub retire_image_one-Inv :
      (owned : Owned) (hook : Hook) (world : World)
      → Inv others hook world held
      → Inv others (retire_image_one owned hook world).0 (retire_image_one owned hook world).1 held
  unfolding retire_image_one
  retire_image_one-Inv owned hook world inv =
      let taken =
        remove_all-Inv others (record hook { active = false }) world held
          (record { unowned = inv.unowned; accounts = inv.accounts }) in
      let (less, around) = remove_all (record hook { active = false }) world in
      elim (Bool-cases (is_unhooked hook.state)) [
        | inl over ↦ rw (over, retire_image_one) inv
        | inr a ↦ elim (Bool-cases (is_found owned hook)) [
          | inr other ↦ rw (a, other, retire_image_one) inv
          | inl found ↦
              rw (a, found, retire_image_one)
                (release_bridge_consumer-Inv (record less { state = retired }) around
                  (record { unowned = taken.unowned; accounts = taken.accounts }))
        ]
      ]
