-- ===== src/Hooks/Registry.antt =====
-- The list of hooks (src/core/hook_registry.cpp). An operation runs over all hooks under the
-- registry's lock, and hands what they share from one to the next.
use dart_plant.Prelude.{
  ℕ, ◌==◌, if◌then◌else◌, Bool, true, false, not, ◌&&◌, ◌||◌, Option, none, some, List, [], ◌∷◌,
  find_if,
}
use dart_plant.Status.{Status, ok}
use dart_plant.Hooks.Listeners.{Listener, ImageOwner}
use dart_plant.Hooks.Record.{
  retired, is_unhooked, is_retired, Hook, World, passes, remove_matching, remove_all,
  release_bridge_consumer,
}
use dart_plant.Hooks.Unhook.{Replies, unhook_record, is_ok}

-- `FindHookLocked`
unfoldable pub find_hook : ℕ → List Hook → Option Hook
find_hook target hooks =
    find_if (λ (hook : Hook). hook.target == target && not (is_unhooked hook.state)) hooks

-- `IsTargetHooked`
unfoldable pub is_target_hooked : ℕ → List Hook → Bool
unfolding find_hook
is_target_hooked target hooks = elim (find_hook target hooks) [
  | none ↦ false
  | some hook ↦ hook.active
]

abbrev pub has_no_listener : Hook → Bool
has_no_listener hook = elim hook.listeners [ [] ↦ true | i ∷ is ↦ false ]

-- What an operation looks for: in a hook without listeners, and in a listener.
pub record Owned : Type 0 where
  pub owns_hook : Hook → Bool
  pub owns_listener : Listener → Bool

-- `InvalidateRuntimeHooks`
abbrev pub by_generation : ℕ → Owned
by_generation generation = record {
  owns_hook = λ hook. hook.runtime_generation == generation;
  owns_listener = λ listener. listener.runtime_generation == generation;
}

-- An epoch of 0 stands for every incarnation of the image.
abbrev pub is_image : ℕ → ℕ → ImageOwner → Bool
is_image id epoch owner =
    owner.image_id == id && (epoch == 0 || owner.image_incarnation_epoch == epoch)

-- `InvalidateRuntimeImageHooks`
abbrev pub by_image : ℕ → ℕ → ℕ → Owned
by_image generation id epoch = record {
  owns_hook = λ hook.
      hook.runtime_generation == generation
      && (not (hook.target == 0) && is_image id epoch hook.target_image);
  owns_listener = λ listener.
      listener.runtime_generation == generation && (elim listener.owner as (λ _. Bool) [
        | none ↦ false
        | some owner ↦ is_image id epoch owner
      ]);
}

-- One hook loses the listeners that are looked for; whether any was there.
unfoldable pub take_listeners : Owned → Hook → World → Hook × World × Bool
unfolding remove_matching
take_listeners owned hook world =
    if has_no_listener hook
    then (hook, world, owned.owns_hook hook)
    else remove_matching owned.owns_listener hook world

-- The loop body of `InvalidateRuntimeHooks` and `InvalidateRuntimeImageHooks`: a hook whose last listener goes is unhooked.
unfoldable pub invalidate_one : Replies → Owned → Hook → World → Hook × World × Status
unfolding take_listeners unhook_record
invalidate_one replies owned hook world =
    let (left, around, matched) = take_listeners owned hook world in
    if is_retired hook.state
    then (hook, world, ok)
    else if matched && has_no_listener left
    then unhook_record replies left around
    else (left, around, ok)

-- The loop; `replies` is what the host and the memory answer to each hook. The last failure is the
-- status.
unfoldable pub invalidate_all :
    (Hook → Replies) → Owned → List Hook → World → Status → List Hook × World × Status
unfolding invalidate_one
invalidate_all replies owned [] world status = ([], world, status)
invalidate_all replies owned (hook ∷ hooks) world status =
    let (left, around, one) = invalidate_one (replies hook) owned hook world in
    let (rest, last, all) =
      invalidate_all replies owned hooks around (if is_ok one then status else one) in
    (left ∷ rest, last, all)

-- `InvalidateRuntimeHooks`
unfoldable pub invalidate_runtime_hooks :
    (Hook → Replies) → ℕ → List Hook → World → List Hook × World × Status
unfolding invalidate_all
invalidate_runtime_hooks replies generation hooks world =
    if generation == 0
    then (hooks, world, ok)
    else invalidate_all replies (by_generation generation) hooks world ok

-- `InvalidateRuntimeImageHooks`
unfoldable pub invalidate_runtime_image_hooks :
    (Hook → Replies) → ℕ → ℕ → ℕ → List Hook → World → List Hook × World × Status
unfolding invalidate_all
invalidate_runtime_image_hooks replies generation id epoch hooks world =
    if generation == 0 || id == 0
    then (hooks, world, ok)
    else invalidate_all replies (by_image generation id epoch) hooks world ok

-- `RetireRuntimeHooks`: the body of the loop
unfoldable pub retire_one : ℕ → Hook → World → Hook × World
unfolding take_listeners release_bridge_consumer
retire_one generation hook world =
    let (left, around, matched) = take_listeners (by_generation generation) hook world in
    if is_unhooked hook.state
    then (hook, world)
    else if matched && has_no_listener left
    then release_bridge_consumer (record left { active = false; state = retired }) around
    else (left, around)

-- `RetireRuntimeHooks`
unfoldable pub retire_runtime_hooks : ℕ → List Hook → World → List Hook × World
unfolding retire_one
retire_runtime_hooks generation [] world = ([], world)
retire_runtime_hooks generation (hook ∷ hooks) world =
    let (left, around) = retire_one generation hook world in
    let (rest, last) = retire_runtime_hooks generation hooks around in
    if generation == 0 then (hook ∷ hooks, world) else (left ∷ rest, last)

-- `RetireRuntimeImageHooks`: whether some listener is looked for.
unfoldable pub any_passes : (Listener → Bool) → List Listener → List ℕ → Bool
any_passes test records [] = false
any_passes test records (i ∷ is) = passes test records i || any_passes test records is

-- `RetireRuntimeImageHooks`: whether the hook is looked for.
unfoldable pub is_found : Owned → Hook → Bool
unfolding any_passes
is_found owned hook =
    if has_no_listener hook
    then owned.owns_hook hook
    else any_passes owned.owns_listener hook.records hook.listeners

-- `RetireRuntimeImageHooks`: the body of the loop. All listeners go, also those of other images.
unfoldable pub retire_image_one : Owned → Hook → World → Hook × World
unfolding is_found remove_all release_bridge_consumer
retire_image_one owned hook world =
    let (left, around) = remove_all (record hook { active = false }) world in
    if is_unhooked hook.state
    then (hook, world)
    else if is_found owned hook
    then release_bridge_consumer (record left { state = retired }) around
    else (hook, world)

-- `RetireRuntimeImageHooks`
unfoldable pub retire_runtime_image_hooks : ℕ → ℕ → ℕ → List Hook → World → List Hook × World
unfolding retire_image_one
retire_runtime_image_hooks generation id epoch [] world = ([], world)
retire_runtime_image_hooks generation id epoch (hook ∷ hooks) world =
    let (left, around) = retire_image_one (by_image generation id epoch) hook world in
    let (rest, last) = retire_runtime_image_hooks generation id epoch hooks around in
    if generation == 0 || id == 0 then (hook ∷ hooks, world) else (left ∷ rest, last)
