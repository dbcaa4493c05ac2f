-- ===== src/Hooks/Unhook.antt =====
-- Unhooking (src/core/hook_registry.cpp). The answers of the host and of the memory writes are
-- arguments, and so is the number of invocations that began, on other threads, between the two
-- reads of the in-flight count.
use dart_plant.Prelude.{
  ℕ, ◌+◌, ◌==◌, if◌then◌else◌, Bool, true, false, not, ◌||◌, Option, none, some,
}
use dart_plant.Prelude.Int.{ℤ, pos, ◌==ℤ◌}
use dart_plant.Status.{Status, ok, unhook_failed}
use dart_plant.Gate.Hook.{Published, Binding, begin_drain, close, reopen, uninstall}
use dart_plant.Arm64.Patches.{WriteAnswers, Code}
use dart_plant.Arm64.Patches.Restore.{restore_returns}
use dart_plant.Hooks.Listeners.{release_hook}
use dart_plant.Hooks.Record.{
  unhooking, unhooked, failed, is_unhooked, is_unhooking, is_retired, Hook, World, remove_all,
  release_bridge_consumer,
}

pub record Replies : Type 0 where
  pub unhook : ℤ
  pub writes : WriteAnswers
  pub arrivals : ℕ
  pub current_binding : Option Binding  -- of the process, for a hook without its own

abbrev pub is_ok : Status → Bool
is_ok ok = true
is_ok _ = false

abbrev pub has_unhook_callback : Option Binding → Bool
has_unhook_callback none = false
has_unhook_callback (some b) = b.has_unhook

-- The part of `FinishUnhookLocked` for a hook behind a gate. With a status it returns early.
unfoldable pub detach_gated : Replies → Hook → Published → Hook × Option Status
unfolding begin_drain close reopen uninstall
detach_gated replies hook p =
    let drained = begin_drain p in
    let (shut, closed) = close drained in
    let busy = hook.in_flight + replies.arrivals in
    let (after, status) = uninstall shut replies.unhook in
    let left : Hook = record hook {
      published = some after;
      in_flight = busy;
      backend_installed = after.backend_installed;
    } in
    if not (hook.in_flight == 0)
    then (record hook { published = some drained }, some ok)
    else if not closed
    then (record hook { published = some shut }, some ok)
    else if not (busy == 0)
    then (record hook { published = some (reopen shut); in_flight = busy }, some ok)
    else if not (is_ok status)
    then (record left { state = failed }, some status)
    else (left, none)

-- The part of `FinishUnhookLocked` for a hook that the host has patched directly.
unfoldable pub detach_direct : Replies → Hook → Hook × Option Status
detach_direct replies hook =
    let binding : Option Binding = elim hook.host_binding [
      | none ↦ replies.current_binding
      | some b ↦ some b
    ] in
    if hook.target == 0 || (not (has_unhook_callback binding) || not (replies.unhook ==ℤ pos 0))
    then (record hook { state = failed }, some unhook_failed)
    else (record hook { backend_installed = false }, none)

unfoldable pub detach_backend : Replies → Hook → Hook × Option Status
unfolding detach_gated detach_direct
detach_backend replies hook =
    if hook.backend_installed
    then elim hook.published [
      | some p ↦ detach_gated replies hook p
      | none ↦ detach_direct replies hook
    ]
    else (hook, none)

-- The adapter of the hook itself
unfoldable pub release_adapter : Hook → World → Hook × World
unfolding release_hook
release_adapter hook world =
    if hook.vm_adapter_retained
    then (
      record hook { vm_adapter = 0; vm_adapter_retained = false },
      record world { hook_refs = release_hook hook.vm_adapter world.hook_refs },
    )
    else (hook, world)

-- The rest of `FinishUnhookLocked`, with the entry restored.
unfoldable pub complete_unhook : Replies → Hook → World → Hook × World × Status
unfolding restore_returns release_bridge_consumer release_adapter
complete_unhook replies hook world =
    let code : Code = record {
      machine = world.machine;
      payload = world.payload;
      owner = hook.returns;
    } in
    let (left, restored) = restore_returns replies.writes code in
    let quiet : Hook = record hook { active = false; returns = left.owner } in
    let around : World = record world { machine = left.machine; payload = left.payload } in
    let (free, after) = release_bridge_consumer (record quiet { entry_ready = false }) around in
    let (done, last) = release_adapter (record free { state = unhooked }) after in
    if restored then (done, last, ok) else (record quiet { state = failed }, around, unhook_failed)

-- `FinishUnhookLocked`
unfoldable pub finish_unhook : Replies → Hook → World → Hook × World × Status
unfolding detach_backend complete_unhook
finish_unhook replies hook world =
    let (left, early) = detach_backend replies hook in
    elim early [ some status ↦ (left, world, status) | none ↦ complete_unhook replies left world ]

-- The drain of the gate in `UnhookRecordLocked`
unfoldable pub drain_gate : Hook → Hook
unfolding begin_drain
drain_gate hook = elim hook.published [
  | none ↦ hook
  | some p ↦
      if hook.backend_installed then record hook { published = some (begin_drain p) } else hook
]

-- `UnhookRecordLocked`, once the state allows it
unfoldable pub start_unhook : Replies → Hook → World → Hook × World × Status
unfolding remove_all finish_unhook drain_gate
start_unhook replies hook world =
    let (quiet, around) = remove_all (record hook { state = unhooking; active = false }) world in
    let gated = drain_gate quiet in
    if not (gated.in_flight == 0) then (gated, around, ok) else finish_unhook replies gated around

-- `UnhookRecordLocked`
unfoldable pub unhook_record : Replies → Hook → World → Hook × World × Status
unfolding start_unhook
unhook_record replies hook world =
    if is_unhooked hook.state
    then (hook, world, ok)
    else if is_retired hook.state
    then (hook, world, unhook_failed)
    else if is_unhooking hook.state
    then (hook, world, ok)
    else start_unhook replies hook world
