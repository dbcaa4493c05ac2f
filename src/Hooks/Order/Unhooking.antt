-- ===== src/Hooks/Order/Unhooking.antt =====
-- Unhooking keeps the order of the listeners (src/core/hook_registry.cpp).
use dart_plant.Prelude.{
  ◌-◌, ◌≡◌, refl, ◌∙◌, ap, ◌==◌, true, false, ◌&&◌, arith, Bool-cases, Option-cases, inl, inr,
}
use dart_plant.Hooks.Listeners.Sorted.{is_sorted, is_older}
use dart_plant.Hooks.Record.{
  unhooking, is_unhooked, is_unhooking, is_retired, Hook, World, remove_all,
  release_bridge_consumer,
}
use dart_plant.Hooks.Unhook.{
  Replies, drain_gate, detach_gated, detach_direct, detach_backend, complete_unhook, finish_unhook,
  start_unhook, unhook_record, release_adapter,
}
use dart_plant.Hooks.Invoke.{invocation_exited}
use dart_plant.Hooks.Order.{is_ordered}

abbrev pub InOrder : Hook → Type 0
InOrder hook = is_ordered hook.records hook.next_registration_order hook.listeners ≡ true

pub same_listeners :
    (hook hook' : Hook)
    → hook'.records ≡ hook.records
    → hook'.next_registration_order ≡ hook.next_registration_order
    → hook'.listeners ≡ hook.listeners
    → InOrder hook
    → InOrder hook'
same_listeners hook hook' records order listeners s =
    ap (λ rs. is_ordered rs hook'.next_registration_order hook'.listeners) records
    ∙ (ap (λ n. is_ordered hook.records n hook'.listeners) order
        ∙ (ap (λ is. is_ordered hook.records hook.next_registration_order is) listeners ∙ s))

detach_backend-listeners :
    (replies : Replies) (hook : Hook)
    → ((detach_backend replies hook).0.records ≡ hook.records)
      × ((detach_backend replies hook).0.next_registration_order ≡ hook.next_registration_order)
      × ((detach_backend replies hook).0.listeners ≡ hook.listeners)
unfolding detach_backend detach_gated detach_direct
detach_backend-listeners replies hook = ground arith

complete_unhook-listeners :
    (replies : Replies) (hook : Hook) (world : World)
    → ((complete_unhook replies hook world).0.records ≡ hook.records)
      × ((complete_unhook replies hook world).0.next_registration_order
          ≡ hook.next_registration_order)
      × ((complete_unhook replies hook world).0.listeners ≡ hook.listeners)
unfolding complete_unhook release_bridge_consumer release_adapter
complete_unhook-listeners replies hook world = ground arith

complete_unhook-InOrder :
    (replies : Replies) (hook : Hook) (world : World)
    → InOrder hook
    → InOrder (complete_unhook replies hook world).0
complete_unhook-InOrder replies hook world s =
    let (records, order, listeners) = complete_unhook-listeners replies hook world in
    same_listeners hook (complete_unhook replies hook world).0 records order listeners s

finish_unhook-InOrder :
    (replies : Replies) (hook : Hook) (world : World)
    → InOrder hook
    → InOrder (finish_unhook replies hook world).0
unfolding finish_unhook
finish_unhook-InOrder replies hook world s =
    let (records, order, listeners) = detach_backend-listeners replies hook in
    let left = (detach_backend replies hook).0 in
    let kept = same_listeners hook left records order listeners s in
    elim (Option-cases (detach_backend replies hook).1) [
      | inr (status, early) ↦ rw (early, finish_unhook) kept
      | inl go ↦ rw (go, finish_unhook) (complete_unhook-InOrder replies left world kept)
    ]

drain_gate-InOrder : (hook : Hook) → InOrder hook → InOrder (drain_gate hook)
unfolding drain_gate
drain_gate-InOrder hook s =
    same_listeners hook (drain_gate hook) (ground arith) (ground arith) (ground arith) s

start_unhook-InOrder :
    (replies : Replies) (hook : Hook) (world : World) → InOrder (start_unhook replies hook world).0
unfolding start_unhook remove_all is_ordered is_sorted is_older
start_unhook-InOrder replies hook world =
    let (quiet, around) = remove_all (record hook { state = unhooking; active = false }) world in
    let drained = drain_gate-InOrder quiet refl in
    elim (Bool-cases ((drain_gate quiet).in_flight == 0)) [
      | inl idle ↦
          rw (idle, start_unhook) (finish_unhook-InOrder replies (drain_gate quiet) around drained)
      | inr busy ↦ rw (busy, start_unhook) drained
    ]

pub unhook_record-InOrder :
    (replies : Replies) (hook : Hook) (world : World)
    → InOrder hook
    → InOrder (unhook_record replies hook world).0
unfolding unhook_record
unhook_record-InOrder replies hook world s = elim (Bool-cases (is_unhooked hook.state)) [
  | inl over ↦ rw (over, unhook_record) s
  | inr a ↦ elim (Bool-cases (is_retired hook.state)) [
    | inl retired ↦ rw (a, retired, unhook_record) s
    | inr b ↦ elim (Bool-cases (is_unhooking hook.state)) [
      | inl going ↦ rw (a, b, going, unhook_record) s
      | inr c ↦ rw (a, b, c, unhook_record) (start_unhook-InOrder replies hook world)
    ]
  ]
]

pub invocation_exited-InOrder :
    (replies : Replies) (hook : Hook) (world : World)
    → InOrder hook
    → InOrder (invocation_exited replies hook world).0
unfolding invocation_exited
invocation_exited-InOrder replies hook world s =
    elim (Bool-cases (hook.in_flight - 1 == 0 && is_unhooking hook.state)) [
      | inl last ↦
          rw (last, invocation_exited)
            (finish_unhook-InOrder replies (record hook { in_flight = hook.in_flight - 1 }) world s)
      | inr more ↦ rw (more, invocation_exited) s
    ]
