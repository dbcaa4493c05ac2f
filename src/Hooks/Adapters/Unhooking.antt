-- ===== src/Hooks/Adapters/Unhooking.antt =====
-- Unhooking keeps the accounts (src/core/hook_registry.cpp).
use dart_plant.Prelude.{
  ℕ, ◌-◌, ◌==◌, ◌≡◌, refl, sym, true, false, ◌&&◌, List, arith, Bool-cases, inl, inr, subst,
}
use dart_plant.Status.{ok}
use dart_plant.Hooks.Listeners.{HookRefs}
use dart_plant.Hooks.Record.{
  unhooking, is_unhooked, is_unhooking, is_retired, Hook, World, remove_all,
}
use dart_plant.Hooks.Unhook.{Replies, drain_gate, finish_unhook, start_unhook, unhook_record}
use dart_plant.Hooks.Invoke.{invocation_exited}
use dart_plant.Hooks.Adapters.Steps.{Inv, Keeps-Inv, finish_unhook-Keeps, remove_all-Inv}

abbrev quiet_of : Hook → World → Hook × World
quiet_of hook world = remove_all (record hook { state = unhooking; active = false }) world

start_unhook_idle :
    (replies : Replies) (hook : Hook) (world : World)
    → ((drain_gate (quiet_of hook world).0).in_flight == 0) ≡ true
    → start_unhook replies hook world
      ≡ finish_unhook replies (drain_gate (quiet_of hook world).0) (quiet_of hook world).1
unfolding start_unhook
start_unhook_idle replies hook world e = rw (e, start_unhook) refl

start_unhook_busy :
    (replies : Replies) (hook : Hook) (world : World)
    → ((drain_gate (quiet_of hook world).0).in_flight == 0) ≡ false
    → start_unhook replies hook world
      ≡ (drain_gate (quiet_of hook world).0, (quiet_of hook world).1, ok)
unfolding start_unhook
start_unhook_busy replies hook world e = rw (e, start_unhook) refl

module _ (others : HookRefs) (held : List ℕ) where
  pub finish_unhook-Inv :
      (replies : Replies) (hook : Hook) (world : World)
      → Inv others hook world held
      → Inv others (finish_unhook replies hook world).0 (finish_unhook replies hook world).1 held
  finish_unhook-Inv replies hook world inv =
      Keeps-Inv others hook _ world _ held (finish_unhook-Keeps replies hook world inv.unowned) inv

  drain_gate-Inv :
      (hook : Hook) (world : World)
      → Inv others hook world held
      → Inv others (drain_gate hook) world held
  unfolding drain_gate
  drain_gate-Inv hook world inv =
      Keeps-Inv others hook _ world world held
        (record { records = ground arith; refs = refl; unowned = ground (arith, inv.unowned) }) inv

  -- The fields that the operations set beside the listeners do not matter.
  start_unhook-Inv :
      (replies : Replies) (hook : Hook) (world : World)
      → Inv others hook world held
      → Inv others (start_unhook replies hook world).0 (start_unhook replies hook world).1 held
  unfolding start_unhook
  start_unhook-Inv replies hook world inv =
      let stopped : Hook = record hook { state = unhooking; active = false } in
      let inv' : Inv others stopped world held = record {
        unowned = inv.unowned;
        accounts = inv.accounts;
      } in
      let quiet = (remove_all stopped world).0 in
      let around = (remove_all stopped world).1 in
      let drained = drain_gate-Inv quiet around (remove_all-Inv others stopped world held inv') in
      elim (Bool-cases ((drain_gate quiet).in_flight == 0)) [
        | inl idle ↦
            subst (λ r. Inv others r.0 r.1 held) (sym (start_unhook_idle replies hook world idle))
              (finish_unhook-Inv replies (drain_gate quiet) around drained)
        | inr busy ↦
            subst (λ r. Inv others r.0 r.1 held) (sym (start_unhook_busy replies hook world busy))
              drained
      ]

  pub unhook_record-Inv :
      (replies : Replies) (hook : Hook) (world : World)
      → Inv others hook world held
      → Inv others (unhook_record replies hook world).0 (unhook_record replies hook world).1 held
  unfolding unhook_record
  unhook_record-Inv replies hook world inv = elim (Bool-cases (is_unhooked hook.state)) [
    | inl over ↦ rw (over, unhook_record) inv
    | inr a ↦ elim (Bool-cases (is_retired hook.state)) [
      | inl kept ↦ rw (a, kept, unhook_record) inv
      | inr b ↦ elim (Bool-cases (is_unhooking hook.state)) [
        | inl going ↦ rw (a, b, going, unhook_record) inv
        | inr c ↦ rw (a, b, c, unhook_record) (start_unhook-Inv replies hook world inv)
      ]
    ]
  ]

  pub invocation_exited-Inv :
      (replies : Replies) (hook : Hook) (world : World)
      → Inv others hook world held
      → Inv others
          (invocation_exited replies hook world).0
          (invocation_exited replies hook world).1
          held
  unfolding invocation_exited
  invocation_exited-Inv replies hook world inv =
      elim (Bool-cases (hook.in_flight - 1 == 0 && is_unhooking hook.state)) [
        | inl last ↦
            rw (last, invocation_exited)
              (finish_unhook-Inv replies (record hook { in_flight = hook.in_flight - 1 }) world
                (record { unowned = inv.unowned; accounts = inv.accounts }))
        | inr more ↦
            rw (more, invocation_exited) (record { unowned = inv.unowned; accounts = inv.accounts })
      ]
