-- ===== src/Hooks/Adapters/Invariant.antt =====
-- What every operation on a hook keeps of its listeners (src/core/hook_registry.cpp).
use dart_plant.Prelude.{
  ℕ, ◌≡◌, ◌≢◌, refl, sym, false, ◌&&◌, some, List, [], ◌++◌, arith, Bool-cases, List-cases, inl,
  inr, subst,
}
use dart_plant.Hooks.Listeners.{HookRefs, Request}
use dart_plant.Hooks.Record.{is_installed, Hook, World, detach}
use dart_plant.Hooks.Unhook.{Replies}
use dart_plant.Hooks.Invoke.{
  Outside, may_begin, begin_invocation, enter_all, leave, add_listener, remove_listener, without,
}
use dart_plant.Hooks.Adapters.{Accounts, count, retained_by}
use dart_plant.Hooks.Adapters.Operations.{detach-Accounts, leave-Accounts, remove_one}
use dart_plant.Hooks.Adapters.Entering.{enter_all-Accounts, make_listener-Accounts}
use dart_plant.Hooks.Adapters.Steps.{
  invalidated, retired_with, retired_image, System, Step, added, began, left, removed, unhooked,
  exited, dropped, Inv, remove_matching-Inv,
}
use dart_plant.Hooks.Adapters.Unhooking.{unhook_record-Inv, invocation_exited-Inv}
use dart_plant.Hooks.Adapters.Retiring.{invalidate_one-Inv, retire_one-Inv, retire_image_one-Inv}

module _ (others : HookRefs) (held : List ℕ) where
  add_listener-Inv :
      (request : Request) (hook : Hook) (world : World)
      → Inv others hook world held
      → Inv others (add_listener request hook world).0 (add_listener request hook world).1 held
  unfolding add_listener
  add_listener-Inv request hook world inv =
      elim (Bool-cases (is_installed hook.state && hook.active)) [
        | inr closed ↦ rw (closed, add_listener) inv
        | inl alive ↦
            let more =
              make_listener-Accounts request hook.next_listener_id hook.next_registration_order
                others world.hook_refs held hook.records inv.accounts in
            rw (alive, add_listener) (record { unowned = inv.unowned; accounts = more })
      ]

  remove_listener-Inv :
      (replies : Replies) (index : ℕ) (hook : Hook) (world : World)
      → Inv others hook world held
      → Inv others
          (remove_listener replies index hook world).0
          (remove_listener replies index hook world).1
          held
  unfolding remove_listener
  remove_listener-Inv replies index hook world inv =
      let gone = detach-Accounts others world.hook_refs held hook.records index inv.accounts in
      let taken : Hook = record hook {
        records = (detach index hook.records world.hook_refs).0;
        listeners = without index hook.listeners;
      } in
      let around : World = record world {
        hook_refs = (detach index hook.records world.hook_refs).1;
      } in
      let inv' : Inv others taken around held = record { unowned = inv.unowned; accounts = gone } in
      elim (List-cases (without index hook.listeners)) [
        | inr (i, is, some_left) ↦ rw (some_left, remove_listener) inv'
        | inl empty ↦ elim (Bool-cases (is_installed hook.state)) [
          | inr other ↦ rw (empty, other, remove_listener) inv'
          | inl on ↦
              rw (empty, on, remove_listener)
                (unhook_record-Inv others held replies taken around inv')
        ]
      ]

  begin_invocation-Inv :
      (outside : Outside) (hook : Hook) (world : World) (indices : List ℕ)
      → (begin_invocation outside hook).1 ≡ some indices
      → Inv others hook world held
      → Inv others (begin_invocation outside hook).0 world (indices ++ held)
  unfolding begin_invocation
  begin_invocation-Inv outside hook world indices e inv = elim (Bool-cases (may_begin hook)) [
    | inr closed ↦ absurd (ground (arith, rw (closed, begin_invocation) at e))
    | inl admits ↦ elim (Bool-cases (is_installed hook.state && hook.active)) [
      | inr bare ↦
          let none_in : [] ≡ indices = ground (arith, rw (admits, bare, begin_invocation) at e) in
          subst (λ is. Inv others (begin_invocation outside hook).0 world (is ++ held)) none_in
            (rw (admits, bare, begin_invocation)
              (record { unowned = inv.unowned; accounts = inv.accounts }))
      | inl full ↦
          let all_in : (enter_all outside hook.records hook.listeners).1 ≡ indices =
            ground (arith, rw (admits, full, begin_invocation) at e) in
          let more =
            enter_all-Accounts outside others world.hook_refs held hook.records hook.listeners
              inv.accounts in
          subst (λ is. Inv others (begin_invocation outside hook).0 world (is ++ held)) all_in
            (rw (admits, full, begin_invocation)
              (record { unowned = inv.unowned; accounts = more }))
    ]
  ]

  left-Inv :
      (s : System) (index : ℕ)
      → count index held ≢ 0
      → Inv others s.hook s.world held
      → Inv others
          (record s.hook { records = (leave index s.hook.records s.world.hook_refs).0 })
          (record s.world { hook_refs = (leave index s.hook.records s.world.hook_refs).1 })
          (remove_one index held)
  left-Inv s index holds inv = record {
    unowned = inv.unowned;
    accounts = leave-Accounts others s.world.hook_refs held s.hook.records index inv.accounts holds;
  }

-- The steps from a new hook, which has no listener.
pub data Reach (others : HookRefs) : System → Type 0 where
  start :
      (hook : Hook) (world : World)
      → hook.records ≡ []
      → hook.listeners ≡ []
      → hook.vm_adapter_retained ≡ false
      → ((a : ℕ) → world.hook_refs a ≡ others a)
      → Reach others (record { hook = hook; world = world; held = [] })
  next : (s t : System) → Reach others s → Step s t → Reach others t

empty-Accounts :
    (others refs : HookRefs) → ((a : ℕ) → refs a ≡ others a) → Accounts others [] [] refs
unfolding count retained_by
empty-Accounts others refs same = record {
  settled = λ i l e. absurd (ground (arith, e));
  counted = λ i l e. absurd (ground (arith, e));
  bounded = λ i out. refl;
  summed = λ a nz. omega (arith, same a);
}

Step-Inv :
    (others : HookRefs) (s t : System)
    → Step s t
    → Inv others s.hook s.world s.held
    → Inv others t.hook t.world t.held
Step-Inv others s t (added request) inv = add_listener-Inv others s.held request s.hook s.world inv
Step-Inv others s t (began outside indices e) inv =
    begin_invocation-Inv others s.held outside s.hook s.world indices e inv
Step-Inv others s t (left index holds) inv = left-Inv others s.held s index holds inv
Step-Inv others s t (removed test) inv = remove_matching-Inv others test s.hook s.world s.held inv
Step-Inv others s t (unhooked replies) inv =
    unhook_record-Inv others s.held replies s.hook s.world inv
Step-Inv others s t (exited replies) inv =
    invocation_exited-Inv others s.held replies s.hook s.world inv
Step-Inv others s t (invalidated replies owned) inv =
    invalidate_one-Inv others s.held replies owned s.hook s.world inv
Step-Inv others s t (retired_with generation) inv =
    retire_one-Inv others s.held generation s.hook s.world inv
Step-Inv others s t (retired_image owned) inv =
    retire_image_one-Inv others s.held owned s.hook s.world inv
Step-Inv others s t (dropped replies index) inv =
    remove_listener-Inv others s.held replies index s.hook s.world inv

Reach-Inv : (others : HookRefs) (s : System) → Reach others s → Inv others s.hook s.world s.held
Reach-Inv others s (start hook world none_yet no_listeners unowned same) = record {
  unowned = unowned;
  accounts =
      subst (λ records. Accounts others [] records world.hook_refs) (sym none_yet)
        (empty-Accounts others world.hook_refs same);
}
Reach-Inv others s (next r t reach step) = Step-Inv others r s step (Reach-Inv others r reach)

-- After any sequence of operations on a hook, in which an invocation leaves a listener only while it
-- holds it: each listener's in-flight count is the number of invocations that hold it, it retains
-- its adapter exactly while it has one and is active or held, and the hook count of an adapter is
-- that of the other hooks and the number of this hook's listeners that retain it.
pub Reach-Accounts :
    (others : HookRefs) (s : System)
    → Reach others s
    → Accounts others s.held s.hook.records s.world.hook_refs
Reach-Accounts others s reach = (Reach-Inv others s reach).accounts
