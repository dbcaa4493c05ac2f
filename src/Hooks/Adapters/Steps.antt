-- ===== src/Hooks/Adapters/Steps.antt =====
-- Every sequence of operations on a hook keeps the accounts of its listeners' adapters
-- (src/core/hook_registry.cpp).
use dart_plant.Prelude.{
  ℕ, ◌≡◌, ◌≢◌, refl, sym, ◌∙◌, Bool, false, some, List, ◌++◌, arith, Option-cases, inl, inr, subst,
}
use dart_plant.Hooks.Listeners.{Listener, HookRefs, Request}
use dart_plant.Hooks.Record.{
  Hook, World, matching, remove_matching, remove_all, release_bridge_consumer,
}
use dart_plant.Hooks.Unhook.{
  Replies, detach_gated, detach_direct, detach_backend, complete_unhook, finish_unhook,
  unhook_record, release_adapter,
}
use dart_plant.Hooks.Invoke.{
  Outside, begin_invocation, leave, invocation_exited, add_listener, remove_listener,
}
use dart_plant.Hooks.Registry.{Owned, invalidate_one, retire_one, retire_image_one}
use dart_plant.Hooks.Adapters.{Accounts, count}
use dart_plant.Hooks.Adapters.Operations.{detach_all-Accounts, remove_one}

-- A hook, what it shares, and the listeners that its running invocations hold
pub record System : Type 0 where
  pub hook : Hook
  pub world : World
  pub held : List ℕ

-- The system after an operation that gives a hook and what it shares.
abbrev pub with_hook : System → Hook → World → System
with_hook s hook world = record { hook = hook; world = world; held = s.held }

abbrev pub with_records : System → List Listener × HookRefs → List ℕ → System
with_records s (records, refs) held = record {
  hook = record s.hook { records = records };
  world = record s.world { hook_refs = refs };
  held = held;
}

pub data Step (s : System) : System → Type 0 where
  added :
      (request : Request)
      → Step s (
          with_hook s
            (add_listener request s.hook s.world).0
            (add_listener request s.hook s.world).1)
  began :
      (outside : Outside) (indices : List ℕ)
      → (begin_invocation outside s.hook).1 ≡ some indices
      → Step s (record s { hook = (begin_invocation outside s.hook).0; held = indices ++ s.held })
  left :
      (index : ℕ)
      → count index s.held ≢ 0
      → Step s
          (with_records s (leave index s.hook.records s.world.hook_refs) (remove_one index s.held))
  removed :
      (test : Listener → Bool)
      → Step s (
          with_hook s
            (remove_matching test s.hook s.world).0
            (remove_matching test s.hook s.world).1)
  unhooked :
      (replies : Replies)
      → Step s (
          with_hook s
            (unhook_record replies s.hook s.world).0
            (unhook_record replies s.hook s.world).1)
  exited :
      (replies : Replies)
      → Step s (
          with_hook s
            (invocation_exited replies s.hook s.world).0
            (invocation_exited replies s.hook s.world).1)
  dropped :
      (replies : Replies) (index : ℕ)
      → Step s (
          with_hook s
            (remove_listener replies index s.hook s.world).0
            (remove_listener replies index s.hook s.world).1)
  invalidated :
      (replies : Replies) (owned : Owned)
      → Step s (
          with_hook s
            (invalidate_one replies owned s.hook s.world).0
            (invalidate_one replies owned s.hook s.world).1)
  retired_with :
      (generation : ℕ)
      → Step s (
          with_hook s
            (retire_one generation s.hook s.world).0
            (retire_one generation s.hook s.world).1)
  retired_image :
      (owned : Owned)
      → Step s (
          with_hook s
            (retire_image_one owned s.hook s.world).0
            (retire_image_one owned s.hook s.world).1)

pub record Inv (others : HookRefs) (hook : Hook) (world : World) (held : List ℕ) : Type 0 where
  pub unowned : hook.vm_adapter_retained ≡ false
  pub accounts : Accounts others held hook.records world.hook_refs

-- An operation that leaves the listeners and the adapters alone.
pub record Keeps (hook : Hook) (world : World) (hook' : Hook) (world' : World) : Type 0 where
  pub records : hook'.records ≡ hook.records
  pub refs : world'.hook_refs ≡ world.hook_refs
  pub unowned : hook'.vm_adapter_retained ≡ false

detach_backend-records :
    (replies : Replies) (hook : Hook)
    → ((detach_backend replies hook).0.records ≡ hook.records)
      × ((detach_backend replies hook).0.vm_adapter_retained ≡ hook.vm_adapter_retained)
unfolding detach_backend detach_gated detach_direct
detach_backend-records replies hook = ground arith

complete_unhook-Keeps :
    (replies : Replies) (hook : Hook) (world : World)
    → hook.vm_adapter_retained ≡ false
    → Keeps hook world (complete_unhook replies hook world).0 (complete_unhook replies hook world).1
unfolding complete_unhook release_bridge_consumer release_adapter
complete_unhook-Keeps replies hook world e = record {
  records = ground (arith, e);
  refs = ground (arith, e);
  unowned = ground (arith, e);
}

pub Keeps-Inv :
    (others : HookRefs) (hook hook' : Hook) (world world' : World) (held : List ℕ)
    → Keeps hook world hook' world'
    → Inv others hook world held
    → Inv others hook' world' held
Keeps-Inv others hook hook' world world' held k inv = record {
  unowned = k.unowned;
  accounts =
      subst (λ refs. Accounts others held hook'.records refs) (sym k.refs)
        (subst (λ records. Accounts others held records world.hook_refs) (sym k.records)
          inv.accounts);
}

pub finish_unhook-Keeps :
    (replies : Replies) (hook : Hook) (world : World)
    → hook.vm_adapter_retained ≡ false
    → Keeps hook world (finish_unhook replies hook world).0 (finish_unhook replies hook world).1
unfolding finish_unhook
finish_unhook-Keeps replies hook world e =
    let (records, kept) = detach_backend-records replies hook in
    let left = (detach_backend replies hook).0 in
    elim (Option-cases (detach_backend replies hook).1) [
      | inr (status, early) ↦ record {
        records = rw (early, finish_unhook) records;
        refs = rw (early, finish_unhook) refl;
        unowned = rw (early, finish_unhook) (kept ∙ e);
      }
      | inl go ↦
          let done = complete_unhook-Keeps replies left world (kept ∙ e) in
          record {
            records = rw (go, finish_unhook) (done.records ∙ records);
            refs = rw (go, finish_unhook) done.refs;
            unowned = rw (go, finish_unhook) done.unowned;
          }
    ]

pub remove_all-Inv :
    (others : HookRefs) (hook : Hook) (world : World) (held : List ℕ)
    → Inv others hook world held
    → Inv others (remove_all hook world).0 (remove_all hook world).1 held
unfolding remove_all
remove_all-Inv others hook world held inv = record {
  unowned = inv.unowned;
  accounts =
      detach_all-Accounts others world.hook_refs held hook.records hook.listeners inv.accounts;
}

pub remove_matching-Inv :
    (others : HookRefs) (test : Listener → Bool) (hook : Hook) (world : World) (held : List ℕ)
    → Inv others hook world held
    → Inv others (remove_matching test hook world).0 (remove_matching test hook world).1 held
unfolding remove_matching
remove_matching-Inv others test hook world held inv = record {
  unowned = inv.unowned;
  accounts =
      detach_all-Accounts others world.hook_refs held hook.records
        (matching test hook.records hook.listeners) inv.accounts;
}
