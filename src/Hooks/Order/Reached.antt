-- ===== src/Hooks/Order/Reached.antt =====
-- The listeners of a hook are in order after any operations (src/core/hook_registry.cpp).
use dart_plant.Prelude.{
  false, ℕ, ◌≡◌, refl, ◌∙◌, Bool, true, ◌&&◌, arith, Bool-cases, List-cases, inl, inr,
}
use dart_plant.Hooks.Listeners.{Listener, HookRefs, Request, make_listener}
use dart_plant.Hooks.Listeners.Sorted.{is_sorted, is_older}
use dart_plant.Hooks.Record.{is_installed, Hook, World, remove_matching, detach, matching}
use dart_plant.Hooks.Unhook.{Replies}
use dart_plant.Hooks.Invoke.{
  Outside, may_begin, begin_invocation, add_listener, remove_listener, without,
}
use dart_plant.Hooks.Record.{retired, is_unhooked, is_retired, remove_all, release_bridge_consumer}
use dart_plant.Hooks.Registry.{
  Owned, by_generation, has_no_listener, take_listeners, invalidate_one, retire_one, is_found,
  retire_image_one,
}
use dart_plant.Hooks.Adapters.Steps.{
  invalidated, retired_with, retired_image, System, Step, added, began, left, removed, unhooked,
  exited, dropped,
}
use dart_plant.Hooks.Adapters.Invariant.{Reach, start, next}
use dart_plant.Hooks.Order.{
  is_ordered, detach-SameKeys, detach_all-SameKeys, leave-SameKeys, enter_all-SameKeys,
}
use dart_plant.Hooks.Order.Adding.{is_ordered-insert_listener}
use dart_plant.Hooks.Order.Kept.{is_ordered-SameKeys, is_ordered-remaining, is_ordered-without}
use dart_plant.Hooks.Order.Unhooking.{
  same_listeners, InOrder, unhook_record-InOrder, invocation_exited-InOrder,
}

make_listener-registration_order :
    (request : Request) (id order : ℕ) → (make_listener request id order).registration_order ≡ order
unfolding make_listener
make_listener-registration_order request id order = refl

add_listener-InOrder :
    (request : Request) (hook : Hook) (world : World)
    → InOrder hook
    → InOrder (add_listener request hook world).0
unfolding add_listener make_listener
add_listener-InOrder request hook world s =
    elim (Bool-cases (is_installed hook.state && hook.active)) [
      | inr closed ↦ rw (closed, add_listener) s
      | inl alive ↦
          let l = make_listener request hook.next_listener_id hook.next_registration_order in
          rw (alive, add_listener) (is_ordered-insert_listener hook.records l hook.listeners s)
    ]

begin_invocation-InOrder :
    (outside : Outside) (hook : Hook) → InOrder hook → InOrder (begin_invocation outside hook).0
unfolding begin_invocation
begin_invocation-InOrder outside hook s = elim (Bool-cases (may_begin hook)) [
  | inr closed ↦ rw (closed, begin_invocation) s
  | inl admits ↦ elim (Bool-cases (is_installed hook.state && hook.active)) [
    | inr bare ↦ rw (admits, bare, begin_invocation) s
    | inl full ↦
        let same = enter_all-SameKeys outside hook.records hook.listeners in
        rw (admits, full, begin_invocation)
          (is_ordered-SameKeys hook.records _ hook.next_registration_order hook.listeners same ∙ s)
  ]
]

remove_matching-InOrder :
    (test : Listener → Bool) (hook : Hook) (world : World)
    → InOrder hook
    → InOrder (remove_matching test hook world).0
unfolding remove_matching
remove_matching-InOrder test hook world s =
    let same =
      detach_all-SameKeys (matching test hook.records hook.listeners) hook.records
        world.hook_refs in
    is_ordered-SameKeys hook.records _ hook.next_registration_order _ same
    ∙ is_ordered-remaining test hook.records hook.next_registration_order hook.listeners s

remove_listener-InOrder :
    (replies : Replies) (index : ℕ) (hook : Hook) (world : World)
    → InOrder hook
    → InOrder (remove_listener replies index hook world).0
unfolding remove_listener
remove_listener-InOrder replies index hook world s =
    let taken : Hook = record hook {
      records = (detach index hook.records world.hook_refs).0;
      listeners = without index hook.listeners;
    } in
    let around : World = record world {
      hook_refs = (detach index hook.records world.hook_refs).1;
    } in
    let same = detach-SameKeys index hook.records world.hook_refs in
    let kept : InOrder taken =
      is_ordered-SameKeys hook.records taken.records hook.next_registration_order taken.listeners
        same
      ∙ is_ordered-without hook.records hook.next_registration_order index hook.listeners s in
    elim (List-cases (without index hook.listeners)) [
      | inr (i, is, some_left) ↦ rw (some_left, remove_listener) kept
      | inl empty ↦ elim (Bool-cases (is_installed hook.state)) [
        | inr other ↦ rw (empty, other, remove_listener) kept
        | inl on ↦ rw (empty, on, remove_listener) (unhook_record-InOrder replies taken around kept)
      ]
    ]

take_listeners-InOrder :
    (owned : Owned) (hook : Hook) (world : World)
    → InOrder hook
    → InOrder (take_listeners owned hook world).0
unfolding take_listeners
take_listeners-InOrder owned hook world o = elim (Bool-cases (has_no_listener hook)) [
  | inl bare ↦ rw (bare, take_listeners) o
  | inr some_there ↦
      rw (some_there, take_listeners) (remove_matching-InOrder owned.owns_listener hook world o)
]

invalidate_one-InOrder :
    (replies : Replies) (owned : Owned) (hook : Hook) (world : World)
    → InOrder hook
    → InOrder (invalidate_one replies owned hook world).0
unfolding invalidate_one
invalidate_one-InOrder replies owned hook world o =
    let taken = take_listeners-InOrder owned hook world o in
    let (less, around, matched) = take_listeners owned hook world in
    elim (Bool-cases (is_retired hook.state)) [
      | inl over ↦ rw (over, invalidate_one) o
      | inr a ↦ elim (Bool-cases (matched && has_no_listener less)) [
        | inl last ↦ rw (a, last, invalidate_one) (unhook_record-InOrder replies less around taken)
        | inr more ↦ rw (a, more, invalidate_one) taken
      ]
    ]

release_bridge_consumer-InOrder :
    (hook : Hook) (world : World) → InOrder hook → InOrder (release_bridge_consumer hook world).0
unfolding release_bridge_consumer
release_bridge_consumer-InOrder hook world o =
    same_listeners hook (release_bridge_consumer hook world).0 (ground arith) (ground arith)
      (ground arith) o

retire_one-InOrder :
    (generation : ℕ) (hook : Hook) (world : World)
    → InOrder hook
    → InOrder (retire_one generation hook world).0
unfolding retire_one
retire_one-InOrder generation hook world o =
    let taken = take_listeners-InOrder (by_generation generation) hook world o in
    let (less, around, matched) = take_listeners (by_generation generation) hook world in
    elim (Bool-cases (is_unhooked hook.state)) [
      | inl over ↦ rw (over, retire_one) o
      | inr a ↦ elim (Bool-cases (matched && has_no_listener less)) [
        | inr more ↦ rw (a, more, retire_one) taken
        | inl last ↦
            rw (a, last, retire_one)
              (release_bridge_consumer-InOrder (record less { active = false; state = retired })
                around taken)
      ]
    ]

retire_image_one-InOrder :
    (owned : Owned) (hook : Hook) (world : World)
    → InOrder hook
    → InOrder (retire_image_one owned hook world).0
unfolding retire_image_one remove_all is_ordered is_sorted is_older
retire_image_one-InOrder owned hook world o =
    let (less, around) = remove_all (record hook { active = false }) world in
    elim (Bool-cases (is_unhooked hook.state)) [
      | inl over ↦ rw (over, retire_image_one) o
      | inr a ↦ elim (Bool-cases (is_found owned hook)) [
        | inr other ↦ rw (a, other, retire_image_one) o
        | inl found ↦
            rw (a, found, retire_image_one)
              (release_bridge_consumer-InOrder (record less { state = retired }) around refl)
      ]
    ]

Step-InOrder : (s t : System) → Step s t → InOrder s.hook → InOrder t.hook
Step-InOrder s t (added request) o = add_listener-InOrder request s.hook s.world o
Step-InOrder s t (began outside indices e) o = begin_invocation-InOrder outside s.hook o
Step-InOrder s t (left index holds) o =
    is_ordered-SameKeys s.hook.records _ s.hook.next_registration_order s.hook.listeners
      (leave-SameKeys index s.hook.records s.world.hook_refs)
    ∙ o
Step-InOrder s t (removed test) o = remove_matching-InOrder test s.hook s.world o
Step-InOrder s t (unhooked replies) o = unhook_record-InOrder replies s.hook s.world o
Step-InOrder s t (exited replies) o = invocation_exited-InOrder replies s.hook s.world o
Step-InOrder s t (invalidated replies owned) o =
    invalidate_one-InOrder replies owned s.hook s.world o
Step-InOrder s t (retired_with generation) o = retire_one-InOrder generation s.hook s.world o
Step-InOrder s t (retired_image owned) o = retire_image_one-InOrder owned s.hook s.world o
Step-InOrder s t (dropped replies index) o = remove_listener-InOrder replies index s.hook s.world o

Reach-InOrder : (others : HookRefs) (s : System) → Reach others s → InOrder s.hook
unfolding is_ordered is_sorted is_older
Reach-InOrder others s (start hook world no_records none_yet unowned same) = rw none_yet refl
Reach-InOrder others s (next r t reach step) = Step-InOrder r s step (Reach-InOrder others r reach)

-- After any sequence of operations on a hook, in which an invocation leaves a listener only while it
-- holds it, the hook's listeners are in order: each precedes all later ones, by priority from the
-- highest down and then by registration order from the lowest up.
pub Reach-is_sorted :
    (others : HookRefs) (s : System)
    → Reach others s
    → is_sorted s.hook.records s.hook.listeners ≡ true
unfolding is_ordered
Reach-is_sorted others s reach = ground (arith, Reach-InOrder others s reach)
