-- ===== src/Hooks/Invoke.antt =====
-- Invocations and listeners coming and going (src/core/hook_registry.cpp,
-- src/interceptor/callback_dispatch.cpp, src/interceptor/runtime_hook.cpp). What the VM adapter
-- says of a listener, and the value of each generation counter, are arguments.
use dart_plant.Prelude.{
  ℕ, ◌+◌, ◌-◌, ◌^◌, ◌==◌, if◌then◌else◌, Bool, true, false, not, ◌&&◌, ◌||◌, Option, none, some,
  List, [], ◌∷◌, ◌++◌, get_elem?, set, length,
}
use dart_plant.Status.{Status, ok, unhook_failed}
use dart_plant.Hooks.Listeners.{
  Listener, HookRefs, Request, change_record, insert_listener, make_listener, release_if_idle,
  retain_hook,
}
use dart_plant.Hooks.Record.{
  HookState, created, installing, installed, unhooking, unhooked, failed, failed_after_published,
  retired, is_installed, is_unhooking, Hook, World, detach,
}
use dart_plant.Hooks.Unhook.{Replies, finish_unhook, unhook_record}

abbrev pub has_published : Hook → Bool
has_published hook = elim hook.published [ none ↦ false | some p ↦ true ]

-- Whether the state lets an invocation begin.
abbrev pub state_admits : HookState → Bool → Bool
state_admits retired passthrough = false
state_admits unhooked passthrough = false
state_admits installing passthrough = false
state_admits failed passthrough = passthrough
state_admits created passthrough = true
state_admits installed passthrough = true
state_admits unhooking passthrough = true
state_admits failed_after_published passthrough = true

-- `BeginInvocation`: the guards.
unfoldable pub may_begin : Hook → Bool
may_begin hook =
    hook.has_method && state_admits hook.state (has_published hook && hook.backend_installed)

-- What a listener's admission depends on.
pub record Outside : Type 0 where
  pub generation_of : ℕ → ℕ
  pub admission_open : ℕ → Bool
  pub binding_current : Listener → Bool

-- `BeginInvocation`: the tests of one listener in the loop.
unfoldable pub is_admitted : Outside → Listener → Bool
is_admitted outside listener =
    let generation = listener.runtime_generation in
    listener.active
    && ((generation == 0
          || (not (listener.expected_runtime_generation == 0)
              && outside.generation_of generation == listener.expected_runtime_generation))
        && ((listener.vm_adapter == 0 || outside.admission_open listener.vm_adapter)
            && outside.binding_current listener))

abbrev pub entered : Listener → Listener
entered listener = record listener { in_flight = listener.in_flight + 1 }

-- `BeginInvocation`: the loop over the listeners, with those that the invocation enters.
unfoldable pub enter_all : Outside → List Listener → List ℕ → List Listener × List ℕ
unfolding is_admitted change_record
enter_all outside records [] = (records, [])
enter_all outside records (i ∷ is) =
    let admitted = elim (get_elem? records i) as (λ _. Bool) [
      | none ↦ false
      | some listener ↦ is_admitted outside listener
    ] in
    let here : List Listener = if admitted then change_record entered i records else records in
    let (after, rest) = enter_all outside here is in (after, (if admitted then i ∷ rest else rest))

-- `BeginInvocation`: the indices of the entered listeners, or none when it refuses.
unfoldable pub begin_invocation : Outside → Hook → Hook × Option (List ℕ)
unfolding may_begin enter_all
begin_invocation outside hook =
    let pinned : Hook = record hook { in_flight = hook.in_flight + 1 } in
    let (records, indices) = enter_all outside hook.records hook.listeners in
    if not (may_begin hook)
    then (hook, none)
    else if not (is_installed hook.state && hook.active)
    then (pinned, some [])
    else (record pinned { records = records }, some indices)

-- `fetch_sub` on 64 bits
abbrev pub one_less : ℕ → ℕ
one_less n = if n == 0 then 2 ^ 64 - 1 else n - 1

-- One listener leaves an invocation: `fetch_sub` and `ReleaseListenerVmAdapterIfIdle`.
unfoldable pub leave : ℕ → List Listener → HookRefs → List Listener × HookRefs
unfolding release_if_idle
leave index records refs = elim (get_elem? records index) [
  | none ↦ (records, refs)
  | some listener ↦
      let (left, after) =
        release_if_idle (record listener { in_flight = one_less listener.in_flight }) refs in
      (set records index left, after)
]

-- `ClearEnteredListeners`
unfoldable pub leave_all : List ℕ → List Listener → HookRefs → List Listener × HookRefs
unfolding leave
leave_all [] records refs = (records, refs)
leave_all (index ∷ rest) records refs =
    let (left, after) = leave index records refs in leave_all rest left after

-- `InvocationExited`; subtraction stops at 0 as the code does.
unfoldable pub invocation_exited : Replies → Hook → World → Hook × World × Status
unfolding finish_unhook
invocation_exited replies hook world =
    let left : Hook = record hook { in_flight = hook.in_flight - 1 } in
    if left.in_flight == 0 && is_unhooking left.state
    then finish_unhook replies left world
    else (left, world, ok)

-- `ReleaseSnapshot`
unfoldable pub release_snapshot : Replies → List ℕ → Hook → World → Hook × World × Status
unfolding leave_all invocation_exited
release_snapshot replies indices hook world =
    let (records, refs) = leave_all indices hook.records world.hook_refs in
    invocation_exited replies (record hook { records = records })
      (record world { hook_refs = refs })

-- The end of `AddCallbackListener`, under the hook's mutex: `MakeListenerLocked` and
-- `InsertListenerLocked`. The handle's listener is the last record.
unfoldable pub add_listener : Request → Hook → World → Hook × World × Status
unfolding make_listener insert_listener retain_hook
add_listener request hook world =
    let listener = make_listener request hook.next_listener_id hook.next_registration_order in
    let index = length hook.records in
    let records = hook.records ++ (listener ∷ []) in
    if not (is_installed hook.state && hook.active) then (hook, world, unhook_failed) else (
      record hook {
        next_listener_id = hook.next_listener_id + 1;
        next_registration_order = hook.next_registration_order + 1;
        records = records;
        listeners = insert_listener records listener index hook.listeners;
        listener_handles = hook.listener_handles + 1;
      },
      record world { hook_refs = retain_hook request.vm_adapter world.hook_refs },
      ok,
    )

-- `remove_if` of one record
unfoldable pub without : ℕ → List ℕ → List ℕ
without index [] = []
without index (i ∷ is) = if i == index then without index is else i ∷ without index is

-- `dartplant_remove_listener`, for the record at the index
unfoldable pub remove_listener : Replies → ℕ → Hook → World → Hook × World × Status
unfolding detach without unhook_record
remove_listener replies index hook world =
    let (records, refs) = detach index hook.records world.hook_refs in
    let left = without index hook.listeners in
    let removed : Hook = record hook { records = records; listeners = left } in
    let around : World = record world { hook_refs = refs } in
    elim left [
      | i ∷ is ↦ (removed, around, ok)
      | [] ↦
          if is_installed removed.state
          then unhook_record replies removed around
          else (removed, around, ok)
    ]

-- `dartplant_listener_is_active` and `dartplant_listener_is_idle`
unfoldable pub listener_is_active : Hook → ℕ → Bool
listener_is_active hook index = elim (get_elem? hook.records index) [
  | none ↦ false
  | some listener ↦ listener.active
]

unfoldable pub listener_is_idle : Hook → ℕ → Bool
listener_is_idle hook index = elim (get_elem? hook.records index) [
  | none ↦ false
  | some listener ↦ listener.in_flight == 0
]

-- `dartplant_release_listener`: nothing happens while an invocation holds the listener.
unfoldable pub release_listener : Replies → ℕ → Hook → World → Hook × World
unfolding listener_is_idle remove_listener
release_listener replies index hook world =
    let (left, around, status) = remove_listener replies index hook world in
    if listener_is_idle hook index
    then (record left { listener_handles = left.listener_handles - 1 }, around)
    else (hook, world)
