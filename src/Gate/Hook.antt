-- ===== src/Gate/Hook.antt =====
-- `PublishedHostHook` and its operations (src/host/publication_gate.cpp, src/core/internal.h), as
-- its one owner sees them between two accesses of other threads. Addresses are numbers, 0 is the
-- null pointer; the hook itself is never null. What the host backend answers is an argument. The
-- text of the last error, which the operations also set, is left out.
pub mod Lifecycle
use dart_plant.Prelude.{
  ℕ, suc, ◌==◌, if◌then◌else◌, Bool, true, false, not, ◌&&◌, ◌||◌, Option, none, some, List, foldl,
}
use dart_plant.Prelude.Int.{ℤ, pos, negsuc, ◌==ℤ◌}
use dart_plant.Status.{
  Status, ok, invalid_argument, unsupported_abi, hook_failed, unhook_failed, vm_adapter_busy,
}
use dart_plant.Gate.Control.{
  undisturbed, Route, installing, armed, bypass_target, bypass_backup, failed, encode_control,
  entrants_of, store_plan, begin_drain_plan, close_plan, reopen_plan, release_plan, pin_plan,
  route_of,
}

pub data Policy : Type 0 where
  conservative strict local_gate : Policy

-- `HostApiBinding`: which callbacks are there. They are called through the owner only.
pub record Binding : Type 0 where
  pub has_hook : Bool
  pub has_unhook : Bool
  pub has_hook_with_publication : Bool
  pub policy : Policy

-- `PublishedHostHook`, with the fields of its gate.
pub record Published : Type 0 where
  pub control : ℕ
  pub callback_entry : ℕ
  pub backup : ℕ
  pub gate_target : ℕ
  pub binding : Option Binding
  pub target : ℕ
  pub gate_entry : ℕ
  pub gate_entry_size : ℕ
  pub tracked : Bool
  pub backend_installed : Bool
  pub ever_published : Bool

-- What the host answers: its status, the values that it hands to `backup_ready` in order (a strict
-- host) and the value of its out parameter (a legacy host).
pub record HookReply : Type 0 where
  pub status : ℤ
  pub ready : List ℕ
  pub original : ℕ

pub record InstallResult : Type 0 where
  pub hook : Published
  pub status : Status
  pub out_backup : Option ℕ  -- what is stored through the out parameter, if anything

abbrev pub after_published : ℤ
after_published = negsuc 1

abbrev pub recovery_required : ℤ
recovery_required = negsuc 2

pub supports_by : Binding → Policy → Bool
supports_by b strict = b.has_hook_with_publication
supports_by b local_gate = b.has_hook
supports_by b conservative = false

-- `HostBindingSupportsPublishedHooks`
unfoldable pub supports_published_hooks : Option Binding → Bool
unfolding supports_by
supports_published_hooks none = false
supports_published_hooks (some b) = supports_by b b.policy

-- False for a null binding too.
has_unhook_callback : Option Binding → Bool
has_unhook_callback none = false
has_unhook_callback (some b) = b.has_unhook

-- `PreparePublishedHostHook`. `gate_stub` is what the stub allocator returned, 0 if it failed.
unfoldable pub prepare : Published → Option Binding → ℕ → ℕ → Bool → ℕ → ℕ × ℕ → Published × Status
unfolding supports_published_hooks has_unhook_callback
prepare p binding target callback_entry tracked testing_entry (stub, stub_size) =
    if target == 0
      || (callback_entry == 0
          || (not (has_unhook_callback binding) || not (supports_published_hooks binding)))
    then (p, unsupported_abi)
    else if not (testing_entry == 0)
    then (record bound { gate_entry = testing_entry; gate_entry_size = 0 }, ok)
    else (
      record bound { gate_entry = stub; gate_entry_size = stub_size },
      (if stub == 0 then hook_failed else ok),
    )
  where
    bound : Published
    bound = record p {
      binding = binding;
      target = target;
      tracked = tracked;
      callback_entry = callback_entry;
      backup = 0;
      gate_target = target;
      control = encode_control installing 0;
    }

unfoldable pub store_state : Published → ℕ → Published
unfolding store_plan
store_state p state = record p { control = (undisturbed (store_plan state p.control) p.control).0 }

-- A null value is ignored.
backup_ready : ℕ → ℕ → ℕ
backup_ready current ready = if ready == 0 then current else ready

-- The host call of `InstallPublishedHostHook`: the backup that it leaves in the gate, and the
-- status.
call_host : Policy → ℕ → HookReply → ℕ × ℤ
unfolding backup_ready
call_host strict backup r = (foldl backup_ready backup r.ready, r.status)
call_host local_gate backup r = (r.original, r.status)
call_host conservative backup r = (backup, negsuc 0)

is_strict : Policy → Bool
is_strict strict = true
is_strict _ = false

-- The backup that the code after the host call goes by.
pub found_backup : Policy → ℕ → ℕ
found_backup conservative backup = 0
found_backup _ backup = backup

-- The part of `InstallPublishedHostHook` after the host call.
conclude : Published → Policy → ℕ → ℤ → InstallResult
unfolding is_strict store_state
conclude p policy backup status =
    if not (status ==ℤ pos 0)
    then record {
      hook =
          if is_strict policy && status ==ℤ recovery_required
          then if not (backup == 0) then store_state live bypass_backup else live
          else if is_strict policy && status ==ℤ after_published
          then store_state (record p { ever_published = true; backend_installed = false })
              bypass_target
          else store_state p failed;
      status = hook_failed;
      out_backup = some 0;
    }
    else if backup == 0
    then record { hook = live; status = hook_failed; out_backup = some 0 }
    else record { hook = record live { backup = backup }; status = ok; out_backup = some backup }
  where
    live : Published
    live = record p { ever_published = true; backend_installed = true }

install_with : Published → Binding → HookReply → InstallResult
unfolding call_host found_backup conclude
install_with p b r =
    let (backup, status) = call_host b.policy p.backup r in
    conclude (record p { backup = backup }) b.policy (found_backup b.policy backup) status

-- `InstallPublishedHostHook`
unfoldable pub install : Published → HookReply → InstallResult
unfolding install_with
install p r = elim p.binding [
  | none ↦ record { hook = p; status = invalid_argument; out_backup = none }
  | some b ↦
      if p.gate_entry == 0 || p.target == 0
      then record { hook = p; status = invalid_argument; out_backup = none }
      else install_with p b r
]

-- `ArmPublishedHostHook`
unfoldable pub arm : Published → Published
unfolding store_state
arm p = if not p.backend_installed || p.backup == 0 then p else store_state p armed

-- `BypassPublishedHostHookToBackup`
unfoldable pub bypass_to_backup : Published → Published
unfolding store_state
bypass_to_backup p = if p.backup == 0 then p else store_state p bypass_backup

-- `BeginDrainPublishedHostHook`
unfoldable pub begin_drain : Published → Published
unfolding begin_drain_plan
begin_drain p =
    if p.backend_installed
    then record p { control = (undisturbed (begin_drain_plan p.control) p.control).0 }
    else p

-- `ClosePublishedHostHook`
unfoldable pub close : Published → Published × Bool
unfolding close_plan
close p =
    let (word, done) = undisturbed (close_plan p.control) p.control in
    if p.backend_installed then (record p { control = word }, done) else (p, false)

-- `ReopenPublishedHostHookDrain`
unfoldable pub reopen : Published → Published
unfolding reopen_plan
reopen p =
    if p.backend_installed
    then record p { control = (undisturbed (reopen_plan p.control) p.control).0 }
    else p

-- `PublishedHostHookEntrantsIdle`
unfoldable pub entrants_idle : Published → Bool
entrants_idle p = entrants_of p.control == 0

-- `UninstallPublishedHostHook`; `answer` is what the host's `unhook` returns, if it is called.
unfoldable pub uninstall : Published → ℤ → Published × Status
unfolding store_state entrants_idle close reopen has_unhook_callback
uninstall p answer =
    if not p.backend_installed
    then (store_state p bypass_target, ok)
    else if not (entrants_idle p)
    then (p, vm_adapter_busy)
    else let (q, done) = close p in
      if not done
      then (q, vm_adapter_busy)
      else if has_unhook_callback q.binding && answer ==ℤ pos 0
      then (store_state (record q { backend_installed = false }) bypass_target, ok)
      else (reopen q, unhook_failed)

-- `DestroyPublishedHostHookGate`: whether the executable page of the gate is given back.
unfoldable pub destroy_gate : Published → Published × Bool
destroy_gate p =
    if p.gate_entry == 0 || p.ever_published
    then (p, false)
    else (record p { gate_entry = 0; gate_entry_size = 0 }, true)

-- `ReleasePublishedHostHookEntrant`
unfoldable pub release : Published → Published
unfolding release_plan
release p =
    if p.tracked
    then record p { control = (undisturbed (release_plan p.control) p.control).0 }
    else p

-- One pass of `AcquirePublishedHostHookRouteForTesting`; it repeats while it is told `again`.
unfoldable pub acquire : Published → Published × Route
unfolding route_of pin_plan
acquire p = elim (route_of p.tracked p.control) [
  | some route ↦ (p, route)
  | none ↦
      let (word, route) = undisturbed (pin_plan p.control) p.control in
      (record p { control = word }, route)
]
