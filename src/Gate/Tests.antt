-- ===== src/Gate/Tests.antt =====
-- The gate at concrete inputs.
use Prim.Native.Nat.{suc-le-suc, zero-le}
use dart_plant.Prelude.{
  ℕ, ◌<◌, ◌≡◌, ◌≢◌, ◌↔◌, ◌⊎◌, refl, Bool, true, false, none, some, [], ◌∷◌, arith, ℕ_discrete,
}
use dart_plant.Prelude.Int.{pos, negsuc}
use dart_plant.Prelude.Threads.{weight}
use dart_plant.Status.{ok, vm_adapter_busy, unhook_failed}
use dart_plant.Gate.Control.{
  draining, closed, to_callback, to_target, encode_control, admits, state_of, entrants_of,
  release_plan, stop, store_plan, close_plan, route_of, pin_plan, begin_drain_plan,
}
use dart_plant.Gate.Hook.{
  strict, local_gate, Binding, Published, HookReply, prepare, install, arm, begin_drain, uninstall,
  destroy_gate, release, acquire, after_published, recovery_required,
}
use dart_plant.Gate.Hook.Lifecycle.{
  install-admits, destroy_gate-install, release-acquire, uninstall_outcome, lifecycle,
}
use dart_plant.Gate.Threads.{
  swaps, call, admit, load, pin, go_back, load_pin, unpin, start_arm, load_store, store,
  start_drain, drain, start_uninstall, idle, close, unhooked, System, caller, owner, Reach, start,
  next,
}
use dart_plant.Gate.Threads.Invariant.{pins}
use dart_plant.Gate.Threads.Safety.{
  Reach-entrants_of, unhooking_alone, uninstalled_unreachable, release_never_stops,
}

abbrev lsposed : Binding
lsposed = record {
  has_hook = true;
  has_unhook = true;
  has_hook_with_publication = false;
  policy = local_gate;
}

abbrev dobby : Binding
dobby = record {
  has_hook = true;
  has_unhook = true;
  has_hook_with_publication = true;
  policy = strict;
}

abbrev prepared : Binding → Published
prepared b = record {
  control = 0;
  callback_entry = 0x2000;
  backup = 0;
  gate_target = 0x1000;
  binding = some b;
  target = 0x1000;
  gate_entry = 0x3000;
  gate_entry_size = 4096;
  tracked = true;
  backend_installed = false;
  ever_published = false;
}

abbrev unprepared : Published
unprepared = record (prepared lsposed) { binding = none; target = 0; gate_entry = 0 }

abbrev hooked : HookReply
hooked = record { status = pos 0; ready = 0x4000 ∷ []; original = 0x4000 }

abbrev rolled_back : HookReply
rolled_back = record { status = negsuc 2; ready = 0x4000 ∷ []; original = 0 }

abbrev refused : HookReply
refused = record { status = negsuc 0; ready = []; original = 0 }

abbrev running : Published
running = record (prepared lsposed) {
  control = encode_control draining 0;
  backup = 0x4000;
  backend_installed = true;
  ever_published = true;
}

install-admits_example : admits (install (prepared dobby) rolled_back).hook.control ≡ false
install-admits_example = install-admits (prepared dobby) rolled_back refl

destroy_gate-install_example : ((destroy_gate (install (prepared dobby) refused).hook).1 ≡ true) ↔ (
    (negsuc 0 ≢ pos 0)
    × (◌≡◌ {A = Bool} false false)
    × ((dobby.policy ≡ strict) → (negsuc 0 ≢ after_published) × (negsuc 0 ≢ recovery_required)))
destroy_gate-install_example =
    destroy_gate-install (prepared dobby) dobby refused refl (omega arith) (omega arith) (λ e. cc)

abbrev armed_hook : Published
armed_hook = record running { control = encode_control 1 4 }

release-acquire_example : release (acquire armed_hook).0 ≡ armed_hook
unfolding acquire route_of pin_plan
release-acquire_example = release-acquire armed_hook refl

uninstall_outcome_example :
    let (q, status) = uninstall running (pos 1) in
    ((status ≡ ok) × (q.backend_installed ≡ false) × ((acquire q).1 ≡ to_target))
    ⊎ ((status ≡ vm_adapter_busy) × (q ≡ running))
    ⊎ ((status ≡ unhook_failed)
        × (q.backend_installed ≡ true)
        × (q.control ≡ encode_control draining 0)
        × ((uninstall q (pos 0)).1 ≡ ok))
uninstall_outcome_example = uninstall_outcome running lsposed (pos 1) refl refl

lifecycle_example :
    let p =
      (install
        (prepare unprepared (some dobby) 0x1000 0x2000 true 0 (0x3000, 4096)).0
        hooked).hook in
    let (held, route) = acquire (arm p) in
    (route ≡ to_callback true)
    × ((uninstall (begin_drain held) (pos 0)).1 ≡ vm_adapter_busy)
    × ((uninstall (begin_drain (release held)) (pos 0)).1 ≡ ok)
    × ((acquire (uninstall (begin_drain (release held)) (pos 0)).0).1 ≡ to_target)
unfolding prepare install store_plan
lifecycle_example = lifecycle unprepared dobby 0x1000 0x2000 4096 hooked (pos 0) 0x3000 refl refl

-- One caller goes through the armed gate, and stands before the return of its pin.
record Run : Type 0 where
  last : System
  reach : Reach 1 last

abbrev zero_lt_one : 0 < 1
zero_lt_one = suc-le-suc zero-le

abbrev armed_run : Run
unfolding store_plan
armed_run = record {
  last = _;
  reach =
      next (next (next start (owner start_arm)) (owner load_store))
        (owner (store (swaps {r = tt} refl refl)));
}

-- The caller looks, loads the word and swaps in its pin.
abbrev pinned_run : Run
unfolding armed_run pin_plan route_of ℕ_discrete
pinned_run = record {
  last = _;
  reach =
      next
        (next
          (next (next armed_run.reach (caller 0 zero_lt_one call))
            (caller 0 zero_lt_one (admit refl)))
          (caller 0 zero_lt_one load))
        (caller 0 zero_lt_one (pin (swaps {r = to_callback true} refl refl)));
}

abbrev returning_run : Run
unfolding pinned_run
returning_run = record {
  last = _;
  reach =
      next (next pinned_run.reach (caller 0 zero_lt_one go_back)) (caller 0 zero_lt_one load_pin);
}

-- It returns the pin; the owner drains and starts to unhook.
abbrev unhooking_run : Run
unfolding returning_run release_plan begin_drain_plan close_plan
unhooking_run = record {
  last = _;
  reach =
      next
        (next
          (next
            (next
              (next
                (next returning_run.reach (caller 0 zero_lt_one (unpin (swaps {r = tt} refl refl))))
                (owner start_drain))
              (owner (drain (swaps {r = tt} refl refl))))
            (owner start_uninstall))
          (owner (idle refl)))
        (owner (close (swaps {r = true} refl refl)));
}

abbrev removed_run : Run
unfolding unhooking_run
removed_run = record { last = _; reach = next unhooking_run.reach (owner unhooked) }

Reach-entrants_of_example : entrants_of returning_run.last.word ≡ 1
unfolding returning_run weight
Reach-entrants_of_example = Reach-entrants_of returning_run.reach

unhooking_alone_example :
    (state_of unhooking_run.last.word ≡ closed)
    × ((i : ℕ) → i < 1 → pins (unhooking_run.last.callers i) ≡ 0)
unfolding unhooking_run
unhooking_alone_example = unhooking_alone unhooking_run.reach refl

uninstalled_unreachable_example :
    (admits removed_run.last.word ≡ false)
    × ((i : ℕ) → i < 1 → pins (removed_run.last.callers i) ≡ 0)
unfolding removed_run
uninstalled_unreachable_example = uninstalled_unreachable removed_run.reach refl

release_never_stops_example : release_plan (encode_control 1 1) ≢ stop tt
unfolding returning_run
release_never_stops_example = release_never_stops 0 returning_run.reach refl
