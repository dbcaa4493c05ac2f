-- ===== src/Gate/Hook/Lifecycle.antt =====
-- What installing, arming, draining and unhooking do to a published hook, branch by branch.
use dart_plant.Prelude.{ℕ, ◌≡◌, ◌≢◌, ◌↔◌, ◌⊎◌, true, false, some, arith}
use dart_plant.Prelude.Int.{ℤ, pos}
use dart_plant.Status.{ok, vm_adapter_busy, unhook_failed}
use dart_plant.Gate.Control.{
  Route, to_callback, to_target, installing, armed, draining, bypass_target, admits, encode_control,
}
use dart_plant.Gate.Control
use dart_plant.Gate.Hook.{
  conservative, strict, Binding, Published, HookReply, prepare, install, arm, begin_drain,
  uninstall, destroy_gate, release, acquire, after_published, recovery_required,
}

-- Whatever the host answers, installing a prepared hook leaves a gate that lets no caller through
-- to the callback.
pub install-admits :
    (p : Published) (r : HookReply)
    → p.control ≡ encode_control installing 0
    → admits (install p r).hook.control ≡ false
unfolding install Control.store_plan
install-admits p r h = ground arith

destroyed :
    (p : Published) (b : Binding) (r : HookReply)
    → p.binding ≡ some b
    → p.gate_entry ≢ 0
    → p.target ≢ 0
    → b.policy ≢ conservative
    → r.status ≢ pos 0
    → p.ever_published ≡ false
    → ((b.policy ≡ strict) → (r.status ≢ after_published) × (r.status ≢ recovery_required))
    → (destroy_gate (install p r).hook).1 ≡ true
unfolding destroy_gate install Control.store_plan
destroyed p b r e g t c failed fresh kept = ground (arith, kept)

-- After an attempt to install a prepared hook, its gate page is given back exactly if the host
-- reported a failure, the gate had not been published before, and, where the host is strict, the
-- failure is not one of the two that may have published the gate. Under the local-gate policy each
-- failure gives the page back, whatever its code.
pub destroy_gate-install :
    (p : Published) (b : Binding) (r : HookReply)
    → p.binding ≡ some b
    → p.gate_entry ≢ 0
    → p.target ≢ 0
    → b.policy ≢ conservative
    → ((destroy_gate (install p r).hook).1 ≡ true) ↔ (
        (r.status ≢ pos 0)
        × (p.ever_published ≡ false)
        × ((b.policy ≡ strict) → (r.status ≢ after_published) × (r.status ≢ recovery_required)))
unfolding destroy_gate install Control.store_plan
destroy_gate-install p b r e g t c =
    ((λ d. ground arith), (λ d. destroyed p b r e g t c d.0 d.1 d.2))

-- A pin that the gate granted is given back by `release`: the hook is as it was before.
pub release-acquire : (p : Published) → (acquire p).1 ≡ to_callback true → release (acquire p).0 ≡ p
unfolding release acquire Control.route_of Control.pin_plan Control.release_plan
release-acquire p h = ground arith

-- Unhooking ends in one of three ways. If it succeeds, nothing is installed and callers are sent to
-- the target. If it is busy, nothing has changed. If the host fails, the hook stays installed and
-- drains again with no entrant, and unhooking once more succeeds if the host then does.
pub uninstall_outcome :
    (p : Published) (b : Binding) (answer : ℤ)
    → p.binding ≡ some b
    → b.has_unhook ≡ true
    → let (q, status) = uninstall p answer in
      ((status ≡ ok) × (q.backend_installed ≡ false) × ((acquire q).1 ≡ to_target))
      ⊎ ((status ≡ vm_adapter_busy) × (q ≡ p))
      ⊎ ((status ≡ unhook_failed)
          × (q.backend_installed ≡ true)
          × (q.control ≡ encode_control draining 0)
          × ((uninstall q (pos 0)).1 ≡ ok))
unfolding uninstall acquire Control.store_plan Control.close_plan Control.reopen_plan
    Control.route_of
uninstall_outcome p b answer e u = ground arith

-- From preparation to removal: while a caller that was let through holds its pin, unhooking is
-- busy; once it has returned the pin, unhooking succeeds if the host does, and later callers are
-- sent to the target.
pub lifecycle :
    (p₀ : Published) (b : Binding) (target entry size : ℕ) (r : HookReply) (x : ℤ) (stub : ℕ)
    → (prepare p₀ (some b) target entry true 0 (stub, size)).1 ≡ ok
    → (install (prepare p₀ (some b) target entry true 0 (stub, size)).0 r).status ≡ ok
    → let p = (install (prepare p₀ (some b) target entry true 0 (stub, size)).0 r).hook in
      let (held, route) = acquire (arm p) in
      (route ≡ to_callback true)
      × ((uninstall (begin_drain held) x).1 ≡ vm_adapter_busy)
      × ((uninstall (begin_drain (release held)) (pos 0)).1 ≡ ok)
      × ((acquire (uninstall (begin_drain (release held)) (pos 0)).0).1 ≡ to_target)
unfolding prepare install arm acquire begin_drain release uninstall Control.store_plan
    Control.close_plan Control.reopen_plan Control.route_of Control.pin_plan
    Control.begin_drain_plan Control.release_plan
lifecycle p₀ b target entry size r x stub h k = ground arith
