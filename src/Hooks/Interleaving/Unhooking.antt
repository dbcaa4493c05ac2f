-- ===== src/Hooks/Interleaving/Unhooking.antt =====
-- What each move of the unhooking thread keeps (src/core/hook_registry.cpp).
use dart_plant.Prelude.{ℕ, ◌≡◌, refl, sym, true, false, arith, ◌∙◌}
use dart_plant.Gate.Control.{
  to_callback, bypass_target, installing, closed, encode_control, entrants_of, state_of,
}
use dart_plant.Gate.Control
use dart_plant.Gate.Hook.{Published, arm, begin_drain, close, reopen, store_state}
use dart_plant.Hooks.Record.{HookState}
use dart_plant.Hooks.Interleaving.{
  Unhooker, resting, calling, System, UnhookerMove, arm_gate, start, wait, go_on, close_busy,
  close_done, late, clear, occupied, close_fails, call_host, host_done, host_fails,
}
use dart_plant.Hooks.Interleaving.Callers.{Relies, Gone, Sound}

-- What an operation of the gate keeps.
record Kept (g q : Published) : Type 0 where
  entrants : entrants_of q.control ≡ entrants_of g.control
  tracked : q.tracked ≡ g.tracked
  backend : q.backend_installed ≡ g.backend_installed
  away : g.backend_installed ≡ false → q.control ≡ g.control

arm-Kept : (g : Published) → Kept g (arm g)
unfolding arm Control.store_plan
arm-Kept g = record {
  entrants = ground arith;
  tracked = ground arith;
  backend = ground arith;
  away = λ e. ground (arith, e);
}

begin_drain-Kept : (g : Published) → Kept g (begin_drain g)
unfolding begin_drain Control.begin_drain_plan
begin_drain-Kept g = record {
  entrants = ground arith;
  tracked = ground arith;
  backend = ground arith;
  away = λ e. ground (arith, e);
}

close-Kept : (g : Published) → Kept g (close g).0
unfolding close Control.close_plan
close-Kept g = record {
  entrants = ground arith;
  tracked = ground arith;
  backend = ground arith;
  away = λ e. ground (arith, e);
}

reopen-Kept : (g : Published) → Kept g (reopen g)
unfolding reopen Control.reopen_plan
reopen-Kept g = record {
  entrants = ground arith;
  tracked = ground arith;
  backend = ground arith;
  away = λ e. ground (arith, e);
}

close_done-closed : (g : Published) → (close g).1 ≡ true → (close g).0.control ≡ closed
unfolding close Control.close_plan
close_done-closed g e = ground (arith, e)

Sound-Kept :
    (g q : Published) (f : ℕ) (u v : Unhooker) → Kept g q → Sound g f u → Relies v q f → Sound q f v
unfolding Gone
Sound-Kept g q f u v kept s r = record {
  tracked = kept.tracked ∙ s.tracked;
  relies = r;
  gone = λ off.
      let off_g = sym kept.backend ∙ off in (kept.away off_g ∙ (s.gone off_g).0, (s.gone off_g).1);
}

removed : Published → Published
removed g = store_state (record g { backend_installed = false }) bypass_target

removed-Sound : (g : Published) (f : ℕ) → Sound g f calling → Sound (removed g) f resting
unfolding removed Gone Relies store_state Control.store_plan
removed-Sound g f s = record {
  tracked = ground (arith, s.tracked);
  relies = tt;
  gone = λ off. (ground (arith, s.relies.1), s.relies.2);
}

removed-entrants_of : (g : Published) → entrants_of (removed g).control ≡ entrants_of g.control
unfolding removed store_state Control.store_plan
removed-entrants_of g = ground arith

pub record Moved (g q : Published) (f : ℕ) (v : Unhooker) : Type 0 where
  pub sound : Sound q f v
  pub entrants : entrants_of q.control ≡ entrants_of g.control

-- A move to a place where nothing more is relied on than is now.
Moved-Kept :
    (g q : Published) (f : ℕ) (u v : Unhooker)
    → Kept g q
    → Sound g f u
    → Relies v q f
    → Moved g q f v
Moved-Kept g q f u v kept s r = record {
  sound = Sound-Kept g q f u v kept s r;
  entrants = kept.entrants;
}

same-Kept : (g : Published) → Kept g g
same-Kept g = record { entrants = refl; tracked = refl; backend = refl; away = λ e. refl }

pub UnhookerMove-Moved :
    (s : System) (u v : Unhooker) (q : Published) (st : HookState)
    → UnhookerMove s u q st v
    → Sound s.gate s.in_flight u
    → Moved s.gate q s.in_flight v
unfolding Relies removed
UnhookerMove-Moved s u v q st (arm_gate _) sound =
    Moved-Kept s.gate q s.in_flight u v (arm-Kept s.gate) sound tt
UnhookerMove-Moved s u v q st (start e) sound =
    let kept = begin_drain-Kept s.gate in
    Moved-Kept s.gate q s.in_flight u v kept sound (kept.backend ∙ e)
UnhookerMove-Moved s u v q st (wait _) sound =
    Moved-Kept s.gate q s.in_flight u v (same-Kept s.gate) sound tt
UnhookerMove-Moved s u v q st (go_on _) sound =
    Moved-Kept s.gate q s.in_flight u v (same-Kept s.gate) sound sound.relies
UnhookerMove-Moved s u v q st (close_busy _) sound =
    Moved-Kept s.gate q s.in_flight u v (close-Kept s.gate) sound tt
UnhookerMove-Moved s u v q st (close_done e) sound =
    let kept = close-Kept s.gate in
    Moved-Kept s.gate q s.in_flight u v kept sound
      (kept.backend ∙ sound.relies, close_done-closed s.gate e)
UnhookerMove-Moved s u v q st (late _) sound =
    Moved-Kept s.gate q s.in_flight u v (reopen-Kept s.gate) sound tt
UnhookerMove-Moved s u v q st (clear e) sound =
    Moved-Kept s.gate q s.in_flight u v (same-Kept s.gate) sound (sound.relies.0, sound.relies.1, e)
UnhookerMove-Moved s u v q st (occupied _) sound =
    Moved-Kept s.gate q s.in_flight u v (same-Kept s.gate) sound tt
UnhookerMove-Moved s u v q st (close_fails _ _) sound =
    Moved-Kept s.gate q s.in_flight u v (close-Kept s.gate) sound tt
UnhookerMove-Moved s u v q st (call_host _ e) sound =
    let kept = close-Kept s.gate in
    Moved-Kept s.gate q s.in_flight u v kept sound
      (kept.backend ∙ sound.relies.0, close_done-closed s.gate e, sound.relies.2)
UnhookerMove-Moved s u v q st host_done sound = record {
  sound = removed-Sound s.gate s.in_flight sound;
  entrants = removed-entrants_of s.gate;
}
UnhookerMove-Moved s u v q st host_fails sound =
    Moved-Kept s.gate q s.in_flight u v (reopen-Kept s.gate) sound tt
