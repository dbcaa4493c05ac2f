-- ===== src/Hooks/Interleaving/Safety.antt =====
-- The host's hook outlives every call that is past the gate (src/core/hook_registry.cpp).
use dart_plant.Prelude.{ℕ, ◌<◌, ◌≡◌, ◌≢◌, refl, sym, ◌∙◌, true, arith, subst, Bool-cases, inl, inr}
use dart_plant.Prelude.Threads.{weight, weight-move, weigh-le-weight, weight-still}
use dart_plant.Gate.Control.{entrants_of}
use dart_plant.Gate.Hook.{Published}
use dart_plant.Hooks.Interleaving.{
  Caller, outside, pinned, begun, running, stranded, calling, System, Step, caller, unhooker,
  IsFresh, init, Reach, start_at, next,
}
use dart_plant.Hooks.Interleaving.Callers.{
  pins, flights, Sound, Relies, Gone, CallerMove-Counted, closed-entrants_of,
  bypass_target-entrants_of,
}
use dart_plant.Hooks.Interleaving.Unhooking.{UnhookerMove-Moved}

record Inv (n : ℕ) (s : System) : Type 0 where
  sound : Sound s.gate s.in_flight s.unhooker
  pinned_by : entrants_of s.gate.control ≡ weight pins n s.callers
  counted_by : s.in_flight ≡ weight flights n s.callers

Step-Inv : (n : ℕ) (s t : System) → Step n s t → Inv n s → Inv n t
Step-Inv n s t (caller i {gate = gate} {flights = k} {c = c} lt m) inv =
    let p = weigh-le-weight pins n s.callers i lt in
    let f = weigh-le-weight flights n s.callers i lt in
    let counted =
      CallerMove-Counted s (s.callers i) c gate k m inv.sound (omega (arith, p, inv.pinned_by))
        (omega (arith, f, inv.counted_by)) in
    let moved_pins = weight-move pins n s.callers i c lt in
    let moved_flights = weight-move flights n s.callers i c lt in
    record {
      sound = counted.sound;
      pinned_by = omega (arith, moved_pins, counted.entrants, inv.pinned_by);
      counted_by = omega (arith, moved_flights, counted.in_flights, inv.counted_by);
    }
Step-Inv n s t (unhooker {gate = gate} {state = st} {u = u} m) inv =
    let moved = UnhookerMove-Moved s s.unhooker u gate st m inv.sound in
    record {
      sound = moved.sound;
      pinned_by = moved.entrants ∙ inv.pinned_by;
      counted_by = inv.counted_by;
    }

init-Inv : (n : ℕ) (gate : Published) → IsFresh gate → Inv n (init gate)
unfolding Relies Gone pins flights
init-Inv n gate fresh = record {
  sound = record {
    tracked = fresh.tracked;
    relies = tt;
    gone = λ off. absurd (ground (arith, off, fresh.installed));
  };
  pinned_by = omega (arith, fresh.shut, weight-still pins n outside refl);
  counted_by = sym (weight-still flights n outside refl);
}

Reach-Inv : (n : ℕ) (gate : Published) (s : System) → Reach n gate s → Inv n s
Reach-Inv n gate s (start_at fresh) = init-Inv n gate fresh
Reach-Inv n gate s (next {s = t} r step) = Step-Inv n t s step (Reach-Inv n gate t r)

-- Without pins and without calls in flight, a caller is outside.
idle-outside : (c : Caller) → pins c ≡ 0 → flights c ≡ 0 → c ≡ outside
unfolding pins flights
idle-outside outside p f = refl
idle-outside pinned p f = absurd (ground arith)
idle-outside begun p f = absurd (ground arith)
idle-outside running p f = absurd (ground arith)
idle-outside stranded p f = absurd (ground arith)

all_outside :
    (n : ℕ) (s : System) (i : ℕ)
    → Inv n s
    → i < n
    → entrants_of s.gate.control ≡ 0
    → s.in_flight ≡ 0
    → s.callers i ≡ outside
all_outside n s i inv lt none_pinned none_running =
    let p = weigh-le-weight pins n s.callers i lt in
    let f = weigh-le-weight flights n s.callers i lt in
    idle-outside (s.callers i) (omega (arith, p, inv.pinned_by)) (omega (arith, f, inv.counted_by))

-- In every interleaving, while a caller is past the gate, whether it is pinned, counted in flight or
-- stranded, the host's hook is installed and the host's `unhook` is not running, so the trampoline
-- of the original stays.
pub Reach-backend_installed :
    (n : ℕ) (gate : Published) (s : System) (i : ℕ)
    → Reach n gate s
    → i < n
    → s.callers i ≢ outside
    → (s.gate.backend_installed ≡ true) × (s.unhooker ≢ calling)
unfolding Gone Relies
Reach-backend_installed n gate s i r lt busy =
    let inv = Reach-Inv n gate s r in
    (
      elim (Bool-cases s.gate.backend_installed) [
        | inl on ↦ on
        | inr off ↦
            let (word, none_running) = inv.sound.gone off in
            absurd (
              busy (
                all_outside n s i inv lt (bypass_target-entrants_of s.gate.control word)
                  none_running))
      ],
      λ e.
          let (on, word, none_running) =
            subst (λ u. Relies u s.gate s.in_flight) e inv.sound.relies in
          busy (all_outside n s i inv lt (closed-entrants_of s.gate.control word) none_running),
    )
