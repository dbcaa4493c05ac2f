-- ===== src/Hooks/Interleaving/Callers.antt =====
-- What each move of a caller keeps (src/core/hook_registry.cpp).
use dart_plant.Prelude.{ℕ, suc, ◌+◌, ◌≡◌, ◌≢◌, refl, sym, true, false, arith, ◌∙◌, ◌≤◌}
use dart_plant.Gate.Control.{
  to_callback, bypass_target, installing, closed, encode_control, entrants_of, state_of,
}
use dart_plant.Gate.Control
use dart_plant.Gate.Hook.{Published, acquire, release}
use dart_plant.Hooks.Interleaving.{
  Caller, outside, pinned, begun, running, stranded, Unhooker, resting, drained, closing, shut,
  alone, calling, System, CallerMove, enter, give_up, begin, refused, turn_back, hand_over,
  setup_fails, exit,
}

unfoldable pub pins : Caller → ℕ
pins outside = 0
pins pinned = 1
pins begun = 1
pins running = 0
pins stranded = 1

unfoldable pub flights : Caller → ℕ
flights outside = 0
flights pinned = 0
flights begun = 1
flights running = 1
flights stranded = 0

-- What the unhooking thread counts on, by where it stands.
unfoldable pub Relies : Unhooker → Published → ℕ → Type 0
Relies resting gate in_flight = Unit {0}
Relies drained gate in_flight = gate.backend_installed ≡ true
Relies closing gate in_flight = gate.backend_installed ≡ true
Relies shut gate in_flight = (gate.backend_installed ≡ true) × (gate.control ≡ closed)
Relies alone gate in_flight =
    (gate.backend_installed ≡ true) × (gate.control ≡ closed) × (in_flight ≡ 0)
Relies calling gate in_flight =
    (gate.backend_installed ≡ true) × (gate.control ≡ closed) × (in_flight ≡ 0)

-- Without the host's hook the gate sends all callers to the target.
unfoldable pub Gone : Published → ℕ → Type 0
Gone gate in_flight =
    gate.backend_installed ≡ false → (gate.control ≡ bypass_target) × (in_flight ≡ 0)

pub record Sound (gate : Published) (in_flight : ℕ) (u : Unhooker) : Type 0 where
  pub tracked : gate.tracked ≡ true
  pub relies : Relies u gate in_flight
  pub gone : Gone gate in_flight

acquired :
    (g : Published)
    → g.tracked ≡ true
    → (acquire g).1 ≡ to_callback true
    → let q = (acquire g).0 in
      (entrants_of q.control ≡ suc (entrants_of g.control))
      × (g.control ≢ closed)
      × (g.control ≢ bypass_target)
      × (q.backend_installed ≡ g.backend_installed)
      × (q.tracked ≡ true)
unfolding acquire Control.route_of Control.pin_plan
acquired g t e = ground (arith, t, e)

released :
    (g : Published)
    → g.tracked ≡ true
    → entrants_of g.control ≢ 0
    → let q = release g in
      (suc (entrants_of q.control) ≡ entrants_of g.control)
      × (g.control ≢ closed)
      × (g.control ≢ bypass_target)
      × (q.backend_installed ≡ g.backend_installed)
      × (q.tracked ≡ true)
unfolding release Control.release_plan
released g t e = ground (arith, t, e)

pub closed-entrants_of : (w : ℕ) → w ≡ closed → entrants_of w ≡ 0
closed-entrants_of w e = omega (arith, e)

pub bypass_target-entrants_of : (w : ℕ) → w ≡ bypass_target → entrants_of w ≡ 0
bypass_target-entrants_of w e = omega (arith, e)

-- A gate that a caller holds a pin of is not closed, so nothing is relied on but the host's hook.
Relies-open :
    (u : Unhooker) (g q : Published) (f k : ℕ)
    → g.control ≢ closed
    → q.backend_installed ≡ g.backend_installed
    → Relies u g f
    → Relies u q k
unfolding Relies
Relies-open resting g q f k o e r = tt
Relies-open drained g q f k o e r = e ∙ r
Relies-open closing g q f k o e r = e ∙ r
Relies-open shut g q f k o e r = absurd (o r.1)
Relies-open alone g q f k o e r = absurd (o r.1)
Relies-open calling g q f k o e r = absurd (o r.1)

Relies-busy : (u : Unhooker) (g : Published) (f k : ℕ) → f ≢ 0 → Relies u g f → Relies u g k
unfolding Relies
Relies-busy resting g f k o r = tt
Relies-busy drained g f k o r = r
Relies-busy closing g f k o r = r
Relies-busy shut g f k o r = r
Relies-busy alone g f k o r = absurd (o r.2)
Relies-busy calling g f k o r = absurd (o r.2)

-- A move by a caller that holds a pin before it or after it.
Sound-open :
    (u : Unhooker) (g q : Published) (f k : ℕ)
    → Sound g f u
    → g.control ≢ closed
    → g.control ≢ bypass_target
    → q.backend_installed ≡ g.backend_installed
    → q.tracked ≡ true
    → Sound q k u
unfolding Gone
Sound-open u g q f k s o o' e t = record {
  tracked = t;
  relies = Relies-open u g q f k o e s.relies;
  gone = λ off. absurd (o' (s.gone (sym e ∙ off)).0);
}

pub record Counted (c d : Caller) (g q : Published) (f k : ℕ) (u : Unhooker) : Type 0 where
  pub sound : Sound q k u
  pub entrants : entrants_of q.control + pins c ≡ pins d + entrants_of g.control
  pub in_flights : k + flights c ≡ flights d + f

held_open :
    (g : Published) → entrants_of g.control ≢ 0 → (g.control ≢ closed) × (g.control ≢ bypass_target)
held_open g h =
    (λ e. h (closed-entrants_of g.control e), λ e. h (bypass_target-entrants_of g.control e))

pub CallerMove-Counted :
    (s : System) (c d : Caller) (q : Published) (k : ℕ)
    → CallerMove s c q k d
    → Sound s.gate s.in_flight s.unhooker
    → pins c ≤ entrants_of s.gate.control
    → flights c ≤ s.in_flight
    → Counted c d s.gate q s.in_flight k s.unhooker
unfolding pins flights Gone
CallerMove-Counted s c d q k (enter e) sound p f =
    let (n, o, o', b, t) = acquired s.gate sound.tracked e in
    record {
      sound = Sound-open s.unhooker s.gate q s.in_flight k sound o o' b t;
      entrants = omega (arith, n);
      in_flights = omega arith;
    }
CallerMove-Counted s c d q k give_up sound p f = record {
  sound = sound;
  entrants = omega arith;
  in_flights = omega arith;
}
CallerMove-Counted s c d q k (begin _) sound p f =
    let (o, o') = held_open s.gate (omega (arith, p)) in
    record {
      sound = Sound-open s.unhooker s.gate q s.in_flight k sound o o' refl sound.tracked;
      entrants = omega arith;
      in_flights = omega arith;
    }
CallerMove-Counted s c d q k (refused _ _) sound p f = record {
  sound = sound;
  entrants = omega arith;
  in_flights = omega arith;
}
CallerMove-Counted s c d q k (turn_back _ _) sound p f =
    let (n, o, o', b, t) = released s.gate sound.tracked (omega (arith, p)) in
    record {
      sound = Sound-open s.unhooker s.gate q s.in_flight k sound o o' b t;
      entrants = omega (arith, n);
      in_flights = omega arith;
    }
CallerMove-Counted s c d q k hand_over sound p f =
    let (n, o, o', b, t) = released s.gate sound.tracked (omega (arith, p)) in
    record {
      sound = Sound-open s.unhooker s.gate q s.in_flight k sound o o' b t;
      entrants = omega (arith, n);
      in_flights = omega arith;
    }
CallerMove-Counted s c d q k setup_fails sound p f =
    let (o, o') = held_open s.gate (omega (arith, p)) in
    record {
      sound = Sound-open s.unhooker s.gate q s.in_flight k sound o o' refl sound.tracked;
      entrants = omega arith;
      in_flights = omega (arith, f);
    }
CallerMove-Counted s c d q k exit sound p f =
    let busy : s.in_flight ≢ 0 = omega (arith, f) in
    record {
      sound = record {
        tracked = sound.tracked;
        relies = Relies-busy s.unhooker s.gate s.in_flight k busy sound.relies;
        gone = λ off. absurd (busy (sound.gone off).1);
      };
      entrants = omega arith;
      in_flights = omega (arith, f);
    }
