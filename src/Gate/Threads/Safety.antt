-- ===== src/Gate/Threads/Safety.antt =====
-- What no interleaving of the owner and the callers of a gate can break.
use dart_plant.Prelude.{ℕ, ◌<◌, ◌≡◌, ◌≢◌, Bool, false, arith}
use dart_plant.Prelude.Threads.{weight, weigh-le-weight}
use dart_plant.Gate.Control.{stop, closed, state_of, entrants_of, admits, release_plan}
use dart_plant.Gate.Threads.{releasing, Owner, unhooking, System, Reach}
use dart_plant.Gate.Threads.Invariant.{Relies, pins, Reach-Inv}

-- In every reachable state the entrant count of the gate is the number of pins that callers hold.
pub Reach-entrants_of :
    {n : ℕ} {s : System} → Reach n s → entrants_of s.word ≡ weight pins n s.callers
Reach-entrants_of r = (Reach-Inv r).counted

Relies-closed : (w : ℕ) (b : Bool) (o : Owner) → Relies w b o → o ≡ unhooking → state_of w ≡ closed
Relies-closed w b unhooking r e = r
Relies-closed w b o r e = cc

-- While the host's `unhook` runs, the gate is closed and no caller holds a pin.
pub unhooking_alone :
    {n : ℕ} {s : System}
    → Reach n s
    → s.owner ≡ unhooking
    → (state_of s.word ≡ closed) × ((i : ℕ) → i < n → pins (s.callers i) ≡ 0)
unhooking_alone {n} {s} r e = (
  is_closed,
  λ i lt. omega (arith, weigh-le-weight pins n s.callers i lt, counted, shut is_closed),
)
  where
    open (Reach-Inv r) use {counted, sound}
    open sound use {shut, relies}

    is_closed : state_of s.word ≡ closed
    is_closed = Relies-closed s.word s.installed s.owner relies e

-- Once the hook is no longer installed, no caller holds a pin and the gate grants none.
pub uninstalled_unreachable :
    {n : ℕ} {s : System}
    → Reach n s
    → s.installed ≡ false
    → (admits s.word ≡ false) × ((i : ℕ) → i < n → pins (s.callers i) ≡ 0)
uninstalled_unreachable {n} {s} r e =
    ((gone e).0, λ i lt. omega (arith, weigh-le-weight pins n s.callers i lt, counted, (gone e).1))
  where
    open (Reach-Inv r) use {counted, sound}
    open sound use {gone}

-- A caller that returns its pin never leaves without having returned it: the word that it has read
-- shows an entrant, however many other callers come and go meanwhile.
pub release_never_stops :
    {n seen : ℕ} {s : System} (i : ℕ)
    → Reach n s
    → s.callers i ≡ releasing seen
    → release_plan seen ≢ stop tt
unfolding release_plan
release_never_stops i r e = ground (arith, (Reach-Inv r).held i)
