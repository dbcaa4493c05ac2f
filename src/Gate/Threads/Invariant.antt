-- ===== src/Gate/Threads/Invariant.antt =====
-- What every interleaving of owner and callers keeps about the control word.
use mathlib.Core.Logic.{if_pos, if_neg}
use dart_plant.Prelude.{
  ℕ_discrete, ℕ, ◌+◌, ◌≤◌, ◌<◌, ◌≡◌, ◌∙◌, refl, some, ◌⊎◌, Bool, true, false, arith,
}
use dart_plant.Prelude.Threads.{weight, weight-move, weigh-le-weight, weight-still}
use dart_plant.Gate.Control.{
  Route, closed, bypass_target, bypass_backup, admits, state_of, entrants_of, store_plan,
  begin_drain_plan, close_plan, reopen_plan, release_plan, pin_plan, route_of,
}
use dart_plant.Gate.Threads.{
  Outcome, leave, Pass, stops, swaps, fails, Caller, outside, looking, pinning, inside, returning,
  releasing, arrive, after_pin, after_release, CallerMove, call, look, admit, load, pin, go_back,
  load_pin, unpin, Owner, after_store, after_drain, after_close, resting, storing, swapping,
  draining_at, closing, unhooking, reopening, OwnerMove, start_arm, start_bypass, load_store, store,
  start_drain, drain, start_close, close, start_reopen, reopen, start_uninstall, uninstall_twice,
  busy, idle, unhooked, unhook_fails, System, Step, caller, owner, Reach, start, next,
}

-- Pins held at a place.
abbrev pub pins : Caller → ℕ
pins inside = 1
pins returning = 1
pins (releasing _) = 1
pins _ = 0

-- What an owner in the middle of an operation relies on.
abbrev pub Relies : ℕ → Bool → Owner → Type 0
Relies word installed (storing s) =
    (s < closed) × (installed ≡ false → (s ≡ bypass_target) ⊎ (s ≡ bypass_backup))
Relies word installed (swapping s _) =
    (s < closed) × (installed ≡ false → (s ≡ bypass_target) ⊎ (s ≡ bypass_backup))
Relies word installed (closing _ seen) = state_of seen ≡ state_of word
Relies word installed unhooking = state_of word ≡ closed
Relies word installed _ = Unit

-- A caller that returns its pin has read the word while it held the pin.
abbrev pub Held : Caller → Type 0
Held (releasing seen) = 1 ≤ entrants_of seen
Held _ = Unit

-- A closed gate has no entrant, and a hook that is not installed lets nobody in.
pub record Sound (word : ℕ) (installed : Bool) (o : Owner) : Type 0 where
  pub shut : state_of word ≡ closed → entrants_of word ≡ 0
  pub gone : installed ≡ false → (admits word ≡ false) × (entrants_of word ≡ 0)
  pub relies : Relies word installed o

-- The entrant count is the number of pins that callers hold.
pub record Inv (n : ℕ) (s : System) : Type 0 where
  pub counted : entrants_of s.word ≡ weight pins n s.callers
  pub held : (i : ℕ) → Held (s.callers i)
  pub sound : Sound s.word s.installed s.owner

-- What a move of a caller does to the word.
record Moved (w : ℕ) (c : Caller) (w' : ℕ) (c' : Caller) : Type 0 where
  balance : entrants_of w' + pins c ≡ entrants_of w + pins c'
  same_state : state_of w' ≡ state_of w
  holds : Held c'
  grows : (entrants_of w' ≤ entrants_of w) ⊎ (admits w ≡ true)

arrive_free : (w : ℕ) (route : Route) → route_of true w ≡ some route → pins (arrive route) ≡ 0
unfolding route_of
arrive_free w route e = ground arith

pin-Moved :
    {seen w w' : ℕ} {o : Outcome Route}
    → Pass (pin_plan seen) seen w w' o
    → Moved w (pinning seen) w' (after_pin o)
unfolding pin_plan
pin-Moved (stops e) = ground arith
pin-Moved (swaps e s) = ground arith
pin-Moved (fails e) = ground arith

unpin-Moved :
    {seen w w' : ℕ} {o : Outcome (Unit {0})}
    → 1 ≤ entrants_of w
    → 1 ≤ entrants_of seen
    → Pass (release_plan seen) seen w w' o
    → Moved w (releasing seen) w' (after_release o)
unfolding release_plan
unpin-Moved h k (stops e) = ground arith
unpin-Moved h k (swaps e s) = ground arith
unpin-Moved h k (fails e) = ground arith

arrive-Moved :
    (w : ℕ) (route : Route) → route_of true w ≡ some route → Moved w looking w (arrive route)
arrive-Moved w route e = ground (arith, arrive_free w route e)

CallerMove-Moved :
    {w w' : ℕ} {c c' : Caller}
    → pins c ≤ entrants_of w
    → Held c
    → CallerMove w c w' c'
    → Moved w c w' c'
CallerMove-Moved h k call = ground arith
CallerMove-Moved {w} h k (look {route} e) = arrive-Moved w route e
CallerMove-Moved h k (admit e) = ground arith
CallerMove-Moved h k load = ground arith
CallerMove-Moved h k (pin p) = pin-Moved p
CallerMove-Moved h k go_back = ground arith
CallerMove-Moved h k load_pin = ground arith
CallerMove-Moved h k (unpin p) = unpin-Moved h k p

Kept : ℕ → ℕ → Bool → Owner → Type 0
Kept w w' installed o = (entrants_of w' ≡ entrants_of w) × Sound w' installed o

store-Kept :
    {w w' s seen : ℕ} {b : Bool} {o : Outcome (Unit {0})}
    → Sound w b (swapping s seen)
    → Pass (store_plan s seen) seen w w' o
    → Kept w w' b (after_store s o)
unfolding Kept store_plan
store-Kept v (stops e) = ground arith
store-Kept v (swaps e s) = ground arith
store-Kept v (fails e) = ground arith

drain-Kept :
    {w w' seen : ℕ} {o : Outcome (Unit {0})}
    → Sound w true (draining_at seen)
    → Pass (begin_drain_plan seen) seen w w' o
    → Kept w w' true (after_drain o)
unfolding Kept begin_drain_plan
drain-Kept v (stops e) = ground arith
drain-Kept v (swaps e s) = ground arith
drain-Kept v (fails e) = ground arith

close-Kept :
    {w w' seen : ℕ} {o : Outcome Bool} (and_unhook : Bool)
    → Sound w true (closing and_unhook seen)
    → Pass (close_plan seen) seen w w' o
    → Kept w w' true (after_close and_unhook o)
unfolding Kept close_plan
close-Kept true v (stops e) = ground arith
close-Kept true v (swaps e s) = ground arith
close-Kept true v (fails e) = ground arith
close-Kept false v (stops e) = ground arith
close-Kept false v (swaps e s) = ground arith
close-Kept false v (fails e) = ground arith

reopen-Kept :
    {w w' : ℕ}
    → Sound w true reopening
    → Pass (reopen_plan w) w w w' (leave tt)
    → Kept w w' true resting
unfolding Kept reopen_plan
reopen-Kept v (stops e) = ground arith
reopen-Kept v (swaps e s) = ground arith

OwnerMove-Kept :
    {w w' : ℕ} {b b' : Bool} {o o' : Owner}
    → Sound w b o
    → OwnerMove w b o w' b' o'
    → Kept w w' b' o'
unfolding Kept
OwnerMove-Kept v (store p) = store-Kept v p
OwnerMove-Kept v (drain p) = drain-Kept v p
OwnerMove-Kept v (close {and_unhook} p) = close-Kept and_unhook v p
OwnerMove-Kept v (reopen p) = reopen-Kept v p
OwnerMove-Kept v start_arm = ground arith
OwnerMove-Kept v start_bypass = ground arith
OwnerMove-Kept v load_store = ground arith
OwnerMove-Kept v start_drain = ground arith
OwnerMove-Kept v start_close = ground arith
OwnerMove-Kept v start_reopen = ground arith
OwnerMove-Kept v start_uninstall = ground arith
OwnerMove-Kept v uninstall_twice = ground arith
OwnerMove-Kept v (busy h) = ground arith
OwnerMove-Kept v (idle h) = ground arith
OwnerMove-Kept v unhooked = ground arith
OwnerMove-Kept v unhook_fails = ground arith

-- The owner keeps what it relies on while a caller moves.
Sound-Moved :
    {w w' : ℕ} {b : Bool} {o : Owner} {c c' : Caller} → Sound w b o → Moved w c w' c' → Sound w' b o
Sound-Moved {o = resting} v m = ground arith
Sound-Moved {o = _} v m = ground arith

-- Every step, of the owner or of a caller, keeps the invariant.
pub Step-Inv : {n : ℕ} {s t : System} → Inv n s → Step n s t → Inv n t
unfolding Kept
Step-Inv {n} {s} v (caller i {w} {c} lt mv) = record {
  counted = ground (arith, weight-move pins n s.callers i c lt, m.balance);
  held = λ j. elim (ℕ_discrete j i) [
    | yes e ↦ rw (if_pos _ e) m.holds
    | no e ↦ rw (if_neg _ e) (v.held j)
  ];
  sound = Sound-Moved v.sound m;
}
  where
    m : Moved s.word (s.callers i) w c
    m =
        CallerMove-Moved (omega (arith, v.counted, weigh-le-weight pins n s.callers i lt))
          (v.held i) mv
Step-Inv v (owner mv) =
    let k = OwnerMove-Kept v.sound mv in
    record { counted = k.0 ∙ v.counted; held = v.held; sound = k.1 }

pub Reach-Inv : {n : ℕ} {s : System} → Reach n s → Inv n s
Reach-Inv {n} start = record {
  counted = omega (arith, weight-still pins n outside refl);
  held = λ i. tt;
  sound = record { shut = λ e. refl; gone = λ e. cc; relies = tt };
}
Reach-Inv (next r st) = Step-Inv (Reach-Inv r) st
