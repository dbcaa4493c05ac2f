-- ===== src/Gate/Threads.antt =====
-- The gate of src/host/publication_gate.cpp under concurrency: one owner, which arms, drains,
-- closes and unhooks, and `n` callers that take and return entrant pins, interleaved at every
-- access of the shared control word. The decisions are the plans of Control.antt. The owner runs
-- one operation at a time (the registry calls them under its lock) and may run them in any order.
pub mod Invariant
pub mod Safety
use dart_plant.Prelude.{
  ℕ, ◌<◌, ◌≡◌, ◌≢◌, ◌==◌, if◌then◌else◌, Bool, true, false, Option, none, some, arith,
}
use dart_plant.Prelude.Threads.{move}
use dart_plant.Gate.Control.{
  Plan, stop, swap, Route, again, nowhere, to_target, to_backup, to_callback, armed, bypass_target,
  bypass_backup, entrants_of, store_plan, begin_drain_plan, close_plan, reopen_plan, release_plan,
  pin_plan, route_of, draining, encode_control,
}

-- How a pass of a compare-and-swap loop ends: the loop is left with a result, or goes on with the
-- word that it saw.
pub data Outcome (R : Type 0) : Type 0 where
  leave : R → Outcome R
  retry : ℕ → Outcome R

-- One pass on the word `seen` while the shared word is `w`. A weak exchange may fail at any time.
pub data Pass {R : Type 0} (plan : Plan R) (seen w : ℕ) : ℕ → Outcome R → Type 0 where
  stops : {r : R} → plan ≡ stop r → Pass plan seen w w (leave r)
  swaps : {w' : ℕ} {r : R} → plan ≡ swap w' r → w ≡ seen → Pass plan seen w w' (leave r)
  fails : {w' : ℕ} {r : R} → plan ≡ swap w' r → Pass plan seen w w (retry w)

-- Where a caller of a generated entry stands.
pub data Caller : Type 0 where
  outside : Caller
  looking : Caller  -- head of the outer loop
  loading : Caller  -- before the load of the inner loop
  pinning : (seen : ℕ) → Caller
  inside : Caller  -- past the gate, with a pin
  returning : Caller  -- before the load of `ReleasePublishedHostHookEntrant`
  releasing : (seen : ℕ) → Caller

abbrev pub arrive : Route → Caller
arrive again = looking
arrive nowhere = outside
arrive to_target = outside
arrive to_backup = outside
arrive (to_callback pinned) = inside

abbrev pub after_pin : Outcome Route → Caller
after_pin (leave route) = arrive route
after_pin (retry seen) = pinning seen

abbrev pub after_release : Outcome (Unit {0}) → Caller
after_release (leave _) = outside
after_release (retry seen) = releasing seen

pub data CallerMove (w : ℕ) : Caller → ℕ → Caller → Type 0 where
  call : CallerMove w outside w looking
  look : {route : Route} → route_of true w ≡ some route → CallerMove w looking w (arrive route)
  admit : route_of true w ≡ none → CallerMove w looking w loading
  load : CallerMove w loading w (pinning w)
  pin :
      {seen w' : ℕ} {o : Outcome Route}
      → Pass (pin_plan seen) seen w w' o
      → CallerMove w (pinning seen) w' (after_pin o)
  go_back : CallerMove w inside w returning
  load_pin : CallerMove w returning w (releasing w)
  unpin :
      {seen w' : ℕ} {o : Outcome (Unit {0})}
      → Pass (release_plan seen) seen w w' o
      → CallerMove w (releasing seen) w' (after_release o)

-- Where the owner stands.
pub data Owner : Type 0 where
  resting : Owner
  storing : (state : ℕ) → Owner  -- before the load of `StoreGateState`
  swapping : (state seen : ℕ) → Owner
  draining_at : (seen : ℕ) → Owner
  closing : (and_unhook : Bool) (seen : ℕ) → Owner
  checking : Owner  -- `UninstallPublishedHostHook`, before the entrant count is read
  unhooking : Owner  -- the host's `unhook` is running
  reopening : Owner

abbrev pub after_store : ℕ → Outcome (Unit {0}) → Owner
after_store state (leave _) = resting
after_store state (retry seen) = swapping state seen

abbrev pub after_drain : Outcome (Unit {0}) → Owner
after_drain (leave _) = resting
after_drain (retry seen) = draining_at seen

-- A successful close goes on to the host's `unhook` in `UninstallPublishedHostHook` only.
abbrev pub after_close : Bool → Outcome Bool → Owner
after_close and_unhook (retry seen) = closing and_unhook seen
after_close true (leave true) = unhooking
after_close and_unhook (leave done) = resting

pub data OwnerMove (w : ℕ) : (installed : Bool) → Owner → ℕ → Bool → Owner → Type 0 where
  start_arm : OwnerMove w true resting w true (storing armed)
  start_bypass : {b : Bool} → OwnerMove w b resting w b (storing bypass_backup)
  load_store : {b : Bool} {s : ℕ} → OwnerMove w b (storing s) w b (swapping s w)
  store :
      {b : Bool} {s seen w' : ℕ} {o : Outcome (Unit {0})}
      → Pass (store_plan s seen) seen w w' o
      → OwnerMove w b (swapping s seen) w' b (after_store s o)
  start_drain : OwnerMove w true resting w true (draining_at w)
  drain :
      {seen w' : ℕ} {o : Outcome (Unit {0})}
      → Pass (begin_drain_plan seen) seen w w' o
      → OwnerMove w true (draining_at seen) w' true (after_drain o)
  start_close : OwnerMove w true resting w true (closing false w)
  close :
      {and_unhook : Bool} {seen w' : ℕ} {o : Outcome Bool}
      → Pass (close_plan seen) seen w w' o
      → OwnerMove w true (closing and_unhook seen) w' true (after_close and_unhook o)
  start_reopen : OwnerMove w true resting w true reopening
  reopen :
      {w' : ℕ} → Pass (reopen_plan w) w w w' (leave tt) → OwnerMove w true reopening w' true resting
  start_uninstall : OwnerMove w true resting w true checking
  uninstall_twice : OwnerMove w false resting w false (storing bypass_target)
  busy : entrants_of w ≢ 0 → OwnerMove w true checking w true resting
  idle : entrants_of w ≡ 0 → OwnerMove w true checking w true (closing true w)
  unhooked : OwnerMove w true unhooking w false (storing bypass_target)
  unhook_fails : OwnerMove w true unhooking w true reopening

pub record System : Type 0 where
  pub word : ℕ
  pub installed : Bool
  pub owner : Owner
  pub callers : ℕ → Caller

pub data Step (n : ℕ) (s : System) : System → Type 0 where
  caller :
      (i : ℕ) {w : ℕ} {c : Caller}
      → i < n
      → CallerMove s.word (s.callers i) w c
      → Step n s (record s { word = w; callers = move s.callers i c })
  owner :
      {w : ℕ} {b : Bool} {o : Owner}
      → OwnerMove s.word s.installed s.owner w b o
      → Step n s (record s { word = w; installed = b; owner = o })

-- After a successful `InstallPublishedHostHook`: the word is `installing` with no entrant.
abbrev pub init : System
init = record { word = 0; installed = true; owner = resting; callers = λ _. outside }

pub data Reach (n : ℕ) : System → Type 0 where
  start : Reach n init
  next : {s t : System} → Reach n s → Step n s t → Reach n t
