-- ===== src/Gate/Control.antt =====
-- The packed control word of a host publication gate (src/host/publication_gate.cpp and
-- src/core/internal.h): the state in the low 32 bits, the entrant count in the high 32 bits.
-- Each compare-and-swap loop is a plan: what one pass decides on the word that it has read.
use dart_plant.Prelude.{
  ℕ, ◌+◌, ◌-◌, ◌*◌, ◌/◌, ◌%◌, ◌^◌, ◌==◌, if◌then◌else◌, Bool, true, false, ◌||◌, Option, none, some,
}

-- `HostPublicationGateState`
abbrev pub installing : ℕ
installing = 0

abbrev pub armed : ℕ
armed = 1

abbrev pub draining : ℕ
draining = 2

abbrev pub bypass_target : ℕ
bypass_target = 3

abbrev pub bypass_backup : ℕ
bypass_backup = 4

abbrev pub failed : ℕ
failed = 5

abbrev pub closed : ℕ
closed = 6

abbrev pub entrant_one : ℕ
entrant_one = 2 ^ 32

abbrev pub encode_control : ℕ → ℕ → ℕ
encode_control state entrants = entrants * 2 ^ 32 + state

abbrev pub state_of : ℕ → ℕ
state_of word = word % 2 ^ 32

abbrev pub entrants_of : ℕ → ℕ
entrants_of word = word / 2 ^ 32

-- `(current & ~kGateStateMask) | state`
abbrev pub with_state : ℕ → ℕ → ℕ
with_state word state = word / 2 ^ 32 * 2 ^ 32 + state

-- One pass of a loop: leave it with a result, or try to swap the word and leave on success.
pub data Plan (R : Type 0) : Type 0 where
  stop : R → Plan R
  swap : ℕ → R → Plan R

-- A loop that no other thread disturbs: its first swap succeeds.
abbrev pub undisturbed : {R : Type 0} → Plan R → ℕ → ℕ × R
undisturbed (stop r) word = (word, r)
undisturbed (swap word' r) word = (word', r)

abbrev pub admits : ℕ → Bool
admits word = state_of word == armed || state_of word == draining

-- `StoreGateState`
unfoldable pub store_plan : ℕ → ℕ → Plan (Unit {0})
store_plan state word = swap (with_state word state) tt

-- `BeginDrainPublishedHostHook`
unfoldable pub begin_drain_plan : ℕ → Plan (Unit {0})
begin_drain_plan word =
    if state_of word == draining || state_of word == closed
    then stop tt
    else if state_of word == armed
    then swap (with_state word draining) tt
    else stop tt

-- `ClosePublishedHostHook`
unfoldable pub close_plan : ℕ → Plan Bool
close_plan word =
    if state_of word == closed
    then stop (entrants_of word == 0)
    else if state_of word == draining
        || (state_of word == installing || state_of word == bypass_backup)
    then if entrants_of word == 0 then swap closed true else stop false
    else stop false

-- `ReopenPublishedHostHookDrain`: a strong exchange that expects the bare word `closed`.
unfoldable pub reopen_plan : ℕ → Plan (Unit {0})
reopen_plan word = if word == closed then swap draining tt else stop tt

-- `ReleasePublishedHostHookEntrant`
unfoldable pub release_plan : ℕ → Plan (Unit {0})
release_plan word = if entrants_of word == 0 then stop tt else swap (word - entrant_one) tt

-- What a caller of the gate is told.
pub data Route : Type 0 where
  again : Route  -- the gate is shut for now, or its state moved: look again
  to_target to_backup nowhere : Route
  to_callback : (pinned : Bool) → Route

-- The inner loop of `AcquirePublishedHostHookRouteForTesting`: take an entrant pin.
unfoldable pub pin_plan : ℕ → Plan Route
pin_plan word =
    if admits word
    then if entrants_of word == 2 ^ 32 - 1
      then stop nowhere
      else swap (word + entrant_one) (to_callback true)
    else stop again

-- The head of its outer loop. `none` goes on to the inner loop.
unfoldable pub route_of : Bool → ℕ → Option Route
route_of tracked word =
    if state_of word == installing || state_of word == closed
    then some again
    else if state_of word == bypass_target
    then some to_target
    else if state_of word == bypass_backup
    then some to_backup
    else if admits word
    then if tracked then none else some (to_callback false)
    else some nowhere
