-- ===== src/Hooks/Interleaving.antt =====
-- Unhooking a gated hook while Dart calls come and go (src/core/hook_registry.cpp,
-- `FinishUnhookLocked` and `UnhookRecordLocked`; src/interceptor/callback_dispatch.cpp, the pins of
-- the dispatcher). One thread at a time unhooks, under the registry's lock, and `n` callers run
-- through the gate; each step is one operation of the gate or one access of the in-flight count.
pub mod Callers
pub mod Unhooking
pub mod Safety
use dart_plant.Prelude.{ℕ, suc, ◌+◌, ◌-◌, ◌<◌, ◌≡◌, ◌≢◌, Bool, true, false, some}
use dart_plant.Prelude.Threads.{move}
use dart_plant.Gate.Control.{to_callback, bypass_target, installing, encode_control}
use dart_plant.Gate.Hook.{
  Published, arm, acquire, release, begin_drain, close, reopen, entrants_idle, store_state,
}
use dart_plant.Hooks.Record.{HookState, installed, unhooking, unhooked, failed}
use dart_plant.Hooks.Record
use dart_plant.Hooks.Invoke.{state_admits}

-- Where a caller of the hooked function stands.
pub data Caller : Type 0 where
  outside : Caller
  pinned : Caller  -- past the gate, before `BeginInvocation`
  begun : Caller  -- counted in flight, and the gate's pin still held
  running : Caller  -- counted in flight, the pin given back
  stranded : Caller  -- runs the original without being counted, and keeps its pin forever

-- Where the thread that unhooks stands.
pub data Unhooker : Type 0 where
  resting : Unhooker
  drained : Unhooker  -- before the first read of the in-flight count
  closing : Unhooker  -- it was 0
  shut : Unhooker  -- the gate is closed, before the second read
  alone : Unhooker  -- it was 0: `UninstallPublishedHostHook` begins
  calling : Unhooker  -- the host's `unhook` is running

pub record System : Type 0 where
  pub gate : Published
  pub state : HookState
  pub in_flight : ℕ
  pub unhooker : Unhooker
  pub callers : ℕ → Caller

pub data CallerMove (s : System) : Caller → Published → ℕ → Caller → Type 0 where
  enter :
      (acquire s.gate).1 ≡ to_callback true
      → CallerMove s outside (acquire s.gate).0 s.in_flight pinned
  give_up : CallerMove s pinned s.gate s.in_flight stranded
  begin :
      state_admits s.state s.gate.backend_installed ≡ true
      → CallerMove s pinned s.gate (suc s.in_flight) begun
  refused :
      state_admits s.state s.gate.backend_installed ≡ false
      → s.gate.backend_installed ≡ true
      → CallerMove s pinned s.gate s.in_flight stranded
  turn_back :
      state_admits s.state s.gate.backend_installed ≡ false
      → s.gate.backend_installed ≡ false
      → CallerMove s pinned (release s.gate) s.in_flight outside
  hand_over : CallerMove s begun (release s.gate) s.in_flight running
  setup_fails : CallerMove s begun s.gate (s.in_flight - 1) stranded
  exit : CallerMove s running s.gate (s.in_flight - 1) outside

pub data UnhookerMove (s : System) : Unhooker → Published → HookState → Unhooker → Type 0 where
  arm_gate : s.state ≡ Record.installing → UnhookerMove s resting (arm s.gate) installed resting
  start :
      s.gate.backend_installed ≡ true
      → UnhookerMove s resting (begin_drain s.gate) unhooking drained
  wait : s.in_flight ≢ 0 → UnhookerMove s drained s.gate s.state resting
  go_on : s.in_flight ≡ 0 → UnhookerMove s drained s.gate s.state closing
  close_busy : (close s.gate).1 ≡ false → UnhookerMove s closing (close s.gate).0 s.state resting
  close_done : (close s.gate).1 ≡ true → UnhookerMove s closing (close s.gate).0 s.state shut
  late : s.in_flight ≢ 0 → UnhookerMove s shut (reopen s.gate) s.state resting
  clear : s.in_flight ≡ 0 → UnhookerMove s shut s.gate s.state alone
  occupied : entrants_idle s.gate ≡ false → UnhookerMove s alone s.gate failed resting
  close_fails :
      entrants_idle s.gate ≡ true
      → (close s.gate).1 ≡ false
      → UnhookerMove s alone (close s.gate).0 failed resting
  call_host :
      entrants_idle s.gate ≡ true
      → (close s.gate).1 ≡ true
      → UnhookerMove s alone (close s.gate).0 s.state calling
  host_done :
      UnhookerMove s calling
        (store_state (record s.gate { backend_installed = false }) bypass_target)
        unhooked
        resting
  host_fails : UnhookerMove s calling (reopen s.gate) failed resting

pub data Step (n : ℕ) (s : System) : System → Type 0 where
  caller :
      (i : ℕ) {gate : Published} {flights : ℕ} {c : Caller}
      → i < n
      → CallerMove s (s.callers i) gate flights c
      → Step n s (record s { gate = gate; in_flight = flights; callers = move s.callers i c })
  unhooker :
      {gate : Published} {state : HookState} {u : Unhooker}
      → UnhookerMove s s.unhooker gate state u
      → Step n s (record s { gate = gate; state = state; unhooker = u })

-- A gate that is installed and tracked, before it is armed.
pub record IsFresh (gate : Published) : Type 0 where
  pub shut : gate.control ≡ encode_control installing 0
  pub tracked : gate.tracked ≡ true
  pub installed : gate.backend_installed ≡ true

abbrev pub init : Published → System
init gate = record {
  gate = gate;
  state = Record.installing;
  in_flight = 0;
  unhooker = resting;
  callers = λ _. outside;
}

pub data Reach (n : ℕ) (gate : Published) : System → Type 0 where
  start_at : IsFresh gate → Reach n gate (init gate)
  next : {s t : System} → Reach n gate s → Step n s t → Reach n gate t
