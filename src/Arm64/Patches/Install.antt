-- ===== src/Arm64/Patches/Install.antt =====
-- `InstallArm64ReturnInterception` (src/interceptor/arm64_bridge.cpp).
use dart_plant.Prelude.{
  ℕ, ◌+◌, ◌-◌, ◌%◌, ◌^◌, ◌==◌, ltb, leb, if◌then◌else◌, Bool, true, false, not, ◌&&◌, ◌||◌, none,
  some, List, [], ◌∷◌, ◌++◌, length, map, take, drop,
}
use dart_plant.Status.{Status, ok, unsupported_abi, profile_mismatch, hook_failed}
use dart_plant.Arm64.Decode.{encode_direct_branch}
use dart_plant.Arm64.Flow.{Outcome, out_of_fuel, refused, collected, collect_reachable_returns}
use dart_plant.Arm64.Flow.Sites.{Patch}
use dart_plant.Arm64.Patches.{
  WriteAnswers, Machine, Payload, Owner, Code, write_instruction, find_patch, retain_published,
  destroy_unused, is_empty, increment, change_patch,
}

-- `rollback_newly_installed`: the loop, from the last patch on. What it could not take back.
unfoldable pub roll_back : WriteAnswers → Machine → List Patch → Machine × List Patch
unfolding write_instruction
roll_back answers machine [] = (machine, [])
roll_back answers machine (patch ∷ older) =
    let current = machine.memory patch.address in
    let (after, done) =
      write_instruction answers machine patch.address patch.original_instruction in
    let here : Machine × Bool =
      if current == patch.original_instruction
      then (machine, true)
      else if current == patch.patched_instruction
      then (after, done)
      else (machine, false) in
    let (rest_machine, residual) = roll_back answers here.0 older in
    (
      rest_machine,
      (if not here.1 && here.0.memory patch.address == patch.patched_instruction
          then patch ∷ residual
          else residual),
    )

abbrev pub address_of : Patch → ℕ
address_of patch = patch.address

abbrev pub held_once : Patch → Patch
held_once patch = record patch { consumers = 1 }

-- `rollback_newly_installed`: the rest. The patches that are left keep the payload and the hook.
unfoldable pub keep_residual : Payload → Owner → List Patch → Payload × Owner
unfolding destroy_unused
keep_residual payload owner residual =
    if is_empty residual then (destroy_unused payload, owner) else (
      destroy_unused (record payload {
        return_patches = payload.return_patches ++ map held_once residual;
        return_interception_consumers = increment payload.return_interception_consumers;
      }),
      record { payload_return_consumer = true; payload_return_sites = map address_of residual },
    )

-- What the loop over the candidates has done: the new patches and the shared ones, the last first,
-- and the sites in order, or that it gave up with some new patches.
pub data Acquisition : Type 0 where
  acquired : List Patch → List ℕ → List ℕ → Acquisition
  gave_up : List Patch → Acquisition

pub record Progress : Type 0 where
  pub machine : Machine
  pub payload : Payload
  pub acquisition : Acquisition

-- Whether a patch that is there is still the payload's own.
abbrev pub is_managed : Machine → Patch → Patch → Bool
is_managed machine candidate existing =
    existing.original_instruction == candidate.original_instruction
    && (not (existing.consumers == 0)
        && machine.memory candidate.address == existing.patched_instruction)

abbrev pub installed_patch : Patch → ℕ → Patch
installed_patch candidate branch = record candidate { patched_instruction = branch; consumers = 1 }

-- The loop over the candidates; `newly`, `consumed` and `sites` have the last first.
unfoldable pub acquire_sites :
    WriteAnswers → Bool → Machine → Payload → List Patch → List Patch → List ℕ → List ℕ → Progress
unfolding write_instruction retain_published
acquire_sites answers can_retain machine payload [] newly consumed sites = record {
  machine = machine;
  payload = payload;
  acquisition = acquired newly consumed sites;
}
acquire_sites answers can_retain machine payload (candidate ∷ rest) newly consumed sites =
    let a = candidate.address in
    let give_up = gave_up newly in
    elim (find_patch a payload.return_patches) [
      | some existing ↦ elim (is_managed machine candidate existing) [
        | false ↦ record { machine = machine; payload = payload; acquisition = give_up }
        | true ↦
            acquire_sites answers can_retain machine payload rest newly (a ∷ consumed) (a ∷ sites)
      ]
      | none ↦ elim (machine.memory a == candidate.original_instruction) [
        | false ↦ record { machine = machine; payload = payload; acquisition = give_up }
        | true ↦ elim (encode_direct_branch a payload.return_entry) [
          | none ↦ record { machine = machine; payload = payload; acquisition = give_up }
          | some branch ↦
              let (kept, retained) = retain_published can_retain payload in
              let (written, done) = write_instruction answers machine a branch in
              elim retained [
                | false ↦ record { machine = machine; payload = kept; acquisition = give_up }
                | true ↦ elim done [
                  | false ↦ record { machine = written; payload = kept; acquisition = give_up }
                  | true ↦
                      acquire_sites answers can_retain written kept rest
                        (installed_patch candidate branch ∷ newly) consumed (a ∷ sites)
                ]
              ]
        ]
      ]
    ]

-- The loop over the shared patches at the end: each gets one more consumer.
unfoldable pub add_consumers : List ℕ → List Patch → List Patch
unfolding change_patch
add_consumers [] patches = patches
add_consumers (address ∷ rest) patches =
    add_consumers rest (
      change_patch (λ patch. record patch { consumers = increment patch.consumers }) address
        patches)

abbrev pub reversed : {A : Type 0} → List A → List A → List A
reversed [] done = done
reversed (x ∷ xs) done = reversed xs (x ∷ done)

-- The end of the installation, by how the loop over the candidates went.
unfoldable pub conclude : WriteAnswers → Owner → Progress → Code × Status
unfolding roll_back keep_residual add_consumers
conclude answers owner progress = elim progress.acquisition [
  | acquired newly consumed sites ↦
      let payload = progress.payload in
      (
        record {
          machine = progress.machine;
          payload = record payload {
            return_patches =
                add_consumers (reversed consumed []) payload.return_patches ++ reversed newly [];
            return_interception_consumers = increment payload.return_interception_consumers;
          };
          owner = record {
            payload_return_consumer = true;
            payload_return_sites = reversed sites [];
          };
        },
        ok,
      )
  | gave_up newly ↦
      let (machine, residual) = roll_back answers progress.machine newly in
      let (payload, kept) = keep_residual progress.payload owner residual in
      (record { machine = machine; payload = payload; owner = kept }, hook_failed)
]

-- `DartCodePayload::end` and `Contains`
abbrev pub payload_end : Payload → ℕ
payload_end payload =
    if ltb (2 ^ 64 - 1 - payload.instructions_length) payload.start
    then 0
    else payload.start + payload.instructions_length

unfoldable pub contains : Payload → ℕ → ℕ → Bool
contains payload address size =
    not (payload.start == 0)
    && (ltb payload.start (payload_end payload)
        && (leb payload.start address
            && (leb address (payload_end payload) && leb size (payload_end payload - address))))

-- The tests of the code range; `end` wraps.
unfoldable pub is_bad_code_range : Payload → ℕ → ℕ → Bool
unfolding contains
is_bad_code_range payload start size =
    let end = (start + size) % 2 ^ 64 in
    leb end start
    || (not (start % 4 == 0)
        || (payload_end payload == 0
            || (ltb (payload_end payload) end
                || (not (contains payload start size)
                    || not (length payload.pristine_bytes == payload.instructions_length)))))

-- What the installation is given beside the state: the answers of the writes, the veneer that was
-- allocated (0 if that failed), and whether the vectors could grow.
pub record Request : Type 0 where
  pub answers : WriteAnswers
  pub stub : ℕ
  pub can_reserve : Bool
  pub can_retain : Bool

abbrev pub with_entry : Payload → ℕ → Payload
with_entry payload stub =
    if payload.return_entry == 0 then record payload { return_entry = stub } else payload

-- The part of `InstallArm64ReturnInterception` after the walk over the function.
unfoldable pub install_found : Request → Code → Payload → Outcome → Code × Status
unfolding destroy_unused acquire_sites conclude
install_found request code payload (collected candidates) =
    if request.can_reserve
    then conclude request.answers code.owner
        (acquire_sites request.answers request.can_retain code.machine payload candidates [] [] [])
    else (record code { payload = destroy_unused payload }, hook_failed)
install_found request code payload out_of_fuel =
    (record code { payload = destroy_unused payload }, unsupported_abi)
install_found request code payload refused =
    (record code { payload = destroy_unused payload }, unsupported_abi)

-- `InstallArm64ReturnInterception`, for a hook whose target has a payload.
unfoldable pub install_returns : Request → ℕ → ℕ → Code → Code × Status
unfolding is_bad_code_range install_found
install_returns request start size code =
    let payload = with_entry code.payload request.stub in
    let pristine = take size (drop (start - payload.start) payload.pristine_bytes) in
    if start == 0 || ltb size 4
    then (code, unsupported_abi)
    else if is_bad_code_range code.payload start size
    then (code, profile_mismatch)
    else if payload.return_entry == 0
    then (code, hook_failed)
    else install_found request code payload (collect_reachable_returns pristine start)
