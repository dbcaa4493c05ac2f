-- ===== src/Arm64/Patches/Restore.antt =====
-- `RestoreArm64ReturnInterception` (src/interceptor/arm64_bridge.cpp).
use dart_plant.Prelude.{
  ℕ, ◌-◌, ◌==◌, if◌then◌else◌, Bool, true, false, not, ◌||◌, Option, none, some, List, [], ◌∷◌,
}
use dart_plant.Arm64.Flow.Sites.{Patch}
use dart_plant.Arm64.Patches.{
  WriteAnswers, Machine, Payload, Owner, Code, write_instruction, find_patch, destroy_unpublished,
  is_empty, change_patch,
}

-- The patches that this hook is the last to hold, or none when a site is not the payload's own.
unfoldable pub sites_to_restore : Machine → List Patch → List ℕ → Option (List Patch)
sites_to_restore machine patches [] = some []
sites_to_restore machine patches (address ∷ rest) =
    let others = sites_to_restore machine patches rest in
    elim (find_patch address patches) [
      | none ↦ none
      | some patch ↦
          if patch.consumers == 0 || not (machine.memory patch.address == patch.patched_instruction)
          then none
          else elim others [
            | none ↦ none
            | some more ↦ if patch.consumers == 1 then some (patch ∷ more) else some more
          ]
    ]

-- The patches written back, from the last restored on.
unfoldable pub patch_again : WriteAnswers → Machine → List Patch → Machine
unfolding write_instruction
patch_again answers machine [] = machine
patch_again answers machine (patch ∷ older) =
    patch_again answers
      (write_instruction answers machine patch.address patch.patched_instruction).0 older

-- The loop that restores; `restored` has the last first.
unfoldable pub restore_sites : WriteAnswers → Machine → List Patch → List Patch → Machine × Bool
unfolding write_instruction patch_again
restore_sites answers machine restored [] = (machine, true)
restore_sites answers machine restored (patch ∷ rest) =
    let (written, done) =
      write_instruction answers machine patch.address patch.original_instruction in
    elim (machine.memory patch.address == patch.patched_instruction) [
      | false ↦ (patch_again answers machine restored, false)
      | true ↦ elim done [
        | false ↦ (patch_again answers written restored, false)
        | true ↦ restore_sites answers written (patch ∷ restored) rest
      ]
    ]

-- The loop that gives each site back; it stops at a site that nobody holds.
unfoldable pub release_sites : List ℕ → List Patch → List Patch × Bool
unfolding change_patch
release_sites [] patches = (patches, true)
release_sites (address ∷ rest) patches = elim (find_patch address patches) [
  | none ↦ (patches, false)
  | some patch ↦ elim (patch.consumers == 0) [
    | true ↦ (patches, false)
    | false ↦
        release_sites rest
          (change_patch (λ p. record p { consumers = p.consumers - 1 }) address patches)
  ]
]

-- `erase` of the patches without a consumer
unfoldable pub drop_unheld : List Patch → List Patch
drop_unheld [] = []
drop_unheld (patch ∷ rest) =
    if patch.consumers == 0 then drop_unheld rest else patch ∷ drop_unheld rest

-- The end, once memory is restored.
unfoldable pub give_back : Code → Machine → Code × Bool
unfolding release_sites drop_unheld
give_back code machine =
    let (patches, all_held) =
      release_sites code.owner.payload_return_sites code.payload.return_patches in
    let left = drop_unheld patches in
    let consumers = code.payload.return_interception_consumers - 1 in
    let payload : Payload = record code.payload {
      return_patches = left;
      return_interception_consumers = consumers;
    } in
    let owner : Owner = record { payload_return_consumer = false; payload_return_sites = [] } in
    if not all_held
    then (
      record code { machine = machine; payload = record code.payload { return_patches = patches } },
      false,
    )
    else if not (consumers == 0)
    then (record { machine = machine; payload = payload; owner = owner }, true)
    else if not (is_empty left)
    then (record { machine = machine; payload = payload; owner = owner }, false)
    else (record { machine = machine; payload = destroy_unpublished payload; owner = owner }, true)

-- `RestoreArm64ReturnInterception`, for a hook whose target has a payload.
unfoldable pub restore_returns : WriteAnswers → Code → Code × Bool
unfolding sites_to_restore restore_sites give_back
restore_returns answers code =
    if not code.owner.payload_return_consumer
    then (code, true)
    else if code.payload.return_interception_consumers == 0
        || is_empty code.owner.payload_return_sites
    then (code, false)
    else elim (sites_to_restore code.machine code.payload.return_patches
        code.owner.payload_return_sites) [
          | none ↦ (code, false)
          | some patches ↦
              let (machine, done) = restore_sites answers code.machine [] patches in
              if done then give_back code machine else (record code { machine = machine }, false)
        ]
