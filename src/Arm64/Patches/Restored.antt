-- ===== src/Arm64/Patches/Restored.antt =====
-- What restoring leaves in memory (src/interceptor/arm64_bridge.cpp,
-- `RestoreArm64ReturnInterception`).
use dart_plant.Prelude.{
  ℕ, ◌==◌, ◌≡◌, refl, sym, ◌∙◌, subst, if◌then◌else◌, true, false, ◌||◌, Option, none, some, List,
  [], ◌∷◌, find_if, find_if-some, Bool-cases, Option-cases, inl, inr, arith,
}
use dart_plant.Arm64.Flow.Sites.{Patch}
use dart_plant.Arm64.Flow.Reach.{has}
use dart_plant.Arm64.Patches.{
  WriteAnswers, Machine, Code, store, is_at, write_instruction, find_patch, is_empty,
}
use dart_plant.Arm64.Patches.Restore.{sites_to_restore, restore_sites, give_back, restore_returns}

-- The word that memory should hold once the hook has given its returns back: the original
-- instruction at a site whose patch only this hook holds, and the old word everywhere else.
unfoldable pub expected_word : Code → ℕ → ℕ
unfolding has
expected_word code at =
    let old = code.machine.memory at in
    if has at code.owner.payload_return_sites
    then elim (find_patch at code.payload.return_patches) [
      | none ↦ old
      | some patch ↦ if patch.consumers == 1 then patch.original_instruction else old
    ]
    else old

-- Every patch of the second list is the one that the first list has at its address.
unfoldable AreKnown : List Patch → List Patch → Type 0
AreKnown patches [] = Unit {0}
AreKnown patches (p ∷ ps) = (find_patch p.address patches ≡ some p) × AreKnown patches ps

-- Memory with the original instruction at each of the patches.
word_after : (ℕ → ℕ) → List Patch → ℕ → ℕ
word_after memory patches at = elim (find_patch at patches) [
  | none ↦ memory at
  | some patch ↦ patch.original_instruction
]

find_patch-address :
    (at : ℕ) (patches : List Patch) (p : Patch) → find_patch at patches ≡ some p → p.address ≡ at
find_patch-address at patches p e = ground (arith, (find_if-some (is_at at) patches p e).0)

find_patch-AreKnown :
    (at : ℕ) (patches ps : List Patch) (p : Patch)
    → AreKnown patches ps
    → find_patch at ps ≡ some p
    → find_patch at patches ≡ some p
unfolding AreKnown
find_patch-AreKnown at patches [] p k e = ground arith
find_patch-AreKnown at patches (q ∷ qs) p (first, k) e = elim (Bool-cases (q.address == at)) [
  | inl here ↦
      let same : q ≡ p = ground (arith, here, e) in
      let place : q.address ≡ at = ground (arith, here) in
      subst (λ a. find_patch a patches ≡ some p) place
        (subst (λ r. find_patch q.address patches ≡ some r) same first)
  | inr other ↦ find_patch-AreKnown at patches qs p k (rw (other, find_patch, find_if) at e)
]

pub write_instruction-store :
    (answers : WriteAnswers) (machine : Machine) (address word : ℕ)
    → (write_instruction answers machine address word).1 ≡ true
    → (write_instruction answers machine address word).0.memory ≡ store machine.memory address word
unfolding write_instruction
write_instruction-store answers machine address word e =
    elim (Bool-cases ((answers machine.writes).0)) [
      | inl opens ↦ rw opens refl
      | inr stuck ↦ absurd (ground (arith, e, stuck))
    ]

written : WriteAnswers → Machine → Patch → Machine
written answers machine p = (write_instruction answers machine p.address p.original_instruction).0

-- A loop that succeeds has written the first patch and goes on with the others.
restore_sites-written :
    (answers : WriteAnswers) (machine after : Machine) (p : Patch) (restored ps : List Patch)
    → restore_sites answers machine restored (p ∷ ps) ≡ (after, true)
    → ((written answers machine p).memory ≡ store machine.memory p.address p.original_instruction)
      × (restore_sites answers (written answers machine p) (p ∷ restored) ps ≡ (after, true))
unfolding restore_sites written
restore_sites-written answers machine after p restored ps e =
    elim (Bool-cases (machine.memory p.address == p.patched_instruction)) [
      | inr other ↦ absurd (ground (arith, rw (other, restore_sites) at e))
      | inl ours ↦
          let done = (write_instruction answers machine p.address p.original_instruction).1 in
          elim (Bool-cases done) [
            | inr failed ↦ absurd (ground (arith, rw (ours, failed, restore_sites) at e))
            | inl ok ↦ (
              write_instruction-store answers machine p.address p.original_instruction ok,
              rw (ours, ok, restore_sites) at e,
            )
          ]
    ]

word_after-store :
    (memory : ℕ → ℕ) (patches ps : List Patch) (p : Patch) (at : ℕ)
    → find_patch p.address patches ≡ some p
    → AreKnown patches ps
    → word_after (store memory p.address p.original_instruction) ps at
      ≡ word_after memory (p ∷ ps) at
unfolding word_after
word_after-store memory patches ps p at first k = elim (Bool-cases (p.address == at)) [
  | inr other ↦
      let apart : (at == p.address) ≡ false = ground (arith, other) in ground (arith, apart, other)
  | inl here ↦ elim (Option-cases (find_patch at ps)) [
    | inl absent ↦
        let there : (at == p.address) ≡ true = ground (arith, here) in
        ground (arith, here, absent, there)
    | inr (q, present) ↦
        let place : p.address ≡ at = ground (arith, here) in
        let known = find_patch-AreKnown at patches ps q k present in
        let first_at : find_patch at patches ≡ some p =
          subst (λ a. find_patch a patches ≡ some p) place first in
        let same : q ≡ p = ground arith in ground (arith, here, present, same)
  ]
]

restore_sites-word_after :
    (answers : WriteAnswers) (machine after : Machine) (restored patches ps : List Patch) (at : ℕ)
    → AreKnown patches ps
    → restore_sites answers machine restored ps ≡ (after, true)
    → after.memory at ≡ word_after machine.memory ps at
unfolding restore_sites word_after AreKnown
restore_sites-word_after answers machine after restored patches [] at k e =
    let same : machine ≡ after = ground arith in rw same
restore_sites-word_after answers machine after restored patches (p ∷ ps) at (first, k) e =
    let (stored, rest) = restore_sites-written answers machine after p restored ps e in
    let ih =
      restore_sites-word_after answers (written answers machine p) after (p ∷ restored) patches ps
        at k rest in
    subst (λ m. after.memory at ≡ word_after m ps at) stored ih
    ∙ word_after-store machine.memory patches ps p at first k

-- A site that passes the tests: its patch is held, and its branch still stands in memory.
IsOwnSite : Machine → List Patch → List ℕ → ℕ → List Patch → Type 0
IsOwnSite machine patches sites s ps =
    (patch : Patch) × (more : List Patch) × (find_patch s patches ≡ some patch)
    × (sites_to_restore machine patches sites ≡ some more)
    × ((if patch.consumers == 1 then patch ∷ more else more) ≡ ps)

sites_to_restore-IsOwnSite :
    (machine : Machine) (patches ps : List Patch) (s : ℕ) (sites : List ℕ)
    → sites_to_restore machine patches (s ∷ sites) ≡ some ps
    → IsOwnSite machine patches sites s ps
unfolding sites_to_restore IsOwnSite
sites_to_restore-IsOwnSite machine patches ps s sites e =
    elim (Option-cases (find_patch s patches)) [
      | inl absent ↦ absurd (ground (arith, rw (absent, sites_to_restore) at e))
      | inr (patch, present) ↦ elim (Option-cases (sites_to_restore machine patches sites)) [
        | inl stuck ↦ absurd (ground (arith, rw (present, stuck, sites_to_restore) at e))
        | inr (more, others) ↦ (
          patch,
          more,
          present,
          others,
          ground (arith, rw (present, others, sites_to_restore) at e),
        )
      ]
    ]

sites_to_restore-AreKnown :
    (machine : Machine) (patches ps : List Patch) (sites : List ℕ)
    → sites_to_restore machine patches sites ≡ some ps
    → AreKnown patches ps
unfolding sites_to_restore AreKnown IsOwnSite
sites_to_restore-AreKnown machine patches ps [] e =
    let same : [] ≡ ps = ground arith in subst (λ qs. AreKnown patches qs) same tt
sites_to_restore-AreKnown machine patches ps (s ∷ sites) e =
    let (patch, more, present, others, is) =
      sites_to_restore-IsOwnSite machine patches ps s sites e in
    let rest = sites_to_restore-AreKnown machine patches more sites others in
    let place = find_patch-address s patches patch present in
    let known : find_patch patch.address patches ≡ some patch =
      subst (λ a. find_patch a patches ≡ some patch) (sym place) present in
    subst (λ qs. AreKnown patches qs) is
      (elim (Bool-cases (patch.consumers == 1)) [
        | inl last ↦ rw last (known, rest)
        | inr shared ↦ rw shared rest
      ])

-- The patch at the address, if only one hook holds it.
last_held : ℕ → List Patch → Option Patch
last_held at patches = elim (find_patch at patches) [
  | none ↦ none
  | some patch ↦ if patch.consumers == 1 then some patch else none
]

find_patch-sites_to_restore :
    (machine : Machine) (patches ps : List Patch) (sites : List ℕ) (at : ℕ)
    → sites_to_restore machine patches sites ≡ some ps
    → find_patch at ps ≡ (if has at sites then last_held at patches else none)
unfolding sites_to_restore has last_held IsOwnSite
find_patch-sites_to_restore machine patches ps [] at e =
    let same : [] ≡ ps = ground arith in subst (λ qs. find_patch at qs ≡ none) same refl
find_patch-sites_to_restore machine patches ps (s ∷ sites) at e =
    let (patch, more, present, others, is) =
      sites_to_restore-IsOwnSite machine patches ps s sites e in
    let rest = find_patch-sites_to_restore machine patches more sites at others in
    let place = find_patch-address s patches patch present in
    subst
      (λ qs. find_patch at qs ≡ (if s == at || has at sites then last_held at patches else none)) is
      (elim (Bool-cases (s == at)) [
        | inl here ↦
            let eq : s ≡ at = ground (arith, here) in
            let at_place : patch.address ≡ at = place ∙ eq in
            let at_present : find_patch at patches ≡ some patch =
              subst (λ a. find_patch a patches ≡ some patch) eq present in
            elim (Bool-cases (patch.consumers == 1)) [
              | inl last ↦ ground (arith, last, here, at_place, at_present)
              | inr shared ↦ ground (arith, shared, here, at_present, rest)
            ]
        | inr other ↦
            let apart : (patch.address == at) ≡ false =
              subst (λ a. (a == at) ≡ false) (sym place) other in
            elim (Bool-cases (patch.consumers == 1)) [
              | inl last ↦ ground (arith, last, other, apart, rest)
              | inr shared ↦ ground (arith, shared, other, rest)
            ]
      ])

expected_word-word_after :
    (code : Code) (ps : List Patch) (at : ℕ)
    → sites_to_restore code.machine code.payload.return_patches code.owner.payload_return_sites
      ≡ some ps
    → word_after code.machine.memory ps at ≡ expected_word code at
unfolding word_after expected_word last_held
expected_word-word_after code ps at e =
    let found =
      find_patch-sites_to_restore code.machine code.payload.return_patches ps
        code.owner.payload_return_sites at e in
    ground (arith, found)

give_back-machine : (code : Code) (machine : Machine) → (give_back code machine).0.machine ≡ machine
unfolding give_back
give_back-machine code machine = ground arith

-- Restoring that succeeds has restored the sites it found.
restore_returns-sites :
    (answers : WriteAnswers) (code : Code)
    → code.owner.payload_return_consumer ≡ true
    → (restore_returns answers code).1 ≡ true
    → (ps : List Patch) × (sites_to_restore code.machine code.payload.return_patches
          code.owner.payload_return_sites
        ≡ some ps)
      × (restore_sites answers code.machine [] ps
          ≡ ((restore_returns answers code).0.machine, true))
unfolding restore_returns
restore_returns-sites answers code holds ok =
    let sites = code.owner.payload_return_sites in
    let fine : (code.payload.return_interception_consumers == 0 || is_empty sites) ≡ false =
      ground (arith, holds, ok) in
    elim (Option-cases (sites_to_restore code.machine code.payload.return_patches sites)) [
      | inl stuck ↦ absurd (ground (arith, rw (holds, fine, stuck, restore_returns) at ok))
      | inr (ps, found) ↦
          let run = restore_sites answers code.machine [] ps in
          elim (Bool-cases run.1) [
            | inr failed ↦
                absurd (ground (arith, rw (holds, fine, found, failed, restore_returns) at ok))
            | inl done ↦
                let same : restore_returns answers code ≡ give_back code run.0 =
                  ground (arith, holds, fine, found, done) in
                let kept : (restore_returns answers code).0.machine ≡ run.0 =
                  subst (λ r. r.0.machine ≡ run.0) (sym same) (give_back-machine code run.0) in
                (ps, found, rw (kept, sym done) refl)
          ]
    ]

-- When a hook that holds return patches gives them back successfully, the memory afterwards has the
-- original instruction at each of its sites whose patch only this hook held, and the old word at
-- every other address, whatever patches other hooks hold.
pub restore_returns-expected_word :
    (answers : WriteAnswers) (code : Code) (at : ℕ)
    → code.owner.payload_return_consumer ≡ true
    → (restore_returns answers code).1 ≡ true
    → (restore_returns answers code).0.machine.memory at ≡ expected_word code at
restore_returns-expected_word answers code at holds ok =
    let (ps, found, run) = restore_returns-sites answers code holds ok in
    let known =
      sites_to_restore-AreKnown code.machine code.payload.return_patches ps
        code.owner.payload_return_sites found in
    restore_sites-word_after answers code.machine (restore_returns answers code).0.machine []
      code.payload.return_patches ps at known run
    ∙ expected_word-word_after code ps at found
