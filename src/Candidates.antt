-- ===== src/Candidates.antt =====
-- The choice of one runtime profile among the candidates that fit a VM, domain by domain
-- (src/vm/abi/candidate_set.cpp). A profile has the address of its record, by which the source
-- compares profiles, and its five ABI ids, empty where the record has none; a null pointer among the
-- candidates is `none`.
pub mod Agreement
mod Tests
use dart_plant.Prelude.{
  ℕ, zero, suc, ◌+◌, ◌==◌, if◌then◌else◌, Bool, true, false, not, ◌&&◌, ◌||◌, Option, none, some,
  List, [], ◌∷◌, length, same_bytes,
}

-- `AbiDomain`
pub data Domain : Type 0 where
  core call object transition exception : Domain

-- `RuntimeProfileRecord`, of which the choice reads `abi_identity`
pub record Profile : Type 0 where
  pub address : ℕ
  pub core_id : List ℕ
  pub call_id : List ℕ
  pub object_id : List ℕ
  pub transition_id : List ℕ
  pub exception_id : List ℕ

-- `DomainAbiId`
unfoldable pub domain_abi_id : Profile → Domain → List ℕ
domain_abi_id p core = p.core_id
domain_abi_id p call = p.call_id
domain_abi_id p object = p.object_id
domain_abi_id p transition = p.transition_id
domain_abi_id p exception = p.exception_id

-- `AbiCandidateSet`; the address of the representative is 0 if there is none.
pub record CandidateSet : Type 0 where
  pub profiles : List (Option Profile)
  pub representative : ℕ

-- `DomainSelection`
pub record Selection : Type 0 where
  pub representative : Option Profile
  pub abi_id : List ℕ
  pub compatible_rows : ℕ
  pub distinct_abis : ℕ

abbrev pub no_selection : Selection
no_selection = record { representative = none; abi_id = []; compatible_rows = 0; distinct_abis = 0 }

-- `DomainSelection::passed`
unfoldable pub passed : Selection → Bool
passed s = elim s.representative [ none ↦ false | some p ↦ s.distinct_abis == 1 ]

-- The candidates that are compatible and not null, of lists of one length
unfoldable pub rows : List (Option Profile) → List Bool → List Profile
rows [] compatible = []
rows (p ∷ ps) [] = []
rows (none ∷ ps) (c ∷ cs) = rows ps cs
rows (some p ∷ ps) (true ∷ cs) = p ∷ rows ps cs
rows (some p ∷ ps) (false ∷ cs) = rows ps cs

abbrev pub is_empty : List ℕ → Bool
is_empty [] = true
is_empty (c ∷ cs) = false

-- The ids of the rows that have one
ids_of : Domain → List Profile → List (List ℕ)
ids_of domain [] = []
ids_of domain (p ∷ ps) =
    let rest = ids_of domain ps in
    if is_empty (domain_abi_id p domain) then rest else domain_abi_id p domain ∷ rest

is_member : List ℕ → List (List ℕ) → Bool
is_member id [] = false
is_member id (x ∷ xs) = same_bytes x id || is_member id xs

-- `std::set` of ids: each once
insert_all : List (List ℕ) → List (List ℕ) → List (List ℕ)
unfolding is_member
insert_all [] ids = ids
insert_all (x ∷ xs) ids = insert_all xs (if is_member x ids then ids else x ∷ ids)

-- The second loop
choose : ℕ → Domain → List ℕ → Option Profile → List Profile → Option Profile
choose preferred domain id chosen [] = chosen
choose preferred domain id none (p ∷ ps) =
    choose preferred domain id (if same_bytes (domain_abi_id p domain) id then some p else none) ps
choose preferred domain id (some q) (p ∷ ps) =
    choose preferred domain id
      (if same_bytes (domain_abi_id p domain) id && p.address == preferred then some p else some q)
      ps

-- What follows the first loop, for the ids found
conclude : CandidateSet → Domain → List Profile → List (List ℕ) → Selection
unfolding choose
conclude candidates domain compatible [] = record no_selection {
  compatible_rows = length (ids_of domain compatible);
}
conclude candidates domain compatible (id ∷ []) = record {
  representative = choose candidates.representative domain id none compatible;
  abi_id = id;
  compatible_rows = length (ids_of domain compatible);
  distinct_abis = 1;
}
conclude candidates domain compatible (id ∷ id' ∷ ids) = record no_selection {
  compatible_rows = length (ids_of domain compatible);
  distinct_abis = length (id ∷ id' ∷ ids);
}

-- `SelectDomainAbi`
unfoldable pub select_domain_abi : CandidateSet → Domain → List Bool → Selection
unfolding conclude insert_all ids_of rows
select_domain_abi candidates domain compatible =
    let profiles = rows candidates.profiles compatible in
    if length compatible == length candidates.profiles
    then conclude candidates domain profiles (insert_all (ids_of domain profiles) [])
    else no_selection
