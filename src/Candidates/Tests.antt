-- ===== src/Candidates/Tests.antt =====
-- Two candidates that agree on the call domain.
use dart_plant.Prelude.{ℕ, ◌≡◌, refl, true, some, [], ◌∷◌}
use dart_plant.Candidates.{
  Profile, CandidateSet, call, domain_abi_id, passed, rows, select_domain_abi,
}
use dart_plant.Candidates.Agreement.{AllAgree, IsRow, select_domain_abi-AllAgree}

abbrev profile_at : ℕ → Profile
profile_at address = record {
  address = address;
  core_id = address ∷ [];
  call_id = 5 ∷ [];
  object_id = [];
  transition_id = [];
  exception_id = [];
}

abbrev candidates : CandidateSet
candidates = record {
  profiles = some (profile_at 11) ∷ some (profile_at 12) ∷ [];
  representative = 12;
}

chosen :
    (select_domain_abi candidates call (true ∷ true ∷ [])).representative ≡ some (profile_at 12)
unfolding select_domain_abi domain_abi_id
chosen = refl

select_domain_abi-AllAgree_example :
    (passed (select_domain_abi candidates call (true ∷ true ∷ [])) ≡ true)
    × AllAgree call
        (select_domain_abi candidates call (true ∷ true ∷ [])).abi_id
        (rows candidates.profiles (true ∷ true ∷ []))
    × IsRow call
        (select_domain_abi candidates call (true ∷ true ∷ [])).abi_id
        (rows candidates.profiles (true ∷ true ∷ []))
        (profile_at 12)
select_domain_abi-AllAgree_example =
    select_domain_abi-AllAgree candidates call (true ∷ true ∷ []) (profile_at 12) chosen
