-- ===== src/Candidates/Agreement.antt =====
-- A domain is decided only by agreement.
use dart_plant.Prelude.{
  ℕ, suc, ◌==◌, ◌≡◌, ◌⊎◌, inl, inr, refl, sym, subst, Bool, true, ◌&&◌, Option, none, some, List,
  [], ◌∷◌, length, same_bytes, same_bytes-eq, get_elem?, Bool-cases, arith,
}
use dart_plant.Candidates.{
  Domain, Profile, CandidateSet, domain_abi_id, is_empty, passed, rows, ids_of, is_member,
  insert_all, choose, conclude, select_domain_abi,
}

-- Every row has this id, or none.
abbrev pub AllAgree : Domain → List ℕ → List Profile → Type 0
AllAgree domain id [] = Unit
AllAgree domain id (p ∷ ps) =
    ((domain_abi_id p domain ≡ id) ⊎ (domain_abi_id p domain ≡ [])) × AllAgree domain id ps

-- The row is among these, and has this id.
abbrev pub IsRow : Domain → List ℕ → List Profile → Profile → Type 0
IsRow domain id ps p = (domain_abi_id p domain ≡ id) × ((k : ℕ) × (get_elem? ps k ≡ some p))

same_bytes_refl : (xs : List ℕ) → same_bytes xs xs ≡ true
same_bytes_refl [] = refl
same_bytes_refl (x ∷ xs) = ground (arith, same_bytes_refl xs)

-- What is in a set stays in it.
insert_all-is_member :
    (xs ids : List (List ℕ)) (id : List ℕ)
    → is_member id ids ≡ true
    → is_member id (insert_all xs ids) ≡ true
unfolding insert_all is_member
insert_all-is_member [] ids id e = e
insert_all-is_member (x ∷ xs) ids id e = elim (Bool-cases (is_member x ids)) [
  | inl there ↦ rw there (insert_all-is_member xs ids id e)
  | inr new ↦ rw new (insert_all-is_member xs (x ∷ ids) id (ground (arith, e)))
]

-- Every id of `xs` is in `ids`.
AllIn : List (List ℕ) → List (List ℕ) → Type 0
AllIn [] ids = Unit
AllIn (x ∷ xs) ids = (is_member x ids ≡ true) × AllIn xs ids

insert_all-AllIn : (xs ids : List (List ℕ)) → AllIn xs (insert_all xs ids)
unfolding insert_all is_member AllIn
insert_all-AllIn [] ids = tt
insert_all-AllIn (x ∷ xs) ids = elim (Bool-cases (is_member x ids)) [
  | inl there ↦ rw there (insert_all-is_member xs ids x there, insert_all-AllIn xs ids)
  | inr new ↦ rw new (
    insert_all-is_member xs (x ∷ ids) x (ground (arith, same_bytes_refl x)),
    insert_all-AllIn xs (x ∷ ids),
  )
]

empty_id : (id : List ℕ) → is_empty id ≡ true → id ≡ []
empty_id [] e = refl
empty_id (c ∷ cs) e = ground (arith, e)

ids_of-AllAgree :
    (domain : Domain) (id : List ℕ) (ps : List Profile)
    → AllIn (ids_of domain ps) (id ∷ [])
    → AllAgree domain id ps
unfolding ids_of AllIn is_member
ids_of-AllAgree domain id [] a = tt
ids_of-AllAgree domain id (p ∷ ps) a = elim (Bool-cases (is_empty (domain_abi_id p domain))) [
  | inl empty ↦ (
    inr (empty_id (domain_abi_id p domain) empty),
    ids_of-AllAgree domain id ps (rw (empty, ids_of) at a),
  )
  | inr has ↦
      let (same, rest) = rw (has, ids_of) at a in
      (
        inl (sym (same_bytes-eq id (domain_abi_id p domain) (ground (arith, same)))),
        ids_of-AllAgree domain id ps rest,
      )
]

first-IsRow :
    (domain : Domain) (id : List ℕ) (ps : List Profile) (q p : Profile)
    → same_bytes (domain_abi_id q domain) id ≡ true
    → some q ≡ some p
    → IsRow domain id (q ∷ ps) p
first-IsRow domain id ps q p same e =
    let is : q ≡ p = cc in
    subst (λ t. IsRow domain id (q ∷ ps) t) is
      (same_bytes-eq (domain_abi_id q domain) id same, (0, refl))

choose-IsRow :
    (preferred : ℕ) (domain : Domain) (id : List ℕ) (chosen : Option Profile) (ps : List Profile)
    (p : Profile)
    → choose preferred domain id chosen ps ≡ some p
    → (chosen ≡ some p) ⊎ IsRow domain id ps p
unfolding choose
choose-IsRow preferred domain id chosen [] p e = inl e
choose-IsRow preferred domain id none (q ∷ ps) p e =
    elim (Bool-cases (same_bytes (domain_abi_id q domain) id)) [
      | inl same ↦ elim (choose-IsRow preferred domain id (some q) ps p (rw (same, choose) at e)) [
        | inl here ↦ inr (first-IsRow domain id ps q p same here)
        | inr later ↦ inr (later.0, (suc later.1.0, later.1.1))
      ]
      | inr other ↦ elim (choose-IsRow preferred domain id none ps p (rw (other, choose) at e)) [
        | inl bad ↦ inl bad
        | inr later ↦ inr (later.0, (suc later.1.0, later.1.1))
      ]
    ]
choose-IsRow preferred domain id (some r) (q ∷ ps) p e =
    elim (Bool-cases (same_bytes (domain_abi_id q domain) id && q.address == preferred)) [
      | inl same ↦ elim (choose-IsRow preferred domain id (some q) ps p (rw (same, choose) at e)) [
        | inl here ↦ inr (first-IsRow domain id ps q p (ground (arith, same)) here)
        | inr later ↦ inr (later.0, (suc later.1.0, later.1.1))
      ]
      | inr other ↦
          elim (choose-IsRow preferred domain id (some r) ps p (rw (other, choose) at e)) [
            | inl before ↦ inl before
            | inr later ↦ inr (later.0, (suc later.1.0, later.1.1))
          ]
    ]

conclude-AllAgree :
    (candidates : CandidateSet) (domain : Domain) (ps : List Profile) (ids : List (List ℕ))
    (p : Profile)
    → AllIn (ids_of domain ps) ids
    → (conclude candidates domain ps ids).representative ≡ some p
    → (passed (conclude candidates domain ps ids) ≡ true)
      × AllAgree domain (conclude candidates domain ps ids).abi_id ps
      × IsRow domain (conclude candidates domain ps ids).abi_id ps p
unfolding conclude passed
conclude-AllAgree candidates domain ps [] p a e = ground (arith, e)
conclude-AllAgree candidates domain ps (id ∷ []) p a e =
    elim (choose-IsRow candidates.representative domain id none ps p e) [
      | inl bad ↦ ground (arith, bad)
      | inr row ↦ (ground (arith, e), ids_of-AllAgree domain id ps a, row)
    ]
conclude-AllAgree candidates domain ps (id ∷ id' ∷ ids) p a e = ground (arith, e)

-- A selection with a representative passes, and has one id: every compatible candidate has this id
-- for the domain or has none, and the representative is a compatible candidate with this id.
pub select_domain_abi-AllAgree :
    (candidates : CandidateSet) (domain : Domain) (compatible : List Bool) (p : Profile)
    → (select_domain_abi candidates domain compatible).representative ≡ some p
    → (passed (select_domain_abi candidates domain compatible) ≡ true)
      × AllAgree domain
          (select_domain_abi candidates domain compatible).abi_id
          (rows candidates.profiles compatible)
      × IsRow domain
          (select_domain_abi candidates domain compatible).abi_id
          (rows candidates.profiles compatible)
          p
unfolding select_domain_abi
select_domain_abi-AllAgree candidates domain compatible p e =
    elim (Bool-cases (length compatible == length candidates.profiles)) [
      | inr odd ↦ ground (arith, odd, e)
      | inl even ↦
          let ps = rows candidates.profiles compatible in
          rw even (
            conclude-AllAgree candidates domain ps (insert_all (ids_of domain ps) []) p
              (insert_all-AllIn (ids_of domain ps) []) (rw even at e))
    ]
