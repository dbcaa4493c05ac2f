-- ===== src/Elf/Notes/Merge.antt =====
-- The order of the note segments does not matter.
use dart_plant.Prelude.{
  ℕ, ◌≡◌, refl, sym, true, if◌then◌else◌, List, [], ◌∷◌, same_bytes, same_bytes-eq, Bool-cases, inl,
  inr, arith,
}
use dart_plant.Elf.Notes.{BuildId, found, not_found, ambiguous, malformed, merge}

same_bytes_refl : (xs : List ℕ) → same_bytes xs xs ≡ true
same_bytes_refl [] = refl
same_bytes_refl (x ∷ xs) = ground (arith, same_bytes_refl xs)

same_bytes_sym : (xs ys : List ℕ) → same_bytes xs ys ≡ same_bytes ys xs
same_bytes_sym [] [] = refl
same_bytes_sym [] (y ∷ ys) = refl
same_bytes_sym (x ∷ xs) [] = refl
same_bytes_sym (x ∷ xs) (y ∷ ys) = ground (arith, same_bytes_sym xs ys)

merge_comm : (a b : BuildId) → merge a b ≡ merge b a
unfolding merge
merge_comm malformed malformed = refl
merge_comm malformed (found y) = refl
merge_comm malformed not_found = refl
merge_comm malformed ambiguous = refl
merge_comm not_found malformed = refl
merge_comm not_found (found y) = refl
merge_comm not_found not_found = refl
merge_comm not_found ambiguous = refl
merge_comm ambiguous malformed = refl
merge_comm ambiguous (found y) = refl
merge_comm ambiguous not_found = refl
merge_comm ambiguous ambiguous = refl
merge_comm (found x) malformed = refl
merge_comm (found x) not_found = refl
merge_comm (found x) ambiguous = refl
merge_comm (found x) (found y) = elim (Bool-cases (same_bytes x y)) [
  | inl same ↦ rw (same_bytes-eq x y same)
  | inr other ↦ ground (arith, other, same_bytes_sym x y)
]

merge-ambiguous :
    (b c : BuildId)
    → merge ambiguous c ≡ merge (merge ambiguous b) c
    → merge ambiguous (merge b c) ≡ merge (merge ambiguous b) c
unfolding merge
merge-ambiguous malformed c e = refl
merge-ambiguous not_found c e = refl
merge-ambiguous ambiguous malformed e = refl
merge-ambiguous ambiguous not_found e = refl
merge-ambiguous ambiguous ambiguous e = refl
merge-ambiguous ambiguous (found z) e = refl
merge-ambiguous (found y) malformed e = refl
merge-ambiguous (found y) not_found e = refl
merge-ambiguous (found y) ambiguous e = refl
merge-ambiguous (found y) (found z) e = ground arith

same_first :
    (y z : List ℕ)
    → merge (if same_bytes y y then found y else ambiguous) (found z)
      ≡ merge (found y) (if same_bytes y z then found y else ambiguous)
unfolding merge
same_first y z = elim (Bool-cases (same_bytes y z)) [
  | inl agree ↦ ground (arith, agree, same_bytes_refl y)
  | inr differ ↦ ground (arith, differ, same_bytes_refl y)
]

merge_assoc : (a b c : BuildId) → merge (merge a b) c ≡ merge a (merge b c)
unfolding merge
merge_assoc malformed b c = refl
merge_assoc not_found b c = refl
merge_assoc ambiguous malformed c = refl
merge_assoc ambiguous not_found c = refl
merge_assoc ambiguous ambiguous c = sym (merge-ambiguous ambiguous c refl)
merge_assoc ambiguous (found y) c = sym (merge-ambiguous (found y) c refl)
merge_assoc (found x) malformed c = refl
merge_assoc (found x) not_found c = refl
merge_assoc (found x) ambiguous malformed = refl
merge_assoc (found x) ambiguous not_found = refl
merge_assoc (found x) ambiguous ambiguous = refl
merge_assoc (found x) ambiguous (found z) = refl
merge_assoc (found x) (found y) malformed = ground arith
merge_assoc (found x) (found y) not_found = ground arith
merge_assoc (found x) (found y) ambiguous = ground arith
merge_assoc (found x) (found y) (found z) = elim (Bool-cases (same_bytes x y)) [
  | inl same ↦ rw (same_bytes-eq x y same) (same_first y z)
  | inr other ↦ elim (Bool-cases (same_bytes y z)) [
    | inl agree ↦ ground (arith, other, agree)
    | inr differ ↦ ground (arith, other, differ)
  ]
]

-- Merging the results of segments is commutative and associative, so neither their order nor their
-- grouping matters.
pub merge_comm_assoc :
    (a b c : BuildId) → (merge a b ≡ merge b a) × (merge (merge a b) c ≡ merge a (merge b c))
merge_comm_assoc a b c = (merge_comm a b, merge_assoc a b c)
