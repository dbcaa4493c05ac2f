-- ===== src/Elf/Notes/Total.antt =====
-- The parser always has a result.
use dart_plant.Prelude.{
  ℕ, zero, suc, ◌+◌, ◌≤◌, ◌≡◌, refl, ltb, if◌then◌else◌, Option, none, some, List, [], ◌∷◌, length,
  take, drop, length-drop, Bool-cases, Option-cases, inl, inr, arith,
}
use dart_plant.Elf.Reader.{field}
use dart_plant.Elf.Notes.{
  BuildId, align_up4, all_zero, conclude, malformed, ambiguous, read_note, parse_from, parse_notes,
}

parse_from-some :
    (fuel : ℕ) (notes : List ℕ) (build_id : Option (List ℕ))
    → length notes ≤ fuel
    → (r : BuildId) × (parse_from fuel notes build_id ≡ some r)
unfolding parse_from
parse_from-some fuel [] build_id le = (conclude build_id, refl)
parse_from-some zero (b ∷ bs) build_id le = absurd (omega (arith, le))
parse_from-some (suc fuel) (b ∷ bs) build_id le =
    let notes = b ∷ bs in
    let header = take 12 notes in
    let rest = drop 12 notes in
    let size = align_up4 (field header 0 4) + align_up4 (field header 4 4) in
    elim (Bool-cases (ltb (length notes) 12)) [
      | inl short ↦
          ((if all_zero notes then conclude build_id else malformed), rw (short, parse_from) refl)
      | inr long ↦ elim (Bool-cases (ltb (length rest) size)) [
        | inl cut ↦ (malformed, rw (long, cut, parse_from) refl)
        | inr whole ↦
            elim (Option-cases
              (read_note header (field header 0 4) (field header 4 4) rest build_id)) [
                | inl differs ↦ (ambiguous, rw (long, whole, differs, parse_from) refl)
                | inr (next, read) ↦
                    let (r, e) =
                      parse_from-some fuel (drop size rest) next
                        (omega (arith, le, length-drop 12 notes, length-drop size rest)) in
                    (r, rw (long, whole, read, parse_from) e)
              ]
      ]
    ]

-- `parse_notes` returns a result for every segment: the rounds it is given are enough.
pub parse_notes-some : (notes : List ℕ) → (r : BuildId) × (parse_notes notes ≡ some r)
unfolding parse_notes
parse_notes-some notes = parse_from-some (length notes) notes none (omega arith)
