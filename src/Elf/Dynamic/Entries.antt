-- ===== src/Elf/Dynamic/Entries.antt =====
-- The entries of a dynamic section and the values they give to a tag (src/elf/dynamic_view.cpp).
use dart_plant.Prelude.{
  ℕ, suc, ◌+◌, ◌*◌, ◌<◌, ◌≡◌, ◌≢◌, refl, sym, Option, none, some, List, inl, inr, ◌⊎◌, ℕ_discrete,
  subst, arith,
}
use dart_plant.Elf.Reader.{Reader, field}
use dart_plant.Elf.Dynamic.{set_singleton}

-- The entry of this index has this tag and this value.
abbrev pub IsEntry : Reader → ℕ → ℕ → ℕ → ℕ → Type 0
IsEntry reader va i tag value =
    (bytes : List ℕ) × (reader.read (va + i * 16) 16 ≡ some bytes)
    × (field bytes 0 8 ≡ tag)
    × (field bytes 8 8 ≡ value)

-- The first `n` entries give the tag this value: one of them has it, and no other value stands
-- under the tag; or none of them has the tag.
abbrev pub Gives : Reader → ℕ → ℕ → ℕ → Option ℕ → Type 0
Gives reader va n tag none = (i value : ℕ) → i < n → ¬ IsEntry reader va i tag value
Gives reader va n tag (some v) =
    ((i : ℕ) × (i < n) × IsEntry reader va i tag v)
    × ((i value : ℕ) → i < n → IsEntry reader va i tag value → value ≡ v)

-- The entries before the first DT_NULL, which is the one of index `n`.
abbrev pub Ends : Reader → ℕ → ℕ → Type 0
Ends reader va n =
    ((value : ℕ) × IsEntry reader va n 0 value)
    × ((i : ℕ) → i < n → (tag value : ℕ) × (tag ≢ 0) × IsEntry reader va i tag value)

pub last_or_earlier : (i n : ℕ) → i < suc n → (i < n) ⊎ (i ≡ n)
last_or_earlier i n h = ground arith

-- Both values of the slot stand for the same entries, if there are any.
singleton_kept :
    (value : ℕ) (o o' : Option ℕ)
    → set_singleton value o ≡ some o'
    → (o' ≡ some value) × ((o ≡ none) ⊎ (o ≡ some value))
unfolding set_singleton
singleton_kept value none o' s = (ground (arith, s), inl refl)
singleton_kept value (some before) o' s = (ground (arith, s), inr (ground (arith, s)))

-- What the switch does to the slot of the tag `k`.
abbrev pub Stored : ℕ → ℕ → ℕ → Option ℕ → Option ℕ → Type 0
Stored k tag value o o' = (tag ≡ k → set_singleton value o ≡ some o') × (tag ≢ k → o' ≡ o)

module _ (reader : Reader) (va : ℕ) where
  same_entry :
      (i n tag value tag' value' : ℕ)
      → i ≡ n
      → IsEntry reader va i tag value
      → IsEntry reader va n tag' value'
      → (tag ≡ tag') × (value ≡ value')
  same_entry i n tag value tag' value' q (bytes, r, t, v) (bytes', r', t', v') = ground arith

  -- One entry more, under another tag.
  Gives-other :
      (n k tag value : ℕ) (o : Option ℕ)
      → IsEntry reader va n tag value
      → tag ≢ k
      → Gives reader va n k o
      → Gives reader va (suc n) k o
  Gives-other n k tag value none e d g = λ i v h f. elim (last_or_earlier i n h) [
    | inl l ↦ g i v l f
    | inr q ↦ d (sym (same_entry i n k v tag value q f e).0)
  ]
  Gives-other n k tag value (some x) e d ((j, l, f), only) = (
    (j, omega (arith, l), f),
    λ i v h m. elim (last_or_earlier i n h) [
      | inl below ↦ only i v below m
      | inr q ↦ absurd (d (sym (same_entry i n k v tag value q m e).0))
    ],
  )

  earlier :
      (n k value : ℕ) (o : Option ℕ)
      → (o ≡ none) ⊎ (o ≡ some value)
      → Gives reader va n k o
      → (i v : ℕ) → i < n
      → IsEntry reader va i k v
      → v ≡ value
  earlier n k value none c g i v h f = absurd (g i v h f)
  earlier n k value (some x) c g i v h f = let e : v ≡ x = g.1 i v h f in ground arith

  -- One entry more, under the tag.
  Gives-same :
      (n k value : ℕ) (o o' : Option ℕ)
      → IsEntry reader va n k value
      → set_singleton value o ≡ some o'
      → Gives reader va n k o
      → Gives reader va (suc n) k o'
  Gives-same n k value o o' e s g =
      let (stored, before) = singleton_kept value o o' s in
      rw stored (
        (n, omega arith, e),
        λ i v h f. elim (last_or_earlier i n h) [
          | inl l ↦ earlier n k value o before g i v l f
          | inr q ↦ (same_entry i n k v k value q f e).1
        ],
      )

  pub Gives-step :
      (n k tag value : ℕ) (o o' : Option ℕ)
      → IsEntry reader va n tag value
      → Stored k tag value o o'
      → Gives reader va n k o
      → Gives reader va (suc n) k o'
  Gives-step n k tag value o o' e (same, other) g = elim (ℕ_discrete tag k) [
    | yes q ↦
        Gives-same n k value o o' (subst (λ (m : ℕ). IsEntry reader va n m value) q e) (same q) g
    | no d ↦ rw (other d) (Gives-other n k tag value o e d g)
  ]
