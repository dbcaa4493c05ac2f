-- ===== src/Abi/Evidence/Slots.antt =====
-- What one slot's verdict says of the evidence behind it.
use mathlib.Core.Path.{subst}
use dart_plant.Prelude.{
  ◌≡◌, ◌≢◌, sym, ◌∙◌, ◌↔◌, ◌⊎◌, inl, inr, Bool, true, false, not, ◌||◌, List, [], ◌∷◌, refl, arith,
}
use dart_plant.Abi.Types.{Representation, unproven, proven, conflicting}
use dart_plant.Abi.Evidence.{
  SlotEvidence, ResolvedSlot, unresolved, ignored, resolve_item, resolve_from, resolve_slot,
}

-- Every item that says something says, as proven, `rep`.
abbrev pub Agree : Representation → List SlotEvidence → Type 0
Agree rep [] = Unit
Agree rep (item ∷ items) =
    (ignored item ≡ false → (item.proof ≡ proven) × (item.representation ≡ rep)) × Agree rep items

-- Some item says something.
abbrev pub informed : List SlotEvidence → Bool
informed [] = false
informed (item ∷ items) = not (ignored item) || informed items

stays_conflicting :
    (r : ResolvedSlot) (items : List SlotEvidence)
    → r.proof ≡ conflicting
    → (resolve_from r items).proof ≡ conflicting
unfolding resolve_from resolve_item
stays_conflicting r [] h = h
stays_conflicting r (item ∷ items) h = stays_conflicting (resolve_item r item) items (ground arith)

-- One item against a slot that is proven to be `rep`.
Agrees : Representation → SlotEvidence → Type 0
Agrees rep item = ignored item ≡ false → (item.proof ≡ proven) × (item.representation ≡ rep)

keeps_item :
    (r : ResolvedSlot) (item : SlotEvidence) (rep : Representation)
    → r.proof ≡ proven
    → r.representation ≡ rep
    → Agrees rep item
    → ((resolve_item r item).proof ≡ proven) × ((resolve_item r item).representation ≡ rep)
unfolding resolve_item Agrees
keeps_item r item rep h e a = ground arith

judges_item :
    (r : ResolvedSlot) (item : SlotEvidence) (rep : Representation)
    → r.proof ≡ proven
    → r.representation ≡ rep
    → (((resolve_item r item).proof ≡ proven)
        × ((resolve_item r item).representation ≡ rep)
        × Agrees rep item)
      ⊎ ((resolve_item r item).proof ≡ conflicting)
unfolding resolve_item Agrees
judges_item r item rep h e = ground arith

stays_proven :
    (r : ResolvedSlot) (items : List SlotEvidence) (rep : Representation)
    → r.proof ≡ proven
    → r.representation ≡ rep
    → Agree rep items
    → ((resolve_from r items).proof ≡ proven) × ((resolve_from r items).representation ≡ rep)
unfolding resolve_from Agrees
stays_proven r [] rep h e a = (h, e)
stays_proven r (item ∷ items) rep h e a =
    let k = keeps_item r item rep h e a.0 in
    stays_proven (resolve_item r item) items rep k.0 k.1 a.1

proven_agrees :
    (r : ResolvedSlot) (items : List SlotEvidence) (rep : Representation)
    → r.proof ≡ proven
    → r.representation ≡ rep
    → (resolve_from r items).proof ≡ proven
    → Agree rep items × ((resolve_from r items).representation ≡ rep)
unfolding resolve_from Agrees
proven_agrees r [] rep h e p = (tt, e)
proven_agrees r (item ∷ items) rep h e p = elim (judges_item r item rep h e) [
  | inl k ↦ let (a, f) = proven_agrees (resolve_item r item) items rep k.0 k.1 p in ((k.2, a), f)
  | inr c ↦ cc (stays_conflicting (resolve_item r item) items c)
]

settled :
    (r : ResolvedSlot) (items : List SlotEvidence)
    → r.proof ≡ proven
    → (resolve_from r items).proof ≢ unproven
unfolding resolve_from
settled r [] h p = cc
settled r (item ∷ items) h p = elim (judges_item r item r.representation h refl) [
  | inl k ↦ settled (resolve_item r item) items k.0 p
  | inr c ↦ cc (stays_conflicting (resolve_item r item) items c)
]

-- One item against a slot of which nothing is known.
first_item :
    (r : ResolvedSlot) (item : SlotEvidence)
    → r.proof ≡ unproven
    → ((ignored item ≡ true) × (resolve_item r item ≡ r))
      ⊎ (((ignored item ≡ false) × (item.proof ≡ proven))
          × ((resolve_item r item).proof ≡ proven)
          × ((resolve_item r item).representation ≡ item.representation))
      ⊎ ((ignored item ≡ false)
          × (item.proof ≡ conflicting)
          × ((resolve_item r item).proof ≡ conflicting))
unfolding resolve_item
first_item r item h = ground arith

-- What follows from a proven verdict, and what leads to one.
unproven-proven :
    (r : ResolvedSlot) (items : List SlotEvidence) (rep : Representation)
    → r.proof ≡ unproven
    → ((resolve_from r items).proof ≡ proven)
    → ((resolve_from r items).representation ≡ rep)
    → (informed items ≡ true) × Agree rep items
unfolding resolve_from
unproven-proven r [] rep h p e = cc
unproven-proven r (item ∷ items) rep h p e = elim (first_item r item h) [
  | inl k ↦
      let (i, a) = unproven-proven (resolve_item r item) items rep (ground arith) p e in
      (ground arith, ((λ n. cc), a))
  | inr (inl k) ↦
      let (a, f) = proven_agrees (resolve_item r item) items item.representation k.1 k.2 p in
      let same : item.representation ≡ rep = sym f ∙ e in
      (ground arith, ((λ n. (k.0.1, same)), subst (λ x. Agree x items) same a))
  | inr (inr k) ↦ cc (stays_conflicting (resolve_item r item) items k.2)
]

informed-proven :
    (r : ResolvedSlot) (items : List SlotEvidence) (rep : Representation)
    → r.proof ≡ unproven
    → informed items ≡ true
    → Agree rep items
    → ((resolve_from r items).proof ≡ proven) × ((resolve_from r items).representation ≡ rep)
unfolding resolve_from
informed-proven r [] rep h i a = cc
informed-proven r (item ∷ items) rep h i a = elim (first_item r item h) [
  | inl k ↦ informed-proven (resolve_item r item) items rep (ground arith) (ground arith) a.1
  | inr (inl k) ↦ stays_proven (resolve_item r item) items rep k.1 (k.2 ∙ (a.0 k.0.0).1) a.1
  | inr (inr k) ↦ let b : proven ≡ conflicting = sym (a.0 k.0).0 ∙ k.1 in cc
]

uninformed-unproven :
    (r : ResolvedSlot) (items : List SlotEvidence)
    → r.proof ≡ unproven
    → informed items ≡ false
    → (resolve_from r items).proof ≡ unproven
unfolding resolve_from
uninformed-unproven r [] h i = h
uninformed-unproven r (item ∷ items) h i = elim (first_item r item h) [
  | inl k ↦ uninformed-unproven (resolve_item r item) items (ground arith) (ground arith)
  | inr (inl k) ↦ ground arith
  | inr (inr k) ↦ ground arith
]

unproven-uninformed :
    (r : ResolvedSlot) (items : List SlotEvidence)
    → r.proof ≡ unproven
    → (resolve_from r items).proof ≡ unproven
    → informed items ≡ false
unfolding resolve_from
unproven-uninformed r [] h p = refl
unproven-uninformed r (item ∷ items) h p = elim (first_item r item h) [
  | inl k ↦ let i = unproven-uninformed (resolve_item r item) items (ground arith) p in ground arith
  | inr (inl k) ↦ absurd (settled (resolve_item r item) items k.1 p)
  | inr (inr k) ↦ cc (stays_conflicting (resolve_item r item) items k.2)
]

-- A slot is proven to be `rep` exactly when some item of evidence says something and every item
-- that does says, as proven, `rep`; it is unproven exactly when no item says anything. So it is
-- conflicting in all other cases.
pub resolve_slot_verdict :
    (items : List SlotEvidence) (rep : Representation)
    → ((((resolve_slot items).proof ≡ proven) × ((resolve_slot items).representation ≡ rep))
        ↔ ((informed items ≡ true) × Agree rep items))
      × (((resolve_slot items).proof ≡ unproven) ↔ (informed items ≡ false))
unfolding resolve_slot
resolve_slot_verdict items rep = (
  (
    (λ h. unproven-proven unresolved items rep refl h.0 h.1),
    (λ h. informed-proven unresolved items rep refl h.0 h.1),
  ),
  (unproven-uninformed unresolved items refl, uninformed-unproven unresolved items refl),
)
