-- ===== src/Abi/Layout/Registers.antt =====
-- Which parameters get which registers, in closed form (src/abi/calling_convention.cpp).
use dart_plant.Prelude.{
  ℕ, zero, suc, ◌+◌, ◌-◌, ◌≤◌, ◌<◌, ◌≡◌, refl, sym, ap, ◌∙◌, ltb, ◌&&◌, if◌then◌else◌, Option, none,
  some, List, [], ◌∷◌, ◌++◌, get_or, length, arith,
}
use dart_plant.Abi.Types.{Representation, tagged, unboxed_int64, unboxed_double}
use dart_plant.Abi.Evidence.{ResolvedSlot}
use dart_plant.Abi.Layout.{
  Location, gp_register, fpu_register, Profile, choose, pick, assign, count_stack,
}

-- The kinds of parameters that use a general register and a floating-point one.
abbrev pub gp_user : Representation → ℕ
gp_user tagged = 1
gp_user unboxed_int64 = 1
gp_user _ = 0

abbrev pub fpu_user : Representation → ℕ
fpu_user unboxed_double = 1
fpu_user _ = 0

abbrev pub gp_users : List ResolvedSlot → ℕ
gp_users [] = 0
gp_users (s ∷ ss) = gp_user s.representation + gp_users ss

abbrev pub fpu_users : List ResolvedSlot → ℕ
fpu_users [] = 0
fpu_users (s ∷ ss) = fpu_user s.representation + fpu_users ss

-- The register of parameter `i` of a function, before which stand `g` users of a general register
-- and `f` of a floating-point one, if it gets one.
unfoldable pub register_of : Profile → ℕ → ℕ → ℕ → ℕ → Representation → Option Location
register_of p limit i g f unboxed_double =
    if ltb i limit && ltb f p.fpu_argument_register_count
    then some (fpu_register (get_or p.fpu_argument_registers f 0))
    else none
register_of p limit i g f tagged =
    if ltb i limit && ltb g p.gp_argument_register_count
    then some (gp_register (get_or p.gp_argument_registers g 0))
    else none
register_of p limit i g f unboxed_int64 =
    if ltb i limit && ltb g p.gp_argument_register_count
    then some (gp_register (get_or p.gp_argument_registers g 0))
    else none
register_of p limit i g f _ = none

-- How many of the parameters from `i` on get no register.
pub without_register : Profile → ℕ → ℕ → ℕ → ℕ → List ResolvedSlot → ℕ
without_register p limit i g f [] = 0
without_register p limit i g f (s ∷ ss) =
    let rest =
      without_register p limit (suc i) (gp_user s.representation + g)
        (fpu_user s.representation + f) ss in
    elim (register_of p limit i g f s.representation) [ none ↦ suc rest | some l ↦ rest ]

-- A counter of the loop, which stops at the number of registers.
abbrev capped : ℕ → ℕ → ℕ
capped count users = if ltb users count then users else count

-- The counters for these numbers of users; past the limit they do not matter.
record Counts (p : Profile) (left limit i gp g fpu f : ℕ) : Type 0 where
  left_is : left ≡ limit - i
  gp_is : i < limit → gp ≡ capped p.gp_argument_register_count g
  fpu_is : i < limit → fpu ≡ capped p.fpu_argument_register_count f

choose-register_of :
    (p : Profile) (limit i gp g fpu f : ℕ) (rep : Representation)
    → i < limit
    → gp ≡ capped p.gp_argument_register_count g
    → fpu ≡ capped p.fpu_argument_register_count f
    → let (o, gp', fpu') = choose p rep gp fpu in
      (o ≡ register_of p limit i g f rep)
      × (gp' ≡ capped p.gp_argument_register_count (gp_user rep + g))
      × (fpu' ≡ capped p.fpu_argument_register_count (fpu_user rep + f))
unfolding choose register_of
choose-register_of p limit i gp g fpu f unboxed_double h a b = ground arith
choose-register_of p limit i gp g fpu f tagged h a b = ground arith
choose-register_of p limit i gp g fpu f unboxed_int64 h a b = ground arith
choose-register_of p limit i gp g fpu f rep h a b = ground arith

beyond-register_of :
    (p : Profile) (limit i g f : ℕ) (rep : Representation)
    → limit ≤ i
    → register_of p limit i g f rep ≡ none
unfolding register_of
beyond-register_of p limit i g f rep h = ground arith

pick-register_of :
    (p : Profile) (left limit i gp g fpu f : ℕ) (rep : Representation)
    → Counts p left limit i gp g fpu f
    → let (o, gp', fpu') = pick p left rep gp fpu in
      (o ≡ register_of p limit i g f rep)
      × Counts p (left - 1) limit (suc i) gp' (gp_user rep + g) fpu' (fpu_user rep + f)
unfolding pick
pick-register_of p zero limit i gp g fpu f rep c =
    let over : limit ≤ i = omega (arith, c.left_is) in
    (
      sym (beyond-register_of p limit i g f rep over),
      record {
        left_is = omega (arith, over);
        gp_is = λ h. absurd (omega (arith, h, over));
        fpu_is = λ h. absurd (omega (arith, h, over));
      },
    )
pick-register_of p (suc left) limit i gp g fpu f rep c =
    let inside : i < limit = omega (arith, c.left_is) in
    let (o, g', f') =
      choose-register_of p limit i gp g fpu f rep inside (c.gp_is inside) (c.fpu_is inside) in
    (o, record { left_is = omega (arith, c.left_is); gp_is = λ h. g'; fpu_is = λ h. f' })

-- The registers of all parameters, from `i` on.
pub registers : Profile → ℕ → ℕ → ℕ → ℕ → List ResolvedSlot → List (Option Location)
registers p limit i g f [] = []
registers p limit i g f (s ∷ ss) =
    register_of p limit i g f s.representation
    ∷ registers p limit (suc i) (gp_user s.representation + g) (fpu_user s.representation + f) ss

assign-registers :
    (p : Profile) (left limit i gp g fpu f : ℕ) (ss : List ResolvedSlot)
    → Counts p left limit i gp g fpu f
    → assign p left gp fpu ss ≡ registers p limit i g f ss
unfolding assign registers
assign-registers p left limit i gp g fpu f [] c = refl
assign-registers p left limit i gp g fpu f (s ∷ ss) c =
    let (o, c') = pick-register_of p left limit i gp g fpu f s.representation c in
    let (o', gp', fpu') = pick p left s.representation gp fpu in
    ap (λ (x : Option Location). x ∷ assign p (left - 1) gp' fpu' ss) o
    ∙ ap (λ (r : List (Option Location)). register_of p limit i g f s.representation ∷ r)
        (assign-registers p (left - 1) limit (suc i) gp' (gp_user s.representation + g) fpu'
          (fpu_user s.representation + f) ss c')

pub count_stack-registers :
    (p : Profile) (limit i g f : ℕ) (ss : List ResolvedSlot)
    → count_stack (registers p limit i g f ss) ≡ without_register p limit i g f ss
unfolding count_stack registers without_register
count_stack-registers p limit i g f [] = refl
count_stack-registers p limit i g f (s ∷ ss) =
    let ih =
      count_stack-registers p limit (suc i) (gp_user s.representation + g)
        (fpu_user s.representation + f) ss in
    ground (arith, ih)

registers-append :
    (p : Profile) (limit i g f i' g' f' : ℕ) (before rest : List ResolvedSlot)
    → i' ≡ length before + i
    → g' ≡ gp_users before + g
    → f' ≡ fpu_users before + f
    → registers p limit i g f (before ++ rest)
      ≡ registers p limit i g f before ++ registers p limit i' g' f' rest
unfolding registers
registers-append p limit i g f i' g' f' [] rest hi hg hf =
    let ei : i' ≡ i = omega (arith, hi) in
    let eg : g' ≡ g = omega (arith, hg) in
    let ef : f' ≡ f = omega (arith, hf) in rw (ei, eg, ef) refl
registers-append p limit i g f i' g' f' (s ∷ before) rest hi hg hf =
    ap (λ (r : List (Option Location)). register_of p limit i g f s.representation ∷ r)
      (registers-append p limit (suc i) (gp_user s.representation + g)
        (fpu_user s.representation + f) i' g' f' before rest (omega (arith, hi)) (omega (arith, hg))
        (omega (arith, hf)))

pub length-registers :
    (p : Profile) (limit i g f : ℕ) (ss : List ResolvedSlot)
    → length (registers p limit i g f ss) ≡ length ss
unfolding registers
length-registers p limit i g f [] = refl
length-registers p limit i g f (s ∷ ss) = ap suc (
    length-registers p limit (suc i) (gp_user s.representation + g) (fpu_user s.representation + f)
      ss)

-- The registers that the loop gives out, around one parameter.
pub assign-split :
    (p : Profile) (limit : ℕ) (before after : List ResolvedSlot) (s : ResolvedSlot)
    → assign p limit 0 0 (before ++ (s ∷ after))
      ≡ registers p limit 0 0 0 before
        ++ (register_of p limit
              (length before)
              (gp_users before)
              (fpu_users before)
              s.representation
            ∷ registers p limit
                (suc (length before))
                (gp_user s.representation + gp_users before)
                (fpu_user s.representation + fpu_users before)
                after)
assign-split p limit before after s =
    assign-registers p limit limit 0 0 0 0 0 (before ++ (s ∷ after))
      (record { left_is = omega arith; gp_is = λ h. ground arith; fpu_is = λ h. ground arith })
    ∙ unfold registers in
      registers-append p limit 0 0 0 (length before) (gp_users before) (fpu_users before) before
        (s ∷ after) (omega arith) (omega arith) (omega arith)
