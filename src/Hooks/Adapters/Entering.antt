-- ===== src/Hooks/Adapters/Entering.antt =====
-- Entering and adding listeners keep the accounts (src/core/hook_registry.cpp).
use dart_plant.Prelude.{
  ℕ, zero, suc, ◌+◌, ◌≡◌, ◌≢◌, refl, sym, ◌∙◌, true, some, List, [], ◌∷◌, ◌++◌, get_elem?, length,
  length-append, arith, Bool-cases, Option-cases, inl, inr, ◌⊎◌, subst, ap,
}
use dart_plant.Hooks.Listeners.{
  Listener, HookRefs, Request, retain_hook, change_record, make_listener,
}
use dart_plant.Hooks.Invoke.{Outside, is_admitted, entered, enter_all}
use dart_plant.Hooks.Adapters.{count, retains, retained_by, is_settled, Accounts, Accounts-set}

pub count-append : (i : ℕ) (xs ys : List ℕ) → count i (xs ++ ys) ≡ count i xs + count i ys
unfolding count
count-append i [] ys = omega arith
count-append i (x ∷ xs) ys = omega (arith, count-append i xs ys)

-- The accounts only depend on how often each index is held.
pub Accounts-count :
    (others refs : HookRefs) (held held' : List ℕ) (records : List Listener)
    → Accounts others held records refs
    → ((i : ℕ) → count i held' ≡ count i held)
    → Accounts others held' records refs
Accounts-count others refs held held' records acc same = record {
  settled = acc.settled;
  counted = λ i l at. acc.counted i l at ∙ sym (same i);
  bounded = λ i out. same i ∙ acc.bounded i out;
  summed = acc.summed;
}

is_admitted-active : (o : Outside) (l : Listener) → is_admitted o l ≡ true → l.active ≡ true
unfolding is_admitted
is_admitted-active o l e = ground (arith, e)

entered-is_settled :
    (l : Listener) → is_settled l ≡ true → l.active ≡ true → is_settled (entered l) ≡ true
unfolding is_settled
entered-is_settled l s a = ground (arith, s, a)

count_more : (i j : ℕ) (held : List ℕ) → i ≢ j → count j (i ∷ held) ≡ count j held
unfolding count
count_more i j held h = ground (arith, h)

count_self : (i : ℕ) (held : List ℕ) → count i (i ∷ held) ≡ suc (count i held)
unfolding count
count_self i held = ground arith

enter-Accounts :
    (outside : Outside) (others refs : HookRefs) (held : List ℕ) (records : List Listener) (i : ℕ)
    (l : Listener)
    → Accounts others held records refs
    → get_elem? records i ≡ some l
    → is_admitted outside l ≡ true
    → Accounts others (i ∷ held) (change_record entered i records) refs
unfolding change_record retains
enter-Accounts outside others refs held records i l acc at ok =
    let done =
      Accounts-set others refs refs held (i ∷ held) records i l (entered l) acc at
        (entered-is_settled l (acc.settled i l at) (is_admitted-active outside l ok))
        (omega (arith, acc.counted i l at, count_self i held))
        (λ j apart. count_more i j held apart) (λ a nz. omega arith) in
    rw (at, change_record) done

count_middle :
    (k i : ℕ) (rest held : List ℕ) → count k ((i ∷ rest) ++ held) ≡ count k (rest ++ (i ∷ held))
unfolding count
count_middle k i rest held = omega (arith, count-append k rest held, count-append k rest (i ∷ held))

pub enter_all-Accounts :
    (outside : Outside) (others refs : HookRefs) (held : List ℕ) (records : List Listener)
    (is : List ℕ)
    → Accounts others held records refs
    → Accounts others
        ((enter_all outside records is).1 ++ held)
        (enter_all outside records is).0
        refs
unfolding enter_all
enter_all-Accounts outside others refs held records [] acc = acc
enter_all-Accounts outside others refs held records (i ∷ is) acc =
    elim (Option-cases (get_elem? records i)) [
      | inl absent ↦
          let ih = enter_all-Accounts outside others refs held records is acc in
          rw (absent, enter_all) ih
      | inr (l, at) ↦ elim (Bool-cases (is_admitted outside l)) [
        | inr refused ↦
            let ih = enter_all-Accounts outside others refs held records is acc in
            rw (at, refused, enter_all) ih
        | inl ok ↦
            let now = enter-Accounts outside others refs held records i l acc at ok in
            let ih =
              enter_all-Accounts outside others refs (i ∷ held) (change_record entered i records) is
                now in
            let moved =
              Accounts-count others refs _
                (i ∷ (enter_all outside (change_record entered i records) is).1 ++ held) _ ih
                (λ k.
                  count_middle k i (enter_all outside (change_record entered i records) is).1
                    held) in
            rw (at, ok, enter_all) moved
      ]
    ]

retained_by-append :
    (a : ℕ) (xs ys : List Listener) → retained_by a (xs ++ ys) ≡ retained_by a xs + retained_by a ys
unfolding retained_by
retained_by-append a [] ys = omega arith
retained_by-append a (x ∷ xs) ys = omega (arith, retained_by-append a xs ys)

-- An element of a list with one more at the end stands in the list or is the last.
get_elem?-append_one :
    {A : Type 0} (xs : List A) (y : A) (i : ℕ) (x : A)
    → get_elem? (xs ++ (y ∷ [])) i ≡ some x
    → (get_elem? xs i ≡ some x) ⊎ ((i ≡ length xs) × (y ≡ x))
get_elem?-append_one [] y zero x e = inr (refl, cc)
get_elem?-append_one [] y (suc i) x e = ground (arith, e)
get_elem?-append_one (z ∷ zs) y zero x e = inl e
get_elem?-append_one (z ∷ zs) y (suc i) x e = elim (get_elem?-append_one zs y i x e) [
  | inl old ↦ inl old
  | inr (at, same) ↦ inr (ap suc at, same)
]

make_listener-is_settled :
    (request : Request) (id order : ℕ) → is_settled (make_listener request id order) ≡ true
unfolding make_listener is_settled
make_listener-is_settled request id order = ground arith

retain_hook-retains :
    (request : Request) (id order : ℕ) (refs : HookRefs) (a : ℕ)
    → a ≢ 0
    → retain_hook request.vm_adapter refs a ≡ refs a + retains a (make_listener request id order)
unfolding make_listener retains retain_hook
retain_hook-retains request id order refs a nz = ground (arith, nz)

make_listener-in_flight :
    (request : Request) (id order : ℕ) → (make_listener request id order).in_flight ≡ 0
unfolding make_listener
make_listener-in_flight request id order = refl

pub make_listener-Accounts :
    (request : Request) (id order : ℕ) (others refs : HookRefs) (held : List ℕ)
    (records : List Listener)
    → Accounts others held records refs
    → Accounts others held
        (records ++ (make_listener request id order ∷ []))
        (retain_hook request.vm_adapter refs)
unfolding retained_by
make_listener-Accounts request id order others refs held records acc =
    let l = make_listener request id order in
    record {
      settled = λ i x e. elim (get_elem?-append_one records l i x e) [
        | inl old ↦ acc.settled i x old
        | inr (at, same) ↦
            subst (λ y. is_settled y ≡ true) same (make_listener-is_settled request id order)
      ];
      counted = λ i x e. elim (get_elem?-append_one records l i x e) [
        | inl old ↦ acc.counted i x old
        | inr (at, same) ↦
            let none_hold = acc.bounded i (omega (arith, at)) in
            subst (λ y. y.in_flight ≡ count i held) same
              (make_listener-in_flight request id order ∙ sym none_hold)
      ];
      bounded = λ i out. acc.bounded i (omega (arith, out, length-append records (l ∷ [])));
      summed = λ a nz. omega (
        arith,
        acc.summed a nz,
        retain_hook-retains request id order refs a nz,
        retained_by-append a records (l ∷ []),
      );
    }
