-- ===== src/Hooks/Adapters/Operations.antt =====
-- Detaching, entering, leaving and adding listeners keep the accounts
-- (src/core/hook_registry.cpp, src/interceptor/callback_dispatch.cpp).
use dart_plant.Prelude.{
  ℕ, zero, suc, ◌+◌, ◌≤◌, ◌≡◌, ◌≢◌, refl, sym, ◌∙◌, ◌==◌, if◌then◌else◌, true, false, not, ◌||◌,
  none, some, List, [], ◌∷◌, get_elem?, length, arith, Option-cases, inl, inr,
}
use dart_plant.Hooks.Listeners.{Listener, HookRefs, releases, release_if_idle, release_hook}
use dart_plant.Hooks.Record.{detach, detach_all}
use dart_plant.Hooks.Invoke.{leave, one_less}
use dart_plant.Hooks.Adapters.{
  count, retains, is_settled, Accounts, Accounts-set, retains-le-retained_by,
}

-- Releasing an adapter when idle moves its count by what the listener retained.
release_if_idle-retains :
    (l : Listener) (refs : HookRefs) (a : ℕ)
    → a ≢ 0
    → retains a l ≤ refs a
    → (release_if_idle l refs).1 a + retains a l ≡ retains a (release_if_idle l refs).0 + refs a
unfolding release_if_idle releases release_hook retains
release_if_idle-retains l refs a nz enough = ground (arith, nz, enough)

release_if_idle-in_flight :
    (l : Listener) (refs : HookRefs) → (release_if_idle l refs).0.in_flight ≡ l.in_flight
unfolding release_if_idle
release_if_idle-in_flight l refs = ground arith

-- A listener made inactive, or less held, is settled once it is released if idle.
release_if_idle-is_settled :
    (l l' : Listener) (refs : HookRefs)
    → is_settled l ≡ true
    → l'.vm_adapter ≡ l.vm_adapter
    → l'.vm_adapter_retained ≡ l.vm_adapter_retained
    → (l.active || not (l.in_flight == 0)) ≡ true
    → is_settled (release_if_idle l' refs).0 ≡ true
unfolding release_if_idle releases is_settled
release_if_idle-is_settled l l' refs s v r busy = ground (arith, s, v, r, busy)

inactive-is_settled :
    (l : Listener) (refs : HookRefs)
    → is_settled l ≡ true
    → is_settled (release_if_idle (record l { active = false }) refs).0 ≡ true
unfolding release_if_idle releases is_settled
inactive-is_settled l refs s = ground (arith, s)

pub detach-Accounts :
    (others refs : HookRefs) (held : List ℕ) (records : List Listener) (i : ℕ)
    → Accounts others held records refs
    → Accounts others held (detach i records refs).0 (detach i records refs).1
unfolding detach retains
detach-Accounts others refs held records i acc = elim (Option-cases (get_elem? records i)) [
  | inl absent ↦ rw (absent, detach) acc
  | inr (l, at) ↦
      let l' = (release_if_idle (record l { active = false }) refs).0 in
      let enough = λ (a : ℕ) (nz : a ≢ 0). enough_of a nz l at in
      let done =
        Accounts-set others refs (release_if_idle (record l { active = false }) refs).1 held held
          records i l l' acc at (inactive-is_settled l refs (acc.settled i l at))
          (release_if_idle-in_flight (record l { active = false }) refs ∙ acc.counted i l at)
          (λ j _. refl)
          (λ a nz. release_if_idle-retains (record l { active = false }) refs a nz (enough a nz)) in
      rw (at, detach) done
]
  where
    enough_of :
        (a : ℕ) → a ≢ 0 → (l : Listener) → get_elem? records i ≡ some l → retains a l ≤ refs a
    enough_of a nz l at = omega (arith, acc.summed a nz, retains-le-retained_by a records i l at)

pub detach_all-Accounts :
    (others refs : HookRefs) (held : List ℕ) (records : List Listener) (is : List ℕ)
    → Accounts others held records refs
    → Accounts others held (detach_all is records refs).0 (detach_all is records refs).1
unfolding detach_all
detach_all-Accounts others refs held records [] acc = acc
detach_all-Accounts others refs held records (i ∷ is) acc =
    let (left, after) = detach i records refs in
    detach_all-Accounts others after held left is (detach-Accounts others refs held records i acc)

-- The list without one occurrence of the index
unfoldable pub remove_one : ℕ → List ℕ → List ℕ
remove_one i [] = []
remove_one i (j ∷ js) = if j == i then js else j ∷ remove_one i js

count-remove_one :
    (i : ℕ) (js : List ℕ) → count i js ≢ 0 → suc (count i (remove_one i js)) ≡ count i js
unfolding count remove_one
count-remove_one i [] h = absurd (h refl)
count-remove_one i (j ∷ js) h = ground (arith, h, count-remove_one i js)

count-remove_one_ne : (i k : ℕ) (js : List ℕ) → i ≢ k → count k (remove_one i js) ≡ count k js
unfolding count remove_one
count-remove_one_ne i k [] h = refl
count-remove_one_ne i k (j ∷ js) h = ground (arith, h, count-remove_one_ne i k js h)

one_less-suc : (n : ℕ) → n ≢ 0 → suc (one_less n) ≡ n
one_less-suc n h = ground (arith, h)

busy_of : (l : Listener) → l.in_flight ≢ 0 → (l.active || not (l.in_flight == 0)) ≡ true
busy_of l h = ground (arith, h)

pub get_elem?-outside : {A : Type 0} (xs : List A) (i : ℕ) → get_elem? xs i ≡ none → length xs ≤ i
get_elem?-outside [] i e = omega arith
get_elem?-outside (x ∷ xs) zero e = ground arith
get_elem?-outside (x ∷ xs) (suc i) e = omega (arith, get_elem?-outside xs i e)

-- A listener that an invocation holds is left.
pub leave-Accounts :
    (others refs : HookRefs) (held : List ℕ) (records : List Listener) (i : ℕ)
    → Accounts others held records refs
    → count i held ≢ 0
    → Accounts others (remove_one i held) (leave i records refs).0 (leave i records refs).1
unfolding leave retains
leave-Accounts others refs held records i acc holds = elim (Option-cases (get_elem? records i)) [
  | inl absent ↦ absurd (holds (acc.bounded i (get_elem?-outside records i absent)))
  | inr (l, at) ↦
      let l0 : Listener = record l { in_flight = one_less l.in_flight } in
      let now = acc.counted i l at in
      let busy : (l.active || not (l.in_flight == 0)) ≡ true =
        busy_of l (λ z. holds (sym now ∙ z)) in
      let fewer : one_less l.in_flight ≡ count i (remove_one i held) = omega (
        arith,
        one_less-suc l.in_flight (λ z. holds (sym now ∙ z)),
        now,
        count-remove_one i held holds,
      ) in
      let done =
        Accounts-set others refs (release_if_idle l0 refs).1 held (remove_one i held) records i l
          (release_if_idle l0 refs).0 acc at
          (release_if_idle-is_settled l l0 refs (acc.settled i l at) refl refl busy)
          (release_if_idle-in_flight l0 refs ∙ fewer)
          (λ j apart. count-remove_one_ne i j held apart)
          (λ a nz.
            release_if_idle-retains l0 refs a nz
              (omega (arith, acc.summed a nz, retains-le-retained_by a records i l at))) in
      rw (at, leave) done
]
