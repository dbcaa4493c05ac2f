-- ===== src/Hooks/Adapters.antt =====
-- Which adapters the listeners of a hook retain (src/core/hook_registry.cpp,
-- `ReleaseListenerVmAdapterIfIdle` and its callers). `held` lists the listeners that running
-- invocations hold, once for each.
pub mod Operations
pub mod Entering
pub mod Steps
pub mod Unhooking
pub mod Retiring
pub mod Invariant
use dart_plant.Prelude.{
  ℕ, zero, suc, ◌+◌, ◌-◌, ◌≤◌, ◌≡◌, ◌≢◌, refl, sym, ◌∙◌, ◌==◌, if◌then◌else◌, Bool, true, false,
  not, ◌&&◌, ◌||◌, Option, none, some, List, [], ◌∷◌, ◌++◌, get_elem?, set, get_elem?-set_self,
  get_elem?-set_ne, length, length-set, arith, Bool-cases, Option-cases, inl, inr, subst,
}
use native.Mathlib.Decide.{ℕ_discrete}
use dart_plant.Hooks.Listeners.{Listener, HookRefs, releases, release_if_idle, release_hook}

-- How often the index occurs.
unfoldable pub count : ℕ → List ℕ → ℕ
count i [] = 0
count i (j ∷ js) = (if j == i then 1 else 0) + count i js

-- Whether the listener retains the adapter, as a number.
unfoldable pub retains : ℕ → Listener → ℕ
retains a listener = if listener.vm_adapter_retained && listener.vm_adapter == a then 1 else 0

-- How many of the listeners retain the adapter.
unfoldable pub retained_by : ℕ → List Listener → ℕ
unfolding retains
retained_by a [] = 0
retained_by a (listener ∷ rest) = retains a listener + retained_by a rest

-- A listener retains its adapter exactly while it is active or an invocation holds it.
unfoldable pub is_settled : Listener → Bool
is_settled listener =
    let wanted =
      not (listener.vm_adapter == 0) && (listener.active || not (listener.in_flight == 0)) in
    if listener.vm_adapter_retained then wanted else not wanted

-- Every listener is settled and counts the invocations that hold it, and an adapter's count is that
-- of the other hooks and the listeners that retain it.
pub record Accounts (others : HookRefs) (held : List ℕ) (records : List Listener) (refs : HookRefs)
    : Type 0 where
  pub settled : (i : ℕ) (l : Listener) → get_elem? records i ≡ some l → is_settled l ≡ true
  pub counted : (i : ℕ) (l : Listener) → get_elem? records i ≡ some l → l.in_flight ≡ count i held
  pub bounded : (i : ℕ) → length records ≤ i → count i held ≡ 0
  pub summed : (a : ℕ) → a ≢ 0 → refs a ≡ others a + retained_by a records

retained_by-set :
    (a : ℕ) (records : List Listener) (i : ℕ) (l l' : Listener)
    → get_elem? records i ≡ some l
    → retained_by a (set records i l') + retains a l ≡ retains a l' + retained_by a records
unfolding retained_by
retained_by-set a [] i l l' e = ground arith
retained_by-set a (x ∷ xs) zero l l' e = let same : x ≡ l = ground arith in rw same (omega arith)
retained_by-set a (x ∷ xs) (suc i) l l' e = omega (arith, retained_by-set a xs i l l' e)

pub retains-le-retained_by :
    (a : ℕ) (records : List Listener) (i : ℕ) (l : Listener)
    → get_elem? records i ≡ some l
    → retains a l ≤ retained_by a records
unfolding retained_by
retains-le-retained_by a [] i l e = ground arith
retains-le-retained_by a (x ∷ xs) zero l e =
    let same : x ≡ l = ground arith in rw same (omega arith)
retains-le-retained_by a (x ∷ xs) (suc i) l e = omega (arith, retains-le-retained_by a xs i l e)

pub get_elem?-inside :
    {A : Type 0} (xs : List A) (i : ℕ) (x : A) → get_elem? xs i ≡ some x → suc i ≤ length xs
get_elem?-inside [] i x e = ground arith
get_elem?-inside (y ∷ ys) zero x e = omega arith
get_elem?-inside (y ∷ ys) (suc i) x e = omega (arith, get_elem?-inside ys i x e)

-- One listener changed, and the adapters' counts with it.
pub Accounts-set :
    (others refs refs' : HookRefs) (held held' : List ℕ) (records : List Listener) (i : ℕ)
    (l l' : Listener)
    → Accounts others held records refs
    → get_elem? records i ≡ some l
    → is_settled l' ≡ true
    → l'.in_flight ≡ count i held'
    → ((j : ℕ) → i ≢ j → count j held' ≡ count j held)
    → ((a : ℕ) → a ≢ 0 → refs' a + retains a l ≡ retains a l' + refs a)
    → Accounts others held' (set records i l') refs'
Accounts-set others refs refs' held held' records i l l' acc at s c others_held sums =
    let self = get_elem?-set_self records i l' (get_elem?-inside records i l at) in
    record {
      settled = λ j x e. elim (ℕ_discrete i j) [
        | yes same ↦
            let is : l' ≡ x =
              some_same
                (sym self ∙ subst (λ k. get_elem? (set records i l') k ≡ some x) (sym same) e) in
            subst (λ y. is_settled y ≡ true) is s
        | no apart ↦ acc.settled j x (sym (get_elem?-set_ne records l' apart) ∙ e)
      ];
      counted = λ j x e. elim (ℕ_discrete i j) [
        | yes same ↦
            let is : l' ≡ x =
              some_same
                (sym self ∙ subst (λ k. get_elem? (set records i l') k ≡ some x) (sym same) e) in
            subst (λ y. y.in_flight ≡ count j held') is
              (subst (λ k. l'.in_flight ≡ count k held') same c)
        | no apart ↦
            acc.counted j x (sym (get_elem?-set_ne records l' apart) ∙ e)
            ∙ sym (others_held j apart)
      ];
      bounded = λ j out.
          let far = subst (λ n. n ≤ j) (length-set records i l') out in
          let apart : i ≢ j = omega (arith, far, get_elem?-inside records i l at) in
          others_held j apart ∙ acc.bounded j far;
      summed =
          λ a nz. omega (arith, sums a nz, acc.summed a nz, retained_by-set a records i l l' at);
    }
  where
    some_same : {A : Type 0} {x y : A} → some x ≡ some y → x ≡ y
    some_same e = cc
