-- ===== src/Elf/Dynamic/Tagged.antt =====
-- Where the fields of a view stand in the dynamic section (src/elf/dynamic_view.cpp). The tags are those of the ELF format:
-- DT_NULL 0, DT_HASH 4, DT_STRTAB 5, DT_SYMTAB 6, DT_STRSZ 10, DT_SYMENT 11, and
-- DT_GNU_HASH 0x6ffffef5.
use dart_plant.Prelude.{
  ℕ, zero, suc, ◌+◌, ◌*◌, ◌/◌, ◌<◌, ◌≡◌, ◌≢◌, ◌==◌, refl, sym, true, Option, none, some, List,
  Bool-cases, Option-cases, inl, inr, subst, arith,
}
use dart_plant.Elf.Checked.{checked_mul_add, checked_mul, checked_add}
use dart_plant.Elf.Reader.{Reader, field}
use dart_plant.Elf.Dynamic.{
  View, Tags, no_tags, symbol_size, store_tag, read_entry, read_tags, value_or_zero, view_of,
  accepted, read_dynamic_view,
}
use dart_plant.Elf.Dynamic.Accepted.{IsAnchored, IsTable, read_dynamic_view-IsAnchored}
use dart_plant.Elf.Dynamic.Entries.{IsEntry, Gives, Ends, Stored, last_or_earlier, Gives-step}

record AllStored (tag value : ℕ) (t t' : Tags) : Type 0 where
  symtab : Stored 6 tag value t.symtab t'.symtab
  strtab : Stored 5 tag value t.strtab t'.strtab
  strsz : Stored 10 tag value t.strsz t'.strsz
  syment : Stored 11 tag value t.syment t'.syment
  hash : Stored 4 tag value t.hash t'.hash
  gnu_hash : Stored 0x6fff_fef5 tag value t.gnu_hash t'.gnu_hash

store_tag-AllStored :
    (t t' : Tags) (tag value : ℕ) → store_tag t tag value ≡ some t' → AllStored tag value t t'
unfolding store_tag
store_tag-AllStored t t' tag value e = record {
  symtab = ((λ h. ground arith), (λ h. ground arith));
  strtab = ((λ h. ground arith), (λ h. ground arith));
  strsz = ((λ h. ground arith), (λ h. ground arith));
  syment = ((λ h. ground arith), (λ h. ground arith));
  hash = ((λ h. ground arith), (λ h. ground arith));
  gnu_hash = ((λ h. ground arith), (λ h. ground arith));
}

module _ (reader : Reader) (va : ℕ) where
  read_entry-read :
      (i : ℕ) (bytes : List ℕ)
      → read_entry reader va i ≡ some bytes
      → reader.read (va + i * 16) 16 ≡ some bytes
  unfolding read_entry checked_mul_add checked_mul checked_add
  read_entry-read i bytes h = ground arith

  record AllGiven (n : ℕ) (t : Tags) : Type 0 where
    symtab : Gives reader va n 6 t.symtab
    strtab : Gives reader va n 5 t.strtab
    strsz : Gives reader va n 10 t.strsz
    syment : Gives reader va n 11 t.syment
    hash : Gives reader va n 4 t.hash
    gnu_hash : Gives reader va n 0x6fff_fef5 t.gnu_hash

  no_tags-AllGiven : AllGiven 0 no_tags
  no_tags-AllGiven = record {
    symtab = λ i v h. omega arith;
    strtab = λ i v h. omega arith;
    strsz = λ i v h. omega arith;
    syment = λ i v h. omega arith;
    hash = λ i v h. omega arith;
    gnu_hash = λ i v h. omega arith;
  }

  AllGiven-step :
      (n tag value : ℕ) (t t' : Tags)
      → IsEntry reader va n tag value
      → AllStored tag value t t'
      → AllGiven n t
      → AllGiven (suc n) t'
  AllGiven-step n tag value t t' e s g = record {
    symtab = Gives-step reader va n 6 tag value t.symtab t'.symtab e s.symtab g.symtab;
    strtab = Gives-step reader va n 5 tag value t.strtab t'.strtab e s.strtab g.strtab;
    strsz = Gives-step reader va n 10 tag value t.strsz t'.strsz e s.strsz g.strsz;
    syment = Gives-step reader va n 11 tag value t.syment t'.syment e s.syment g.syment;
    hash = Gives-step reader va n 4 tag value t.hash t'.hash e s.hash g.hash;
    gnu_hash =
        Gives-step reader va n 0x6fff_fef5 tag value t.gnu_hash t'.gnu_hash e s.gnu_hash g.gnu_hash;
  }

  abbrev AllProper : ℕ → Type 0
  AllProper n = (i : ℕ) → i < n → (tag value : ℕ) × (tag ≢ 0) × IsEntry reader va i tag value

  AllProper-step :
      (n tag value : ℕ) → tag ≢ 0 → IsEntry reader va n tag value → AllProper n → AllProper (suc n)
  AllProper-step n tag value d e h = λ i l. elim (last_or_earlier i n l) [
    | inl below ↦ h i below
    | inr q ↦ (tag, value, d, subst (λ (m : ℕ). IsEntry reader va m tag value) (sym q) e)
  ]

  -- What the loop over the entries has read when it returns.
  record Result (limit : ℕ) (t : Tags) : Type 0 where
    at : ℕ
    within : at < limit
    ends : Ends reader va at
    given : AllGiven at t

  read_tags-Result :
      (left index : ℕ) (t t' : Tags)
      → AllProper index
      → AllGiven index t
      → read_tags reader va left index t ≡ some t'
      → Result (index + left) t'
  unfolding read_tags
  read_tags-Result zero index t t' p g e = cc
  read_tags-Result (suc left) index t t' p g e = elim (Option-cases (read_entry reader va index)) [
    | inl nothing ↦ ground (arith, nothing, e)
    | inr (bytes, b) ↦
        let tag = field bytes 0 8 in
        let value = field bytes 8 8 in
        let here : IsEntry reader va index tag value =
          (bytes, read_entry-read index bytes b, refl, refl) in
        elim (Bool-cases (tag == 0)) [
          | inl z ↦
              let same : t ≡ t' = ground (arith, b, z, e) in
              let null : tag ≡ 0 = ground (arith, z) in
              record {
                at = index;
                within = omega arith;
                ends = ((value, subst (λ (m : ℕ). IsEntry reader va index m value) null here), p);
                given = subst (λ (x : Tags). AllGiven index x) same g;
              }
          | inr nz ↦ elim (Option-cases (store_tag t tag value)) [
            | inl refused ↦ ground (arith, b, nz, refused, e)
            | inr (next, st) ↦
                let proper : tag ≢ 0 = ground (arith, nz) in
                let rest : read_tags reader va left (suc index) next ≡ some t' =
                  ground (arith, b, nz, st, e) in
                subst (λ (m : ℕ). Result m t') (omega arith)
                  (read_tags-Result left (suc index) next t'
                    (AllProper-step index tag value proper here p)
                    (AllGiven-step index tag value t next here
                      (store_tag-AllStored t next tag value st) g)
                    rest)
          ]
        ]
  ]

  -- A slot that the finished view may not leave empty.
  named :
      (n k : ℕ) (o : Option ℕ)
      → value_or_zero o ≢ 0
      → Gives reader va n k o
      → Gives reader va n k (some (value_or_zero o))
  unfolding value_or_zero
  named n k none d g = absurd (d refl)
  named n k (some v) d g = g

-- The view tells what the entries before the first DT_NULL say.
pub record Describes (reader : Reader) (va n : ℕ) (v : View) : Type 0 where
  pub ends : Ends reader va n
  pub symtab : Gives reader va n 6 (some v.symtab_va)
  pub strtab : Gives reader va n 5 (some v.strtab_va)
  pub strsz : Gives reader va n 10 (some v.strtab_size)
  pub syment : Gives reader va n 11 (some v.symbol_entry_size)
  pub hash : Gives reader va n 4 v.sysv_hash_va
  pub gnu_hash : Gives reader va n 0x6fff_fef5 v.gnu_hash_va

view_of-Describes :
    (reader : Reader) (va limit : ℕ) (t : Tags)
    → accepted reader (view_of t) ≡ true
    → (r : Result reader va limit t) → Describes reader va r.at (view_of t)
unfolding view_of accepted
view_of-Describes reader va limit t good r =
    let g = r.given in
    record {
      ends = r.ends;
      symtab = named reader va r.at 6 t.symtab (ground (arith, good)) g.symtab;
      strtab = named reader va r.at 5 t.strtab (ground (arith, good)) g.strtab;
      strsz = named reader va r.at 10 t.strsz (ground (arith, good)) g.strsz;
      syment = named reader va r.at 11 t.syment (ground (arith, good)) g.syment;
      hash = g.hash;
      gnu_hash = g.gnu_hash;
    }

-- What a returned view is made of.
view_origin :
    (reader : Reader) (dynamic_va dynamic_size : ℕ) (v : View)
    → read_dynamic_view reader dynamic_va dynamic_size ≡ some v
    → (t : Tags) × (read_tags reader dynamic_va (dynamic_size / 16) 0 no_tags ≡ some t)
      × (accepted reader (view_of t) ≡ true)
      × (view_of t ≡ v)
unfolding read_dynamic_view
view_origin reader dynamic_va dynamic_size v e =
    elim (Option-cases (read_tags reader dynamic_va (dynamic_size / 16) 0 no_tags)) [
      | inl refused ↦ ground (arith, refused, e)
      | inr (t, read) ↦ elim (Bool-cases (accepted reader (view_of t))) [
        | inl good ↦ (t, read, good, ground (arith, read, good, e))
        | inr bad ↦ ground (arith, read, bad, e)
      ]
    ]

-- The view that `read_dynamic_view` returns tells what the dynamic section says. The section has a
-- DT_NULL within its size. Before the first one, an entry gives each of the symbol table, the string
-- table, its size and the size of a symbol the view's value, and no entry gives it another value;
-- the two hash tables are those that an entry names, again with no other value, and are absent if no
-- entry names them. The string table can be read to its last byte, the first symbol and the headers
-- of the named hash tables too, and a symbol has 24 bytes.
pub read_dynamic_view-Describes :
    (reader : Reader) (dynamic_va dynamic_size : ℕ) (v : View)
    → read_dynamic_view reader dynamic_va dynamic_size ≡ some v
    → ((n : ℕ) × (n < dynamic_size / 16) × Describes reader dynamic_va n v)
      × IsAnchored reader v.strtab_va v.strtab_size
      × IsAnchored reader v.symtab_va symbol_size
      × (v.symbol_entry_size ≡ symbol_size)
      × IsTable reader v.sysv_hash_va 8
      × IsTable reader v.gnu_hash_va 16
read_dynamic_view-Describes reader dynamic_va dynamic_size v e =
    let (strtab, size, symtab, entry, hash, gnu, here, whole) =
      read_dynamic_view-IsAnchored reader dynamic_va dynamic_size v e in
    let (t, read, good, same) = view_origin reader dynamic_va dynamic_size v e in
    let r =
      read_tags-Result reader dynamic_va (dynamic_size / 16) 0 no_tags t (λ i h. elim h [ ])
        (no_tags-AllGiven reader dynamic_va) read in
    let told = view_of-Describes reader dynamic_va (0 + dynamic_size / 16) t good r in
    (
      (
        r.at,
        omega (arith, r.within),
        subst (λ (w : View). Describes reader dynamic_va r.at w) same told,
      ),
      strtab,
      symtab,
      entry,
      hash,
      gnu,
    )
