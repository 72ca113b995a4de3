-- ===== src/Meta/Choice.antt =====
-- What `db.meta()` picks, and why a commit that is cut short is not seen.
use bolt_analysis.Prelude.{
  ltb, Bool-cases, false, inl, inr, leb, true, ◌==◌, ◌≢◌, if◌then◌else◌, ◌⊎◌, ℕ, ◌+◌, ◌%◌, ◌≤◌, ◌<◌,
  ◌≡◌, refl, arith, Option, none, some,
}
use bolt_analysis.Prelude.Results.{Result, ok, err}
use bolt_analysis.Errors.{Error}
use bolt_analysis.Panics.{Panic, invalid_meta_pages}
use bolt_analysis.Meta.{
  meta_page_flag, bit_or, Meta, MetaPage, magic, version, sum64, validate, write, is_valid,
  current_meta,
}

-- What a choice between two metas may be: a valid one with the largest transaction id of the valid
-- ones, or the panic if neither is valid.
abbrev pub IsChoice : Meta → Meta → Result Panic Meta → Type 0
IsChoice a b (ok m) =
    ((m ≡ a) ⊎ (m ≡ b))
    × (validate m ≡ none)
    × (validate a ≡ none → a.txid ≤ m.txid)
    × (validate b ≡ none → b.txid ≤ m.txid)
IsChoice a b (err e) = (validate a ≢ none) × (validate b ≢ none) × (e ≡ invalid_meta_pages)

abbrev prefer : Meta → Meta → Result Panic Meta
prefer a b =
    if is_valid (validate a)
    then ok a
    else if is_valid (validate b)
    then ok b
    else err invalid_meta_pages

none-of_valid : (o : Option Error) → is_valid o ≡ true → o ≡ none
unfolding is_valid
none-of_valid none h = refl
none-of_valid (some e) h = cc

ne_none-of_invalid : (o : Option Error) → is_valid o ≡ false → o ≢ none
unfolding is_valid
ne_none-of_invalid none h = cc
ne_none-of_invalid (some e) h = λ k. cc

prefer-IsChoice : (a b : Meta) → b.txid ≤ a.txid → IsChoice a b (prefer a b)
prefer-IsChoice a b le = elim (Bool-cases (is_valid (validate a))) [
  | inl good ↦ rw good (inl refl, none-of_valid (validate a) good, λ _. omega arith, λ _. le)
  | inr bad ↦ elim (Bool-cases (is_valid (validate b))) [
    | inl good ↦
        rw (bad, good)
          (
            inr refl,
            none-of_valid (validate b) good,
            λ h. absurd (ne_none-of_invalid (validate a) bad h),
            λ _. omega arith,
          )
    | inr bad' ↦
        rw (bad, bad')
          (ne_none-of_invalid (validate a) bad, ne_none-of_invalid (validate b) bad', refl)
  ]
]

IsChoice-swap : (a b : Meta) (r : Result Panic Meta) → IsChoice a b r → IsChoice b a r
IsChoice-swap a b (ok m) (inl e, v, ha, hb) = (inr e, v, hb, ha)
IsChoice-swap a b (ok m) (inr e, v, ha, hb) = (inl e, v, hb, ha)
IsChoice-swap a b (err e) (ha, hb, h) = (hb, ha, h)

-- `db.meta()` returns one of the two metas, a valid one, such that no valid one has a larger
-- transaction id; it panics only if neither is valid.
pub current_meta-IsChoice : (meta0 meta1 : Meta) → IsChoice meta0 meta1 (current_meta meta0 meta1)
unfolding current_meta
current_meta-IsChoice meta0 meta1 = elim (Bool-cases (ltb meta0.txid meta1.txid)) [
  | inl newer ↦
      rw newer (
        IsChoice-swap meta1 meta0 (prefer meta1 meta0) (prefer-IsChoice meta1 meta0 (ground arith)))
  | inr older ↦ rw older (prefer-IsChoice meta0 meta1 (ground arith))
]

sum64_checksum : (m : Meta) (c : ℕ) → sum64 (record m { checksum = c }) ≡ sum64 m
unfolding sum64
sum64_checksum m c = refl

-- The two meta pages of the file.
pub record Metas : Type 0 where
  pub meta0 : Meta
  pub meta1 : Meta

-- `tx.writeMeta()`: the page goes to the slot of its id.
unfoldable pub store : MetaPage → Metas → Metas
store p f = if p.id == 0 then record f { meta0 = p.content } else record f { meta1 = p.content }

-- The meta in the slot of a transaction id.
abbrev pub slot : ℕ → Metas → Meta
slot txid f = if txid % 2 == 0 then f.meta0 else f.meta1

-- A meta that a transaction wrote stands in the slot of its id, valid, and is the current one.
pub record IsCurrent (m : Meta) (f : Metas) : Type 0 where
  pub at_slot : slot m.txid f ≡ m
  pub good : validate m ≡ none
  pub current : current_meta f.meta0 f.meta1 ≡ ok m

-- What a meta needs for `write` to accept it and `validate` to accept the result.
pub record IsWritable (m : Meta) : Type 0 where
  pub right_magic : m.magic ≡ magic
  pub right_version : m.version ≡ version
  pub root_below : m.root < m.pgid
  pub freelist_below : m.freelist < m.pgid

-- A writable meta is written to the page of its transaction id, with a checksum that `validate`
-- accepts, and its other fields as they were.
pub validate-write :
    (m : Meta) (p : MetaPage)
    → IsWritable m
    → (q : MetaPage) × (write m p ≡ ok (record m { checksum = sum64 m }, q))
      × (q.id ≡ m.txid % 2)
      × (q.content ≡ record m { checksum = sum64 m })
      × (validate q.content ≡ none)
unfolding write validate
validate-write m p w =
    let below_root : leb m.pgid m.root ≡ false = ground (arith, w.root_below) in
    let below_freelist : leb m.pgid m.freelist ≡ false = ground (arith, w.freelist_below) in
    (
      record {
        id = m.txid % 2;
        flags = bit_or p.flags meta_page_flag;
        content = record m { checksum = sum64 m };
      },
      rw (below_root, below_freelist),
      refl,
      refl,
      ground (arith, w.right_magic, w.right_version, sum64_checksum m (sum64 m)),
    )

is_valid-none : (o : Option Error) → o ≡ none → is_valid o ≡ true
unfolding is_valid
is_valid-none none h = refl
is_valid-none (some e) h = cc

is_valid-some : (o : Option Error) → o ≢ none → is_valid o ≡ false
unfolding is_valid
is_valid-some none h = absurd (h refl)
is_valid-some (some e) h = refl

-- The choice between a valid meta and one that is invalid or older, whichever comes first.
choose :
    (a b : Meta)
    → validate a ≡ none
    → (validate b ≢ none) ⊎ (b.txid < a.txid)
    → (current_meta a b ≡ ok a) × (current_meta b a ≡ ok a)
unfolding current_meta
choose a b va (inl bad) =
    let good = is_valid-none (validate a) va in
    let bad' = is_valid-some (validate b) bad in
    (
      elim (Bool-cases (ltb a.txid b.txid)) [ inl l ↦ rw (l, good, bad') | inr l ↦ rw (l, good) ],
      elim (Bool-cases (ltb b.txid a.txid)) [ inl l ↦ rw (l, good) | inr l ↦ rw (l, good, bad') ],
    )
choose a b va (inr older) =
    let good = is_valid-none (validate a) va in
    let l : ltb a.txid b.txid ≡ false = ground arith in
    let g : ltb b.txid a.txid ≡ true = ground arith in (rw (l, good), rw (g, good))

-- What the next transaction may leave in the other slot.
abbrev pub IsNext : Meta → Meta → Metas → Type 0
IsNext m c f =
    (validate c ≢ none → current_meta f.meta0 f.meta1 ≡ ok m)
    × (validate c ≡ none → c.txid ≡ m.txid + 1 → IsCurrent c f)

IsNext-IsNext_even :
    (m other : Meta) (f : Metas)
    → m.txid % 2 ≡ 0
    → validate m ≡ none
    → f.meta0 ≡ m
    → f.meta1 ≡ other
    → IsNext m other f
IsNext-IsNext_even m other f even v h0 h1 = (
  λ bad. rw (h0, h1) (choose m other v (inl bad)).0,
  λ good e. record {
    at_slot = let odd : (other.txid % 2 == 0) ≡ false = ground arith in rw odd h1;
    good = good;
    current = rw (h0, h1) (choose other m good (inr (omega arith))).1;
  },
)

IsNext-IsNext_odd :
    (m other : Meta) (f : Metas)
    → m.txid % 2 ≡ 1
    → validate m ≡ none
    → f.meta1 ≡ m
    → f.meta0 ≡ other
    → IsNext m other f
IsNext-IsNext_odd m other f odd v h1 h0 = (
  λ bad. rw (h0, h1) (choose m other v (inl bad)).1,
  λ good e. record {
    at_slot = let even : (other.txid % 2 == 0) ≡ true = ground arith in rw even h0;
    good = good;
    current = rw (h0, h1) (choose other m good (inr (omega arith))).0;
  },
)

-- The page of the transaction after the one that wrote the current meta goes to the other slot:
-- if what reaches the file there does not validate, the meta that was current stays the choice;
-- if it validates and has the next transaction id, it becomes current.
pub store-IsNext :
    (m : Meta) (f : Metas) (p : MetaPage)
    → IsCurrent m f
    → p.id ≡ (m.txid + 1) % 2
    → IsNext m p.content (store p f)
unfolding store
store-IsNext m f p c e = elim (Bool-cases (m.txid % 2 == 0)) [
  | inl even ↦
      let other : (p.id == 0) ≡ false = ground arith in
      let mine : f.meta0 ≡ m = rw even at c.at_slot in
      rw other (IsNext-IsNext_even m p.content _ (ground arith) c.good mine refl)
  | inr odd ↦
      let other : (p.id == 0) ≡ true = ground arith in
      let mine : f.meta1 ≡ m = rw odd at c.at_slot in
      rw other (IsNext-IsNext_odd m p.content _ (ground arith) c.good mine refl)
]
