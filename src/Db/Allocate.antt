-- ===== src/Db/Allocate.antt =====
-- Where `allocate` takes a page from, and that the map then covers the pages.
use native.Mathlib.Nat.{zero-mul, le-mul_of_pos_right}
use bolt_analysis.Prelude.{
  ◌==◌, ℕ, ◌+◌, ◌*◌, ◌%◌, ◌^◌, ◌≤◌, ◌<◌, ◌≡◌, ◌⊎◌, inl, inr, refl, ap, sym, ◌∙◌, arith, ltb, leb,
  true, false, if◌then◌else◌, Bool-cases, Option, none, some,
}
use bolt_analysis.Prelude.Results.{Result, ok, err}
use bolt_analysis.Words.{u64_mod, add64}
use bolt_analysis.Errors.{Error}
use bolt_analysis.Meta.{validate}
use bolt_analysis.Page.{Page}
use bolt_analysis.Freelist.{Freelist, allocate as allocate_free}
use bolt_analysis.Freelist.Valid.{IsValid}
use bolt_analysis.Freelist.Runs.{HasRun}
use bolt_analysis.Freelist.Allocate.{
  IsTaken, allocate-IsTaken, allocate-IsValid, allocate-cases, allocate_first,
}
use bolt_analysis.Db.{
  Panic, Db, Os, int_mod, check_metas, error_of, remap, mmap, allocate, allocate_at, bump, new_page,
}
use bolt_analysis.Db.Sizes.{mmap_size_lem}

-- What the system must answer for a map to succeed.
pub record IsWorking (os : Os) (db : Db) : Type 0 where
  pub info_size : ℕ
  pub stats : os.stat ≡ some info_size
  pub two_pages : db.page_size * 2 ≤ info_size
  pub mappable : info_size ≤ db.max_map_size
  pub unmaps : os.unmaps ≡ true
  pub maps : os.maps ≡ true
  pub has_meta : (validate os.map_meta0 ≡ none) ⊎ (validate os.map_meta1 ≡ none)

-- Page sizes that divide 32 kB, and a platform that can map 1 GB.
pub record IsSized (db : Db) : Type 0 where
  pub parts : ℕ
  pub divides : db.page_size * parts ≡ 2 ^ 15
  pub maps_step : 2 ^ 30 ≤ db.max_map_size
  pub ints : db.max_map_size < int_mod

check_metas-none :
    (err0 err1 : Option Error) → (err0 ≡ none) ⊎ (err1 ≡ none) → check_metas err0 err1 ≡ none
unfolding check_metas error_of
check_metas-none none err1 h = refl
check_metas-none (some e) none h = refl
check_metas-none (some e) (some e') (inl h) = cc
check_metas-none (some e) (some e') (inr h) = cc

module _ (os : Os) (db : Db) (w : IsWorking os db) (z : IsSized db) where
  mmap_lem :
      (minsz : ℕ)
      → minsz ≤ db.max_map_size
      → (size : ℕ) × (minsz ≤ size)
        × (mmap os minsz db
            ≡ (none, record db { data_size = size; meta0 = os.map_meta0; meta1 = os.map_meta1 }))
  unfolding mmap remap
  mmap_lem minsz h =
      let wanted = if ltb w.info_size minsz then minsz else w.info_size in
      let (size, e, m) =
        (mmap_size_lem db.max_map_size db.page_size z.parts wanted z.divides z.maps_step).0
          (ground (arith, w.mappable)) in
      let long : ltb w.info_size (db.page_size * 2) ≡ false = ground (arith, w.two_pages) in
      (
        size,
        ground (arith, m.covers),
        rw (w.stats, long, e, w.unmaps, w.maps, check_metas-none _ _ w.has_meta),
      )

  page_pos : 0 < db.page_size
  page_pos = elim (Bool-cases (db.page_size == 0)) [
    | inl none_left ↦
        let e : db.page_size ≡ 0 = ground arith in
        absurd (omega (arith, sym (ap (λ n. n * z.parts) e) ∙ z.divides, zero-mul z.parts))
    | inr some_left ↦ ground arith
  ]

  -- The size in bytes up to the page behind `count` new ones.
  min_size_eq :
      (count : ℕ)
      → (db.pgid + count + 1) * db.page_size ≤ db.max_map_size
      → add64 (add64 db.pgid count) 1 * db.page_size % u64_mod
        ≡ (db.pgid + count + 1) * db.page_size
  min_size_eq count h =
      let le : db.pgid + count + 1 ≤ (db.pgid + count + 1) * db.page_size =
        le-mul_of_pos_right (db.pgid + count + 1) page_pos in
      let small : (db.pgid + count + 1) * db.page_size < int_mod = omega (arith, z.ints) in
      let inner : (db.pgid + count) % u64_mod ≡ db.pgid + count = omega arith in
      let outer : (db.pgid + count + 1) % u64_mod ≡ db.pgid + count + 1 = omega arith in
      rw (inner, outer) (omega arith)

  -- What `allocate` does when the freelist has no run.
  at_end :
      (count : ℕ)
      → 0 < count
      → (db.pgid + count + 1) * db.page_size ≤ db.max_map_size
      → (db' : Db) × (allocate_at os count (ok 0, db.freelist) db
          ≡ (ok (ok (new_page db.pgid count)), db'))
        × (db'.pgid ≡ db.pgid + count)
        × (db'.freelist ≡ db.freelist)
        × ((db'.pgid + 1) * db.page_size ≤ db'.data_size)
  unfolding allocate_at bump
  at_end count pos h =
      let minsz = (db.pgid + count + 1) * db.page_size in
      let le : db.pgid + count + 1 ≤ minsz = le-mul_of_pos_right (db.pgid + count + 1) page_pos in
      let size_eq = min_size_eq count h in
      let int : ltb minsz int_mod ≡ true = ground (arith, z.ints) in
      let sum : add64 db.pgid count ≡ db.pgid + count = omega (arith, z.ints) in
      elim (Bool-cases (leb db.data_size minsz)) [
        | inl short ↦
            let (size, covers, mapped) = mmap_lem minsz h in
            (
              record db {
                data_size = size;
                meta0 = os.map_meta0;
                meta1 = os.map_meta1;
                pgid = add64 db.pgid count;
              },
              rw (size_eq, int, short, mapped),
              sum,
              refl,
              rw sum covers,
            )
        | inr long ↦ (
          record db { pgid = add64 db.pgid count },
          rw (size_eq, int, long),
          sum,
          refl,
          rw sum (ground arith),
        )
      ]

  from_run :
      (count start : ℕ) (r : Result Panic ℕ × Freelist)
      → r.0 ≡ ok start
      → 0 < start
      → allocate_at os count r db ≡ (ok (ok (new_page start count)), record db { freelist = r.1 })
  unfolding allocate_at
  from_run count start (ok id, f) e pos =
      let same : id ≡ start = ground (arith, e) in
      let not_zero : (start == 0) ≡ false = ground arith in rw (same, not_zero)
  from_run count start (err p, f) e pos = absurd (ground (arith, e))

  -- The pages come from the free ones, or from the end.
  pub data IsFrom (count : ℕ) (p : Page) (db' : Db) : Type 0 where
    reused : IsTaken count p.id db.freelist db'.freelist → db'.pgid ≡ db.pgid → IsFrom count p db'
    fresh :
        ((q : ℕ) → ¬ HasRun q count db.freelist.ids)
        → p.id ≡ db.pgid
        → db'.pgid ≡ db.pgid + count
        → db'.freelist ≡ db.freelist
        → (db'.pgid + 1) * db.page_size ≤ db'.data_size
        → IsFrom count p db'

  -- With a valid freelist, a page size that divides 32 kB, a platform that can map 1 GB and less than
  -- 2^63 bytes, system calls that succeed, and room below the largest map: `allocate` of 1 to 2^32
  -- pages returns a page of that many. They were free and are taken off the freelist, and the high
  -- water mark stays; or, if there is no run of that many free pages, they are at the high water
  -- mark, which moves by as many while the freelist stays, and the map covers the pages up to the one
  -- at the new mark. The freelist is valid again.
  pub allocate_lem :
      (count : ℕ)
      → 0 < count
      → count ≤ 2 ^ 32
      → IsValid db.freelist
      → (db.pgid + count + 1) * db.page_size ≤ db.max_map_size
      → (p : Page) × (db' : Db) × (allocate os count db ≡ (ok (ok p), db'))
        × (p.overflow + 1 ≡ count)
        × IsValid db'.freelist
        × IsFrom count p db'
  unfolding allocate
  allocate_lem count pos small v h =
      let r = allocate_free count db.freelist in
      elim (allocate-cases count db.freelist pos v) [
        | inl (start, e, above) ↦ (
          new_page start count,
          record db { freelist = r.1 },
          from_run count start r e (omega arith),
          omega arith,
          allocate-IsValid count db.freelist pos v,
          reused (allocate-IsTaken count db.freelist start pos v e (ground arith)) refl,
        )
        | inr none_free ↦
            let (db', e, moved, same, covers) = at_end count pos h in
            (
              new_page db.pgid count,
              db',
              ap (λ r. allocate_at os count r db) none_free ∙ e,
              omega arith,
              rw same v,
              fresh
                  (λ q run.
                    let (start, e, above, le) = allocate_first count db.freelist q pos v run in
                    ground (arith, e, ap (λ r. r.0) none_free))
                  refl moved same covers,
            )
      ]
