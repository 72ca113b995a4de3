-- ===== src/Tests/Freelist.antt =====
-- Runs of the freelist.
use bolt_analysis.Prelude.{
  if◌then◌else◌, if◌then◌else◌, ◌==◌, ◌||◌, ◌&&◌, arith, leb, ℕ, ◌+◌, ◌≡◌, refl, [], ◌∷◌, ◌++◌,
}
use bolt_analysis.Panics.{already_freed}
use bolt_analysis.Prelude.Counts.{count}
use bolt_analysis.Prelude.Results.{ok, err}
use bolt_analysis.Page.{Page}
use bolt_analysis.Freelist.{released, Freelist, allocate, free, release, rollback}
use bolt_analysis.Freelist.Valid.{IsValid}
use bolt_analysis.Freelist.Runs.{HasRun}
use bolt_analysis.Freelist.Allocate.{IsTaken, allocate-IsValid, allocate-IsTaken}
use bolt_analysis.Freelist.Free.{AreUsed, IsPage, free_lem, free_twice, rollback-free}
use bolt_analysis.Freelist.Release.{release_lem}
use bolt_analysis.Freelist.TxMap.{lookup}

-- Pages 3, 4, 5, 6, 7, 9, 12 and 13 are free, 18 is pending for transaction 100.
abbrev sample : Freelist
sample = record {
  ids = 3 ∷ 4 ∷ 5 ∷ 6 ∷ 7 ∷ 9 ∷ 12 ∷ 13 ∷ [];
  pending = (100, 18 ∷ []) ∷ [];
  cache = λ id. leb 3 id && leb id 7 || id == 9 || id == 12 || id == 13 || id == 18;
}

sample-IsValid : IsValid sample
sample-IsValid = record {
  ascending = omega arith;
  bounded = λ id c. ground arith;
  unique = (tt, tt);
  metas = (refl, refl);
  counted = λ id. ground arith;
}

-- TestFreelist_allocate of freelist_test.go: three pages, then two
allocate_run : (allocate 3 sample).0 ≡ ok 3
unfolding allocate
allocate_run = refl

allocate_two : (allocate 2 (allocate 3 sample).1).0 ≡ ok 6
unfolding allocate
allocate_two = refl

allocate-IsValid_example : IsValid (allocate 3 sample).1
allocate-IsValid_example = allocate-IsValid 3 sample (omega arith) sample-IsValid

allocate-IsTaken_example : IsTaken 3 3 sample (allocate 3 sample).1
allocate-IsTaken_example =
    allocate-IsTaken 3 sample 3 (omega arith) sample-IsValid allocate_run (omega arith)

sample-HasRun : HasRun 12 2 sample.ids
sample-HasRun j lo hi = ground arith

-- A page with two overflow pages.
abbrev large_page : Page
large_page = record { id = 20; flags = 2; count = 1; overflow = 2; words = [] }

large_page-IsPage : IsPage large_page
large_page-IsPage = omega arith

large_page_used : AreUsed 20 3 sample.cache
large_page_used j lo hi = ground arith

free_lem_example :
    ((free 101 large_page sample).0 ≡ ok tt)
    × IsValid (free 101 large_page sample).1
    × ((free 101 large_page sample).1.ids ≡ sample.ids)
    × ((t : ℕ)
        → lookup t (free 101 large_page sample).1.pending ≡ (
            if 101 == t
            then lookup 101 sample.pending ++ 20 ∷ 21 ∷ 22 ∷ []
            else lookup t sample.pending))
free_lem_example = free_lem 101 large_page sample large_page-IsPage sample-IsValid large_page_used

-- Its last overflow page is pending already.
abbrev bad_page : Page
bad_page = record { id = 16; flags = 2; count = 1; overflow = 2; words = [] }

free_twice_example :
    ((free 101 bad_page sample).0 ≡ err (already_freed 18))
    × ((free 101 bad_page sample).1.ids ≡ sample.ids)
    × ((free 101 bad_page sample).1.pending ≡ sample.pending)
free_twice_example =
    free_twice 101 bad_page sample (omega arith) 18 (omega arith) (omega arith)
      (λ j lo hi. ground arith) refl

rollback-free_example : rollback 101 (free 101 large_page sample).1 ≡ sample
rollback-free_example =
    rollback-free 101 large_page sample large_page-IsPage large_page_used (refl, tt)

release_lem_example :
    ((release 100 sample).0 ≡ ok tt)
    × IsValid (release 100 sample).1
    × ((id : ℕ)
        → count id (release 100 sample).1.ids
          ≡ count id sample.ids + count id (released 100 sample.pending))
    × ((t : ℕ)
        → lookup t (release 100 sample).1.pending
          ≡ (if leb t 100 then [] else lookup t sample.pending))
    × ((release 100 sample).1.cache ≡ sample.cache)
release_lem_example = release_lem 100 sample sample-IsValid
