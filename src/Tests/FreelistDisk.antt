-- ===== src/Tests/FreelistDisk.antt =====
-- The freelist on its page: a small one, and one of 65535 ids.
use bolt_analysis.Prelude.{
  ltb, zero, suc, ◌&&◌, leb, arith, length, ◌-◌, ◌<◌, ℕ, ◌+◌, ◌≡◌, [], ◌++◌, take,
}
use bolt_analysis.Prelude.Results.{ok}
use bolt_analysis.GoSort.{sort}
use bolt_analysis.Page.{Page}
use bolt_analysis.Freelist
use bolt_analysis.Freelist.{Freelist, new_freelist}
use bolt_analysis.Freelist.TxMap.{pending_ids}
use bolt_analysis.Freelist.Disk.{read, write, reload}
use bolt_analysis.Freelist.Valid.{IsAbove, IsValid}
use bolt_analysis.Freelist.Disk.RoundTrip.{read-write, read-write_large, reload-write}
use bolt_analysis.Pgids.{zeros}
use bolt_analysis.Pgids.Union.{length-zeros}
use bolt_analysis.Freelist.Runs.{count-run, length-run, run}
use bolt_analysis.Words.{u64_mod}

-- `n` free pages from 2 on, and no pending page.
full : ℕ → Freelist
full n = record { ids = run 2 n; pending = []; cache = λ id. leb 2 id && ltb id (2 + n) }

blank : ℕ → Page
blank n = record { id = 2; flags = 0; count = 0; overflow = 0; words = zeros n }

IsAbove-run : (lo start n : ℕ) → lo < start → IsAbove lo (run start n)
IsAbove-run lo start zero h = tt
IsAbove-run lo start (suc n) h = (h, IsAbove-run start (suc start) n (omega arith))

full-IsValid : (n : ℕ) → 2 + n < u64_mod → IsValid (full n)
unfolding full
full-IsValid n h = record {
  ascending = IsAbove-run 1 2 n (omega arith);
  bounded = λ id c. ground arith;
  unique = tt;
  metas = (ground arith, ground arith);
  counted = λ id. ground (arith, count-run 2 n id);
}

count-full : (n : ℕ) → Freelist.count (full n) ≡ n
unfolding full Freelist.count
count-full n = omega (arith, length-run 2 n)

length-blank : (n : ℕ) → length (blank n).words ≡ n
unfolding blank
length-blank n = length-zeros n

read-write_example :
    (q : Page) × (write (full 5) (blank 100) ≡ ok q)
    × ((read q new_freelist).ids ≡ sort ((full 5).ids ++ sort (pending_ids (full 5).pending)))
read-write_example =
    read-write (full 5) (full-IsValid 5 (omega arith)) (blank 100) new_freelist
      (omega (arith, count-full 5)) (omega (arith, count-full 5, length-blank 100))

reload-write_example :
    (q : Page) × (write (full 5) (blank 100) ≡ ok q) × (reload q (full 5) ≡ full 5)
reload-write_example =
    reload-write (full 5) (full-IsValid 5 (omega arith)) (blank 100) (omega (arith, count-full 5))
      (omega (arith, count-full 5, length-blank 100))

read-write_large_example :
    (q : Page) × (write (full 65535) (blank 70000) ≡ ok q)
    × ((read q new_freelist).ids
        ≡ take
            (Freelist.count (full 65535) - 1)
            (sort ((full 65535).ids ++ sort (pending_ids (full 65535).pending))))
    × (length (read q new_freelist).ids + 1 ≡ Freelist.count (full 65535))
read-write_large_example =
    read-write_large (full 65535) (full-IsValid 65535 (omega arith)) (blank 70000) new_freelist
      (omega (arith, count-full 65535)) (omega (arith, count-full 65535, length-blank 70000))
