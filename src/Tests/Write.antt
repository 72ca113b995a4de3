-- ===== src/Tests/Write.antt =====
-- A run of `tx.write` on a file that answers each call with success.
use bolt_analysis.Prelude.{refl, arith, true, List, [], ◌∷◌, none, inr, All}
use bolt_analysis.Txs.Write.{FileOps, Writer, DirtyPage, page_bytes, write}
use bolt_analysis.Txs.Write.Chunks.{patch, patch-outside, IsHonest}
use bolt_analysis.Txs.Write.Pages.{AreApart, IsFull, IsOutcome, write-IsOutcome}

abbrev good_file : FileOps
good_file = record { write_at = λ k bs offset f. (patch offset bs f, none); sync = λ k f. none }

good_file-IsHonest : IsHonest good_file
good_file-IsHonest = record {
  written = λ k offset bs f e i. refl;
  within = λ k offset bs f i out. patch-outside offset bs f i out;
}

-- A page of four bytes, and one that runs over into the next.
abbrev dirty : List DirtyPage
dirty =
    record { id = 5; overflow = 1; bytes = 1 ∷ 2 ∷ 3 ∷ 4 ∷ 5 ∷ 6 ∷ 7 ∷ 8 ∷ [] }
    ∷ record { id = 3; overflow = 0; bytes = 9 ∷ 10 ∷ 11 ∷ 12 ∷ [] }
    ∷ []

abbrev writer : Writer
writer = record {
  pages = dirty;
  writes = 0;
  calls = 0;
  file = λ i. 0;
  page_size = 4;
  syncs = true;
  pool = [];
}

dirty-AreApart : AreApart 4 dirty
unfolding page_bytes
dirty-AreApart = ((inr (omega arith), tt), (tt, tt))

dirty-IsFull : All (IsFull 4) dirty
unfolding page_bytes
dirty-IsFull = omega arith

write-IsOutcome_example : IsOutcome good_file good_file-IsHonest 4 writer (write good_file writer)
write-IsOutcome_example =
    write-IsOutcome good_file good_file-IsHonest 4 writer refl dirty-IsFull dirty-AreApart
