-- ===== src/Tests/Pgids.antt =====
-- Runs of `mergepgids`.
use bolt_analysis.Prelude.{arith, ℕ, ◌≡◌, refl, List, [], ◌∷◌, ◌++◌}
use bolt_analysis.Prelude.Results.{ok}
use bolt_analysis.GoSort.{search, sort}
use bolt_analysis.Pgids.{merge}
use bolt_analysis.Pgids.Union.{merge-eq-sort}

abbrev evens : List ℕ
evens = 2 ∷ 4 ∷ 6 ∷ 11 ∷ []

abbrev others : List ℕ
others = 3 ∷ 5 ∷ 12 ∷ []

abbrev unsorted : List ℕ
unsorted = 9 ∷ 2 ∷ 7 ∷ []

-- TestPgids_merge of page_test.go
merge_run : merge evens others ≡ ok (2 ∷ 3 ∷ 4 ∷ 5 ∷ 6 ∷ 11 ∷ 12 ∷ [])
unfolding merge search
merge_run = refl

merge-eq-sort_example : merge evens others ≡ ok (sort (evens ++ others))
merge-eq-sort_example = merge-eq-sort evens others (omega arith) (omega arith)
