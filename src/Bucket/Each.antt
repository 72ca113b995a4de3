-- ===== src/Bucket/Each.antt =====
-- `ForEach` calls its function for every element below the root, in order, up to an error.
use bolt_analysis.Prelude.{
  not, sym, subst, if◌then◌else◌, ℕ, zero, suc, ◌≤◌, ◌<◌, ◌≡◌, refl, arith, true, List, [], ◌∷◌,
  Option, none, some, length,
}
use bolt_analysis.Prelude.Results.{Result, ok, ◌>>=◌}
use bolt_analysis.Panics.{Panic}
use bolt_analysis.Errors.{Error}
use bolt_analysis.Bytes.{Bytes}
use bolt_analysis.Page.{has_flag}
use bolt_analysis.Node.{Inode}
use bolt_analysis.Pages.{View}
use bolt_analysis.Cursor.{Stack, first, next, visible, bucket_leaf_flag}
use bolt_analysis.Cursor.Tree.{IsTree}
use bolt_analysis.Cursor.Enumeration.{Shows, next-Shows, first-Shows, items_of, leaves_of}
use bolt_analysis.Bucket.{tx_closed, Bucket, page_node, Visitor, called, each_loop, for_each}

module _ {S : Type 0} (fn : Visitor S) where
  continue_with : S × Option Error → (S → S × Option Error) → S × Option Error
  continue_with (s, some e) go = (s, some e)
  continue_with (s, none) go = go s

  -- The calls for a list of elements, up to the first error; a bucket comes without its value.
  unfoldable pub visit_all : List Inode → S → S × Option Error
  unfolding continue_with
  visit_all [] s = (s, none)
  visit_all (e ∷ es) s =
      continue_with (fn e.key (if has_flag e.flags bucket_leaf_flag then none else some e.value) s)
        (visit_all es)

  called-continue_with :
      (r : S × Option Error) (go : S → Result Panic (S × Option Error))
      (spec : S → S × Option Error)
      → ((s : S) → go s ≡ ok (spec s))
      → called fn r go ≡ ok (continue_with r spec)
  unfolding called continue_with
  called-continue_with (s, some e) go spec h = refl
  called-continue_with (s, none) go spec h = h s

  module _ (b : Bucket) (opened : b.tx_open ≡ true) (pages height : ℕ) where
    each_loop-visit_all :
        (all : List Inode) (rounds : ℕ)
        (found : Result Panic (Stack × Option (Bytes × Option Bytes))) (s : S)
        → length all < rounds
        → Shows (page_node b) pages height all found
        → (found >>= λ f. each_loop fn b pages height rounds f s) ≡ ok (visit_all all s)
    unfolding each_loop visit_all visible
    each_loop-visit_all all zero found s lt w = absurd (omega arith)
    each_loop-visit_all [] (suc rounds) found s lt w = rw w.is_found
    each_loop-visit_all (e ∷ es) (suc rounds) found s lt w = rw w.is_found (
        called-continue_with
          (fn e.key (if has_flag e.flags bucket_leaf_flag then none else some e.value) s) _
          (visit_all es)
          (λ s'. each_loop-visit_all es rounds _ s' (omega arith) (
            subst
              (λ o. Shows (page_node b) pages height es (next (page_node b) o pages height w.stack))
              (sym opened)
              (subst
                (λ l.
                  Shows (page_node b) pages height l (next (page_node b) true pages height w.stack))
                w.others
                (next-Shows (page_node b) pages height w.height w.stack w.rounds_enough
                  w.deep_enough w.path)))))

  -- On an open transaction, for a root with pages below it down to leaves, and with rounds for the
  -- leaves and for the elements: `ForEach` calls its function for every element of the leaves, in
  -- order, until it returns an error, and returns that error.
  pub for_each-visit_all :
      (b : Bucket) (pages height rounds h : ℕ) (v : View) (s : S)
      → b.tx_open ≡ true
      → page_node b b.root ≡ ok v
      → IsTree (page_node b) h v
      → length (leaves_of (page_node b) h v) ≤ pages
      → h < height
      → length (items_of (page_node b) h v) < rounds
      → for_each fn b pages height rounds s ≡ ok (visit_all (items_of (page_node b) h v) s)
  unfolding for_each
  for_each-visit_all b pages height rounds h v s opened found t m d lt =
      subst
        (λ o.
          (if not o
            then ok (s, some tx_closed)
            else (first (page_node b) o pages height b.root >>= λ found.
                each_loop fn b pages height rounds found s))
          ≡ ok (visit_all (items_of (page_node b) h v) s))
        (sym opened)
        (each_loop-visit_all b opened pages height (items_of (page_node b) h v) rounds _ s lt
          (first-Shows (page_node b) pages height h b.root v found t m d))
