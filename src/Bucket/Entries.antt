-- ===== src/Bucket/Entries.antt =====
-- The element with a key, as the cursor finds it: what `Get` returns, and `Put` checks.
use bolt_analysis.Prelude.{ℕ, ◌<◌, ◌≡◌, refl, sym, ap, ◌∙◌, subst, true, Option, [], ◌∷◌, get_elem?}
use bolt_analysis.Prelude.Results.{Result, ok, err, ◌>>=◌}
use bolt_analysis.Panics.{Panic}
use bolt_analysis.Bytes.{Bytes}
use bolt_analysis.Node.{Inode, search_key}
use bolt_analysis.Node.Keys.{IsAscending, find, place, search_key-place}
use bolt_analysis.Pages.{View, elements}
use bolt_analysis.Cursor.{at_index, Stack}
use bolt_analysis.Cursor.Enumeration.{items_of}
use bolt_analysis.Cursor.Search.{search, seek_key}
use bolt_analysis.Cursor.Search.Seek.{with_key, find-place, at_key-place}
use bolt_analysis.Bucket.{Bucket, page_node}
use bolt_analysis.Bucket.Pairs.{sought, get}
use bolt_analysis.Bucket.Found.{plain, shown_value, shown_value-plain, IsOrdered, sought-find}

-- What the cursor is at, and what `Get` returns, where a search ends at the leaf `w`.
pub sought-leaf :
    (c : Bucket) (height : ℕ) (key : Bytes) (w : View) (below : Stack)
    → c.tx_open ≡ true
    → search (page_node c) height key c.root []
      ≡ ok (at_index w (search_key (elements w) key) ∷ below)
    → IsAscending (elements w)
    → sought c height key
      ≡ ok (
        at_index w (search_key (elements w) key) ∷ below,
        get_elem? (elements w) (place key (elements w)),
      )
unfolding seek_key
sought-leaf c height key w below opened found s =
    let top = at_index w (search_key (elements w) key) in
    let at = at_key-place (page_node c) key top below (search_key-place key (elements w) s) in
    subst
      (λ t.
        seek_key (page_node c) t height c.root key
        ≡ ok (top ∷ below, get_elem? (elements w) (place key (elements w))))
      (sym opened) (rw found at)

-- The element with a key, if there is one: the one that the cursor is at, if it has the key.
unfoldable pub entry : Bucket → ℕ → Bytes → Result Panic (Option Inode)
entry c height key = sought c height key >>= λ (refs, item). ok (with_key key item)

pub get-entry :
    (c : Bucket) (height : ℕ) (key : Bytes) (item : Option Inode)
    → entry c height key ≡ ok item
    → get c height key ≡ ok (plain item)
unfolding get shown_value entry
get-entry c height key item e = entered (sought c height key) e
  where
    entered :
        (q : Result Panic (Stack × Option Inode))
        → (q >>= λ (refs, i). ok (with_key key i)) ≡ ok item
        → (q >>= λ (refs, i). ok (shown_value key i)) ≡ ok (plain item)
    entered (ok (refs, i)) e = ap ok (shown_value-plain key i) ∙ ap (λ r. r >>= λ o. ok (plain o)) e
    entered (err p) e = cc

pub entry-leaf :
    (c : Bucket) (height : ℕ) (key : Bytes) (w : View) (below : Stack)
    → c.tx_open ≡ true
    → search (page_node c) height key c.root []
      ≡ ok (at_index w (search_key (elements w) key) ∷ below)
    → IsAscending (elements w)
    → entry c height key ≡ ok (find key (elements w))
unfolding entry
entry-leaf c height key w below opened found s =
    let at = sought-leaf c height key w below opened found s in
    rw at (ap ok (sym (find-place key (elements w) s)))

pub entry-find :
    (b : Bucket) (height h : ℕ) (v : View) (key : Bytes)
    → IsOrdered b h v
    → h < height
    → entry b height key ≡ ok (find key (items_of (page_node b) h v))
unfolding entry
entry-find b height h v key o d =
    let (refs, item, at, same) = sought-find b height h v key o d in rw (at, same) refl
