-- ===== src/Bucket/Written.antt =====
-- `Put` and `Delete` as changes of the element that a key has.
use bolt_analysis.Prelude.{
  ℕ, ◌<◌, ◌≡◌, refl, sym, ap, ◌∙◌, subst, arith, Bool-cases, Bool, true, false, inl, inr, Option,
  none, some, ◌∷◌, length, if◌then◌else◌, get_elem?,
}
use bolt_analysis.Prelude.Results.{Result, ok}
use bolt_analysis.Panics.{Panic}
use bolt_analysis.Errors.{Error, incompatible_value}
use bolt_analysis.Bytes.{Bytes, equal}
use bolt_analysis.Node.{Inode, Node, search_key}
use bolt_analysis.Node as N
use bolt_analysis.Node.Keys.{find, place}
use bolt_analysis.Node.Update.{written, put_lem, del_lem}
use bolt_analysis.Pages.{elements}
use bolt_analysis.Cursor.{Stack}
use bolt_analysis.Cursor.Search.Seek.{with_key}
use bolt_analysis.Bucket.{Bucket}
use bolt_analysis.Bucket.Pairs.{sought, get, put, delete, change_at, is_bucket}
use bolt_analysis.Bucket.Found.{plain, refusal, refused, passed, checks, test-with_key}
use bolt_analysis.Bucket.Entries.{entry, get-entry}
use bolt_analysis.Bucket.Changed.{IsChange, IsSound, reached, sought-reached, entry-reached}
use bolt_analysis.Bucket.Kept.{IsChanged, change_at-IsChanged}

pub item-injective :
    {x y : Option Inode} → ◌≡◌ {A = Result Panic (Option Inode)} (ok x) (ok y) → x ≡ y
item-injective e = cc

pub put-IsChange :
    (high : ℕ) (key value : Bytes) (flags : ℕ)
    → 0 < high
    → 0 < length key
    → IsChange key (some (written key value 0 flags)) (N.put high key key value 0 flags)
put-IsChange high key value flags pos given n leaf s =
    let (inodes, done, ascending, finds) = put_lem n s high key value 0 flags pos given in
    (record n { inodes = inodes }, done, leaf, refl, ascending, finds)

del-fields :
    (key : Bytes) (n : Node) → ((N.del key n).is_leaf ≡ n.is_leaf) × ((N.del key n).pgid ≡ n.pgid)
unfolding N.del
del-fields key n = (ground arith, ground arith)

delete-IsChange : (key : Bytes) → IsChange key none (λ n. ok (N.del key n))
delete-IsChange key n leaf s =
    let (ascending, finds) = del_lem n s key in
    let (kind, name) = del-fields key n in (N.del key n, refl, kind ∙ leaf, name, ascending, finds)

key_given :
    (opened writable : Bool) (key value : Bytes) (found : Option Inode)
    → refusal opened writable key value found ≡ none
    → 0 < length key
unfolding refusal
key_given false writable key value found h = absurd (ground arith)
key_given true false key value found h = absurd (ground arith)
key_given true true key value found h = ground arith

module _ (b : Bucket) (height h : ℕ) (c : IsSound b h) (deep : h < height) (key : Bytes) where
  -- The stack of the cursor, and what it is at.
  abbrev pub refs : Stack
  refs = (reached b height h c deep key).top ∷ (reached b height h c deep key).below

  abbrev pub at_cursor : Option Inode
  at_cursor =
      get_elem? (elements (reached b height h c deep key).top.view)
        (place key (elements (reached b height h c deep key).top.view))

  pub entry-at_cursor : entry b height key ≡ ok (with_key key at_cursor)
  unfolding entry
  entry-at_cursor = rw (sought-reached b height h c deep key) refl

  -- `Put` refuses by the element with the key.
  put-entry :
      (value : Bytes) (item : Option Inode)
      → entry b height key ≡ ok item
      → put b height key value
        ≡ refused b
            (refusal b.tx_open b.writable key value item)
            (change_at (N.put b.high key key value 0 0) refs b)
  unfolding put refusal
  put-entry value item found =
      let same : with_key key at_cursor ≡ item = item-injective (sym entry-at_cursor ∙ found) in
      let test = test-with_key key at_cursor in
      rw (sought-reached b height h c deep key, test, same)
        (checks b (change_at (N.put b.high key key value 0 0) refs b) b.tx_open b.writable _ _ _ _)

  pub put-IsChanged :
      (value : Bytes) (item : Option Inode)
      → 0 < b.high
      → entry b height key ≡ ok item
      → refusal b.tx_open b.writable key value item ≡ none
      → IsChanged b height h key (some (written key value 0 0)) (put b height key value)
  put-IsChanged value item pos found allowed =
      let given = key_given b.tx_open b.writable key value item allowed in
      let e =
        put-entry value item found
        ∙ ap (λ r. refused b r (change_at (N.put b.high key key value 0 0) refs b)) allowed in
      subst (IsChanged b height h key (some (written key value 0 0))) (sym e)
        (change_at-IsChanged b height h c deep key _ _ (put-IsChange b.high key value 0 pos given))

  pub put-refused :
      (value : Bytes) (item : Option Inode) (e : Error)
      → entry b height key ≡ ok item
      → refusal b.tx_open b.writable key value item ≡ some e
      → put b height key value ≡ ok (b, some e)
  put-refused value item e found held =
      put-entry value item found
      ∙ ap (λ r. refused b r (change_at (N.put b.high key key value 0 0) refs b)) held

  delete-at_cursor :
      b.writable ≡ true
      → delete b height key ≡ (
          if is_bucket at_cursor
          then ok (b, some incompatible_value)
          else change_at (λ n. ok (N.del key n)) refs b)
  unfolding delete
  delete-at_cursor w =
      passed b.tx_open b.writable _ _ _ c.is_open w ∙ rw (sought-reached b height h c deep key) refl

  pub delete-IsChanged :
      b.writable ≡ true
      → is_bucket at_cursor ≡ false
      → IsChanged b height h key none (delete b height key)
  delete-IsChanged w free =
      subst (IsChanged b height h key none) (sym (delete-at_cursor w ∙ rw free refl))
        (change_at-IsChanged b height h c deep key _ _ (delete-IsChange key))

  pub delete-refused :
      b.writable ≡ true
      → is_bucket at_cursor ≡ true
      → delete b height key ≡ ok (b, some incompatible_value)
  delete-refused w held = delete-at_cursor w ∙ rw held refl

  pub changed-get :
      {new : Option Inode} {found : Result Panic (Bucket × Option Error)}
      → (d : IsChanged b height h key new found) → (j : Bytes)
      → get d.after height j ≡ (if equal key j then ok (plain new) else get b height j)
  changed-get {new} d j =
      let old = entry-reached b height h c deep j in
      elim (Bool-cases (equal key j)) [
        | inl hit ↦ rw hit (get-entry d.after height j new (d.entries j ∙ rw hit refl))
        | inr miss ↦ rw miss (
            get-entry d.after height j (find j (elements (reached b height h c deep j).top.view))
              (d.entries j ∙ rw miss old)
            ∙ sym (get-entry b height j _ old))
      ]

-- In an open transaction, in a bucket that is not inline and has a page, over a tree of valid pages that
-- can be read, whose keys ascend, with a round for each level: a `Put` that the element with the key
-- and the other checks allow ends without a panic or an error, and leaves such a bucket. `Get` then
-- returns the value for the key, and for every other key what it has returned before.
pub get-put :
    (b : Bucket) (height h : ℕ) (key value : Bytes) (item : Option Inode)
    → IsSound b h
    → h < height
    → 0 < b.high
    → entry b height key ≡ ok item
    → refusal b.tx_open b.writable key value item ≡ none
    → (b' : Bucket) × (put b height key value ≡ ok (b', none))
      × IsSound b' h
      × ((j : Bytes) → get b' height j ≡ (if equal key j then ok (some value) else get b height j))
get-put b height h key value item c deep pos found allowed =
    let d = put-IsChanged b height h c deep key value item pos found allowed in
    (d.after, d.is_found, d.sound, changed-get b height h c deep key d)

stack-injective :
    {s t : Stack} {x y : Option Inode}
    → ◌≡◌ {A = Result Panic (Stack × Option Inode)} (ok (s, x)) (ok (t, y))
    → x ≡ y
stack-injective e = cc

-- In a bucket as for `get-put`, of a writable transaction, where the element that the cursor is at for
-- the key is not a bucket: `Delete` ends without a panic or an error, and leaves such a bucket. `Get`
-- then returns nil for the key, and for every other key what it has returned before.
pub get-delete :
    (b : Bucket) (height h : ℕ) (key : Bytes) (stack : Stack) (item : Option Inode)
    → IsSound b h
    → h < height
    → b.writable ≡ true
    → sought b height key ≡ ok (stack, item)
    → is_bucket item ≡ false
    → (b' : Bucket) × (delete b height key ≡ ok (b', none))
      × IsSound b' h
      × ((j : Bytes) → get b' height j ≡ (if equal key j then ok none else get b height j))
get-delete b height h key stack item c deep w found free =
    let same : item ≡ at_cursor b height h c deep key =
      stack-injective (sym found ∙ sought-reached b height h c deep key) in
    let d = delete-IsChanged b height h c deep key w (ap is_bucket (sym same) ∙ free) in
    (d.after, d.is_found, d.sound, changed-get b height h c deep key d)
