-- ===== src/Bucket/Model.antt =====
-- A bucket as a map from its keys: what sequences of `Put` and `Delete` do to it, and what they report.
use bolt_analysis.Prelude.{ℕ, ◌<◌, ◌≡◌, true, Option, none, some, List, [], ◌∷◌, if◌then◌else◌}
use bolt_analysis.Prelude.Results.{Result, ok, ◌>>=◌}
use bolt_analysis.Panics.{Panic}
use bolt_analysis.Errors.{Error, incompatible_value}
use bolt_analysis.Bytes.{Bytes, equal}
use bolt_analysis.Node.{Inode}
use bolt_analysis.Node.Update.{written}
use bolt_analysis.Bucket.{Bucket}
use bolt_analysis.Bucket.Pairs.{put, delete, is_bucket}
use bolt_analysis.Bucket.Found.{refusal}
use bolt_analysis.Bucket.Entries.{entry}
use bolt_analysis.Bucket.Changed.{IsSound}
use bolt_analysis.Bucket.Entries.{entry-find}
use bolt_analysis.Bucket.Path.{IsReadable, IsWritable}
use bolt_analysis.Bucket.{page_node}
use bolt_analysis.Bucket.Found.{IsOrdered}
use bolt_analysis.Cursor.Search.Chain.{IsGood, IsNavigable-of_IsTree}
use bolt_analysis.Cursor.Enumeration.{items_of}
use bolt_analysis.Node.Keys.{find}
use bolt_analysis.Pages.{View}

pub data Update : Type 0 where
  put_pair : Bytes → Bytes → Update
  delete_key : Bytes → Update

unfoldable pub apply : ℕ → Update → Bucket → Result Panic (Bucket × Option Error)
apply height (put_pair key value) b = put b height key value
apply height (delete_key key) b = delete b height key

-- One after the other, with the error of each.
unfoldable pub run : ℕ → List Update → Bucket → Result Panic (Bucket × List (Option Error))
unfolding apply
run height [] b = ok (b, [])
run height (u ∷ us) b = do
  (b', e) ← apply height u b
  (b'', es) ← run height us b'
  ok (b'', e ∷ es)

-- The elements of a bucket by their keys.
abbrev pub Elements : Type 0
Elements = Bytes → Option Inode

abbrev pub with_element : Bytes → Option Inode → Elements → Elements
with_element key new m j = if equal key j then new else m j

abbrev pub unless : Option Error → Elements → Elements → Elements
unless none changed m = changed
unless (some e) changed m = m

-- `Put` by the element with the key, and `Delete` of what is not a bucket.
unfoldable pub updated : Update → Elements → Elements
updated (put_pair key value) m =
    unless (refusal true true key value (m key)) (with_element key (some (written key value 0 0)) m)
      m
updated (delete_key key) m = if is_bucket (m key) then m else with_element key none m

unfoldable pub updated_all : List Update → Elements → Elements
unfolding updated
updated_all [] m = m
updated_all (u ∷ us) m = updated_all us (updated u m)

-- What is reported. `Delete` of a key that has no element may report an error or none.
abbrev pub Reports : Update → Elements → Option Error → Type 0
Reports (put_pair key value) m e = e ≡ refusal true true key value (m key)
Reports (delete_key key) m e =
    (item : Inode)
    → m key ≡ some item
    → e ≡ (if is_bucket (some item) then some incompatible_value else none)

unfoldable pub ReportsAll : List Update → Elements → List (Option Error) → Type 0
ReportsAll [] m es = es ≡ []
ReportsAll (u ∷ us) m [] = ⊥
ReportsAll (u ∷ us) m (e ∷ es) = Reports u m e × ReportsAll us (updated u m) es

-- A bucket of a writable transaction whose elements are a map.
pub record Represents (b : Bucket) (height h : ℕ) (m : Elements) : Type 0 where
  pub sound : IsSound b h
  pub deep : h < height
  pub writable : b.writable ≡ true
  pub has_pages : 0 < b.high
  pub entries : (j : Bytes) → entry b height j ≡ ok (m j)

-- In a tree whose children lie between the keys of their branch, the map is the look-up in what the
-- cursor goes through.
pub items-Represents :
    (b : Bucket) (height h : ℕ) (v : View)
    → IsOrdered b h v
    → IsWritable b
    → IsGood (page_node b) (IsReadable b) h b.root v
    → h < height
    → b.writable ≡ true
    → 0 < b.high
    → Represents b height h (λ j. find j (items_of (page_node b) h v))
items-Represents b height h v o w good deep writable pos = record {
  sound = record {
    view = v;
    is_open = o.is_open;
    is_root = o.is_root;
    loadable = w;
    navigable =
        IsNavigable-of_IsTree (page_node b) (IsReadable b) h b.root v o.is_tree o.is_searchable
          good;
  };
  deep = deep;
  writable = writable;
  has_pages = pos;
  entries = λ j. entry-find b height h v j o deep;
}
