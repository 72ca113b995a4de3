-- ===== src/Bucket/Runs.antt =====
-- Sequences of `Put` and `Delete` do to a bucket what they do to the map that it represents.
use bolt_analysis.Prelude.{
  ℕ, ◌<◌, ◌≡◌, refl, sym, ap, ◌∙◌, subst, arith, Bool-cases, true, false, inl, inr, Option, none,
  some, List, [], ◌∷◌,
}
use bolt_analysis.Prelude.Results.{Result, ok}
use bolt_analysis.Panics.{Panic}
use bolt_analysis.Errors.{Error, incompatible_value}
use bolt_analysis.Bytes.{equal_iff, Bytes, equal}
use bolt_analysis.Node.{Inode}
use bolt_analysis.Node.Update.{written}
use bolt_analysis.Cursor.Search.Seek.{with_key}
use bolt_analysis.Bucket.{Bucket}
use bolt_analysis.Bucket.Pairs.{get, put, delete, is_bucket}
use bolt_analysis.Bucket.Found.{plain, refusal}
use bolt_analysis.Bucket.Entries.{get-entry}
use bolt_analysis.Bucket.Kept.{IsChanged}
use bolt_analysis.Bucket.Written.{
  item-injective, entry-at_cursor, at_cursor, put-IsChanged, put-refused, delete-IsChanged,
  delete-refused,
}
use bolt_analysis.Bucket.Model.{
  Update, put_pair, delete_key, apply, run, Elements, with_element, unless, updated, updated_all,
  Reports, ReportsAll, Represents,
}

-- An update that ends, and leaves the map that it should.
record IsUpdated (height h : ℕ) (u : Update) (m : Elements)
    (found : Result Panic (Bucket × Option Error)) : Type 0 where
  after : Bucket
  error : Option Error
  is_found : found ≡ ok (after, error)
  represents : Represents after height h (updated u m)
  reports : Reports u m error

pub with_key-some :
    (key : Bytes) (item : Option Inode) (e : Inode) → with_key key item ≡ some e → item ≡ some e
with_key-some key none e h = cc
with_key-some key (some x) e h = ground arith

-- What has the key is a bucket only if the cursor is at a bucket.
with_key-bucket :
    (key : Bytes) (item : Option Inode)
    → is_bucket item ≡ false
    → is_bucket (with_key key item) ≡ false
unfolding is_bucket
with_key-bucket key none h = refl
with_key-bucket key (some x) h = ground arith

module _ (b : Bucket) (height h : ℕ) (m : Elements) (r : Represents b height h m) where
  changed-Represents :
      (key : Bytes) (new : Option Inode) (found : Result Panic (Bucket × Option Error))
      → (c : IsChanged b height h key new found)
      → Represents c.after height h (with_element key new m)
  changed-Represents key new found c = record {
    sound = c.sound;
    deep = r.deep;
    writable = ap (λ f. f.5) c.same_fixed ∙ r.writable;
    has_pages = subst (λ n. 0 < n) (sym (ap (λ f. f.6) c.same_fixed)) r.has_pages;
    entries = λ j. c.entries j ∙ elim (Bool-cases (equal key j)) [
      | inl hit ↦ rw hit refl
      | inr miss ↦ rw miss (r.entries j)
    ];
  }

  put-IsUpdated :
      (key value : Bytes) (e : Option Error)
      → refusal true true key value (m key) ≡ e
      → IsUpdated height h (put_pair key value) m (put b height key value)
  unfolding updated
  put-IsUpdated key value none allowed =
      let given : refusal b.tx_open b.writable key value (m key) ≡ none =
        rw (r.sound.is_open, r.writable) allowed in
      let c =
        put-IsChanged b height h r.sound r.deep key value (m key) r.has_pages (r.entries key)
          given in
      record {
        after = c.after;
        error = none;
        is_found = c.is_found;
        represents =
            subst
              (λ e.
                Represents c.after height h
                  (unless e (with_element key (some (written key value 0 0)) m) m))
              (sym allowed) (changed-Represents key _ _ c);
        reports = sym allowed;
      }
  put-IsUpdated key value (some e) held =
      let given : refusal b.tx_open b.writable key value (m key) ≡ some e =
        rw (r.sound.is_open, r.writable) held in
      record {
        after = b;
        error = some e;
        is_found = put-refused b height h r.sound r.deep key value (m key) e (r.entries key) given;
        represents =
            subst
              (λ e.
                Represents b height h
                  (unless e (with_element key (some (written key value 0 0)) m) m))
              (sym held) r;
        reports = sym held;
      }

  without-Represents :
      (key : Bytes) → m key ≡ none → Represents b height h (with_element key none m)
  without-Represents key absent = record {
    sound = r.sound;
    deep = r.deep;
    writable = r.writable;
    has_pages = r.has_pages;
    entries = λ j. elim (Bool-cases (equal key j)) [
      | inl hit ↦
          let same : key ≡ j = (equal_iff key j).0 hit in
          rw hit (r.entries j ∙ ap (λ k. ok (m k)) (sym same) ∙ ap ok absent)
      | inr miss ↦ rw miss (r.entries j)
    ];
  }

  kept-Represents :
      (key : Bytes) (found : Option Inode)
      → m key ≡ found
      → ((e : Inode) → found ≡ some e → is_bucket (some e) ≡ true)
      → Represents b height h (updated (delete_key key) m)
  unfolding updated is_bucket
  kept-Represents key none absent held = rw absent (without-Represents key absent)
  kept-Represents key (some e) present held = let h = held e refl in rw (present, h) r

  delete-IsUpdated : (key : Bytes) → IsUpdated height h (delete_key key) m (delete b height key)
  unfolding updated
  delete-IsUpdated key =
      let item = at_cursor b height h r.sound r.deep key in
      let is_item : with_key key item ≡ m key =
        item-injective (sym (entry-at_cursor b height h r.sound r.deep key) ∙ r.entries key) in
      let here = λ (e : Inode) (p : m key ≡ some e). with_key-some key item e (is_item ∙ p) in
      elim (Bool-cases (is_bucket item)) [
        | inl held ↦
            let bucket = λ (e : Inode) (p : m key ≡ some e). ap is_bucket (sym (here e p)) ∙ held in
            record {
              after = b;
              error = some incompatible_value;
              is_found = delete-refused b height h r.sound r.deep key r.writable held;
              represents = kept-Represents key (m key) refl bucket;
              reports = λ e p. let is = bucket e p in rw is refl;
            }
        | inr free ↦
            let c = delete-IsChanged b height h r.sound r.deep key r.writable free in
            let plain_there : is_bucket (m key) ≡ false =
              ap is_bucket (sym is_item) ∙ with_key-bucket key item free in
            record {
              after = c.after;
              error = none;
              is_found = c.is_found;
              represents = rw plain_there (changed-Represents key none _ c);
              reports = λ e p. let is = ap is_bucket (sym p) ∙ plain_there in rw is refl;
            }
      ]

  apply-IsUpdated : (u : Update) → IsUpdated height h u m (apply height u b)
  unfolding apply
  apply-IsUpdated (put_pair key value) = put-IsUpdated key value _ refl
  apply-IsUpdated (delete_key key) = delete-IsUpdated key

run-Represents :
    (height h : ℕ) (us : List Update) (b : Bucket) (m : Elements)
    → Represents b height h m
    → (b' : Bucket) × (es : List (Option Error)) × (run height us b ≡ ok (b', es))
      × Represents b' height h (updated_all us m)
      × ReportsAll us m es
unfolding run updated_all ReportsAll
run-Represents height h [] b m r = (b, [], refl, r, refl)
run-Represents height h (u ∷ us) b m r =
    let s = apply-IsUpdated b height h m r u in
    let (b', es, done, r', reports) =
      run-Represents height h us s.after (updated u m) s.represents in
    (b', s.error ∷ es, rw (s.is_found, done) refl, r', (s.reports, reports))

-- In an open, writable transaction, in a bucket that is not inline and has a page, over a tree of valid
-- pages that can be read, whose keys ascend, with a round for each level: any sequence of `Put` and
-- `Delete` ends without a panic, and the bucket is such a bucket again. Its elements, and so what `Get`
-- returns for each key, are those that the same updates of a map from keys to elements leave. Each
-- `Put` reports the error that the map asks for, or none, and so does each `Delete` of a key that has an
-- element.
pub run-get :
    (height h : ℕ) (us : List Update) (b : Bucket) (m : Elements)
    → Represents b height h m
    → (b' : Bucket) × (es : List (Option Error)) × (run height us b ≡ ok (b', es))
      × Represents b' height h (updated_all us m)
      × ((j : Bytes) → get b' height j ≡ ok (plain (updated_all us m j)))
      × ReportsAll us m es
run-get height h us b m r =
    let (b', es, done, r', reports) = run-Represents height h us b m r in
    (b', es, done, r', λ j. get-entry b' height j _ (r'.entries j), reports)
